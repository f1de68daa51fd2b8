-- ===== src/Order/Creation.antt =====
-- `create` and `orderDetail` of src/order/order.service.ts.
use open_api.Prelude.{
  ℕ, ◌+◌, ◌<◌, ℤ, pos, ◌+ℤ◌, ◌*ℤ◌, sum_ℤ, int_laws, true, false, String, ◌===◌, ◌≡◌, ◌⊎◌, ◌↔◌, refl,
  ap, ◌∙◌, Option, none, some, List, [], ◌∷◌, ◌++◌, map, ok, arith, find, find-append, eq_refl,
  find-append_miss, All, Option-cases, inl, inr, eq_iff, append-nil, append_assoc,
}
use open_api.Schema.{UserAddress, UserOrder, UserOrderInfo, Db}
use open_api.Prisma.{Prisma}
use open_api.Order.{
  CreateOrder, CreateOrderGoods, NewOrder, notice, status_active, unpaid, create_order,
  create_infos, new_order, format_goods, order_money, get_store_today_valid_orders,
  check_store_is_infinite, stage_create,
}
use open_api.Order.Moves.{by_id}

order_money-sum :
    (t : ℤ) (gs : List CreateOrderGoods)
    → order_money t gs ≡ t +ℤ sum_ℤ (map (λ g. g.price *ℤ g.count) gs)
unfolding order_money
order_money-sum t [] = omega int_laws
order_money-sum t (g ∷ gs) = rw (order_money-sum (t +ℤ g.price *ℤ g.count) gs) (omega int_laws)

-- A line of the request, and of the stored order: goods, version, number and price.
abbrev asked : CreateOrderGoods → String × String × ℤ × ℤ
asked g = (g.goods_id, g.goods_version_id, g.count, g.price)

abbrev line : UserOrderInfo → String × String × ℤ × ℤ
line i = (i.goods_id, i.goods_version_id, i.count, i.price)

map-line :
    (fresh : ℕ → String) (order_id : String) (n : ℕ) (gs : List CreateOrderGoods)
    → map line (format_goods fresh order_id n gs) ≡ map asked gs
unfolding format_goods
map-line fresh order_id n [] = refl
map-line fresh order_id n (g ∷ gs) = ap (λ r. asked g ∷ r) (map-line fresh order_id (n + 1) gs)

-- Every item of an order belongs to it.
format_goods-order_id :
    (fresh : ℕ → String) (order_id : String) (n : ℕ) (gs : List CreateOrderGoods)
    → All (λ i. i.order_id ≡ order_id) (format_goods fresh order_id n gs)
unfolding format_goods
format_goods-order_id fresh order_id n [] = tt
format_goods-order_id fresh order_id n (g ∷ gs) =
    (refl, format_goods-order_id fresh order_id (n + 1) gs)

module _ (prisma : Prisma) where
  open prisma use {Table, rows, create, find_first, rows-create}

  rows-create_infos :
      (is : List UserOrderInfo) (t : Table UserOrderInfo)
      → rows (create_infos prisma is t) ≡ rows t ++ is
  unfolding create_infos
  rows-create_infos [] t = rw append-nil
  rows-create_infos (i ∷ is) t = rw (rows-create_infos is, rows-create, append_assoc)

  module _ (fresh : ℕ → String) (now today : ℕ) (user_id : String) (dto : CreateOrder)
      (db : Db Table) where
    -- An order is created exactly when the store is subscribed or has fewer than ten valid orders
    -- today, and the address exists.
    pub create_order_granted_iff :
        ((r : String × Option NewOrder) × ((create_order prisma fresh now today user_id dto db).0
            ≡ ok r))
        ↔ (((check_store_is_infinite prisma dto.store_id now db ≡ true)
              ⊎ (get_store_today_valid_orders prisma dto.store_id today db < 10))
            × ((address : UserAddress) × (find_first
                    (λ a. a.user_address_id === dto.user_address_id)
                    db.user_address
                  ≡ some address)))
    unfolding create_order
    create_order_granted_iff = (
      λ h.
          elim (Option-cases
            (find_first (λ a. a.user_address_id === dto.user_address_id) db.user_address)) [
              | inl missing ↦ absurd (ground arith)
              | inr (address, e) ↦ (ground arith, (address, e))
            ],
      λ h.
          let (free, (address, e)) = h in
          (
            (
              fresh 0,
              notice (fresh 0) dto address (find_first (λ s. s.store_id === dto.store_id) db.store),
            ),
            ground arith,
          ),
    )

    created :
        (r : String × Option NewOrder)
        → (create_order prisma fresh now today user_id dto db).0 ≡ ok r
        → (address : UserAddress) × (find_first
              (λ a. a.user_address_id === dto.user_address_id)
              db.user_address
            ≡ some address)
          × (r.0 ≡ fresh 0)
          × ((create_order prisma fresh now today user_id dto db).1 ≡ record db {
            user_order = create (new_order (fresh 0) user_id dto address now) db.user_order;
            user_order_info =
                create_infos prisma (format_goods fresh (fresh 0) 2 dto.goods) db.user_order_info;
            user_order_action =
                create
                  (record {
                    order_action_id = fresh 1;
                    user_id = user_id;
                    order_id = fresh 0;
                    status = stage_create;
                  })
                  db.user_order_action;
          })
    unfolding create_order
    created r h =
        elim (Option-cases
          (find_first (λ a. a.user_address_id === dto.user_address_id) db.user_address)) [
            | inl missing ↦ absurd (ground arith)
            | inr (address, e) ↦ (address, e, ground arith, ground arith)
          ]

    -- What a created order leaves in the database.
    pub record Created (r : String × Option NewOrder) (db' : Db Table) : Type 0 where
      pub identifier : r.0 ≡ fresh 0
      pub address : UserAddress
      pub row : UserOrder
      pub delivered_to :
          find_first (λ a. a.user_address_id === dto.user_address_id) db.user_address ≡ some address
      pub stored : find (by_id (fresh 0)) (rows db'.user_order) ≡ some row
      pub belongs : (row.user_id ≡ user_id) × (row.store_id ≡ dto.store_id)
      pub starts :
          (row.status ≡ status_active) × (row.stage ≡ stage_create) × (row.pay_status ≡ unpaid)
      pub place : row.place ≡ address.place
      pub money : row.money ≡ sum_ℤ (map (λ g. g.price *ℤ g.count) dto.goods)
      pub items : List UserOrderInfo
      pub listed : rows db'.user_order_info ≡ rows db.user_order_info ++ items
      pub same_goods : map line items ≡ map asked dto.goods
      pub of_order : All (λ i. i.order_id ≡ fresh 0) items
      pub others :
          (other : String)
          → (other === fresh 0) ≡ false
          → find (by_id other) (rows db'.user_order) ≡ find (by_id other) (rows db.user_order)

    -- A created order is stored under its new identifier, active, unpaid and at the first stage, with
    -- the address of the request and the sum of its lines as its price; its items are the lines of
    -- the request, and the orders that were there are as before.
    pub create_order-Created :
        (r : String × Option NewOrder)
        → find (by_id (fresh 0)) (rows db.user_order) ≡ none
        → (create_order prisma fresh now today user_id dto db).0 ≡ ok r
        → Created r (create_order prisma fresh now today user_id dto db).1
    unfolding new_order
    create_order-Created r new good =
        let (address, e, same, state) = created r good in
        rw state (record {
          identifier = same;
          address = address;
          row = new_order (fresh 0) user_id dto address now;
          delivered_to = e;
          stored = rw rows-create (
              find-append (by_id (fresh 0)) (rows db.user_order)
                (new_order (fresh 0) user_id dto address now ∷ []) new
              ∙ rw eq_refl);
          belongs = (refl, refl);
          starts = (refl, refl, refl);
          place = refl;
          money = order_money-sum (pos 0) dto.goods ∙ omega int_laws;
          items = format_goods fresh (fresh 0) 2 dto.goods;
          listed = rows-create_infos _ _;
          same_goods = map-line fresh (fresh 0) 2 dto.goods;
          of_order = format_goods-order_id fresh (fresh 0) 2 dto.goods;
          others = λ other ne. rw rows-create (
              find-append_miss (by_id other) (rows db.user_order)
                (new_order (fresh 0) user_id dto address now)
                (ground (arith, eq_iff (fresh 0) other, eq_iff other (fresh 0))));
        })
