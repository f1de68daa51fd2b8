-- ===== src/Order/Moves.antt =====
-- What each action of src/order/order.service.ts does to the order that it is granted for.
use open_api.Prelude.{
  ℤ, ◌==ℤ◌, Bool, true, false, ◌&&◌, String, ◌===◌, ◌≡◌, refl, some, List, [], ◌∷◌, ◌++◌, Error, ok,
  err, arith, find, UniqueBy, find-key, find-map_where_key, find-map_where_other, Option-cases, inl,
  inr, find_sound,
}
use open_api.Schema.{StoreGoodsVersion, UserOrderInfo, UserOrder, Db}
use open_api.Prisma.{Prisma}
use open_api.Order.{
  reduce_stock, cancel, accept, delivery, receive, finish, find_at, set_order, check_stock,
  status_active, status_cancel, stage_create, stage_accept, stage_delivery, stage_received,
  stage_finished,
}

pub check_stock-state :
    {S : Type 0} (versions : List StoreGoodsVersion) (items : List UserOrderInfo) (s : S)
    → (check_stock versions items s).1 ≡ s
unfolding check_stock
check_stock-state versions [] s = refl
check_stock-state versions (i ∷ is) s = ground (arith, check_stock-state versions is s)

abbrev pub by_id : String → UserOrder → Bool
by_id id o = o.order_id === id

module _ (prisma : Prisma) where
  open prisma use {Table, rows, find_first, find_many, find_first-rows, rows-update, rows-create}

  pub accept-atomic :
      (action_id user_id id : String) (db : Db Table) (e : Error)
      → (accept prisma action_id user_id id db).0 ≡ err e
      → (accept prisma action_id user_id id db).1 ≡ db
  unfolding accept
  accept-atomic action_id user_id id db e h = grind (arith, check_stock-state)

  module _ (id action_id user_id : String) where
    -- What a granted action leaves: the order has moved as `f` says, each other order is as before,
    -- and the log has one more entry.
    pub record Moved (code : ℤ) (q : UserOrder → Bool) (f : UserOrder → UserOrder)
        (db db' : Db Table) : Type 0 where
      pub order : UserOrder
      pub found : find (by_id id) (rows db.user_order) ≡ some order
      pub allowed : q order ≡ true
      pub after : find (by_id id) (rows db'.user_order) ≡ some (f order)
      pub others :
          (other : String)
          → (other === id) ≡ false
          → find (by_id other) (rows db'.user_order) ≡ find (by_id other) (rows db.user_order)
      pub logged :
          rows db'.user_order_action
          ≡ rows db.user_order_action
            ++ record {
              order_action_id = action_id;
              user_id = user_id;
              order_id = id;
              status = code;
            }
              ∷ []

    set_order-Moved :
        (code : ℤ) (q : UserOrder → Bool) (f : UserOrder → UserOrder) (db : Db Table)
        (o : UserOrder)
        → UniqueBy (λ r. r.order_id) (rows db.user_order)
        → ((r : UserOrder) → (f r).order_id ≡ r.order_id)
        → find_first (λ r. r.order_id === id && q r) db.user_order ≡ some o
        → Moved code q f db (set_order prisma user_id id action_id f code db).1
    unfolding set_order
    set_order-Moved code q f db o u keep e =
        let e' : find (λ r. r.order_id === id && q r) (rows db.user_order) ≡ some o =
          rw (← find_first-rows) e in
        let found = find-key (λ r. r.order_id) id q (rows db.user_order) o u e' in
        record {
          order = o;
          found = found;
          allowed = ground (arith, find_sound (λ r. r.order_id === id && q r) _ o e');
          after = rw rows-update (find-map_where_key (λ r. r.order_id) id f _ o keep found);
          others = λ other ne.
              rw rows-update (find-map_where_other (λ r. r.order_id) id other f _ keep ne);
          logged = rows-create _ _;
        }

    pub cancel-Moved :
        (db : Db Table)
        → UniqueBy (λ r. r.order_id) (rows db.user_order)
        → (cancel prisma action_id user_id id db).0 ≡ ok tt
        → Moved status_cancel
            (λ o. o.status ==ℤ status_active)
            (λ o. record o { status = status_cancel })
            db
            (cancel prisma action_id user_id id db).1
    unfolding cancel
    cancel-Moved db u h =
        elim (Option-cases
          (find_first (λ o. o.order_id === id && o.status ==ℤ status_active) db.user_order)) [
            | inl missing ↦ absurd (ground arith)
            | inr (o, e) ↦ rw e (set_order-Moved _ _ _ db o u (λ r. refl) e)
          ]

    pub finish-Moved :
        (db : Db Table)
        → UniqueBy (λ r. r.order_id) (rows db.user_order)
        → (finish prisma action_id user_id id db).0 ≡ ok tt
        → Moved stage_finished
            (λ o. o.status ==ℤ status_active && o.stage ==ℤ stage_received)
            (λ o. record o { stage = stage_finished })
            db
            (finish prisma action_id user_id id db).1
    unfolding finish find_at
    finish-Moved db u h = elim (Option-cases (find_at prisma id stage_received db)) [
      | inl missing ↦ absurd (ground arith)
      | inr (o, e) ↦ rw e (set_order-Moved _ _ _ db o u (λ r. refl) e)
    ]

    -- The two tables of a granted acceptance.
    pub accept-state :
        (db : Db Table) {o : UserOrder}
        → find_at prisma id stage_create db ≡ some o
        → (accept prisma action_id user_id id db).0 ≡ ok tt
        → (accept prisma action_id user_id id db).1
          ≡ record (set_order prisma user_id id action_id
              (λ o. record o { stage = stage_accept })
              stage_accept
              db).1 {
                store_goods_version =
                    reduce_stock prisma
                      (find_many (λ i. i.order_id === id) db.user_order_info)
                      db.store_goods_version;
              }
    unfolding accept
    accept-state db e h = grind (arith, check_stock-state)

    pub accept-found :
        (db : Db Table)
        → (accept prisma action_id user_id id db).0 ≡ ok tt
        → (o : UserOrder) × (find_at prisma id stage_create db ≡ some o)
    unfolding accept
    accept-found db h = elim (Option-cases (find_at prisma id stage_create db)) [
      | inl missing ↦ absurd (ground arith)
      | inr found ↦ found
    ]

    pub accept-Moved :
        (db : Db Table)
        → UniqueBy (λ r. r.order_id) (rows db.user_order)
        → (accept prisma action_id user_id id db).0 ≡ ok tt
        → Moved stage_accept
            (λ o. o.status ==ℤ status_active && o.stage ==ℤ stage_create)
            (λ o. record o { stage = stage_accept })
            db
            (accept prisma action_id user_id id db).1
    unfolding find_at
    accept-Moved db u h =
        let (o, e) = accept-found db h in
        let m =
          set_order-Moved stage_accept (λ o. o.status ==ℤ status_active && o.stage ==ℤ stage_create)
            (λ o. record o { stage = stage_accept }) db o u (λ r. refl) e in
        rw (accept-state db e h) (record {
          order = m.order;
          found = m.found;
          allowed = m.allowed;
          after = m.after;
          others = m.others;
          logged = m.logged;
        })

    pub delivery-Moved :
        (db : Db Table)
        → UniqueBy (λ r. r.order_id) (rows db.user_order)
        → (delivery prisma action_id user_id id db).0 ≡ ok tt
        → Moved stage_delivery
            (λ o. o.status ==ℤ status_active && o.stage ==ℤ stage_accept)
            (λ o. record o { stage = stage_delivery })
            db
            (delivery prisma action_id user_id id db).1
    unfolding delivery find_at
    delivery-Moved db u h = elim (Option-cases (find_at prisma id stage_accept db)) [
      | inl missing ↦ absurd (ground arith)
      | inr (o, e) ↦ rw e (set_order-Moved _ _ _ db o u (λ r. refl) e)
    ]

    pub receive-Moved :
        (db : Db Table)
        → UniqueBy (λ r. r.order_id) (rows db.user_order)
        → (receive prisma action_id user_id id db).0 ≡ ok tt
        → Moved stage_received
            (λ o. o.status ==ℤ status_active && o.stage ==ℤ stage_delivery)
            (λ o. record o { status = stage_received })
            db
            (receive prisma action_id user_id id db).1
    unfolding receive find_at
    receive-Moved db u h = elim (Option-cases (find_at prisma id stage_delivery db)) [
      | inl missing ↦ absurd (ground arith)
      | inr (o, e) ↦ rw e (set_order-Moved _ _ _ db o u (λ r. refl) e)
    ]
