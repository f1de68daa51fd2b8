-- ===== src/Order.antt =====
-- src/order/order.service.ts: the life of a customer's order, each handler as one action on the
-- database. `v4()` and `new Date()` are arguments: `fresh n` is the n-th identifier that a call
-- makes, with its prefix; `now` is the time and `today` the local midnight before it. A message
-- with values put into it is given by its fixed part.
mod Const
mod Items
mod Moves
pub mod Lifecycle
pub mod Early
pub mod Reach
mod Tests
pub mod Creation
mod Counts
pub mod Stock
pub use Const.*
unfoldable pub use Items.{
  order_money, total_items, format_goods, stock_of, check_stock, new_order, notice,
}
pub use Items.*
use open_api.Prelude.{
  ℕ, ◌+◌, ℤ, pos, ◌+ℤ◌, ◌-ℤ◌, ◌*ℤ◌, ◌==ℤ◌, ltb_ℤ, leb_ℤ, Bool, not, ◌&&◌, ◌||◌, String, ◌===◌,
  or_text, is_some, Option, none, some, List, [], ◌∷◌, map, length, find, any, leb, if◌then◌else◌,
  Action, bad_request, Error, pure, raise, gets, or_raise, raise_if, modify, ◌>>=◌, ◌>>◌,
}
use open_api.Schema.{
  UserAddress, UserOrder, UserOrderInfo, UserOrderAction, Store, StoreGoods, StoreGoodsVersion,
  StoreServiceSubscription, Db,
}
use open_api.Prisma.{Prisma}

-- The order of this identifier, if it is active and at this stage.
abbrev pub is_at : String → ℤ → UserOrder → Bool
is_at id stage o = o.order_id === id && (o.status ==ℤ status_active && o.stage ==ℤ stage)

module _ (prisma : Prisma) where
  open prisma use {Table, find_first, find_many, count, update, create}

  -- The updates of the order and of its log in one `$transaction`.
  unfoldable pub set_order :
      String → String → String → (UserOrder → UserOrder) → ℤ → Action (Db Table) (Unit {0})
  set_order user_id id action_id f code = modify (λ db. record db {
    user_order = update (λ o. o.order_id === id) f db.user_order;
    user_order_action =
        create
          (record { order_action_id = action_id; user_id = user_id; order_id = id; status = code })
          db.user_order_action;
  })

  unfoldable pub check_store_is_infinite : String → ℕ → Db Table → Bool
  check_store_is_infinite store_id now db = is_some (
      find_first
        (λ s.
          s.store_id === store_id
          && s.status ==ℤ pos 1
          && s.is_infinite
          && leb s.start_date now
          && leb now s.end_date)
        db.store_service_subscription)

  pub get_store_today_valid_orders : String → ℕ → Db Table → ℕ
  get_store_today_valid_orders store_id today db =
      count
        (λ o.
          o.store_id === store_id
          && (o.stage ==ℤ stage_received || o.stage ==ℤ stage_finished)
          && leb today o.update_date)
        db.user_order

  pub create_infos : List UserOrderInfo → Table UserOrderInfo → Table UserOrderInfo
  create_infos [] t = t
  create_infos (i ∷ is) t = create_infos is (create i t)

  -- `create`: the order's identifier, and the message that was sent.
  pub create_order :
      (ℕ → String) → ℕ → ℕ → String → CreateOrder → Action (Db Table) (String × Option NewOrder)
  unfolding create_infos notice
  create_order fresh now today user_id dto = do
    let order_id = fresh 0
    is_infinite ← gets (check_store_is_infinite dto.store_id now)
    today_count ← gets (get_store_today_valid_orders dto.store_id today)
    raise_if (not is_infinite && leb 10 today_count) (bad_request "该商店今日免费订单额度已用完")
    address ←
        gets (λ db. find_first (λ a. a.user_address_id === dto.user_address_id) db.user_address)
    user_address ← or_raise address (bad_request "收货地址不存在")
    modify (λ db. record db {
      user_order = create (new_order order_id user_id dto user_address now) db.user_order;
      user_order_info = create_infos (format_goods fresh order_id 2 dto.goods) db.user_order_info;
      user_order_action =
          create
            (record {
              order_action_id = fresh 1;
              user_id = user_id;
              order_id = order_id;
              status = stage_create;
            })
            db.user_order_action;
    })
    store ← gets (λ db. find_first (λ s. s.store_id === dto.store_id) db.store)
    pure (order_id, notice order_id dto user_address store)

  -- `orderDetail`: each item with its version and its goods.
  pub order_detail :
      String → Db Table → List (UserOrderInfo × Option StoreGoodsVersion × Option StoreGoods)
  order_detail id db =
      let items = find_many (λ i. i.order_id === id) db.user_order_info in
      let versions =
        find_many (λ v. any (λ i. i.goods_version_id === v.version_id) items)
          db.store_goods_version in
      let goods = find_many (λ g. any (λ v. v.goods_id === g.goods_id) versions) db.store_goods in
      map
        (λ item.
          let version = find (λ v. v.version_id === item.goods_version_id) versions in
          let goods_info : Option StoreGoods = elim version [
            | none ↦ none
            | some v ↦ find (λ g. g.goods_id === v.goods_id) goods
          ] in
          (item, version, goods_info))
        items

  pub cancel : String → String → String → Action (Db Table) (Unit {0})
  unfolding set_order
  cancel action_id user_id id = do
    order ←
        gets (λ db. find_first (λ o. o.order_id === id && o.status ==ℤ status_active) db.user_order)
    or_raise order (bad_request "")
    set_order user_id id action_id (λ o. record o { status = status_cancel }) status_cancel

  -- The `decrement` of the stock, item by item.
  pub reduce_stock : List UserOrderInfo → Table StoreGoodsVersion → Table StoreGoodsVersion
  reduce_stock [] t = t
  reduce_stock (i ∷ is) t = reduce_stock is (
      update (λ v. v.version_id === i.goods_version_id)
        (λ v. record v { count = v.count -ℤ i.count }) t)

  unfoldable pub find_at : String → ℤ → Db Table → Option UserOrder
  find_at id stage db = find_first (is_at id stage) db.user_order

  pub accept : String → String → String → Action (Db Table) (Unit {0})
  unfolding set_order find_at
  accept action_id user_id id = do
    or_raise (← gets (find_at id stage_create)) (bad_request "订单不存在或者订单状态已发生改变")
    goods ← gets (λ db. find_many (λ i. i.order_id === id) db.user_order_info)
    versions ← gets (λ db.
        find_many (λ v. any (λ i. i.goods_version_id === v.version_id) goods)
          db.store_goods_version)
    check_stock versions goods
    set_order user_id id action_id (λ o. record o { stage = stage_accept }) stage_accept
    modify (λ db. record db { store_goods_version = reduce_stock goods db.store_goods_version })

  pub delivery : String → String → String → Action (Db Table) (Unit {0})
  unfolding set_order find_at
  delivery action_id user_id id = do
    or_raise (← gets (find_at id stage_accept)) (bad_request "")
    set_order user_id id action_id (λ o. record o { stage = stage_delivery }) stage_delivery

  -- The source writes the stage's number into the column `status`.
  unfoldable pub receive : String → String → String → Action (Db Table) (Unit {0})
  unfolding set_order find_at
  receive action_id user_id id = do
    or_raise (← gets (find_at id stage_delivery)) (bad_request "")
    set_order user_id id action_id (λ o. record o { status = stage_received }) stage_received

  pub finish : String → String → String → Action (Db Table) (Unit {0})
  unfolding set_order find_at
  finish action_id user_id id = do
    or_raise (← gets (find_at id stage_received)) (bad_request "")
    set_order user_id id action_id (λ o. record o { stage = stage_finished }) stage_finished

  pub find_order : String → Db Table → Option UserOrder
  find_order id db = find_first (λ o. o.order_id === id) db.user_order

  pub update_pay_proof : String → String → String → Action (Db Table) (Unit {0})
  unfolding find_order
  update_pay_proof user_id id url = do
    order ← or_raise (← gets (find_order id)) (bad_request "订单不存在")
    raise_if (not (order.user_id === user_id)) (bad_request "无权操作该订单")
    modify (λ db. record db {
      user_order =
          update (λ o. o.order_id === id) (λ o. record o { pay_proof_url = some url })
            db.user_order;
    })

  pub confirm_payment : ℕ → String → Action (Db Table) (Unit {0})
  unfolding find_order
  confirm_payment now id = do
    order ← or_raise (← gets (find_order id)) (bad_request "订单不存在")
    if order.pay_status ==ℤ paid
        then pure tt
        else modify (λ db. record db {
          user_order =
              update (λ o. o.order_id === id)
                (λ o. record o { pay_status = paid; paid_at = some now }) db.user_order;
        })

  pub remove : String → String → String → Action (Db Table) (Unit {0})
  unfolding set_order find_order
  remove action_id user_id id = do
    order ← or_raise (← gets (find_order id)) (bad_request "")
    raise_if (order.status ==ℤ stage_delivery || order.status ==ℤ stage_received) (bad_request "")
    set_order user_id id action_id (λ o. record o { status = status_delete }) status_delete

  pub action_adapter : String → ℤ → String → String → Action (Db Table) (Unit {0})
  action_adapter id type action_id user_id =
      if type ==ℤ status_cancel
      then cancel action_id user_id id
      else if type ==ℤ stage_accept
      then accept action_id user_id id
      else if type ==ℤ stage_delivery
      then delivery action_id user_id id
      else if type ==ℤ stage_received
      then receive action_id user_id id
      else if type ==ℤ stage_finished
      then finish action_id user_id id
      else if type ==ℤ status_delete
      then finish action_id user_id id
      else raise (bad_request "")
