-- ===== src/Order/Items.antt =====
-- The forms of src/order/dto and what src/order/order.service.ts computes from them and from rows,
-- without the database.
use open_api.Prelude.{
  ℕ, ◌+◌, ℤ, pos, ◌+ℤ◌, ◌*ℤ◌, ltb_ℤ, String, ◌===◌, or_text, Option, none, some, List, [], ◌∷◌,
  length, if◌then◌else◌, Action, bad_request, pure, or_raise, raise_if, ◌>>=◌, ◌>>◌,
}
use open_api.Schema.{UserAddress, UserOrder, UserOrderInfo, Store, StoreGoodsVersion}
use open_api.Order.Const.{status_active, stage_create, online_qr, unpaid}

-- CreateOrderGoodsDto
pub record CreateOrderGoods : Type 0 where
  pub goods_id : String
  pub goods_name : String
  pub goods_version_id : String
  pub count : ℤ
  pub price : ℤ

-- CreateOrderDto
pub record CreateOrder : Type 0 where
  pub store_id : String
  pub user_address_id : String
  pub goods : List CreateOrderGoods
  pub delivery_date : ℕ
  pub payment_method : Option String

-- The message 'newOrder' that goes to the owner of the store.
pub record NewOrder : Type 0 where
  pub to : String
  pub order_id : String
  pub store_name : String
  pub recipient : String
  pub money : ℤ
  pub goods_count : ℕ
  pub total_items : ℤ

-- `goods.reduce((t, { price, count }) => t + price * count, 0)`
unfoldable pub order_money : ℤ → List CreateOrderGoods → ℤ
order_money t [] = t
order_money t (g ∷ gs) = order_money (t +ℤ g.price *ℤ g.count) gs

-- `goods.reduce((sum, item) => sum + item.count, 0)`
unfoldable pub total_items : ℤ → List CreateOrderGoods → ℤ
total_items t [] = t
total_items t (g ∷ gs) = total_items (t +ℤ g.count) gs

-- `formatGoods`: each item with the order's identifier and one of its own.
unfoldable pub format_goods : (ℕ → String) → String → ℕ → List CreateOrderGoods → List UserOrderInfo
format_goods fresh order_id n [] = []
format_goods fresh order_id n (g ∷ gs) =
    record {
      order_info_id = fresh n;
      order_id = order_id;
      goods_id = g.goods_id;
      goods_name = g.goods_name;
      goods_version_id = g.goods_version_id;
      count = g.count;
      price = g.price;
    }
    ∷ format_goods fresh order_id (n + 1) gs

-- `versionStockMap.get(id)`: of equal keys the last one put in counts.
unfoldable pub stock_of : String → List StoreGoodsVersion → Option ℤ
stock_of id [] = none
stock_of id (v ∷ vs) = elim (stock_of id vs) [
  | some later ↦ some later
  | none ↦ if v.version_id === id then some v.count else none
]

-- The loop that checks the stock of each item.
unfoldable pub check_stock :
    {S : Type 0} → List StoreGoodsVersion → List UserOrderInfo → Action S (Unit {0})
check_stock versions [] = pure tt
check_stock versions (item ∷ items) = do
  stock ← or_raise (stock_of item.goods_version_id versions) (bad_request "商品版本不存在")
  raise_if (ltb_ℤ stock item.count) (bad_request "库存不足")
  check_stock versions items

-- The row that `create` inserts; the columns that it leaves out have their defaults.
unfoldable pub new_order : String → String → CreateOrder → UserAddress → ℕ → UserOrder
new_order order_id user_id dto address now = record {
  order_id = order_id;
  user_id = user_id;
  store_id = dto.store_id;
  status = status_active;
  stage = stage_create;
  payment_method = or_text dto.payment_method online_qr;
  pay_status = unpaid;
  paid_at = none;
  pay_proof_url = none;
  money = order_money (pos 0) dto.goods;
  original_amount = pos 0;
  discount_rate = pos 100;
  discount_amount = pos 0;
  points_used = pos 0;
  points_earn = pos 0;
  refunded_amount = pos 0;
  refund_clear_points = pos 0;
  operator_type = none;
  operator_staff_id = none;
  operator_name = none;
  place = address.place;
  delivery_date = dto.delivery_date;
  create_date = now;
  update_date = now;
}

-- The notification of the store's owner, if the store is found and has one.
unfoldable pub notice : String → CreateOrder → UserAddress → Option Store → Option NewOrder
notice order_id dto address none = none
notice order_id dto address (some store) =
    if store.user_id === ""
    then none
    else some (record {
      to = store.user_id;
      order_id = order_id;
      store_name = store.store_name;
      recipient = address.place.recipient;
      money = order_money (pos 0) dto.goods;
      goods_count = length dto.goods;
      total_items = total_items (pos 0) dto.goods;
    })
