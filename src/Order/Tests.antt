-- ===== src/Order/Tests.antt =====
-- Runs of the order service on small databases, and its theorems at them.
use open_api.Prelude.{
  ℕ, zero, suc, ℤ, pos, ◌+ℤ◌, ◌-ℤ◌, ◌*ℤ◌, ◌≤ℤ◌, String, ◌≡◌, ◌⊎◌, ◌↔◌, ◌<◌, refl, true, Option,
  none, some, List, [], ◌∷◌, ok, err, bad_request, arith, find, ◌===◌,
}
use open_api.Schema.{Address, UserAddress, UserOrder, UserOrderInfo, Store, StoreGoodsVersion, Db}
use open_api.Prisma.InMemory.{in_memory, empty_db}
use open_api.Order.{
  CreateOrder, NewOrder, create_order, create_infos, new_order, format_goods, order_money,
  total_items, notice, check_store_is_infinite, get_store_today_valid_orders, action_adapter,
  cancel, accept, delivery, receive, finish, remove, set_order, find_at, find_order, check_stock,
  stock_of, reduce_stock, status_delete, stage_accept, stage_received, stage_create,
}
use open_api.Order.Lifecycle.{Stepped, action_adapter-Stepped, action_adapter-atomic}
use open_api.Order.Early.{AllEarly}
use open_api.Order.Reach.{here, next, receives, finish_unreachable, quota_unreachable}
use open_api.Order.Counts.{taken, has_version}
use open_api.Order.Stock.{accept_stock, accept-nonneg_stock, accept_oversells}
use open_api.Order.Creation.{create_order_granted_iff, Created, create_order-Created}

abbrev home : Address
home = record {
  province = "33";
  city = "3301";
  area = "330106";
  town = "0";
  address = "Road 1";
  phone = "13800000000";
  recipient = "Li";
}

abbrev home_address : UserAddress
home_address = record {
  user_address_id = "a1";
  user_id = "u1";
  place = home;
  is_default = true;
  tag = none;
  status = true;
}

abbrev order_at : String → ℤ → ℤ → UserOrder
order_at id status stage = record {
  order_id = id;
  user_id = "u1";
  store_id = "s1";
  status = status;
  stage = stage;
  payment_method = "cod";
  pay_status = pos 0;
  paid_at = none;
  pay_proof_url = none;
  money = pos 700;
  original_amount = pos 0;
  discount_rate = pos 100;
  discount_amount = pos 0;
  points_used = pos 0;
  points_earn = pos 0;
  refunded_amount = pos 0;
  refund_clear_points = pos 0;
  operator_type = none;
  operator_staff_id = none;
  operator_name = none;
  place = home;
  delivery_date = 5;
  create_date = 1;
  update_date = 1;
}

abbrev item : String → String → String → ℕ → UserOrderInfo
item id order version n = record {
  order_info_id = id;
  order_id = order;
  goods_id = "g1";
  goods_name = "tea";
  goods_version_id = version;
  count = pos n;
  price = pos 100;
}

abbrev version : String → ℕ → StoreGoodsVersion
version id n = record {
  version_id = id;
  goods_id = "g1";
  unit_name = "g";
  image_hash = none;
  version_number = none;
  bar_code = none;
  supplier = none;
  create_date = 0;
  count = pos n;
  price = pos 100;
  status = pos 1;
}

abbrev shop : Store
shop = record {
  store_id = "s1";
  user_id = "owner";
  store_name = "Tea";
  phone = "13900000000";
  status = pos 3;
  extra_member_limit = pos 0;
}

-- `o1` has just been created, with two versions; `o2` too, with two lines of one version; `o3` is on
-- its way.
abbrev sample : Db (λ R. List R)
sample = record empty_db {
  user_address = home_address ∷ [];
  user_order =
      order_at "o1" (pos 0) (pos 1)
      ∷ order_at "o2" (pos 0) (pos 1)
      ∷ order_at "o3" (pos 0) (pos 3)
      ∷ [];
  user_order_info =
      item "i1" "o1" "v1" 3
      ∷ item "i2" "o1" "v2" 1
      ∷ item "i3" "o2" "v1" 4
      ∷ item "i4" "o2" "v1" 3
      ∷ [];
  store = shop ∷ [];
  store_goods_version = version "v1" 5 ∷ version "v2" 1 ∷ [];
}

abbrev wanted : CreateOrder
wanted = record {
  store_id = "s1";
  user_address_id = "a1";
  goods =
      record {
        goods_id = "g1";
        goods_name = "tea";
        goods_version_id = "v1";
        count = pos 2;
        price = pos 100;
      }
      ∷ record {
        goods_id = "g1";
        goods_name = "tea";
        goods_version_id = "v2";
        count = pos 1;
        price = pos 50;
      }
      ∷ [];
  delivery_date = 9;
  payment_method = none;
}

abbrev ids : ℕ → String
ids zero = "o9"
ids (suc _) = "x"

running : Unit {0}
unfolding action_adapter cancel accept delivery receive finish remove set_order find_at find_order
    check_stock stock_of reduce_stock create_order create_infos new_order format_goods order_money
    total_items notice check_store_is_infinite get_store_today_valid_orders ◌+ℤ◌ ◌-ℤ◌ ◌*ℤ◌
running = tt

adapter_runs :
    ((action_adapter in_memory "o1" stage_accept "x" "owner" sample).0 ≡ ok tt)
    × ((action_adapter in_memory "o3" stage_received "x" "owner" sample).0 ≡ ok tt)
    × ((action_adapter in_memory "o3" status_delete "x" "u1" sample).0 ≡ err (bad_request ""))
    × ((remove in_memory "x" "u1" "o3" sample).0 ≡ ok tt)
unfolding running
adapter_runs = (refl, refl, refl, refl)

created_runs :
    (create_order in_memory ids 7 4 "u1" wanted sample).0
    ≡ ok (
      "o9",
      some (record {
        to = "owner";
        order_id = "o9";
        store_name = "Tea";
        recipient = "Li";
        money = pos 250;
        goods_count = 2;
        total_items = pos 3;
      }),
    )
unfolding running
created_runs = refl

action_adapter-Stepped_example :
    Stepped in_memory "o1" "x" "owner" stage_accept sample
      (action_adapter in_memory "o1" stage_accept "x" "owner" sample).1
action_adapter-Stepped_example =
    action_adapter-Stepped in_memory "o1" "x" "owner" stage_accept sample (ground arith)
      adapter_runs.0

action_adapter-atomic_example :
    (action_adapter in_memory "o3" status_delete "x" "u1" sample).1 ≡ sample
action_adapter-atomic_example =
    action_adapter-atomic in_memory "o3" status_delete "x" "u1" sample (bad_request "")
      adapter_runs.2

sample-AllEarly : AllEarly in_memory sample
sample-AllEarly = ground arith

abbrev received : Db (λ R. List R)
received = (receive in_memory "x" "u1" "o3" sample).1

finish_unreachable_example :
    finish in_memory "x" "u1" "o3" received ≡ (err (bad_request ""), received)
finish_unreachable_example =
    finish_unreachable in_memory "x" "u1" "o3" sample-AllEarly
      (next here (receives "x" "u1" "o3" refl))

address_kept : find (λ a. a.user_address_id === "a1") received.user_address ≡ some home_address
unfolding running
address_kept = refl

quota_unreachable_example :
    (get_store_today_valid_orders in_memory "s1" 4 received ≡ 0)
    × ((r : String × Option NewOrder) × ((create_order in_memory ids 7 4 "u1" wanted received).0
          ≡ ok r))
quota_unreachable_example =
    quota_unreachable in_memory ids 7 4 "u1" wanted home_address sample-AllEarly
      (next here (receives "x" "u1" "o3" refl)) address_kept

accepted_runs :
    ((accept in_memory "x" "owner" "o1" sample).0 ≡ ok tt)
    × (find_at in_memory "o2" stage_create sample ≡ some (order_at "o2" (pos 0) (pos 1)))
unfolding running
accepted_runs = (refl, refl)

accept_stock_example :
    find (has_version "v1") (accept in_memory "x" "owner" "o1" sample).1.store_goods_version
    ≡ some (record (version "v1" 5) {
      count = pos 5 -ℤ taken "v1" (item "i1" "o1" "v1" 3 ∷ item "i2" "o1" "v2" 1 ∷ []);
    })
accept_stock_example =
    accept_stock in_memory "x" "owner" "o1" "v1" sample (version "v1" 5) accepted_runs.0 refl

accept-nonneg_stock_example :
    (w : StoreGoodsVersion) × (find
        (has_version "v2")
        (accept in_memory "x" "owner" "o1" sample).1.store_goods_version
      ≡ some w)
    × (pos 0 ≤ℤ w.count)
accept-nonneg_stock_example =
    accept-nonneg_stock in_memory "x" "owner" "o1" "v2" sample (version "v2" 1) (ground arith)
      (ground arith) accepted_runs.0 refl (omega arith)

accept_oversells_example :
    let (r, db') = accept in_memory "x" "owner" "o2" sample in
    (r ≡ ok tt)
    × ((w : StoreGoodsVersion) × (find (has_version "v1") db'.store_goods_version ≡ some w)
        × ¬ (pos 0 ≤ℤ w.count))
unfolding ◌+ℤ◌
accept_oversells_example =
    accept_oversells in_memory "x" "owner" "o2" "v1" sample (order_at "o2" (pos 0) (pos 1))
      (version "v1" 5) (item "i3" "o2" "v1" 4) (item "i4" "o2" "v1" 3) (ground arith)
      accepted_runs.1 refl refl refl refl (omega arith) (omega arith) (omega arith)

create_order_granted_iff_example :
    ((r : String × Option NewOrder) × ((create_order in_memory ids 7 4 "u1" wanted sample).0
        ≡ ok r))
    ↔ (((check_store_is_infinite in_memory "s1" 7 sample ≡ true)
          ⊎ (get_store_today_valid_orders in_memory "s1" 4 sample < 10))
        × ((address : UserAddress) × (find (λ a. a.user_address_id === "a1") sample.user_address
              ≡ some address)))
create_order_granted_iff_example = create_order_granted_iff in_memory ids 7 4 "u1" wanted sample

create_order-Created_example :
    Created in_memory ids 7 4 "u1" wanted sample
      (
        "o9",
        some (record {
          to = "owner";
          order_id = "o9";
          store_name = "Tea";
          recipient = "Li";
          money = pos 250;
          goods_count = 2;
          total_items = pos 3;
        }),
      )
      (create_order in_memory ids 7 4 "u1" wanted sample).1
create_order-Created_example =
    create_order-Created in_memory ids 7 4 "u1" wanted sample _ refl created_runs
