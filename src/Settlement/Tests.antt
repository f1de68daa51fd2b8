-- ===== src/Settlement/Tests.antt =====
-- Runs of the settlements on a small database, and their theorems at them.
use open_api.Prelude.{
  ℤ, pos, ◌+ℤ◌, String, ◌≡◌, refl, true, none, some, List, [], ◌∷◌, All, map, ◌-ℤ◌, ◌==ℤ◌,
  if◌then◌else◌,
}
use open_api.Schema.{Address, UserOrder, StoreSettlement, Db}
use open_api.Prisma.InMemory.{in_memory, empty_db}
use open_api.Order.{receive, set_order, find_at}
use open_api.Order.Reach.{here, next, receives}
use open_api.Settlement.{Calendar, start_of, end_of, distinct, is_in}
use open_api.Settlement.Store.{
  generate_monthly_settlement, settle_stores, settle_store, settle_new, stores_of, active_stores,
  settled_orders, find_settled,
}
use open_api.Settlement.Balanced.{AllBalanced}
use open_api.Settlement.Balanced.Jobs.{
  for_stores, for_platform, confirms_store, settles_platform, work_all, work_all-AllBalanced,
}
use open_api.Settlement.Due.{due}
use open_api.Settlement.Owed.{Run}
use open_api.Settlement.Summed.{generate_monthly_settlement-Run}
use open_api.Settlement.Once.{generate_monthly_settlement_twice}
use open_api.Settlement.Online.{due_zero}

abbrev home : Address
home = record {
  province = "33";
  city = "3301";
  area = "330106";
  town = "0";
  address = "Road 1";
  phone = "13800000000";
  recipient = "Li";
}

abbrev order_at : String → ℤ → ℤ → UserOrder
order_at id status stage = record {
  order_id = id;
  user_id = "u1";
  store_id = "s1";
  status = status;
  stage = stage;
  payment_method = "cod";
  pay_status = pos 0;
  paid_at = none;
  pay_proof_url = none;
  money = pos 700;
  original_amount = pos 0;
  discount_rate = pos 100;
  discount_amount = pos 0;
  points_used = pos 0;
  points_earn = pos 0;
  refunded_amount = pos 0;
  refund_clear_points = pos 0;
  operator_type = none;
  operator_staff_id = none;
  operator_name = none;
  place = home;
  delivery_date = 5;
  create_date = 1;
  update_date = 1;
}

abbrev may : Calendar
may = record {
  now = 5;
  full_year = λ _. pos 2024;
  month_of = λ _. pos 5;
  set_month = λ m t. t;
  local = λ year m day. if m ==ℤ pos 4 then 0 else 1000;
  year_month = λ _. (pos 2024, pos 5);
  padded = λ _. "05";
  printed = λ _. "2024";
  date = λ _. "2024-05-01";
  time_of = λ _. 0;
  decimal = λ _. "1";
}

abbrev till_order : UserOrder
till_order = record (order_at "o1" (pos 0) (pos 5)) { pay_status = pos 1 }

abbrev sample : Db (λ R. List R)
sample = record empty_db {
  user_order = till_order ∷ [];
  store_service_payment =
      record { id = 4; invoice_id = 3; amount = pos 990; method = "wx"; remark = none; paid_at = 7 }
      ∷ [];
  store_service_invoice =
      record {
        id = 3;
        subscription_id = 2;
        month = "2024-05";
        start_date = 0;
        end_date = 1000;
        amount = pos 990;
        status = pos 1;
        due_date = 500;
        paid_at = some 7;
      }
      ∷ [];
  store_service_subscription =
      record {
        id = 2;
        store_id = "s1";
        plan_id = "p1";
        start_date = 0;
        end_date = 1000;
        status = pos 1;
        is_infinite = true;
        order_count_last_cycle = pos 0;
        contract_id = none;
      }
      ∷ [];
}

abbrev key_of : String → String
key_of s = s

-- The only store of the month is settled.
settled_run :
    map
      (λ s. s.total_amount)
      (generate_monthly_settlement in_memory may key_of none none sample).1.store_settlement
    ≡ till_order.money ∷ []
unfolding generate_monthly_settlement stores_of active_stores distinct is_in settle_stores
    settle_store settle_new settled_orders find_settled ◌+ℤ◌ ◌-ℤ◌
settled_run = refl

none_yet : AllBalanced in_memory may sample
unfolding AllBalanced
none_yet = (tt, tt)

work_all-AllBalanced_example : AllBalanced in_memory may (
    work_all in_memory may
      (for_stores key_of none none
        ∷ for_platform "k1" none
        ∷ confirms_store "s1"
        ∷ settles_platform 2000 "k1"
        ∷ [])
      sample)
work_all-AllBalanced_example = work_all-AllBalanced in_memory may _ sample none_yet

generate_monthly_settlement-Run_example :
    Run
      (stores_of in_memory may none "2024-05" sample)
      "2024-05"
      (start_of may "2024-05")
      (end_of may "2024-05")
      sample.user_order
      sample.store_settlement
      (generate_monthly_settlement in_memory may key_of none none sample).1.store_settlement
    × All
        (λ x.
          (s : StoreSettlement) × (find_settled in_memory may x "2024-05"
              (generate_monthly_settlement in_memory may key_of none none sample).1
            ≡ some s))
        (stores_of in_memory may none "2024-05" sample)
generate_monthly_settlement-Run_example =
    generate_monthly_settlement-Run in_memory may key_of none none sample

generate_monthly_settlement_twice_example :
    (generate_monthly_settlement in_memory may
      (λ _. "other")
      none
      none
      (generate_monthly_settlement in_memory may key_of none none sample).1).1
    ≡ (generate_monthly_settlement in_memory may key_of none none sample).1
generate_monthly_settlement_twice_example =
    generate_monthly_settlement_twice in_memory may key_of (λ _. "other") none none sample

abbrev delivered : Db (λ R. List R)
delivered = record empty_db { user_order = order_at "o3" (pos 0) (pos 3) ∷ [] }

abbrev received : Db (λ R. List R)
received = (receive in_memory "x" "u1" "o3" delivered).1

unsettled : find_settled in_memory may "s1" "2024-05" received ≡ none
unfolding find_settled receive set_order find_at
unsettled = refl

due_zero_example :
    ((due in_memory may key_of "2024-05" "s1" received).total_orders ≡ pos 0)
    × ((due in_memory may key_of "2024-05" "s1" received).total_amount ≡ pos 0)
due_zero_example =
    due_zero in_memory may {db = delivered} {db' = received} key_of "2024-05" "s1" (refl, tt)
      (next here (receives "x" "u1" "o3" refl)) unsettled
