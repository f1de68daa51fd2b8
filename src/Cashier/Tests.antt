-- ===== src/Cashier/Tests.antt =====
-- Runs of the till on small databases, and its theorems at them.
use open_api.Prelude.{
  ℕ, ◌*◌, ◌/◌, leb, ◌==◌, ℤ, pos, pos_part, ◌+ℤ◌, ◌-ℤ◌, ◌≤ℤ◌, max_zero, true, false, String, ◌≡◌,
  refl, none, some, List, [], ◌∷◌, ok, arith,
}
use open_api.Schema.{Address, UserOrder, Store, StoreMember, StorePayPending, Draft, Db}
use open_api.Prisma.InMemory.{in_memory, empty_db}
use open_api.Cashier.Refund.{find_order, find_member, refund_member, refund_order}
use open_api.Cashier.Refund.Balance.{
  Refunded, refund_order-Refunded, IsBalanced, refund_order-IsBalanced,
}
use open_api.Cashier.Push
use open_api.Cashier.Push.{
  SyncOrder, PushResult, success, add_order, keys_taken, push_order, paying_member, add_infos,
  order_infos, settle, charge, order_operator, find_staff,
}
use open_api.Cashier.Push.Solvent.{IsSolvent, push_order-IsSolvent}
use open_api.Cashier.Pricing.{
  Numbers, Settings, Amounts, calc_member_pay_amounts, calc_member_pay_amounts_bounds, redeem,
  is_points_redemption_day, get_member_scan_discount_rate,
}
use open_api.Cashier.Pay.{
  check_pay, member_pay, find_pending, set_pending, get_pending_row, find_by_phone, get_settings,
  calc_by_pending_id_and_phone, scanned_order,
}
use open_api.Cashier.Pay.Steps.{Call, begun, returned, step, here, next}
use open_api.Cashier.Pay.Overlap.{
  overlap_charges_twice, pay_result, again, final, first_push, taken,
}
use open_api.Cashier.Pay.Once.{Paid, member_pay-Paid}

abbrev zhang : StoreMember
zhang = record {
  id = 1;
  member_id = "m1";
  store_id = "s1";
  name = "Zhang";
  phone = "13811111111";
  gender = pos 0;
  avatar = none;
  birthday = none;
  balance = pos 5000;
  points = pos 50;
  status = pos 1;
}

abbrev shop : Store
shop = record {
  store_id = "s1";
  user_id = "owner";
  store_name = "Tea";
  phone = "13900000000";
  status = pos 3;
  extra_member_limit = pos 0;
}

-- The till's counter.
abbrev counter : Address
counter = record {
  province = "";
  city = "";
  area = "";
  town = "";
  address = "线下收银";
  phone = "";
  recipient = "CASHIER";
}

-- Zhang's order, settled and paid.
abbrev bought : UserOrder
bought = record {
  order_id = "o1";
  user_id = "m1";
  store_id = "s1";
  status = pos 1;
  stage = pos 3;
  payment_method = "balance";
  pay_status = pos 0;
  paid_at = none;
  pay_proof_url = none;
  money = pos 700;
  original_amount = pos 800;
  discount_rate = pos 100;
  discount_amount = pos 100;
  points_used = pos 100;
  points_earn = pos 7;
  refunded_amount = pos 0;
  refund_clear_points = pos 0;
  operator_type = some "owner";
  operator_staff_id = none;
  operator_name = some "店主";
  place = counter;
  delivery_date = 5;
  create_date = 5;
  update_date = 5;
}

abbrev draft : Draft
draft = record {
  local_id = "l1";
  total_amount = pos 1000;
  created_at = 5;
  discount_rate = none;
  items =
      record { goods_id = "g1"; name = "tea"; version_id = "v1"; count = pos 2; price = pos 500 }
      ∷ [];
}

abbrev waiting : StorePayPending
waiting = record {
  pending_id = "p1";
  store_id = "s1";
  status = "pending";
  payload = draft;
  order_id = none;
  member_id = none;
  expire_at = 100;
}

abbrev sample : Db (λ R. List R)
sample = record empty_db {
  store = shop ∷ [];
  store_member = zhang ∷ [];
  user_order = bought ∷ [];
  store_pay_pending = waiting ∷ [];
}

abbrev dto : SyncOrder
dto = record {
  local_id = "l2";
  member_id = some "m1";
  total_amount = pos 900;
  created_at = 6;
  payment_method = some "balance";
  points_used = none;
  earn_points = some (pos 9);
  payable_amount = none;
  discount_rate = none;
  operator_type = none;
  operator_staff_id = none;
  operator_name = none;
  items = [];
}

-- Whole numbers, with the quotients rounded down.
abbrev whole : Numbers
whole = record {
  Number = ℕ;
  one = 1;
  ten = 10;
  hundred = 100;
  is_falsy = λ n. n == 0;
  is_ten = λ n. leb 10 n;
  tenfold = λ n. pos (n * 10);
  discounted = λ cents percent. pos (pos_part cents * pos_part percent / 100);
  points_value = λ points ratio. pos (pos_part points * 100 / ratio);
  points_for = λ cents ratio. pos (pos_part cents * ratio / 100);
  earned = λ cents rate. pos (pos_part cents * rate / 100);
}

abbrev defaults : Settings whole
defaults = record {
  points_per_yuan = some 1;
  points_redemption_ratio = some 100;
  redemption_enabled = some true;
  redemption_days = [];
  member_discount_rate = some 9;
}

abbrev ids : ℕ → String
ids n = "i"

abbrev in_cents : ℤ → String
in_cents n = "n"

abbrev plain : String → String
plain s = s

refund_runs :
    (refund_order in_memory in_cents "r1" "f1" 9 "o1" "owner" (some (pos 300)) true sample).0
    ≡ ok (record {
      order_id = "o1";
      refund_amount = pos 300;
      refunded_amount = pos 300;
      refundable_amount = pos 400;
      clear_points = true;
      to_balance = true;
      status = "partial_refunded";
    })
unfolding refund_order find_order find_member refund_member ◌+ℤ◌ ◌-ℤ◌
refund_runs = refl

sample-IsBalanced : IsBalanced in_memory in_cents sample
unfolding find_order
sample-IsBalanced id o e = (ground arith, ground arith)

sample-IsSolvent : IsSolvent in_memory sample
unfolding Push.find_member
sample-IsSolvent id m e = ground arith

pay_runs :
    (member_pay in_memory whole
      (λ s. defaults)
      plain
      ids
      "o2"
      50
      (pos 3)
      "p1"
      "13811111111"
      sample).0
    ≡ ok (record {
      order_id = "o2";
      payable_amount = pos 850;
      points_used = pos 50;
      earn_points = pos 8;
    })
unfolding member_pay calc_by_pending_id_and_phone get_pending_row find_pending set_pending
    find_by_phone get_settings scanned_order calc_member_pay_amounts redeem is_points_redemption_day
    get_member_scan_discount_rate push_order charge keys_taken order_infos paying_member
    Push.find_member ◌+ℤ◌ ◌-ℤ◌
pay_runs = refl

refund_order-Refunded_example :
    Refunded in_memory in_cents "o1" "owner"
      (some (pos 300))
      true
      sample
      (refund_order in_memory in_cents "r1" "f1" 9 "o1" "owner" (some (pos 300)) true sample).1
refund_order-Refunded_example =
    refund_order-Refunded in_memory in_cents "r1" "f1" 9 "o1" "owner" (some (pos 300)) true sample _
      refund_runs

refund_order-IsBalanced_example :
    IsBalanced in_memory in_cents
      (refund_order in_memory in_cents "r1" "f1" 9 "o1" "owner" (some (pos 300)) true sample).1
refund_order-IsBalanced_example =
    refund_order-IsBalanced in_memory in_cents "r1" "f1" 9 "o1" "owner" (some (pos 300)) true sample
      _ refund_runs sample-IsBalanced

push_order-IsSolvent_example :
    IsSolvent in_memory (push_order in_memory plain ids "o2" 9 "s1" dto none none sample).1
push_order-IsSolvent_example =
    push_order-IsSolvent in_memory plain ids "o2" 9 "s1" dto none none sample sample-IsSolvent

calc_member_pay_amounts_bounds_example :
    ((calc_member_pay_amounts whole (pos 3) (pos 1000) (pos 50) defaults).payable
        +ℤ (calc_member_pay_amounts whole (pos 3) (pos 1000) (pos 50) defaults).points_discount
      ≡ (calc_member_pay_amounts whole (pos 3) (pos 1000) (pos 50) defaults).discounted_total)
    × (pos 0 ≤ℤ (calc_member_pay_amounts whole (pos 3) (pos 1000) (pos 50) defaults).payable)
    × ((calc_member_pay_amounts whole (pos 3) (pos 1000) (pos 50) defaults).points_used
        ≤ℤ max_zero (pos 50))
unfolding calc_member_pay_amounts get_member_scan_discount_rate
calc_member_pay_amounts_bounds_example =
    calc_member_pay_amounts_bounds whole (pos 3) (pos 1000) (pos 50) defaults (omega arith)

-- Zhang's call, and one like it that comes a moment later.
abbrev zhang_pays : Call
zhang_pays = record {
  trim = plain;
  fresh = ids;
  order_id = "o2";
  now = 50;
  today = pos 3;
  pending_id = "p1";
  phone = "13811111111";
}

abbrev paid_db : Db (λ R. List R)
paid_db =
    (member_pay in_memory whole (λ s. defaults) plain ids "o2" 50 (pos 3) "p1" "13811111111"
      sample).1

member_pay-Paid_example :
    Paid in_memory whole
      (λ s. defaults)
      50
      (pos 3)
      "p1"
      "13811111111"
      (record {
        order_id = "o2";
        payable_amount = pos 850;
        points_used = pos 50;
        earn_points = pos 8;
      })
      sample
      paid_db
      (step in_memory whole (λ s. defaults) zhang_pays begun paid_db).1
member_pay-Paid_example =
    member_pay-Paid in_memory whole (λ s. defaults) plain ids "o2" 50 (pos 3) "p1" "13811111111"
      sample _ _ pay_runs (next here zhang_pays begun)

abbrev zhang_found : StorePayPending × StoreMember × Amounts whole
zhang_found = (waiting, zhang, calc_member_pay_amounts whole (pos 3) (pos 1000) (pos 50) defaults)

-- The keys of the items of the second order.
abbrev later_ids : ℕ → String
later_ids n = "j"

check_runs :
    (check_pay in_memory whole (λ s. defaults) 50 (pos 3) "p1" "13811111111" sample).0
    ≡ ok zhang_found
unfolding calc_by_pending_id_and_phone get_pending_row find_pending set_pending find_by_phone
    get_settings calc_member_pay_amounts redeem is_points_redemption_day
    get_member_scan_discount_rate ◌+ℤ◌ ◌-ℤ◌
check_runs = refl

first_keys_free : taken in_memory whole (λ s. defaults) zhang_pays zhang_found sample ≡ false
unfolding keys_taken order_infos
first_keys_free = refl

second_keys_free :
    taken in_memory whole
      (λ s. defaults)
      (again in_memory whole (λ s. defaults) zhang_pays later_ids "o3" sample zhang_found)
      zhang_found
      (first_push in_memory whole (λ s. defaults) zhang_pays later_ids "o3" sample zhang_found).1
    ≡ false
unfolding keys_taken push_order paying_member Push.find_member scanned_order charge add_order
    add_infos order_infos calc_member_pay_amounts redeem is_points_redemption_day
    get_member_scan_discount_rate ◌+ℤ◌ ◌-ℤ◌
second_keys_free = refl

zhang_found_here : Push.find_member in_memory zhang_found.1.member_id sample ≡ some zhang_found.1
unfolding Push.find_member
zhang_found_here = refl

twice_covered : zhang_found.2.payable +ℤ zhang_found.2.payable ≤ℤ zhang_found.1.balance
unfolding calc_member_pay_amounts redeem is_points_redemption_day get_member_scan_discount_rate ◌+ℤ◌
    ◌-ℤ◌
twice_covered = omega arith

overlap_charges_twice_example :
    ((final in_memory whole (λ s. defaults) zhang_pays later_ids "o3" sample zhang_found).0
      ≡ returned (ok (pay_result in_memory whole (λ s. defaults) "o2" zhang_found.2)))
    × ((final in_memory whole (λ s. defaults) zhang_pays later_ids "o3" sample zhang_found).1
        ≡ returned (ok (pay_result in_memory whole (λ s. defaults) "o3" zhang_found.2)))
    × ((m : StoreMember) × (Push.find_member in_memory "m1"
            (final in_memory whole (λ s. defaults) zhang_pays later_ids "o3" sample zhang_found).2
          ≡ some m)
        × (m.balance ≡ pos 5000 -ℤ zhang_found.2.payable -ℤ zhang_found.2.payable))
overlap_charges_twice_example =
    overlap_charges_twice in_memory whole (λ s. defaults) zhang_pays later_ids "o3" sample
      zhang_found check_runs zhang_found_here refl refl twice_covered first_keys_free
      second_keys_free
