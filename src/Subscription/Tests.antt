-- ===== src/Subscription/Tests.antt =====
-- Runs of the subscriptions, the payments and the billing on a small database, and their theorems.
use open_api.Prelude.{
  ℕ, ℤ, map, Result, pos, ◌+ℤ◌, String, ◌≡◌, refl, true, none, some, Option, List, [], ◌∷◌, ok, err,
  bad_request, arith,
}
use open_api.Schema.{
  Store, StoreServicePlan, StoreServiceSubscription, StoreServiceContract, StoreServiceInvoice,
  UserAddress, Db,
}
use open_api.Prisma.InMemory.{in_memory, empty_db}
use open_api.Prisma.Sorting.{sort_by}
use open_api.Order.{CreateOrder, NewOrder, create_order}
use open_api.Subscription.{
  Runtime, CreateSubscription, PayInvoice, find_subscription, find_plan, find_store, is_at_limit,
  subscribed_in_month, previous_subscription, orders_of_cycle, sign_up, create_subscription,
  approve_subscription, contract_id_of, pay_invoice, find_invoice,
}
use open_api.Subscription.Billing.{
  generate_monthly_invoices, bill_all, bill, bill_new, active_subscriptions, find_billed,
  mark_overdue,
}
use open_api.Subscription.Payment.{pay, billing, approve, serve, serve_all, pay_invoice_once}
use open_api.Subscription.Entitled.{approve_subscription-Served}

-- A calendar of one month, of 100 ticks.
abbrev runtime : Runtime
runtime = record {
  now = 50;
  full_year = λ at. pos 2024;
  month_of = λ at. pos 0;
  day_of = λ at. pos 1;
  set_month = λ month at. 100;
  set_day = λ day at. 8;
  local = λ year month day. 0;
  local_time = λ year month day h m s ms. 0;
  padded = λ n. "01";
  printed = λ n. "2024";
  now_text = "50";
  trim = λ s. s;
}

abbrev shop : Store
shop = record {
  store_id = "s1";
  user_id = "owner";
  store_name = "Tea";
  phone = "13900000000";
  status = pos 3;
  extra_member_limit = pos 0;
}

abbrev monthly : StoreServicePlan
monthly = record {
  id = 1;
  plan_id = "p1";
  name = "Monthly";
  description = none;
  monthly_fee = pos 30;
  max_subscriptions = some (pos 2);
  is_active = true;
}

abbrev sub : StoreServiceSubscription
sub = record {
  id = 3;
  store_id = "s1";
  plan_id = "p1";
  start_date = 10;
  end_date = 100;
  status = pos 0;
  is_infinite = true;
  order_count_last_cycle = pos 0;
  contract_id = some 2;
}

abbrev signed : StoreServiceContract
signed = record {
  id = 2;
  contract_no = "HT1";
  store_id = "s1";
  plan_id = "p1";
  start_date = 10;
  end_date = 100;
  status = pos 0;
  sign_type = pos 2;
  signed_at = none;
  total_amount = pos 30;
  file_url = none;
}

abbrev due : StoreServiceInvoice
due = record {
  id = 7;
  subscription_id = 3;
  month = "2023-12";
  start_date = 0;
  end_date = 30;
  amount = pos 30;
  status = pos 0;
  due_date = 8;
  paid_at = none;
}

abbrev home : UserAddress
home = record {
  user_address_id = "a1";
  user_id = "u1";
  place = record {
    province = "33";
    city = "3301";
    area = "330106";
    town = "0";
    address = "Road 1";
    phone = "13800000000";
    recipient = "Li";
  };
  is_default = true;
  tag = none;
  status = true;
}

abbrev sample : Db (λ R. List R)
sample = record empty_db {
  store = shop ∷ [];
  user_address = home ∷ [];
  store_service_plan = monthly ∷ [];
  store_service_subscription = sub ∷ [];
  store_service_contract = signed ∷ [];
  store_service_invoice = due ∷ [];
}

abbrev another : CreateSubscription
another = record { store_id = "s1"; plan_id = "p1"; start_date = some 50 }

abbrev cash : PayInvoice
cash = record { amount = pos 1; method = ""; remark = none }

abbrev subscribed : Result StoreServiceSubscription × Db (λ R. List R)
subscribed = create_subscription runtime in_memory another sample

-- The second subscription of the plan, with a contract and an invoice of its own.
subscribe_runs : subscribed.0 ≡ ok (record sub { id = 1; start_date = 50; contract_id = some 1 })
unfolding create_subscription find_store find_plan is_at_limit subscribed_in_month
    previous_subscription orders_of_cycle sign_up ◌+ℤ◌ sort_by
subscribe_runs = refl

pay_runs : (pay_invoice runtime in_memory 7 cash sample).0 ≡ ok tt
unfolding pay_invoice find_invoice
pay_runs = refl

-- The run of the billing leaves the paid invoice alone, and bills the approved subscription.
billed_run :
    map {B = ℕ × ℤ}
      (λ i. (i.id, i.status))
      (serve_all in_memory
        ((runtime, approve 3) ∷ (runtime, billing) ∷ [])
        (pay_invoice runtime in_memory 7 cash sample).1).store_service_invoice
    ≡ (7, pos 1) ∷ (1, pos 2) ∷ []
unfolding serve_all serve pay_invoice find_invoice approve_subscription find_subscription
    contract_id_of generate_monthly_invoices active_subscriptions bill_all bill find_billed bill_new
    find_plan mark_overdue
billed_run = refl

pay_invoice_once_example :
    let db' =
      serve_all in_memory
        ((runtime, pay 7 cash) ∷ (runtime, billing) ∷ [])
        (pay_invoice runtime in_memory 7 cash sample).1 in
    pay_invoice runtime in_memory 7 cash db' ≡ (err (bad_request "账单已支付"), db')
pay_invoice_once_example =
    pay_invoice_once in_memory runtime 7 cash sample pay_runs
      ((runtime, pay 7 cash) ∷ (runtime, billing) ∷ []) runtime cash

approve_runs :
    (approve_subscription runtime in_memory 3 sample).0 ≡ ok (some (record sub { status = pos 1 }))
unfolding approve_subscription find_subscription contract_id_of
approve_runs = refl

found_runs : find_subscription runtime in_memory 3 sample ≡ some sub
unfolding find_subscription
found_runs = refl

abbrev wanted : CreateOrder
wanted = record {
  store_id = "s1";
  user_address_id = "a1";
  goods = [];
  delivery_date = 60;
  payment_method = none;
}

abbrev ids : ℕ → String
ids n = "o1"

approve_subscription-Served_example :
    (made : String × Option NewOrder) × ((create_order in_memory ids 60 0 "u1" wanted
        (approve_subscription runtime in_memory 3 sample).1).0
      ≡ ok made)
approve_subscription-Served_example =
    approve_subscription-Served in_memory runtime 3 sample sub found_runs _ approve_runs refl 60
      (omega arith) (omega arith) ids 0 "u1" wanted refl home refl
