-- ===== src/Settlement/Platform.antt =====
-- src/store/settlement/platform-settlement.service.ts
use Prim.Native.String.{◌++◌}
use mathlib.Core.List.{◌++◌ as append}
use open_api.Prelude.{
  ℕ, ◌-◌, ℤ, pos, ◌+ℤ◌, ◌==ℤ◌, sum_ℤ, ltb, Bool, true, false, ◌&&◌, String, ◌===◌, ◌==◌, length,
  map, select, Option, none, some, List, [], ◌∷◌, if◌then◌else◌, Action, record_missing, pure, gets,
  or_raise, modify, ◌>>=◌, ◌>>◌,
}
use open_api.Schema.{
  UserOrder, StoreServicePayment, StoreResourceOrder, StoreOrderServiceFee, PlatformSettlement,
  PlatformSettlementDetail, Db,
}
use open_api.Prisma.{Prisma}
use open_api.Settlement.{Calendar, start_of, end_of, target_month, distinct}
use open_api.Settlement.Store.{is_within}

-- E_PLATFORM_SETTLEMENT_TYPE
abbrev pub subscription : ℤ
subscription = pos 1

abbrev pub resource : ℤ
resource = pos 2

abbrev pub order_service : ℤ
order_service = pos 3

-- FREE_ORDER_QUOTA_PER_DAY and SERVICE_FEE_PER_DAY
abbrev pub free_order_quota_per_day : ℕ
free_order_quota_per_day = 10

abbrev pub service_fee_per_day : ℤ
service_fee_per_day = pos 10

-- The result of a run: the details are those of a settlement that it creates.
pub record PlatformSettled : Type 0 where
  pub settlement : PlatformSettlement
  pub details : List PlatformSettlementDetail
  pub skipped : Bool

-- A row of the query in SQL: the orders of a store on a day.
pub record DailyOrders : Type 0 where
  pub store_id : String
  pub order_date : String
  pub order_count : ℕ

abbrev pub amounts : List PlatformSettlementDetail → List ℤ
amounts = map (λ d. d.amount)

abbrev pub resource_detail : StoreResourceOrder → PlatformSettlementDetail
resource_detail o = record {
  type = resource;
  ref_id = o.order_id;
  store_id = o.store_id;
  amount = o.price;
  remark = some ("资源购买 #" ++ o.order_id);
}

module _ (prisma : Prisma) (calendar : Calendar) where
  open prisma use {Table, find_first, find_many, update, create}

  unfoldable pub find_month : String → Db Table → Option PlatformSettlement
  find_month month db = find_first (λ s. s.month === month) db.platform_settlement

  abbrev pub payment_detail : StoreServicePayment → String → PlatformSettlementDetail
  payment_detail p store_id = record {
    type = subscription;
    ref_id = calendar.decimal p.id;
    store_id = store_id;
    amount = p.amount;
    remark = some ("订阅支付 #" ++ calendar.decimal p.invoice_id);
  }

  -- The store of a payment, through its invoice and its subscription.
  unfoldable pub payment_store : StoreServicePayment → Action (Db Table) String
  payment_store p = do
    invoice ←
        or_raise (← gets (λ db. find_first (λ i. i.id == p.invoice_id) db.store_service_invoice))
          record_missing
    subscribed ←
        or_raise
          (← gets
            (λ db. find_first (λ s. s.id == invoice.subscription_id) db.store_service_subscription))
          record_missing
    pure subscribed.store_id

  unfoldable pub subscription_details :
      List StoreServicePayment → Action (Db Table) (List PlatformSettlementDetail)
  subscription_details [] = pure []
  subscription_details (p ∷ ps) = do
    store_id ← payment_store p
    rest ← subscription_details ps
    pure (payment_detail p store_id ∷ rest)

  -- `SELECT store_id, date(create_date), COUNT(*) … GROUP BY store_id, date(create_date)`
  unfoldable pub days_of : List UserOrder → String → List DailyOrders
  days_of orders store_id =
      map
        (λ day. record {
          store_id = store_id;
          order_date = day;
          order_count =
              length (
                select (λ o. o.store_id === store_id && calendar.date o.create_date === day)
                  orders);
        })
        (distinct
          (map (λ o. calendar.date o.create_date) (select (λ o. o.store_id === store_id) orders)))

  unfoldable pub grouped : List UserOrder → List String → List DailyOrders
  grouped orders [] = []
  grouped orders (store_id ∷ rest) = append (days_of orders store_id) (grouped orders rest)

  unfoldable pub daily_orders : ℕ → ℕ → Db Table → List DailyOrders
  daily_orders start_date end_date db =
      let orders =
        find_many (λ o. is_within start_date end_date o.create_date && o.status ==ℤ pos 0)
          db.user_order in
      grouped orders (distinct (map (λ o. o.store_id) orders))

  -- `daily_${store_id}_${order_date}`
  abbrev pub daily_id : DailyOrders → String
  daily_id d = "daily_" ++ d.store_id ++ "_" ++ d.order_date

  abbrev pub fee_detail : DailyOrders → PlatformSettlementDetail
  fee_detail d = record {
    type = order_service;
    ref_id = daily_id d;
    store_id = d.store_id;
    amount = service_fee_per_day;
    remark = some (
        "订单服务费 "
        ++ d.order_date
        ++ " (超出"
        ++ calendar.decimal (d.order_count - free_order_quota_per_day)
        ++ "单)");
  }

  abbrev pub fee_row : String → DailyOrders → StoreOrderServiceFee
  fee_row month d = record {
    store_id = d.store_id;
    order_id = daily_id d;
    fee_date = calendar.time_of d.order_date;
    fee_amount = service_fee_per_day;
    month = month;
    is_charged = true;
  }

  -- The fee of a day over the quota, unless it is recorded.
  unfoldable pub charge_new :
      String
      → DailyOrders
      → Option StoreOrderServiceFee
      → Action (Db Table) (List PlatformSettlementDetail)
  charge_new month d (some existing_fee) = pure []
  charge_new month d none = do
    modify (λ db. record db {
      store_order_service_fee = create (fee_row month d) db.store_order_service_fee;
    })
    pure (fee_detail d ∷ [])

  unfoldable pub find_fee : DailyOrders → Db Table → Option StoreOrderServiceFee
  find_fee d db =
      find_first (λ f. f.store_id === d.store_id && f.fee_date == calendar.time_of d.order_date)
        db.store_order_service_fee

  unfoldable pub charge_over_quota :
      String → DailyOrders → Action (Db Table) (List PlatformSettlementDetail)
  charge_over_quota month d = do existing_fee ← gets (find_fee d); charge_new month d existing_fee

  unfoldable pub charge_day :
      String → DailyOrders → Action (Db Table) (List PlatformSettlementDetail)
  charge_day month d =
      if ltb free_order_quota_per_day d.order_count then charge_over_quota month d else pure []

  unfoldable pub charge_days :
      String → List DailyOrders → Action (Db Table) (List PlatformSettlementDetail)
  charge_days month [] = pure []
  charge_days month (d ∷ ds) = do
    detail ← charge_day month d
    rest ← charge_days month ds
    pure (append detail rest)

  unfoldable pub calculate_order_service_fee :
      ℕ → ℕ → String → Action (Db Table) (List PlatformSettlementDetail)
  calculate_order_service_fee start_date end_date month = do
    days ← gets (daily_orders start_date end_date)
    charge_days month days

  unfoldable pub paid_in : String → Db Table → List StoreServicePayment
  paid_in month db =
      find_many (λ p. is_within (start_of calendar month) (end_of calendar month) p.paid_at)
        db.store_service_payment

  -- The orders for resources that were paid for and approved.
  unfoldable pub bought_in : String → Db Table → List StoreResourceOrder
  bought_in month db =
      find_many
        (λ o.
          is_within (start_of calendar month) (end_of calendar month) o.create_date
          && (o.type ==ℤ pos 2 && o.status ==ℤ pos 1))
        db.store_resource_order

  -- The row of a month.
  abbrev pub platform_settlement_of :
      String
      → String
      → List PlatformSettlementDetail
      → List PlatformSettlementDetail
      → List PlatformSettlementDetail
      → PlatformSettlement
  platform_settlement_of key month payments resources fees = record {
    settlement_id = key;
    month = month;
    total_subscription_fee = sum_ℤ (amounts payments);
    total_resource_fee = sum_ℤ (amounts resources);
    total_order_service_fee = sum_ℤ (amounts fees);
    total_amount = sum_ℤ (amounts payments) +ℤ sum_ℤ (amounts resources) +ℤ sum_ℤ (amounts fees);
    start_date = start_of calendar month;
    end_date = end_of calendar month;
    status = pos 0;
    settled_at = none;
    details = append payments (append resources fees);
  }

  module _ (key : String) (month : String) where
    unfoldable pub record_settlement :
        List PlatformSettlementDetail
        → List PlatformSettlementDetail
        → List PlatformSettlementDetail
        → Action (Db Table) PlatformSettled
    record_settlement payments resources fees = do
      modify (λ db. record db {
        platform_settlement =
            create (platform_settlement_of key month payments resources fees)
              db.platform_settlement;
      })
      pure (record {
        settlement = platform_settlement_of key month payments resources fees;
        details = append payments (append resources fees);
        skipped = false;
      })

    unfoldable pub generate_new : Action (Db Table) PlatformSettled
    generate_new = do
      paid ← gets (paid_in month)
      payments ← subscription_details paid
      bought ← gets (bought_in month)
      fees ← calculate_order_service_fee (start_of calendar month) (end_of calendar month) month
      record_settlement payments (map resource_detail bought) fees

    unfoldable pub generate_unless : Option PlatformSettlement → Action (Db Table) PlatformSettled
    generate_unless (some existing) =
        pure (record { settlement = existing; details = []; skipped = true })
    generate_unless none = generate_new

  unfoldable pub generate_monthly_settlement :
      String → Option String → Action (Db Table) PlatformSettled
  generate_monthly_settlement key month = do
    existing ← gets (find_month (target_month calendar month))
    generate_unless key (target_month calendar month) existing

  unfoldable pub set_settlement :
      String → (PlatformSettlement → PlatformSettlement) → Action (Db Table) (Unit {0})
  set_settlement id f = do
    or_raise (← gets (λ db. find_first (λ s. s.settlement_id === id) db.platform_settlement))
        record_missing
    modify (λ db. record db {
      platform_settlement = update (λ s. s.settlement_id === id) f db.platform_settlement;
    })

  unfoldable pub confirm_settlement : String → Action (Db Table) (Unit {0})
  confirm_settlement id = set_settlement id (λ s. record s { status = pos 1 })

  unfoldable pub settle_settlement : ℕ → String → Action (Db Table) (Unit {0})
  settle_settlement now id =
      set_settlement id (λ s. record s { status = pos 2; settled_at = some now })
