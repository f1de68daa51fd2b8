-- ===== src/Settlement/Balanced/Platforms.antt =====
-- The calls of src/store/settlement/platform-settlement.service.ts keep the totals.
use open_api.Prelude.{
  ℕ, pos, String, modify, ◌>>=◌, refl, Option, none, some, List, [], ◌∷◌, map, All, All-append,
  Keeps, keeps, Returns, returns, pure-Returns, if-Returns, >>=-Returns, gets, >>=-Returns_with,
  >>=-Keeps, gets-Keeps, >>=-Keeps_with,
}
use open_api.Schema.{
  StoreResourceOrder, StoreServicePayment, StoreOrderServiceFee, PlatformSettlement,
  PlatformSettlementDetail,
}
use open_api.Prisma.{Prisma}
use open_api.Settlement.{Calendar, start_of, end_of}
use open_api.Settlement.Platform
use open_api.Settlement.Platform.{
  amounts, subscription, resource, order_service, resource_detail, platform_settlement_of,
  subscription_details, payment_store, charge_new, charge_over_quota, charge_day, charge_days,
  calculate_order_service_fee, DailyOrders,
}
use open_api.Settlement.Balanced.{
  IsOf, AllBalanced, platform_settlement_of-IsSummed, add_platform-AllBalanced, add_fee-AllBalanced,
  set_platform-AllBalanced,
}

module _ (prisma : Prisma) (calendar : Calendar) where
  open prisma use {Table}

  pub confirm_platform-AllBalanced :
      (id : String)
      → Keeps (AllBalanced prisma calendar) (Platform.confirm_settlement prisma calendar id)
  unfolding Platform.confirm_settlement Platform.set_settlement
  confirm_platform-AllBalanced id =
      let kept =
        set_platform-AllBalanced prisma calendar id (λ s. record s { status = pos 1 })
          (λ s b. record {
            subscriptions = b.subscriptions;
            resources = b.resources;
            services = b.services;
            total = b.total;
          }) in
      search (keeps, kept) depth 8

  pub settle_platform-AllBalanced :
      (now : ℕ) (id : String)
      → Keeps (AllBalanced prisma calendar) (Platform.settle_settlement prisma calendar now id)
  unfolding Platform.settle_settlement Platform.set_settlement
  settle_platform-AllBalanced now id =
      let kept =
        set_platform-AllBalanced prisma calendar id
          (λ s. record s { status = pos 2; settled_at = some now })
          (λ s b. record {
            subscriptions = b.subscriptions;
            resources = b.resources;
            services = b.services;
            total = b.total;
          }) in
      search (keeps, kept) depth 8

  payment_store-AllBalanced :
      (p : StoreServicePayment)
      → Keeps (AllBalanced prisma calendar) (payment_store prisma calendar p)
  unfolding payment_store
  payment_store-AllBalanced p = search keeps depth 14

  subscription_details-AllBalanced :
      (ps : List StoreServicePayment)
      → Keeps (AllBalanced prisma calendar) (subscription_details prisma calendar ps)
  unfolding subscription_details
  subscription_details-AllBalanced [] = search keeps
  subscription_details-AllBalanced (p ∷ ps) =
      let rest = subscription_details-AllBalanced ps in
      search (keeps, payment_store-AllBalanced, rest) depth 8

  subscription_details-IsOf :
      (ps : List StoreServicePayment)
      → Returns (All (IsOf subscription)) (subscription_details prisma calendar ps)
  unfolding subscription_details
  subscription_details-IsOf [] = search (returns, tt)
  subscription_details-IsOf (p ∷ ps) =
      >>=-Returns (All (IsOf subscription)) (payment_store prisma calendar p) _ (λ store_id.
        >>=-Returns_with (All (IsOf subscription)) (All (IsOf subscription))
          (subscription_details prisma calendar ps) _ (subscription_details-IsOf ps)
          (λ rest h.
            pure-Returns _ (All (IsOf subscription))
              (Platform.payment_detail prisma calendar p store_id ∷ rest) (refl, h)))

  resource_detail-IsOf :
      (os : List StoreResourceOrder) → All (IsOf resource) (map resource_detail os)
  resource_detail-IsOf [] = tt
  resource_detail-IsOf (o ∷ os) = (refl, resource_detail-IsOf os)

  module _ (month : String) where
    charge_new-AllBalanced :
        (d : DailyOrders) (existing : Option StoreOrderServiceFee)
        → Keeps (AllBalanced prisma calendar) (charge_new prisma calendar month d existing)
    unfolding charge_new
    charge_new-AllBalanced d (some fee) = search keeps
    charge_new-AllBalanced d none = search (keeps, add_fee-AllBalanced)

    charge_day-AllBalanced :
        (d : DailyOrders) → Keeps (AllBalanced prisma calendar) (charge_day prisma calendar month d)
    unfolding charge_day charge_over_quota
    charge_day-AllBalanced d = search (keeps, charge_new-AllBalanced) depth 8

    charge_days-AllBalanced :
        (ds : List DailyOrders)
        → Keeps (AllBalanced prisma calendar) (charge_days prisma calendar month ds)
    unfolding charge_days
    charge_days-AllBalanced [] = search keeps
    charge_days-AllBalanced (d ∷ ds) =
        let rest = charge_days-AllBalanced ds in
        search (keeps, charge_day-AllBalanced, rest) depth 8

    charge_new-IsOf :
        (d : DailyOrders) (existing : Option StoreOrderServiceFee)
        → Returns (All (IsOf order_service)) (charge_new prisma calendar month d existing)
    unfolding charge_new
    charge_new-IsOf d (some fee) = pure-Returns _ (All (IsOf order_service)) _ tt
    charge_new-IsOf d none = >>=-Returns (All (IsOf order_service)) (modify _) _ (λ _.
        pure-Returns _ (All (IsOf order_service)) (Platform.fee_detail prisma calendar d ∷ [])
          (refl, tt))

    charge_day-IsOf :
        (d : DailyOrders) → Returns (All (IsOf order_service)) (charge_day prisma calendar month d)
    unfolding charge_day charge_over_quota
    charge_day-IsOf d =
        if-Returns (All (IsOf order_service)) _ _ _
          (>>=-Returns (All (IsOf order_service)) (gets _) _ (charge_new-IsOf d))
          (pure-Returns _ (All (IsOf order_service)) _ tt)

    charge_days-IsOf :
        (ds : List DailyOrders)
        → Returns (All (IsOf order_service)) (charge_days prisma calendar month ds)
    unfolding charge_days
    charge_days-IsOf [] = pure-Returns _ (All (IsOf order_service)) _ tt
    charge_days-IsOf (d ∷ ds) =
        >>=-Returns_with (All (IsOf order_service)) (All (IsOf order_service))
          (charge_day prisma calendar month d) _ (charge_day-IsOf d)
          (λ first h.
            >>=-Returns_with (All (IsOf order_service)) (All (IsOf order_service))
              (charge_days prisma calendar month ds) _ (charge_days-IsOf ds)
              (λ rest k.
                pure-Returns _ (All (IsOf order_service)) _
                  (All-append (IsOf order_service) first rest h k)))

    calculate-AllBalanced :
        (start_date end_date : ℕ)
        → Keeps
            (AllBalanced prisma calendar)
            (calculate_order_service_fee prisma calendar start_date end_date month)
    unfolding calculate_order_service_fee
    calculate-AllBalanced start_date end_date = search (keeps, charge_days-AllBalanced)

    calculate-IsOf :
        (start_date end_date : ℕ)
        → Returns
            (All (IsOf order_service))
            (calculate_order_service_fee prisma calendar start_date end_date month)
    unfolding calculate_order_service_fee
    calculate-IsOf start_date end_date =
        >>=-Returns (All (IsOf order_service)) (gets _) _ charge_days-IsOf

    module _ (key : String) where
      record_settlement-AllBalanced :
          (payments resources fees : List PlatformSettlementDetail)
          → All (IsOf subscription) payments
          → All (IsOf resource) resources
          → All (IsOf order_service) fees
          → Keeps
              (AllBalanced prisma calendar)
              (Platform.record_settlement prisma calendar key month payments resources fees)
      unfolding Platform.record_settlement
      record_settlement-AllBalanced payments resources fees p r f =
          let summed =
            platform_settlement_of-IsSummed prisma calendar key month payments resources fees p r
              f in
          search (keeps, add_platform-AllBalanced, summed)

      after_payments-AllBalanced :
          (payments : List PlatformSettlementDetail)
          → All (IsOf subscription) payments
          → (bought : List StoreResourceOrder)
          → Keeps (AllBalanced prisma calendar) (
              calculate_order_service_fee prisma calendar
                (start_of calendar month)
                (end_of calendar month)
                month
              >>= λ fees.
                  Platform.record_settlement prisma calendar key month payments
                    (map resource_detail bought)
                    fees)
      after_payments-AllBalanced payments p bought =
          >>=-Keeps_with (All (IsOf order_service)) (AllBalanced prisma calendar)
            (calculate_order_service_fee prisma calendar (start_of calendar month)
              (end_of calendar month) month)
            (Platform.record_settlement prisma calendar key month payments
              (map resource_detail bought))
            (calculate-IsOf _ _) (calculate-AllBalanced _ _)
            (λ fees f.
              record_settlement-AllBalanced payments _ fees p (resource_detail-IsOf bought) f)

      generate_new-AllBalanced :
          Keeps (AllBalanced prisma calendar) (Platform.generate_new prisma calendar key month)
      unfolding Platform.generate_new
      generate_new-AllBalanced =
          >>=-Keeps (AllBalanced prisma calendar) (gets (Platform.paid_in prisma calendar month)) _
            (gets-Keeps (AllBalanced prisma calendar) _)
            (λ paid.
              >>=-Keeps_with (All (IsOf subscription)) (AllBalanced prisma calendar)
                (subscription_details prisma calendar paid) _ (subscription_details-IsOf paid)
                (subscription_details-AllBalanced paid)
                (λ payments p.
                  >>=-Keeps (AllBalanced prisma calendar)
                    (gets (Platform.bought_in prisma calendar month)) _
                    (gets-Keeps (AllBalanced prisma calendar) _)
                    (after_payments-AllBalanced payments p)))

      generate_unless-AllBalanced :
          (existing : Option PlatformSettlement)
          → Keeps
              (AllBalanced prisma calendar)
              (Platform.generate_unless prisma calendar key month existing)
      unfolding Platform.generate_unless
      generate_unless-AllBalanced none = generate_new-AllBalanced
      generate_unless-AllBalanced (some s) = search keeps

  pub generate_platform-AllBalanced :
      (key : String) (month : Option String)
      → Keeps
          (AllBalanced prisma calendar)
          (Platform.generate_monthly_settlement prisma calendar key month)
  unfolding Platform.generate_monthly_settlement
  generate_platform-AllBalanced key month = search (keeps, generate_unless-AllBalanced)
