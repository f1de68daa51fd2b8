-- ===== src/Settlement/Balanced.antt =====
-- The totals of the settlements (src/store/settlement/store-settlement.service.ts and
-- platform-settlement.service.ts) against their details.
pub mod Jobs
mod Stores
mod Platforms
use mathlib.Core.List.{◌++◌}
use open_api.Prelude.{
  ℕ, suc, ℤ, pos, ◌+ℤ◌, ◌==ℤ◌, sum_ℤ, +ℤ_parts, eq_of_parts, Bool, true, false, String, ◌===◌,
  modify, ◌≡◌, refl, sym, ap, ◌∙◌, inl, inr, Option, none, some, List, [], ◌∷◌, map, select, length,
  append-nil, arith, int_laws, Action, Result, ok, All, All-append, All-map_where, Keeps, keeps,
  Returns, returns, pure-Returns, if-Returns, >>=-Returns, gets, >>=-Returns_with, >>=-Keeps,
  gets-Keeps, >>=-Keeps_with, >>=_returned, if-cases, Bool-cases, get_or, or_text,
}
use open_api.Schema.{
  UserOrder, StoreResourceOrder, StoreServicePayment, StoreOrderServiceFee, StoreSettlement,
  StoreSettlementDetail, PlatformSettlement, PlatformSettlementDetail, Db,
}
use open_api.Prisma.{Prisma}
use open_api.Settlement.{Calendar, target_month}
use open_api.Settlement.Store
use open_api.Settlement.Platform
use open_api.Settlement.Platform.{
  amounts, subscription, resource, order_service, resource_detail, platform_settlement_of,
  subscription_details, payment_store, charge_new, charge_over_quota, charge_day, charge_days,
  calculate_order_service_fee, DailyOrders,
}
use open_api.Settlement.Store.{settlement_of, detail_of}

-- The orders and the amounts of a store's settlement are those of its details.
pub record IsBalanced (s : StoreSettlement) : Type 0 where
  pub orders : s.total_orders ≡ pos (length s.details)
  pub amount : s.total_amount ≡ sum_ℤ (map (λ d. d.amount) s.details)
  pub income : s.total_income ≡ s.total_amount

-- The details of one type.
abbrev pub of_type : ℤ → List PlatformSettlementDetail → List PlatformSettlementDetail
of_type type = select (λ d. d.type ==ℤ type)

-- Each fee of a month is the sum of its type's details, and the three make up the total.
pub record IsSummed (s : PlatformSettlement) : Type 0 where
  pub subscriptions : s.total_subscription_fee ≡ sum_ℤ (amounts (of_type subscription s.details))
  pub resources : s.total_resource_fee ≡ sum_ℤ (amounts (of_type resource s.details))
  pub services : s.total_order_service_fee ≡ sum_ℤ (amounts (of_type order_service s.details))
  pub total : s.total_amount ≡ sum_ℤ (amounts s.details)

length-map : {A B : Type 0} (f : A → B) (xs : List A) → length (map f xs) ≡ length xs
length-map f [] = refl
length-map f (x ∷ xs) = ap suc (length-map f xs)

amounts-details :
    (os : List UserOrder) → map (λ d. d.amount) (map detail_of os) ≡ map (λ o. o.money) os
amounts-details [] = refl
amounts-details (o ∷ os) = ap (λ l. o.money ∷ l) (amounts-details os)

pub settlement_of-IsBalanced :
    (key store_id month : String) (start_date end_date : ℕ) (os : List UserOrder)
    → IsBalanced (settlement_of key store_id month start_date end_date os)
settlement_of-IsBalanced key store_id month start_date end_date os = record {
  orders = ap pos (sym (length-map detail_of os));
  amount = ap sum_ℤ (sym (amounts-details os));
  income = refl;
}

-- Details of one type.
abbrev pub IsOf : ℤ → PlatformSettlementDetail → Type 0
IsOf type d = d.type ≡ type

of_type-same :
    (type : ℤ) (l : List PlatformSettlementDetail) → All (IsOf type) l → of_type type l ≡ l
of_type-same type [] h = refl
of_type-same type (d ∷ ds) h = let rest = of_type-same type ds h.1 in ground (arith, h.0)

of_type-other :
    (type other : ℤ) (l : List PlatformSettlementDetail)
    → (type ==ℤ other) ≡ false
    → All (IsOf type) l
    → of_type other l ≡ []
of_type-other type other [] ne h = refl
of_type-other type other (d ∷ ds) ne h =
    let rest = of_type-other type other ds ne h.1 in ground (arith, h.0)

of_type-append :
    (type : ℤ) (xs ys : List PlatformSettlementDetail)
    → of_type type (xs ++ ys) ≡ of_type type xs ++ of_type type ys
of_type-append type [] ys = refl
of_type-append type (x ∷ xs) ys = ground (arith, of_type-append type xs ys)

sum-amounts :
    (xs ys : List PlatformSettlementDetail)
    → sum_ℤ (amounts (xs ++ ys)) ≡ sum_ℤ (amounts xs) +ℤ sum_ℤ (amounts ys)
sum-amounts [] ys = grind int_laws
sum-amounts (x ∷ xs) ys = let rest = sum-amounts xs ys in grind int_laws

pub platform_settlement_of-IsSummed :
    (prisma : Prisma) (calendar : Calendar) (key month : String)
    (payments resources fees : List PlatformSettlementDetail)
    → All (IsOf subscription) payments
    → All (IsOf resource) resources
    → All (IsOf order_service) fees
    → IsSummed (platform_settlement_of prisma calendar key month payments resources fees)
platform_settlement_of-IsSummed prisma calendar key month payments resources fees p r f =
    let split : (type : ℤ)
        → of_type type (payments ++ (resources ++ fees))
          ≡ of_type type payments ++ (of_type type resources ++ of_type type fees) =
      λ type.
        of_type-append type payments (resources ++ fees)
        ∙ ap (λ l. of_type type payments ++ l) (of_type-append type resources fees) in
    record {
      subscriptions =
          rw
            (
              split subscription,
              of_type-same subscription payments p,
              of_type-other resource subscription resources refl r,
              of_type-other order_service subscription fees refl f,
              append-nil,
            )
            refl;
      resources =
          rw
            (
              split resource,
              of_type-other subscription resource payments refl p,
              of_type-same resource resources r,
              of_type-other order_service resource fees refl f,
              append-nil,
            )
            refl;
      services =
          rw
            (
              split order_service,
              of_type-other subscription order_service payments refl p,
              of_type-other resource order_service resources refl r,
              of_type-same order_service fees f,
            )
            refl;
      total =
          let whole = sum-amounts payments (resources ++ fees) in
          let rest = sum-amounts resources fees in grind int_laws;
    }

module _ (prisma : Prisma) (calendar : Calendar) where
  open prisma use {Table, rows, rows-update, rows-create}

  -- Every settlement of a store is balanced, and every one of the platform is summed.
  unfoldable pub AllBalanced : Db Table → Type 0
  AllBalanced db =
      All IsBalanced (rows db.store_settlement) × All IsSummed (rows db.platform_settlement)

  pub add_store-AllBalanced :
      (s : StoreSettlement)
      → IsBalanced s
      → Keeps AllBalanced
          (modify (λ db. record db { store_settlement = prisma.create s db.store_settlement }))
  unfolding Keeps AllBalanced
  add_store-AllBalanced s new db h =
      rw rows-create (All-append IsBalanced (rows db.store_settlement) (s ∷ []) h.0 (new, tt), h.1)

  pub add_platform-AllBalanced :
      (s : PlatformSettlement)
      → IsSummed s
      → Keeps AllBalanced (
          modify (λ db. record db { platform_settlement = prisma.create s db.platform_settlement }))
  unfolding Keeps AllBalanced
  add_platform-AllBalanced s new db h =
      rw rows-create (h.0, All-append IsSummed (rows db.platform_settlement) (s ∷ []) h.1 (new, tt))

  pub add_fee-AllBalanced :
      (month : String) (d : DailyOrders)
      → Keeps AllBalanced (
          modify (λ db. record db {
            store_order_service_fee =
                prisma.create (Platform.fee_row prisma calendar month d) db.store_order_service_fee;
          }))
  unfolding Keeps AllBalanced
  add_fee-AllBalanced month d db h = h

  pub set_store-AllBalanced :
      (id : String) (f : StoreSettlement → StoreSettlement)
      → ((s : StoreSettlement) → IsBalanced s → IsBalanced (f s))
      → Keeps AllBalanced (
          modify (λ db. record db {
            store_settlement = prisma.update (λ s. s.settlement_id === id) f db.store_settlement;
          }))
  unfolding Keeps AllBalanced
  set_store-AllBalanced id f keep db h = rw rows-update (
    All-map_where IsBalanced (λ s. s.settlement_id === id) f (rows db.store_settlement)
        (λ x _. keep x) h.0,
    h.1,
  )

  pub set_platform-AllBalanced :
      (id : String) (f : PlatformSettlement → PlatformSettlement)
      → ((s : PlatformSettlement) → IsSummed s → IsSummed (f s))
      → Keeps AllBalanced (
          modify (λ db. record db {
            platform_settlement =
                prisma.update (λ s. s.settlement_id === id) f db.platform_settlement;
          }))
  unfolding Keeps AllBalanced
  set_platform-AllBalanced id f keep db h = rw rows-update (
    h.0,
    All-map_where IsSummed (λ s. s.settlement_id === id) f (rows db.platform_settlement)
        (λ x _. keep x) h.1,
  )
