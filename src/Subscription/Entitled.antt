-- ===== src/Subscription/Entitled.antt =====
-- src/store/store-subscription/store-subscription.service.ts, approveSubscription, with the quota of
-- free orders of src/order/order.service.ts.
use open_api.Prelude.{
  ℕ, pos, ◌≤◌, ◌≡◌, refl, ap, sym, ◌∙◌, inl, inr, true, ◌===◌, ◌==◌, String, Option, some, is_some,
  find, Option-cases, arith, ok, find-map_where_self, is_some-find, eq_refl,
}
use mathlib.Core.Option
use open_api.Schema.{StoreServiceSubscription, UserAddress, Db}
use open_api.Prisma.{Prisma}
use open_api.Subscription.{Runtime, find_subscription, contract_id_of, approve_subscription}
use open_api.Order.{CreateOrder, NewOrder, check_store_is_infinite, create_order}
use open_api.Order.Creation.{create_order_granted_iff}

abbrev effective : StoreServiceSubscription → StoreServiceSubscription
effective s = record s { status = pos 1 }

module _ (prisma : Prisma) where
  open prisma use {Table, find_first, rows, update, find_first-rows, rows-update}

  module _ (js : Runtime) (id : ℕ) (db : Db Table) (sub : StoreServiceSubscription)
      (found : find_subscription js prisma id db ≡ some sub) where
    approve_subscription-written :
        (r : Option StoreServiceSubscription)
        → (approve_subscription js prisma id db).0 ≡ ok r
        → ((approve_subscription js prisma id db).1.store_service_subscription
            ≡ update (λ s. s.id == id) effective db.store_service_subscription)
          × ((approve_subscription js prisma id db).1.user_address ≡ db.user_address)
    unfolding approve_subscription contract_id_of
    approve_subscription-written r granted = elim (Option-cases sub.contract_id) [
      | inl missing ↦ absurd (ground arith)
      | inr (n, e) ↦ elim (Option-cases (find_first (λ c. c.id == n) db.store_service_contract)) [
        | inl missing ↦ absurd (ground arith)
        | inr (c, there) ↦ (ground arith, ground arith)
      ]
    ]

    module _ (r : Option StoreServiceSubscription)
        (granted : (approve_subscription js prisma id db).0 ≡ ok r)
        (infinite : sub.is_infinite ≡ true) (now : ℕ) (started : sub.start_date ≤ now)
        (not_ended : now ≤ sub.end_date) where
      approve_subscription-is_infinite :
          check_store_is_infinite prisma sub.store_id now (approve_subscription js prisma id db).1
          ≡ true
      unfolding check_store_is_infinite find_subscription
      approve_subscription-is_infinite =
          let written = (approve_subscription-written r granted).0 in
          let old = sym (find_first-rows (λ s. s.id == id) db.store_service_subscription) ∙ found in
          let new =
            find-map_where_self (λ s. s.id == id) effective (rows db.store_service_subscription)
              (λ s. refl)
            ∙ ap (Option.map effective) old in
          ap is_some (
            find_first-rows _ _
            ∙ ap (find _) (ap rows written ∙ rows-update _ _ db.store_service_subscription))
          ∙ is_some-find (λ s. s.id == id) _ _ (effective sub) new
              (ground (arith, eq_refl sub.store_id))

      -- While an approved subscription without a limit runs, an order of its store to an address
      -- that exists is created, however many orders the store had that day.
      pub approve_subscription-Served :
          (fresh : ℕ → String) (today : ℕ) (user_id : String) (dto : CreateOrder)
          → dto.store_id ≡ sub.store_id
          → (address : UserAddress)
          → find_first (λ a. a.user_address_id === dto.user_address_id) db.user_address
            ≡ some address
          → (made : String × Option NewOrder) × ((create_order prisma fresh now today user_id dto
                (approve_subscription js prisma id db).1).0
              ≡ ok made)
      approve_subscription-Served fresh today user_id dto own address there =
          (create_order_granted_iff prisma fresh now today user_id dto
              (approve_subscription js prisma id db).1).1
            (
              inl (
                  ap
                    (λ s.
                      check_store_is_infinite prisma s now (approve_subscription js prisma id db).1)
                    own
                  ∙ approve_subscription-is_infinite),
              (address, ap (find_first _) (approve_subscription-written r granted).1 ∙ there),
            )
