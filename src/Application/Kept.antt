-- ===== src/Application/Kept.antt =====
-- src/store/store.service.ts: the writes of the service and a store that was approved once.
use open_api.Prelude.{
  ℕ, ℤ, ◌≡◌, refl, ap, ◌∙◌, inl, inr, true, false, String, ◌===◌, ◌==ℤ◌, Option, some, [], ◌∷◌,
  find, find-append_found, find-map_where-Holds, Option-cases, modify, Keeps,
}
use open_api.Schema.{Store, StoreResource, User, Db}
use open_api.Prisma.{Prisma}
use open_api.Application.{
  store_approved, find_store, set_store, add_history, add_store, add_resource, add_free_order,
}

module _ (prisma : Prisma) (id : String) where
  open prisma use {Table, rows, find_first, find_first-rows, rows-update, rows-create}

  abbrev pub IsOut : Store → Type 0
  IsOut s = ((s.status ==ℤ store_approved) ≡ false) × ((s.store_id === id) ≡ true)

  -- The store is not approved, and has the room of one that was.
  unfoldable pub WasApproved : Db Table → Type 0
  WasApproved db =
      ((s : Store) × (find (λ x. x.store_id === id) (rows db.store) ≡ some s) × IsOut s)
      × ((r : StoreResource) × (find (λ x. x.store_id === id) (rows db.store_resource) ≡ some r))

  pub modify-Keeps :
      (g : Db Table → Db Table)
      → ((db : Db Table) → (g db).store ≡ db.store)
      → ((db : Db Table) → (g db).store_resource ≡ db.store_resource)
      → Keeps WasApproved (modify g)
  unfolding Keeps WasApproved
  modify-Keeps g same same' db ((s, found, out), (r, there)) = (
    (s, ap (λ t. find (λ x. x.store_id === id) (rows t)) (same db) ∙ found, out),
    (r, ap (λ t. find (λ x. x.store_id === id) (rows t)) (same' db) ∙ there),
  )

  pub set_store-Keeps :
      (other : String) (f : Store → Store)
      → ((s : Store) → (f s).store_id ≡ s.store_id)
      → ((s : Store) → (s.store_id === other) ≡ true → IsOut s → IsOut (f s))
      → Keeps WasApproved (set_store prisma other f)
  unfolding Keeps WasApproved set_store
  set_store-Keeps other f same keep db ((s, found, out), resource) =
      let (t, found', out') =
        find-map_where-Holds IsOut (λ x. x.store_id === id) (λ x. x.store_id === other) f
          (rows db.store) s (λ x. ap (λ n. n === id) (same x)) keep found out in
      ((t, ap (find (λ x. x.store_id === id)) (rows-update _ f db.store) ∙ found', out'), resource)

  -- A write of a status other than that of the approved.
  pub set_status-Keeps :
      (other : String) (status : ℤ)
      → (status ==ℤ store_approved) ≡ false
      → Keeps WasApproved (set_store prisma other (λ s. record s { status = status }))
  set_status-Keeps other status apart =
      set_store-Keeps other _ (λ s. refl) (λ s hit out. (apart, out.1))

  pub add_history-Keeps :
      (now : ℕ) (other : String) (action : ℤ) (payload : Option String) (user : User)
      → Keeps WasApproved (add_history prisma now other action payload user)
  unfolding add_history
  add_history-Keeps now other action payload user = modify-Keeps _ (λ db. refl) (λ db. refl)

  pub add_free_order-Keeps :
      (now : ℕ) (order_id other : String)
      → Keeps WasApproved (add_free_order prisma now order_id other)
  unfolding add_free_order
  add_free_order-Keeps now order_id other = modify-Keeps _ (λ db. refl) (λ db. refl)

  pub add_store-Keeps : (store : Store) → Keeps WasApproved (add_store prisma store)
  unfolding Keeps WasApproved add_store
  add_store-Keeps store db ((s, found, out), resource) =
      elim (Option-cases (find_store prisma store.store_id db)) [
        | inr (t, taken) ↦ rw taken ((s, found, out), resource)
        | inl new ↦ rw new (
          (
            s,
            ap (find (λ x. x.store_id === id)) (rows-create store db.store)
                ∙ find-append_found (λ x. x.store_id === id) (rows db.store) (store ∷ []) s found,
            out,
          ),
          resource,
        )
      ]

  pub add_resource-Keeps : (other : String) → Keeps WasApproved (add_resource prisma other)
  unfolding Keeps WasApproved add_resource
  add_resource-Keeps other db (store, (r, there)) =
      elim (Option-cases (find_first (λ x. x.store_id === other) db.store_resource)) [
        | inr (t, taken) ↦ rw taken (store, (r, there))
        | inl new ↦ rw new (
          store,
          (
            r,
            ap (find (λ x. x.store_id === id)) (rows-create _ db.store_resource)
                ∙ find-append_found (λ x. x.store_id === id) (rows db.store_resource) _ r there,
          ),
        )
      ]
