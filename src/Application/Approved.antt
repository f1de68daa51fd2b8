-- ===== src/Application/Approved.antt =====
-- src/store/store.service.ts: whether a store that was approved once, and is not any more, can be
-- approved again.
use open_api.Prelude.{
  ℕ, ℤ, ◌≡◌, refl, sym, ◌∙◌, inl, inr, Bool, false, String, ◌===◌, eq_iff, ◌==ℤ◌, Option, some,
  none, List, [], ◌∷◌, find_sound, Bool-cases, Option-cases, arith, Keeps, keeps, subst,
}
use open_api.Schema.{Store, StoreResource, User, Db}
use open_api.Prisma.{Prisma}
use open_api.Platform.{
  Runtime, ValidateCode, assert_bound_phone, validate_code, check_activation_code,
  assert_store_create_allowed, redeem_store_create_code,
}
use open_api.Application.{
  CreateStoreInput, UpdateStore, store_approved, store_reviewed, applied_again, updated, find_store,
  set_store, add_history, add_resource, update_settings, apply_again, redeem_if_needed, apply_new,
  create_store, find_in_status, preview_apply, review_apply, approved_for_apply, frozen_found,
  frozen, adapter, update_store, transform, action_transform,
}
use open_api.Application.Kept.{
  WasApproved, modify-Keeps, set_store-Keeps, set_status-Keeps, add_history-Keeps,
  add_free_order-Keeps, add_store-Keeps, add_resource-Keeps,
}

-- A call of the service, with its time, new identifiers and user.
pub data Request : Type 0 where
  settings : ℕ → String → String → User → Request
  apply : ℕ → (String → String) → User → CreateStoreInput → Request
  judge : ℕ → String → String → ℤ → User → Request
  change : ℕ → String → UpdateStore → User → Request
  move : ℕ → String → User → Request

module _ (js : Runtime) (prisma : Prisma) where
  open prisma use {Table, rows, find_first, find_first-rows, rows-update, rows-create}

  -- The database after a call.
  unfoldable pub serve : Request → Db Table → Db Table
  serve (settings now id text user) db = (update_settings prisma now id text user db).1
  serve (apply now fresh user dto) db = (create_store prisma js now fresh user dto db).1
  serve (judge now order_id id status user) db = (adapter prisma now order_id id status user db).1
  serve (change now id dto user) db = (update_store prisma now id dto user db).1
  serve (move now id user) db = (transform prisma now id user db).1

  unfoldable pub serve_all : List Request → Db Table → Db Table
  serve_all [] db = db
  serve_all (request ∷ requests) db = serve_all requests (serve request db)

  module _ (id : String) where
    ruleset writes = (
      keeps, modify-Keeps, set_status-Keeps, add_history-Keeps, add_free_order-Keeps,
      add_store-Keeps, add_resource-Keeps, refl,
    )

    update_settings-Keeps :
        (now : ℕ) (other text : String) (user : User)
        → Keeps (WasApproved prisma id) (update_settings prisma now other text user)
    unfolding update_settings
    update_settings-Keeps now other text user = search (writes) depth 14

    applied_again-Keeps :
        (other : String) (dto : CreateStoreInput)
        → Keeps (WasApproved prisma id) (set_store prisma other (applied_again dto))
    applied_again-Keeps other dto =
        set_store-Keeps prisma id other _ (λ s. refl) (λ s hit out. (refl, out.1))

    apply_again-Keeps :
        (now : ℕ) (other : String) (user : User) (dto : CreateStoreInput)
        → Keeps (WasApproved prisma id) (apply_again prisma now other user dto)
    unfolding apply_again
    apply_again-Keeps now other user dto = search (writes, applied_again-Keeps) depth 14

    assert_bound_phone-Keeps :
        (user : User) → Keeps (WasApproved prisma id) (assert_bound_phone js {S = Db Table} user)
    unfolding assert_bound_phone
    assert_bound_phone-Keeps user = search (keeps) depth 10

    redeem-Keeps :
        (now : ℕ) (user : User) (code other : String)
        → Keeps (WasApproved prisma id) (redeem_store_create_code prisma js now user code other)
    unfolding redeem_store_create_code
    redeem-Keeps now user code other = search (writes, assert_bound_phone-Keeps) depth 20

    redeem_if_needed-Keeps :
        (now : ℕ) (needed : Bool) (code : Option String) (user : User) (other : String)
        → Keeps (WasApproved prisma id) (redeem_if_needed prisma js now needed code user other)
    unfolding redeem_if_needed
    redeem_if_needed-Keeps now needed code user other = search (keeps, redeem-Keeps) depth 10

    validate_code-Keeps :
        (user : User) (dto : ValidateCode)
        → Keeps (WasApproved prisma id) (validate_code prisma js user dto)
    unfolding validate_code
    validate_code-Keeps user dto = search (keeps, assert_bound_phone-Keeps) depth 20

    check_activation_code-Keeps :
        (user : User) (code : Option String)
        → Keeps (WasApproved prisma id) (check_activation_code prisma js user code)
    unfolding check_activation_code
    check_activation_code-Keeps user code = search (keeps, validate_code-Keeps) depth 14

    assert_store_create_allowed-Keeps :
        (user : User) (code : Option String)
        → Keeps (WasApproved prisma id) (assert_store_create_allowed prisma js user code)
    unfolding assert_store_create_allowed
    assert_store_create_allowed-Keeps user code =
        search (keeps, check_activation_code-Keeps) depth 14

    apply_new-Keeps :
        (now : ℕ) (fresh : String → String) (user : User) (dto : CreateStoreInput)
        → Keeps (WasApproved prisma id) (apply_new prisma js now fresh user dto)
    unfolding apply_new
    apply_new-Keeps now fresh user dto =
        search (writes, assert_store_create_allowed-Keeps, redeem_if_needed-Keeps) depth 24

    create_store-Keeps :
        (now : ℕ) (fresh : String → String) (user : User) (dto : CreateStoreInput)
        → Keeps (WasApproved prisma id) (create_store prisma js now fresh user dto)
    unfolding create_store
    create_store-Keeps now fresh user dto =
        search (keeps, apply_new-Keeps, apply_again-Keeps) depth 10

    preview_apply-Keeps :
        (now : ℕ) (other : String) (user : User)
        → Keeps (WasApproved prisma id) (preview_apply prisma now other user)
    unfolding preview_apply
    preview_apply-Keeps now other user = search (writes) depth 14

    review_apply-Keeps :
        (now : ℕ) (other : String) (user : User)
        → Keeps (WasApproved prisma id) (review_apply prisma now other user)
    unfolding review_apply
    review_apply-Keeps now other user = search (writes) depth 14

    frozen_found-Keeps :
        (now : ℕ) (other : String) (user : User) (store : Store)
        → Keeps (WasApproved prisma id) (frozen_found prisma now other user store)
    unfolding frozen_found
    frozen_found-Keeps now other user store = search (writes) depth 14

    frozen-Keeps :
        (now : ℕ) (other : String) (user : User)
        → Keeps (WasApproved prisma id) (frozen prisma now other user)
    unfolding frozen
    frozen-Keeps now other user = search (keeps, frozen_found-Keeps) depth 14

    -- The approval of another store.
    set_approved-Keeps :
        (other : String)
        → (other === id) ≡ false
        → Keeps
            (WasApproved prisma id)
            (set_store prisma other (λ s. record s { status = store_approved }))
    set_approved-Keeps other apart =
        set_store-Keeps prisma id other _ (λ s. refl)
          (λ s hit out.
            absurd (
              ground
                (arith, out.1, eq_iff s.store_id other, eq_iff s.store_id id, eq_iff other id)))

    -- The approval is undone where the store has its room already.
    approved_for_apply-undone :
        (now : ℕ) (order_id content : String) (user : User) (db : Db Table) (r : StoreResource)
        → find_first (λ x. x.store_id === id) db.store_resource ≡ some r
        → (approved_for_apply prisma now order_id id content user db).1 ≡ db
    unfolding approved_for_apply set_store add_history add_resource
    approved_for_apply-undone now order_id content user db r there =
        elim (Option-cases (find_in_status prisma id store_reviewed db)) [
          | inl missing ↦ rw missing refl
          | inr (s, found) ↦ ground (arith, found, there)
        ]

    approved_for_apply-own :
        (now : ℕ) (order_id content : String) (user : User)
        → Keeps (WasApproved prisma id) (approved_for_apply prisma now order_id id content user)
    unfolding Keeps WasApproved
    approved_for_apply-own now order_id content user db (store, (r, there)) =
        let first = find_first-rows (λ x. x.store_id === id) db.store_resource ∙ there in
        subst (WasApproved prisma id)
          (sym (approved_for_apply-undone now order_id content user db r first)) (store, (r, there))

    approved_for_apply-Keeps :
        (now : ℕ) (order_id other content : String) (user : User)
        → Keeps (WasApproved prisma id) (approved_for_apply prisma now order_id other content user)
    unfolding approved_for_apply
    approved_for_apply-Keeps now order_id other content user = elim (Bool-cases (other === id)) [
      | inl same ↦
          subst
            (λ o.
              Keeps (WasApproved prisma id) (approved_for_apply prisma now order_id o content user))
            (sym ((eq_iff other id).0 same)) (approved_for_apply-own now order_id content user)
      | inr apart ↦ let status = set_approved-Keeps other apart in search (writes, status) depth 14
    ]

    adapter-Keeps :
        (now : ℕ) (order_id other : String) (status : ℤ) (user : User)
        → Keeps (WasApproved prisma id) (adapter prisma now order_id other status user)
    unfolding adapter
    adapter-Keeps now order_id other status user =
        search
          (keeps, preview_apply-Keeps, review_apply-Keeps, approved_for_apply-Keeps, frozen-Keeps)
          depth 14

    update_store-Keeps :
        (now : ℕ) (other : String) (dto : UpdateStore) (user : User)
        → Keeps (WasApproved prisma id) (update_store prisma now other dto user)
    unfolding update_store
    update_store-Keeps now other dto user =
        let fields = set_store-Keeps prisma id other (updated dto) (λ s. refl) (λ s hit out. out) in
        search (writes, fields) depth 14

    serve-WasApproved :
        (request : Request) (db : Db Table)
        → WasApproved prisma id db
        → WasApproved prisma id (serve request db)
    unfolding serve Keeps transform
    serve-WasApproved (settings now other text user) = update_settings-Keeps now other text user
    serve-WasApproved (apply now fresh user dto) = create_store-Keeps now fresh user dto
    serve-WasApproved (judge now order_id other status user) =
        adapter-Keeps now order_id other status user
    serve-WasApproved (change now other dto user) = update_store-Keeps now other dto user
    serve-WasApproved (move now other user) =
        add_history-Keeps prisma id now other action_transform none user

    serve_all-WasApproved :
        (requests : List Request) (db : Db Table)
        → WasApproved prisma id db
        → WasApproved prisma id (serve_all requests db)
    unfolding serve_all
    serve_all-WasApproved [] db h = h
    serve_all-WasApproved (request ∷ requests) db h =
        serve_all-WasApproved requests (serve request db) (serve-WasApproved request db h)

    -- A store that has its room for images, and whose status is not that of an approved one, is never
    -- approved again: whatever calls of the service come, it is there with another status.
    pub approved_unreachable :
        (db : Db Table) (s : Store) (r : StoreResource)
        → find_store prisma id db ≡ some s
        → (s.status ==ℤ store_approved) ≡ false
        → find_first (λ x. x.store_id === id) db.store_resource ≡ some r
        → (requests : List Request)
        → (t : Store) × (find_store prisma id (serve_all requests db) ≡ some t)
          × ((t.status ==ℤ store_approved) ≡ false)
    unfolding find_store WasApproved
    approved_unreachable db s r found out there requests =
        let first = sym (find_first-rows (λ x. x.store_id === id) db.store) ∙ found in
        let own = find_sound (λ x. x.store_id === id) (rows db.store) s first in
        let ((t, found', out'), resource) = serve_all-WasApproved requests db (
          (s, first, (out, own)),
          (r, sym (find_first-rows (λ x. x.store_id === id) db.store_resource) ∙ there),
        ) in
        (t, find_first-rows (λ x. x.store_id === id) (serve_all requests db).store ∙ found', out'.0)
