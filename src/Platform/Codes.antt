-- ===== src/Platform/Codes.antt =====
-- Activation codes of src/platform/platform.service.ts: issued once for an order, spent once.
use open_api.Prelude.{
  ℕ, ℤ, pos, ◌+ℤ◌, false, String, ◌===◌, ◌≡◌, ◌≢◌, refl, get_or, some, if◌then◌else◌, ok, err,
  bad_request, arith, find-map_where_key, find-map_where_other, Option-cases, inl, inr, eq_iff,
}
use open_api.Schema.{Store, PlatformActivationCode, User, Db}
use open_api.Prisma.{Prisma}
use open_api.Platform.{
  Runtime, is_unbound_phone, normalized, MemberQuota, assert_bound_phone, find_store, find_code,
  get_member_quota_info, spend, is_other, redeem_member_quota_code, code_used, type_member_quota,
  free_members_per_store,
}

module _ (prisma : Prisma) (js : Runtime) where
  open prisma use {
    Table, rows, update, create, find_first, find_first-rows, rows-update, rows-create,
  }

  assert_bound_phone_lem :
      (user : User) (db : Db Table)
      → assert_bound_phone js user db ≡ (
          if is_unbound_phone js (js.trim (get_or user.phone ""))
          then (err (bad_request "请先绑定手机号"), db)
          else (ok (js.trim (get_or user.phone "")), db))
  unfolding assert_bound_phone
  assert_bound_phone_lem user db = ground arith

  get_member_quota_info-state :
      (store_id : String) (db : Db Table) → (get_member_quota_info prisma store_id db).1 ≡ db
  unfolding get_member_quota_info
  get_member_quota_info-state store_id db = ground arith

  get_member_quota_info-total_limit :
      (store_id : String) (db : Db Table) (store : Store) (info : MemberQuota)
      → find_store prisma store_id db ≡ some store
      → (get_member_quota_info prisma store_id db).0 ≡ ok info
      → info.total_limit ≡ free_members_per_store +ℤ store.extra_member_limit
  unfolding get_member_quota_info
  get_member_quota_info-total_limit store_id db store info e h = ground arith

  -- What a redemption for more members has found and changed.
  pub record Redeemed (now : ℕ) (user : User) (code store_id : String) (info : MemberQuota)
      (db db' : Db Table) : Type 0 where
    pub store : Store
    pub spent : PlatformActivationCode
    pub quota : ℤ
    pub found_store : find_store prisma store_id db ≡ some store
    pub found_code : find_code prisma (normalized js code) db ≡ some spent
    pub not_used : spent.status ≢ code_used
    pub fits : (spent.code_type ≡ type_member_quota) × (is_other spent.store_id store_id ≡ false)
    pub bound : spent.bound_phone ≡ js.trim (get_or user.phone "")
    pub amount : (spent.quota_amount ≡ some quota) × (quota ≢ pos 0)
    pub now_used : find_code prisma (normalized js code) db' ≡ some (spend now store_id spent)
    pub raised :
        find_store prisma store_id db'
        ≡ some (record store { extra_member_limit = store.extra_member_limit +ℤ quota })
    pub other_stores :
        (other : String)
        → (other === store_id) ≡ false
        → find_store prisma other db' ≡ find_store prisma other db
    pub other_codes :
        (other : String)
        → (other === normalized js code) ≡ false
        → find_code prisma other db' ≡ find_code prisma other db
    pub reported : info.total_limit ≡ free_members_per_store +ℤ (store.extra_member_limit +ℤ quota)

  module _ (now : ℕ) (user : User) (code store_id : String) (db : Db Table) where
    -- The tables after a redemption.
    redeemed_db : Store → ℤ → Db Table
    redeemed_db store quota = record db {
      platform_activation_code =
          update (λ c. c.code === normalized js code) (spend now store_id)
            db.platform_activation_code;
      store =
          update (λ s. s.store_id === store_id)
            (λ s. record s { extra_member_limit = store.extra_member_limit +ℤ quota }) db.store;
    }

    find_store-redeemed_db :
        (store : Store) (quota : ℤ)
        → find_store prisma store_id db ≡ some store
        → find_store prisma store_id (redeemed_db store quota)
          ≡ some (record store { extra_member_limit = store.extra_member_limit +ℤ quota })
    unfolding redeemed_db find_store
    find_store-redeemed_db store quota e =
        rw (find_first-rows, rows-update)
          (find-map_where_key (λ s. s.store_id) store_id
            (λ s. record s { extra_member_limit = store.extra_member_limit +ℤ quota })
            (rows db.store) store (λ s. refl) (rw find_first-rows at e))

    find_code-redeemed_db :
        (store : Store) (quota : ℤ) (c : PlatformActivationCode)
        → find_code prisma (normalized js code) db ≡ some c
        → find_code prisma (normalized js code) (redeemed_db store quota)
          ≡ some (spend now store_id c)
    unfolding redeemed_db find_code
    find_code-redeemed_db store quota c e =
        rw (find_first-rows, rows-update)
          (find-map_where_key (λ r. r.code) (normalized js code) (spend now store_id)
            (rows db.platform_activation_code) c (λ r. refl) (rw find_first-rows at e))

    find_store-redeemed_db_other :
        (other : String) (store : Store) (quota : ℤ)
        → (other === store_id) ≡ false
        → find_store prisma other (redeemed_db store quota) ≡ find_store prisma other db
    unfolding redeemed_db find_store
    find_store-redeemed_db_other other store quota ne =
        rw (find_first-rows, find_first-rows, rows-update)
          (find-map_where_other (λ s. s.store_id) store_id other
            (λ s. record s { extra_member_limit = store.extra_member_limit +ℤ quota })
            (rows db.store) (λ s. refl) ne)

    find_code-redeemed_db_other :
        (other : String) (store : Store) (quota : ℤ)
        → (other === normalized js code) ≡ false
        → find_code prisma other (redeemed_db store quota) ≡ find_code prisma other db
    unfolding redeemed_db find_code
    find_code-redeemed_db_other other store quota ne =
        rw (find_first-rows, find_first-rows, rows-update)
          (find-map_where_other (λ c. c.code) (normalized js code) other (spend now store_id)
            (rows db.platform_activation_code) (λ c. refl) ne)

    module _ (info : MemberQuota)
        (h : (redeem_member_quota_code prisma js now user code store_id db).0 ≡ ok info) where
      redeemed_store : (store : Store) × (find_store prisma store_id db ≡ some store)
      unfolding redeem_member_quota_code
      redeemed_store =
          let phone = assert_bound_phone_lem user db in
          elim (Option-cases (find_store prisma store_id db)) [
            | inl missing ↦ absurd (ground arith)
            | inr found ↦ found
          ]

      redeemed_code :
          (c : PlatformActivationCode) × (find_code prisma (normalized js code) db ≡ some c)
      unfolding redeem_member_quota_code
      redeemed_code =
          let phone = assert_bound_phone_lem user db in
          elim (Option-cases (find_code prisma (normalized js code) db)) [
            | inl missing ↦ absurd (ground arith)
            | inr found ↦ found
          ]

      module _ (store : Store) (c : PlatformActivationCode)
          (es : find_store prisma store_id db ≡ some store)
          (ec : find_code prisma (normalized js code) db ≡ some c) where
        redeemed_quota : (q : ℤ) × (c.quota_amount ≡ some q)
        unfolding redeem_member_quota_code
        redeemed_quota =
            let phone = assert_bound_phone_lem user db in
            elim (Option-cases c.quota_amount) [
              | inl missing ↦ absurd (ground arith)
              | inr found ↦ found
            ]

        redeemed_unused : c.status ≢ code_used
        unfolding redeem_member_quota_code
        redeemed_unused u = ground (arith, assert_bound_phone_lem user db)

        redeemed_fits : (c.code_type ≡ type_member_quota) × (is_other c.store_id store_id ≡ false)
        unfolding redeem_member_quota_code
        redeemed_fits =
            let phone = assert_bound_phone_lem user db in
            (ground (arith, eq_iff c.code_type type_member_quota), ground arith)

        redeemed_bound : c.bound_phone ≡ js.trim (get_or user.phone "")
        unfolding redeem_member_quota_code
        redeemed_bound = ground (
          arith,
          assert_bound_phone_lem user db,
          eq_iff c.bound_phone (js.trim (get_or user.phone "")),
        )

        module _ (q : ℤ) (eq : c.quota_amount ≡ some q) where
          redeemed_amount : q ≢ pos 0
          unfolding redeem_member_quota_code
          redeemed_amount z = ground (arith, assert_bound_phone_lem user db)

          redeemed_state :
              (redeem_member_quota_code prisma js now user code store_id db).1 ≡ redeemed_db store q
          unfolding redeem_member_quota_code redeemed_db
          redeemed_state = ground (
            arith,
            assert_bound_phone_lem user db,
            get_member_quota_info-state store_id (redeemed_db store q),
          )

          redeemed_report :
              (get_member_quota_info prisma store_id (redeemed_db store q)).0 ≡ ok info
          unfolding redeem_member_quota_code redeemed_db
          redeemed_report = ground (arith, assert_bound_phone_lem user db)

  -- A redemption spends an unused code that is bound to the user's phone and fits the store, and
  -- raises the member limit of this store by the code's quota; all other stores and codes stay.
  pub redeem_member_quota_code-Redeemed :
      (now : ℕ) (user : User) (code store_id : String) (db : Db Table) (info : MemberQuota)
      → (redeem_member_quota_code prisma js now user code store_id db).0 ≡ ok info
      → Redeemed now user code store_id info db
          (redeem_member_quota_code prisma js now user code store_id db).1
  redeem_member_quota_code-Redeemed now user code store_id db info h =
      let (store, es) = redeemed_store now user code store_id db info h in
      let (c, ec) = redeemed_code now user code store_id db info h in
      let (q, eq) = redeemed_quota now user code store_id db info h store c es ec in
      rw (redeemed_state now user code store_id db info h store c es ec q eq) (record {
        store = store;
        spent = c;
        quota = q;
        found_store = es;
        found_code = ec;
        not_used = redeemed_unused now user code store_id db info h store c es ec;
        fits = redeemed_fits now user code store_id db info h store c es ec;
        bound = redeemed_bound now user code store_id db info h store c es ec;
        amount = (eq, redeemed_amount now user code store_id db info h store c es ec q eq);
        now_used = find_code-redeemed_db now user code store_id db store q c ec;
        raised = find_store-redeemed_db now user code store_id db store q es;
        other_stores =
            λ other ne. find_store-redeemed_db_other now user code store_id db other store q ne;
        other_codes =
            λ other ne. find_code-redeemed_db_other now user code store_id db other store q ne;
        reported =
            get_member_quota_info-total_limit store_id
              (redeemed_db now user code store_id db store q) _ info
              (find_store-redeemed_db now user code store_id db store q es)
              (redeemed_report now user code store_id db info h store c es ec q eq);
      })
