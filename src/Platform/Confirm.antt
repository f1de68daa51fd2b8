-- ===== src/Platform/Confirm.antt =====
-- Confirming a quota order (`confirmOrder`, src/platform/platform.service.ts).
use open_api.Prelude.{
  Refused, refused, ℕ, ◌+◌, zero, suc, String, ◌===◌, ◌≡◌, refl, none, some, [], ◌∷◌, ok, arith,
  find-append, find-map_where_key, Option-cases, inl, inr, eq_refl,
}
use open_api.Schema.{PlatformQuotaOrder, PlatformActivationCode, User, Db}
use open_api.Prisma.{Prisma}
use open_api.Platform.{
  find_code, find_quota_order, confirm_order, create_unique_code, code_of, order_confirmed,
  order_pending,
}

module _ (prisma : Prisma) where
  open prisma use {
    Table, rows, update, create, find_first, find_first-rows, rows-update, rows-create,
  }

  -- The code that the search settles on is in no row.
  create_unique_code_fresh :
      (n : ℕ) (candidate : ℕ → String) (db : Db Table) (code : String)
      → create_unique_code prisma n candidate db ≡ some code
      → find_code prisma code db ≡ none
  unfolding create_unique_code find_code
  create_unique_code_fresh zero candidate db code e = cc
  create_unique_code_fresh (suc n) candidate db code e =
      elim (Option-cases (find_code prisma (candidate 0) db)) [
        | inl free ↦ let settled : candidate 0 ≡ code = ground arith in rw settled at free
        | inr (c, taken) ↦
            create_unique_code_fresh n (λ i. candidate (i + 1)) db code (ground arith)
      ]

  -- What a confirmation has found and changed.
  pub record Confirmed (now : ℕ) (id : String) (admin : User) (code : PlatformActivationCode)
      (db db' : Db Table) : Type 0 where
    pub order : PlatformQuotaOrder
    pub found : find_quota_order prisma id db ≡ some order
    pub pending : order.status ≡ order_pending
    pub issued : code ≡ code_of code.code order
    pub fresh : find_code prisma code.code db ≡ none
    pub stored : find_code prisma code.code db' ≡ some code
    pub confirmed :
        find_quota_order prisma id db'
        ≡ some (record order {
          status = order_confirmed;
          confirm_date = some now;
          confirm_user_id = some admin.user_id;
        })
    pub only_once :
        (candidate : ℕ → String) (later : ℕ) (other : User)
        → Refused (confirm_order prisma candidate later id other) db'

  -- A confirmed order is confirmed no second time.
  confirm_order_again :
      (db : Db Table) (id : String) (order : PlatformQuotaOrder)
      → find_quota_order prisma id db ≡ some order
      → order.status ≡ order_confirmed
      → (candidate : ℕ → String) (later : ℕ) (other : User)
      → Refused (confirm_order prisma candidate later id other) db
  unfolding confirm_order
  confirm_order_again db id order e done candidate later other =
      refused (confirm_order prisma candidate later id other) db (λ a h. ground arith)
        (ground arith)

  module _ (candidate : ℕ → String) (now : ℕ) (id : String) (admin : User) (db : Db Table) where
    -- The tables after a confirmation.
    confirmed_db : PlatformActivationCode → Db Table
    confirmed_db code = record db {
      platform_quota_order =
          update (λ o. o.order_id === id)
            (λ o. record o {
              status = order_confirmed;
              confirm_date = some now;
              confirm_user_id = some admin.user_id;
            })
            db.platform_quota_order;
      platform_activation_code = create code db.platform_activation_code;
    }

    find_code-confirmed_db :
        (code : PlatformActivationCode)
        → find_code prisma code.code db ≡ none
        → find_code prisma code.code (confirmed_db code) ≡ some code
    unfolding confirmed_db find_code
    find_code-confirmed_db code free =
        let none_yet = rw find_first-rows at free in
        rw (find_first-rows, rows-create)
          (rw
            (find-append (λ c. c.code === code.code) (rows db.platform_activation_code) (code ∷ [])
              none_yet)
            (rw (eq_refl code.code)))

    find_quota_order-confirmed_db :
        (code : PlatformActivationCode) (order : PlatformQuotaOrder)
        → find_quota_order prisma id db ≡ some order
        → find_quota_order prisma id (confirmed_db code)
          ≡ some (record order {
            status = order_confirmed;
            confirm_date = some now;
            confirm_user_id = some admin.user_id;
          })
    unfolding confirmed_db find_quota_order
    find_quota_order-confirmed_db code order e =
        rw (find_first-rows, rows-update)
          (find-map_where_key (λ o. o.order_id) id
            (λ o. record o {
              status = order_confirmed;
              confirm_date = some now;
              confirm_user_id = some admin.user_id;
            })
            (rows db.platform_quota_order) order (λ o. refl) (rw find_first-rows at e))

    module _ (code : PlatformActivationCode)
        (h : (confirm_order prisma candidate now id admin db).0 ≡ ok code) where
      confirmed_order :
          (order : PlatformQuotaOrder) × (find_quota_order prisma id db ≡ some order)
          × (order.status ≡ order_pending)
      unfolding confirm_order
      confirmed_order = elim (Option-cases (find_quota_order prisma id db)) [
        | inl missing ↦ absurd (ground arith)
        | inr (order, e) ↦ (order, e, ground arith)
      ]

      confirmed_code :
          (order : PlatformQuotaOrder)
          → find_quota_order prisma id db ≡ some order
          → (text : String) × (create_unique_code prisma 10 candidate db ≡ some text)
            × (code ≡ code_of text order)
            × ((confirm_order prisma candidate now id admin db).1 ≡ confirmed_db code)
      unfolding confirm_order confirmed_db
      confirmed_code order e = elim (Option-cases (create_unique_code prisma 10 candidate db)) [
        | inl missing ↦ absurd (ground arith)
        | inr (text, u) ↦ (text, u, ground arith, ground arith)
      ]

  -- A confirmation issues one unused code for a pending order: a code that no row had, bound to the
  -- order's phone and quota. The order is then confirmed, and every further confirmation is refused.
  pub confirm_order-Confirmed :
      (candidate : ℕ → String) (now : ℕ) (id : String) (admin : User) (db : Db Table)
      (code : PlatformActivationCode)
      → (confirm_order prisma candidate now id admin db).0 ≡ ok code
      → Confirmed now id admin code db (confirm_order prisma candidate now id admin db).1
  confirm_order-Confirmed candidate now id admin db code h =
      let (order, e, pending) = confirmed_order candidate now id admin db code h in
      let (text, u, issued, state) = confirmed_code candidate now id admin db code h order e in
      let named : text ≡ code.code = rw issued in
      let free : find_code prisma code.code db ≡ none =
        rw named at (create_unique_code_fresh 10 candidate db text u) in
      let confirmed = find_quota_order-confirmed_db candidate now id admin db code order e in
      rw state (record {
        order = order;
        found = e;
        pending = pending;
        issued = rw named at issued;
        fresh = free;
        stored = find_code-confirmed_db candidate now id admin db code free;
        confirmed = confirmed;
        only_once =
            confirm_order_again (confirmed_db candidate now id admin db code) id _ confirmed refl;
      })
