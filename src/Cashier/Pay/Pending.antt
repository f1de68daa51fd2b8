-- ===== src/Cashier/Pay/Pending.antt =====
-- What a granted calculation of `memberPay` (src/store/cashier/cashier.service.ts) has found.
use open_api.Prelude.{
  ℕ, ℤ, ltb, true, false, ◌&&◌, String, ◌===◌, ◌≡◌, inl, inr, refl, none, some, Result, bad_request,
  ok, err, arith, find-map_where_key, Option-cases, Bool-cases, Result-cases,
}
use open_api.Schema.{StoreMember, StorePayPending, Db}
use open_api.Prisma.{Prisma}
use open_api.Cashier.Pricing.{Numbers, Settings, Amounts, calc_member_pay_amounts}
use open_api.Cashier.Pay.{
  find_pending, set_pending, get_pending_row, find_by_phone, get_settings,
  calc_by_pending_id_and_phone,
}

module _ (prisma : Prisma) where
  open prisma use {Table, rows, update, find_first, find_first-rows, rows-update}

  pub find_pending-set_pending :
      (id : String) (f : StorePayPending → StorePayPending) (db : Db Table) (row : StorePayPending)
      → ((p : StorePayPending) → (f p).pending_id ≡ p.pending_id)
      → find_pending prisma id db ≡ some row
      → find_pending prisma id (set_pending prisma id f db).1 ≡ some (f row)
  unfolding find_pending set_pending
  find_pending-set_pending id f db row keep e =
      rw (find_first-rows, rows-update)
        (find-map_where_key (λ p. p.pending_id) id f (rows db.store_pay_pending) row keep
          (rw find_first-rows at e))

  pub find_pending-same :
      (id : String) (db db' : Db Table)
      → db'.store_pay_pending ≡ db.store_pay_pending
      → find_pending prisma id db' ≡ find_pending prisma id db
  unfolding find_pending
  find_pending-same id db db' same = rw same

  -- A row that comes back as pending is the one in the table, and is not overdue.
  pub get_pending_row-pending :
      (now : ℕ) (id : String) (db : Db Table) (row : StorePayPending)
      → (get_pending_row prisma now id none db).0 ≡ ok row
      → (row.status === "pending") ≡ true
      → (find_pending prisma id db ≡ some row)
        × (ltb row.expire_at now ≡ false)
        × ((get_pending_row prisma now id none db).1 ≡ db)
  unfolding get_pending_row set_pending
  get_pending_row-pending now id db row h pending =
      elim (Option-cases (find_pending prisma id db)) [
        | inl missing ↦ absurd (ground arith)
        | inr (found, e) ↦
            elim (Bool-cases (found.status === "pending" && ltb found.expire_at now)) [
              | inl overdue ↦
                  let again = rw e at h in
                  let later = rw overdue at again in
                  let expired : row.status ≡ "expired" = ground arith in
                  absurd (let no = rw expired at pending in ground arith)
              | inr current ↦
                  let again = rw e at h in
                  let later = rw current at again in
                  let same : found ≡ row = ground arith in
                  (ground arith, ground arith, rw e (rw current refl))
            ]
      ]

  -- A row that is not pending stays as it is.
  pub get_pending_row-settled :
      (now : ℕ) (id : String) (db : Db Table) (row : StorePayPending)
      → find_pending prisma id db ≡ some row
      → (row.status === "pending") ≡ false
      → get_pending_row prisma now id none db ≡ (ok row, db)
  unfolding get_pending_row
  get_pending_row-settled now id db row e settled = ground arith

  module _ (js : Numbers) (stored : String → Settings js) where
    module _ (now : ℕ) (today : ℤ) (id phone : String) (db : Db Table) where
      abbrev pub calc : Result (StorePayPending × StoreMember × Amounts js) × Db Table
      calc = calc_by_pending_id_and_phone prisma js stored now today id phone db

      -- The row of a calculation that is granted, and the tables behind it.
      pub calc_row :
          (found : StorePayPending × StoreMember × Amounts js)
          → calc.0 ≡ ok found
          → ((get_pending_row prisma now id none db).0 ≡ ok found.0)
            × ((found.0.status === "pending") ≡ true)
            × (calc.1 ≡ (get_pending_row prisma now id none db).1)
      unfolding calc_by_pending_id_and_phone get_settings
      calc_row found h = elim (Result-cases (get_pending_row prisma now id none db).0) [
        | inl (e, failed) ↦ absurd (ground arith)
        | inr (row, got) ↦
            elim (Option-cases
              (find_by_phone prisma row.store_id phone (get_pending_row prisma now id none db).1)) [
                | inl nobody ↦ absurd (ground arith)
                | inr (member, here) ↦ (ground arith, ground arith, ground arith)
              ]
      ]

      pub calc_settled :
          (row : StorePayPending)
          → find_pending prisma id db ≡ some row
          → (row.status === "pending") ≡ false
          → (calc.0 ≡ err (bad_request "订单已失效或已支付")) × (calc.1 ≡ db)
      unfolding calc_by_pending_id_and_phone
      calc_settled row e settled =
          let same = get_pending_row-settled now id db row e settled in (ground arith, ground arith)

      pub calc_member :
          (found : StorePayPending × StoreMember × Amounts js)
          → calc.0 ≡ ok found
          → (get_pending_row prisma now id none db).1 ≡ db
          → (find_by_phone prisma found.0.store_id phone db ≡ some found.1)
            × (found.2
                ≡ calc_member_pay_amounts js today found.0.payload.total_amount found.1.points
                    (stored found.0.store_id))
      unfolding calc_by_pending_id_and_phone get_settings
      calc_member found h same = elim (Result-cases (get_pending_row prisma now id none db).0) [
        | inl (e, failed) ↦ absurd (ground arith)
        | inr (row, got) ↦ elim (Option-cases (find_by_phone prisma row.store_id phone db)) [
          | inl nobody ↦ absurd (ground arith)
          | inr (member, here) ↦ (ground arith, ground arith)
        ]
      ]
