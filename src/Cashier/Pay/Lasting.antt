-- ===== src/Cashier/Pay/Lasting.antt =====
-- A pending order that is paid or expired stays so, whatever steps of `memberPay`
-- (src/store/cashier/cashier.service.ts) come.
use open_api.Prelude.{
  ℕ, ℤ, false, String, ◌===◌, ◌≡◌, refl, sym, subst, ◌∙◌, if◌then◌else◌, inl, inr, Option, none,
  some, Keeps, keeps, raise-Keeps, find-map_where_other, Bool-cases, eq_iff, bad_request,
}
use open_api.Schema.{StoreMember, StorePayPending, Db}
use open_api.Prisma.{Prisma}
use open_api.Cashier.Push.{PushResult, success, failure}
use open_api.Cashier.Push.Solvent.{push_order-pay_pending}
use open_api.Cashier.Pricing.{Numbers, Settings, Amounts}
use open_api.Cashier.Pay.{
  customer, find_pending, set_pending, refresh, get_pending_row, get_settings,
  calc_by_pending_id_and_phone, scanned_order, check_pay, finish_pay,
}
use open_api.Cashier.Pay.Pending.{find_pending-set_pending, find_pending-same}
use open_api.Cashier.Pay.Steps.{
  Call, Stage, begun, checked, pushed, returned, step, Steps, here, next,
}

module _ (prisma : Prisma) where
  open prisma use {Table, rows, find_first-rows, rows-update}

  -- The row of this id is there, and is no longer pending.
  abbrev pub IsOver : String → Db Table → Type 0
  IsOver id db =
      (row : StorePayPending) × (find_pending prisma id db ≡ some row)
      × ((row.status === "pending") ≡ false)

  set_pending-Keeps :
      (id other : String) (f : StorePayPending → StorePayPending)
      → ((p : StorePayPending) → (f p).pending_id ≡ p.pending_id)
      → ((p : StorePayPending) → ((f p).status === "pending") ≡ false)
      → Keeps (IsOver id) (set_pending prisma other f)
  unfolding Keeps find_pending set_pending
  set_pending-Keeps id other f keep over db (row, e, settled) = elim (Bool-cases (id === other)) [
    | inl same ↦
        subst (λ o. IsOver id (set_pending prisma o f db).1) ((eq_iff id other).0 same)
          (f row, find_pending-set_pending prisma id f db row keep e, over row)
    | inr differs ↦ (
      row,
      rw (find_first-rows, rows-update)
            (find-map_where_other (λ p. p.pending_id) other id f (rows db.store_pay_pending) keep
              differs)
          ∙ sym (find_first-rows _ db.store_pay_pending)
          ∙ e,
      settled,
    )
  ]

  get_pending_row-Keeps :
      (id : String) (now : ℕ) (other : String) (store_id : Option String)
      → Keeps (IsOver id) (get_pending_row prisma now other store_id)
  unfolding get_pending_row refresh
  get_pending_row-Keeps id now other store_id =
      let expired =
        set_pending-Keeps id other (λ p. record p { status = "expired" }) (λ p. refl) (λ p. refl) in
      search (keeps, expired) depth 20

  module _ (js : Numbers) (stored : String → Settings js) where
    check_pay-Keeps :
        (id : String) (now : ℕ) (today : ℤ) (other phone : String)
        → Keeps (IsOver id) (check_pay prisma js stored now today other phone)
    unfolding calc_by_pending_id_and_phone get_settings
    check_pay-Keeps id now today other phone =
        let row = get_pending_row-Keeps id now other none in search (keeps, row) depth 20

    finish_pay-Keeps :
        (id other : String) (m : StoreMember) (amounts : Amounts js) (result : PushResult)
        → Keeps (IsOver id) (finish_pay prisma js stored other m amounts result)
    unfolding finish_pay
    finish_pay-Keeps id other m amounts (failure l message) =
        raise-Keeps _ _ (bad_request (if message === "" then "支付失败，请联系店员充值" else message))
    finish_pay-Keeps id other m amounts (success l remote) =
        let paid =
          set_pending-Keeps id other
            (λ p. record p {
              status = "paid";
              order_id = some remote;
              member_id = some m.member_id;
            })
            (λ p. refl) (λ p. refl) in
        search (keeps, paid) depth 10

    -- A step of any call, at any stage.
    step-IsOver :
        (id : String) (c : Call) (a : Stage js) (db : Db Table)
        → IsOver id db
        → IsOver id (step prisma js stored c a db).1
    unfolding step Keeps
    step-IsOver id c begun db over = check_pay-Keeps id c.now c.today c.pending_id c.phone db over
    step-IsOver id c (checked found) db (row, e, settled) =
        let kept =
          push_order-pay_pending prisma c.trim c.fresh c.order_id c.now found.0.store_id
            (scanned_order prisma js stored found.0.payload found.1 found.2) none (some customer)
            db in
        (row, find_pending-same prisma id db _ kept ∙ e, settled)
    step-IsOver id c (pushed found result) db over =
        finish_pay-Keeps id c.pending_id found.1 found.2 result db over
    step-IsOver id c (returned r) db over = over

    pub Steps-IsOver :
        (id : String) {db db' : Db Table}
        → Steps prisma js stored db db'
        → IsOver id db
        → IsOver id db'
    Steps-IsOver id here over = over
    Steps-IsOver id (next steps c a) over = step-IsOver id c a _ (Steps-IsOver id steps over)
