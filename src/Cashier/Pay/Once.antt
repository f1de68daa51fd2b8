-- ===== src/Cashier/Pay/Once.antt =====
-- `memberPay` (src/store/cashier/cashier.service.ts) pays a pending order once, and only out of
-- what the member has.
use open_api.Prelude.{
  ℕ, ℤ, ltb, ltb_ℤ, ◌≤ℤ◌, false, String, ◌≡◌, ◌⊎◌, inl, inr, refl, ap, ◌∙◌, err, bad_request, none,
  some, Result, ok, Refused, refused, arith, Bool-cases, Result-cases, eq_iff,
}
use open_api.Schema.{StoreMember, StorePayPending, Db}
use open_api.Prisma.{Prisma}
use open_api.Cashier.Push.{PushResult, success, failure, push_order}
use open_api.Cashier.Push.Solvent.{push_order-pay_pending}
use open_api.Cashier.Pricing.{Numbers, Settings, Amounts, calc_member_pay_amounts}
use open_api.Cashier.Pay.{
  PayResult, customer, find_pending, set_pending, find_by_phone, scanned_order, member_pay,
}
use open_api.Cashier.Pay.Steps.{Call, begun, returned, step, Steps}
use open_api.Cashier.Pay.Lasting.{IsOver, Steps-IsOver}
use open_api.Cashier.Pay.Pending.{
  find_pending-set_pending, find_pending-same, get_pending_row-pending, calc_row, calc_settled,
  calc_member, calc,
}

covered_leb : (a b : ℤ) → ltb_ℤ b a ≡ false → a ≤ℤ b
covered_leb a b h = ground arith

PushResult-cases :
    (p : PushResult)
    → ((l : String) × (m : String) × (p ≡ failure l m))
      ⊎ ((l : String) × (r : String) × (p ≡ success l r))
PushResult-cases (success l r) = inr (l, r, refl)
PushResult-cases (failure l m) = inl (l, m, refl)

module _ (prisma : Prisma) where
  open prisma use {Table, rows, update, find_first, find_first-rows, rows-update}

  module _ (js : Numbers) (stored : String → Settings js) where
    -- What a granted payment has found and changed.
    pub record Paid (now : ℕ) (today : ℤ) (id phone : String) (r : PayResult)
        (db db' later : Db Table) : Type 0 where
      pub row : StorePayPending
      pub member : StoreMember
      pub amounts : Amounts js
      pub found : find_pending prisma id db ≡ some row
      pub open_row : (row.status ≡ "pending") × (ltb row.expire_at now ≡ false)
      pub is_member : find_by_phone prisma row.store_id phone db ≡ some member
      pub priced :
          amounts
          ≡ calc_member_pay_amounts js today row.payload.total_amount member.points
              (stored row.store_id)
      pub charged : (r.payable_amount ≡ amounts.payable) × (r.points_used ≡ amounts.points_used)
      pub affordable : amounts.payable ≤ℤ member.balance
      pub paid_row :
          find_pending prisma id db'
          ≡ some (record row {
            status = "paid";
            order_id = some r.order_id;
            member_id = some member.member_id;
          })
      pub only_once :
          (c : Call)
          → (step prisma js stored (record c { pending_id = id }) begun later
              ≡ (returned (err (bad_request "订单已失效或已支付")), later))
            × Refused
                (member_pay prisma js stored c.trim c.fresh c.order_id c.now c.today id c.phone)
                later

    -- A row that is not pending cannot be paid.
    member_pay_settled :
        (id : String) (db : Db Table)
        → IsOver prisma id db
        → (c : Call)
        → (step prisma js stored (record c { pending_id = id }) begun db
            ≡ (returned (err (bad_request "订单已失效或已支付")), db))
          × Refused
              (member_pay prisma js stored c.trim c.fresh c.order_id c.now c.today id c.phone)
              db
    unfolding member_pay step
    member_pay_settled id db (row, e, settled) c =
        let (failed, same) =
          calc_settled prisma js stored c.now c.today id c.phone db row e settled in
        (
          ground arith,
          refused (member_pay prisma js stored c.trim c.fresh c.order_id c.now c.today id c.phone)
              db (λ a h. ground arith) (ground arith),
        )

    module _ (trim : String → String) (fresh : ℕ → String) (order_id : String) (now : ℕ) (today : ℤ)
        (id phone : String) (db : Db Table) where
      abbrev pay : Result PayResult × Db Table
      pay = member_pay prisma js stored trim fresh order_id now today id phone db

      abbrev push : StorePayPending × StoreMember × Amounts js → PushResult × Db Table
      push found =
          push_order prisma trim fresh order_id now found.0.store_id
            (scanned_order prisma js stored found.0.payload found.1 found.2) none (some customer)
            (calc prisma js stored now today id phone db).1

      pay_calc :
          (r : PayResult)
          → pay.0 ≡ ok r
          → (found : StorePayPending × StoreMember × Amounts js) × ((calc prisma js stored now today
                id phone db).0
              ≡ ok found)
      unfolding member_pay
      pay_calc r h = elim (Result-cases (calc prisma js stored now today id phone db).0) [
        | inl (e, failed) ↦ absurd (ground arith)
        | inr granted ↦ granted
      ]

      module _ (r : PayResult) (h : pay.0 ≡ ok r)
          (found : StorePayPending × StoreMember × Amounts js)
          (granted : (calc prisma js stored now today id phone db).0 ≡ ok found) where
        pay_affordable : ltb_ℤ found.1.balance found.2.payable ≡ false
        unfolding member_pay
        pay_affordable = elim (Bool-cases (ltb_ℤ found.1.balance found.2.payable)) [
          | inl poor ↦ absurd (ground arith)
          | inr able ↦ able
        ]

        pay_pushed :
            (local_id : String) × ((push found).0 ≡ success local_id r.order_id)
            × (r.payable_amount ≡ found.2.payable)
            × (r.points_used ≡ found.2.points_used)
        unfolding member_pay set_pending
        pay_pushed = elim (PushResult-cases (push found).0) [
          | inl (l, message, failed) ↦ absurd (ground arith)
          | inr (l, remote, pushed) ↦ (l, ground arith, ground arith, ground arith)
        ]

        pay_state :
            (local_id : String)
            → (push found).0 ≡ success local_id r.order_id
            → pay.1
              ≡ (set_pending prisma id
                  (λ p. record p {
                    status = "paid";
                    order_id = some r.order_id;
                    member_id = some found.1.member_id;
                  })
                  (push found).1).1
        unfolding member_pay
        pay_state local_id pushed = ground (arith, pay_affordable)

    -- A granted payment whose steps no other call's steps separate was for a pending row that is not
    -- overdue, by an active member of its store who has the amount that the prices give. The row is
    -- then paid, with the order's id, and whatever steps of whatever payments come after it, a
    -- payment of this row that begins later is refused at its first step and writes nothing.
    pub member_pay-Paid :
        (trim : String → String) (fresh : ℕ → String) (order_id : String) (now : ℕ) (today : ℤ)
        (id phone : String) (db later : Db Table) (r : PayResult)
        → (member_pay prisma js stored trim fresh order_id now today id phone db).0 ≡ ok r
        → Steps prisma js stored
            (member_pay prisma js stored trim fresh order_id now today id phone db).1
            later
        → Paid now today id phone r db
            (member_pay prisma js stored trim fresh order_id now today id phone db).1
            later
    member_pay-Paid trim fresh order_id now today id phone db later r h steps =
        let (found, granted) = pay_calc trim fresh order_id now today id phone db r h in
        let (got, pending, state) = calc_row prisma js stored now today id phone db found granted in
        let (here, current, same) = get_pending_row-pending prisma now id db found.0 got pending in
        let (member, priced) =
          calc_member prisma js stored now today id phone db found granted same in
        let able = pay_affordable trim fresh order_id now today id phone db r h found granted in
        let (l, pushed, payable, points) =
          pay_pushed trim fresh order_id now today id phone db r h found granted in
        let kept =
          push_order-pay_pending prisma trim fresh order_id now found.0.store_id
            (scanned_order prisma js stored found.0.payload found.1 found.2) none (some customer)
            (calc prisma js stored now today id phone db).1 in
        let still =
          find_pending-same prisma id (calc prisma js stored now today id phone db).1
            (push trim fresh order_id now today id phone db found).1 kept in
        let found_then : find_pending prisma id
              (push trim fresh order_id now today id phone db found).1
            ≡ some found.0 =
          rw (still, state, same) here in
        let run = pay_state trim fresh order_id now today id phone db r h found granted l pushed in
        let paid = find_pending-set_pending prisma id _ _ found.0 (λ p. refl) found_then in
        let affordable : found.2.payable ≤ℤ found.1.balance =
          covered_leb found.2.payable found.1.balance able in
        let over : IsOver prisma id (pay trim fresh order_id now today id phone db).1 =
          (_, ap (find_pending prisma id) run ∙ paid, refl) in
        record {
          row = found.0;
          member = found.1;
          amounts = found.2;
          found = here;
          open_row = ((eq_iff found.0.status "pending").0 pending, current);
          is_member = member;
          priced = priced;
          charged = (payable, points);
          affordable = affordable;
          paid_row = ap (find_pending prisma id) run ∙ paid;
          only_once = member_pay_settled id later (Steps-IsOver prisma js stored id steps over);
        }
