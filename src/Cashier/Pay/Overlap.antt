-- ===== src/Cashier/Pay/Overlap.antt =====
-- Two payments of one pending order by `memberPay` (src/store/cashier/cashier.service.ts) that
-- overlap.
use open_api.Prelude.{
  ℕ, ◌+ℤ◌, ◌-ℤ◌, ◌≤ℤ◌, Bool, true, false, String, ◌===◌, ◌≡◌, refl, ap, ◌∙◌, some, List, [], ◌∷◌,
  Result, ok, arith, Bool-cases, Result-cases, ltb_ℤ, none, int_laws, inl, inr,
}
use open_api.Schema.{StoreMember, StorePayPending, Db}
use open_api.Prisma.{Prisma}
use open_api.Cashier.Push.{
  PushResult, SyncOrder, success, charged, find_member, paying_member, keys_taken, order_infos,
  too_poor,
}
use open_api.Cashier.Push.Solvent.{push_charges}
use open_api.Cashier.Pricing.{Numbers, Settings, Amounts}
use open_api.Cashier.Pay.{
  PayResult, customer, set_pending, scanned_order, check_pay, push_pay, finish_pay,
}
use open_api.Cashier.Pay.Steps.{Call, Stage, begun, returned, step, interleave}
use open_api.Cashier.Pay.Pending.{calc, calc_row, get_pending_row-pending}

module _ (prisma : Prisma) (js : Numbers) (stored : String → Settings js) where
  open prisma use {Table}

  -- Both calls check before either has paid.
  abbrev pub overlap : List Bool
  overlap = true ∷ false ∷ true ∷ false ∷ true ∷ false ∷ []

  -- Whether a key of the order that a call pushes is taken.
  abbrev pub taken : Call → StorePayPending × StoreMember × Amounts js → Db Table → Bool
  taken c found db =
      keys_taken prisma c.order_id (order_infos c.fresh c.order_id 0 found.0.payload.items)
        db.user_order db.user_order_info

  abbrev pub pay_result : String → Amounts js → PayResult
  pay_result order_id amounts = record {
    order_id = order_id;
    payable_amount = amounts.payable;
    points_used = amounts.points_used;
    earn_points = amounts.earn_points;
  }

  calc_of_check :
      (c : Call) (db : Db Table) (found : StorePayPending × StoreMember × Amounts js)
      → (check_pay prisma js stored c.now c.today c.pending_id c.phone db).0 ≡ ok found
      → ((calc prisma js stored c.now c.today c.pending_id c.phone db).0 ≡ ok found)
        × (ltb_ℤ found.1.balance found.2.payable ≡ false)
  calc_of_check c db found h =
      elim (Result-cases (calc prisma js stored c.now c.today c.pending_id c.phone db).0) [
        | inl (e, failed) ↦ absurd (ground arith)
        | inr (other, granted) ↦ elim (Bool-cases (ltb_ℤ other.1.balance other.2.payable)) [
          | inl poor ↦ absurd (ground arith)
          | inr able ↦ (ground arith, ground arith)
        ]
      ]

  -- A check that is granted writes nothing.
  check_same :
      (c : Call) (db : Db Table) (found : StorePayPending × StoreMember × Amounts js)
      → (check_pay prisma js stored c.now c.today c.pending_id c.phone db).0 ≡ ok found
      → check_pay prisma js stored c.now c.today c.pending_id c.phone db ≡ (ok found, db)
  check_same c db found h =
      let (granted, able) = calc_of_check c db found h in
      let (got, pending, state) =
        calc_row prisma js stored c.now c.today c.pending_id c.phone db found granted in
      let (here, current, same) =
        get_pending_row-pending prisma c.now c.pending_id db found.0 got pending in
      ground arith

  abbrev order_of : StorePayPending × StoreMember × Amounts js → SyncOrder
  order_of found = scanned_order prisma js stored found.0.payload found.1 found.2

  able_to_pay :
      (found : StorePayPending × StoreMember × Amounts js) (m : StoreMember)
      → found.2.payable ≤ℤ m.balance
      → too_poor (order_of found) m ≡ false
  unfolding scanned_order
  able_to_pay found m able = ground arith

  pays_self :
      (found : StorePayPending × StoreMember × Amounts js) (m : StoreMember) (db : Db Table)
      → find_member prisma found.1.member_id db ≡ some m
      → (found.1.member_id === "") ≡ false
      → (found.1.member_id === "CASHIER_GUEST") ≡ false
      → paying_member prisma (order_of found) db ≡ some m
  unfolding scanned_order paying_member
  pays_self found m db here named member = ground arith

  -- A member who can pay pays, whatever else has changed since the check.
  push_granted :
      (c : Call) (db : Db Table) (found : StorePayPending × StoreMember × Amounts js)
      (m : StoreMember)
      → find_member prisma found.1.member_id db ≡ some m
      → (found.1.member_id === "") ≡ false
      → (found.1.member_id === "CASHIER_GUEST") ≡ false
      → found.2.payable ≤ℤ m.balance
      → taken c found db ≡ false
      → ((push_pay prisma js stored c.trim c.fresh c.order_id c.now found db).0
          ≡ ok (success found.0.payload.local_id c.order_id))
        × (find_member prisma found.1.member_id
              (push_pay prisma js stored c.trim c.fresh c.order_id c.now found db).1
            ≡ some (charged (order_of found) m))
  unfolding scanned_order
  push_granted c db found m here named member able free =
      let (result, row) =
        push_charges prisma c.trim c.fresh c.order_id c.now found.0.store_id (order_of found) none
          (some customer) db m (pays_self found m db here named member) (able_to_pay found m able)
          free in
      (ap ok result, row)

  finish_kept :
      (c : Call) (found : StorePayPending × StoreMember × Amounts js)
      (local_id remote_id id : String) (db : Db Table)
      → ((finish_pay prisma js stored c.pending_id found.1 found.2
            (success local_id remote_id)
            db).0
          ≡ ok (pay_result remote_id found.2))
        × (find_member prisma id
              (finish_pay prisma js stored c.pending_id found.1 found.2
                (success local_id remote_id)
                db).1
            ≡ find_member prisma id db)
        × ((finish_pay prisma js stored c.pending_id found.1 found.2
              (success local_id remote_id)
              db).1
            ≡ (set_pending prisma c.pending_id
                (λ p. record p {
                  status = "paid";
                  order_id = some remote_id;
                  member_id = some found.1.member_id;
                })
                db).1)
  unfolding finish_pay find_member set_pending
  finish_kept c found local_id remote_id id db = (refl, refl, refl)

  -- What two overlapping payments of one pending order come to.
  module _ (c : Call) (fresh' : ℕ → String) (order_id' : String) (db : Db Table)
      (found : StorePayPending × StoreMember × Amounts js) where
    -- The second call: it differs in what the runtime supplies.
    abbrev pub again : Call
    again = record c { fresh = fresh'; order_id = order_id' }

    abbrev pub final : Stage js × Stage js × Db Table
    final = interleave prisma js stored c again overlap begun begun db

    abbrev pub first_push : Result PushResult × Db Table
    first_push = push_pay prisma js stored c.trim c.fresh c.order_id c.now found db

    abbrev second_push : Result PushResult × Db Table
    second_push = push_pay prisma js stored c.trim fresh' order_id' c.now found first_push.1

    abbrev finished : String → Db Table → Result PayResult × Db Table
    finished order_id =
        finish_pay prisma js stored c.pending_id found.1 found.2
          (success found.0.payload.local_id order_id)

    run_overlap :
        check_pay prisma js stored c.now c.today c.pending_id c.phone db ≡ (ok found, db)
        → first_push.0 ≡ ok (success found.0.payload.local_id c.order_id)
        → second_push.0 ≡ ok (success found.0.payload.local_id order_id')
        → final ≡ (
          returned (finished c.order_id second_push.1).0,
          returned (finished order_id' (finished c.order_id second_push.1).1).0,
          (finished order_id' (finished c.order_id second_push.1).1).1,
        )
    unfolding interleave step
    run_overlap check first second = ground arith

    -- The member's account after the two payments.
    second_charge :
        find_member prisma found.1.member_id db ≡ some found.1
        → (found.1.member_id === "") ≡ false
        → (found.1.member_id === "CASHIER_GUEST") ≡ false
        → found.2.payable ≤ℤ found.1.balance
        → found.2.payable ≤ℤ found.1.balance -ℤ found.2.payable
        → taken c found db ≡ false
        → taken again found first_push.1 ≡ false
        → (first_push.0 ≡ ok (success found.0.payload.local_id c.order_id))
          × (second_push.0 ≡ ok (success found.0.payload.local_id order_id'))
          × (find_member prisma found.1.member_id second_push.1
              ≡ some (charged (order_of found) (charged (order_of found) found.1)))
    unfolding scanned_order
    second_charge here named member able able' free free' =
        let (result, row) = push_granted c db found found.1 here named member able free in
        let (result', row') =
          push_granted again first_push.1 found (charged (order_of found) found.1) row named member
            able' free' in
        (result, result', row')

    -- Where the check of a payment is granted, the member's id is that member's and not the guest's,
    -- the balance covers the amount twice and the keys of both orders are free: two such payments
    -- of one pending order, which take turns from the check on, are both granted, and the member
    -- pays the amount twice.
    pub overlap_charges_twice :
        (check_pay prisma js stored c.now c.today c.pending_id c.phone db).0 ≡ ok found
        → find_member prisma found.1.member_id db ≡ some found.1
        → (found.1.member_id === "") ≡ false
        → (found.1.member_id === "CASHIER_GUEST") ≡ false
        → found.2.payable +ℤ found.2.payable ≤ℤ found.1.balance
        → taken c found db ≡ false
        → taken again found first_push.1 ≡ false
        → (final.0 ≡ returned (ok (pay_result c.order_id found.2)))
          × (final.1 ≡ returned (ok (pay_result order_id' found.2)))
          × ((m : StoreMember) × (find_member prisma found.1.member_id final.2 ≡ some m)
              × (m.balance ≡ found.1.balance -ℤ found.2.payable -ℤ found.2.payable))
    unfolding scanned_order
    overlap_charges_twice granted here named member twice free free' =
        let (price, able) = calc_of_check c db found granted in
        let once : found.2.payable ≤ℤ found.1.balance = ground arith in
        let left : found.2.payable ≤ℤ found.1.balance -ℤ found.2.payable = grind int_laws in
        let (first, second, row) = second_charge here named member once left free free' in
        let run = run_overlap (check_same c db found granted) first second in
        let id = found.1.member_id in
        let l = found.0.payload.local_id in
        let (ok1, kept1, write1) = finish_kept c found l c.order_id id second_push.1 in
        let (ok2, kept2, write2) =
          finish_kept c found l order_id' id (finished c.order_id second_push.1).1 in
        (
          ap (λ s. s.0) run ∙ ap returned ok1,
          ap (λ s. s.1) run ∙ ap returned ok2,
          (
            charged (order_of found) (charged (order_of found) found.1),
            ap (λ s. find_member prisma id s.2) run ∙ kept2 ∙ kept1 ∙ row,
            refl,
          ),
        )
