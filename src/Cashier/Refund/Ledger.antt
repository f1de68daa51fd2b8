-- ===== src/Cashier/Refund/Ledger.antt =====
-- The accounts behind `refundOrder` (src/store/cashier/cashier.service.ts): what a granted refund
-- changes, and the balance of the orders' sums with the refund log.
use open_api.Prelude.{
  ℕ, ℤ, pos, ◌+ℤ◌, ◌-ℤ◌, ◌==ℤ◌, ==ℤ_iff, ◌≤ℤ◌, leb_ℤ, ltb_ℤ, Bool, true, false, not, ◌&&◌, String,
  ◌===◌, ◌≡◌, inl, inr, Option, none, some, if◌then◌else◌, ok, arith, Option-cases, Result-cases,
  eq_iff,
}
use open_api.Schema.{UserOrder, Store, StoreMember, Db}
use open_api.Prisma.{Prisma}
use open_api.Cashier.Refund.{
  RefundResult, is_guest, find_order, find_member, refund_member, pay_back, log_flow, remark,
  refund_order,
}

module _ (prisma : Prisma) (yuan : ℤ → String) where
  open prisma use {
    Table, rows, update, create, find_first, find_first-rows, rows-update, rows-create,
  }

  pub refund_member-state :
      (order : UserOrder) (db : Db Table) → (refund_member prisma yuan order db).1 ≡ db
  unfolding refund_member
  refund_member-state order db = elim (Option-cases (find_member prisma yuan order.user_id db)) [
    | inl missing ↦ ground arith
    | inr (m, e) ↦ ground arith
  ]

  -- Whom a refund pays: nobody for a guest's order, else a member of the order's store.
  unfoldable pub Payee : UserOrder → Option StoreMember → Db Table → Type 0
  Payee order none db = is_guest order ≡ true
  Payee order (some member) db =
      (is_guest order ≡ false)
      × (find_member prisma yuan order.user_id db ≡ some member)
      × (member.store_id ≡ order.store_id)

  pub refund_member-Payee :
      (order : UserOrder) (db : Db Table) (payee : Option StoreMember)
      → (refund_member prisma yuan order db).0 ≡ ok payee
      → Payee order payee db
  unfolding refund_member Payee
  refund_member-Payee order db none h =
      elim (Option-cases (find_member prisma yuan order.user_id db)) [
        | inl missing ↦ ground arith
        | inr (m, e) ↦ ground arith
      ]
  refund_member-Payee order db (some member) h =
      elim (Option-cases (find_member prisma yuan order.user_id db)) [
        | inl missing ↦ absurd (ground arith)
        | inr (m, e) ↦
            (ground arith, ground arith, ground (arith, eq_iff member.store_id order.store_id))
      ]

  module _ (recharge_id refund_id : String) (now : ℕ) (order_id user_id : String)
      (amount_cents : Option ℤ) (clear_points : Bool) where
    -- Whether the refund resets the points.
    abbrev pub clears : UserOrder → Bool
    clears order =
        not (is_guest order) && (clear_points && not (order.refund_clear_points ==ℤ pos 1))

    -- The tables after a refund.
    unfoldable pub refunded_db : UserOrder → ℤ → Option StoreMember → Db Table → Db Table
    refunded_db order amount payee db =
        let total = order.refunded_amount +ℤ amount in
        let fully = leb_ℤ order.money total in
        record db {
          store_member = pay_back prisma yuan order amount (clears order) payee db.store_member;
          store_recharge =
              log_flow prisma yuan recharge_id order amount
                (remark prisma yuan order amount fully (clears order)) payee db.store_recharge;
          user_order =
              update (λ o. o.order_id === order_id)
                (λ o. record o {
                  refunded_amount = total;
                  refund_clear_points = if clears order then pos 1 else o.refund_clear_points;
                  status = if fully then pos 2 else o.status;
                  update_date = now;
                })
                db.user_order;
          store_order_refund =
              create
                (record {
                  refund_id = refund_id;
                  store_id = order.store_id;
                  order_id = order_id;
                  amount = amount;
                  payment_method =
                      if order.payment_method === "" then none else some order.payment_method;
                })
                db.store_order_refund;
        }

    module _ (db : Db Table) (r : RefundResult)
        (h : (refund_order prisma yuan recharge_id refund_id now order_id user_id amount_cents
            clear_points db).0
          ≡ ok r) where
      pub refunded_amount_lem : (a : ℤ) × (amount_cents ≡ some a)
      unfolding refund_order
      refunded_amount_lem = elim (Option-cases amount_cents) [
        | inl missing ↦ absurd (ground arith)
        | inr found ↦ found
      ]

      module _ (a : ℤ) (ea : amount_cents ≡ some a) where
        pub refunded_order_lem :
            (order : UserOrder) × (find_order prisma yuan order_id db ≡ some order) × (pos 1 ≤ℤ a)
        unfolding refund_order
        refunded_order_lem = elim (Option-cases (find_order prisma yuan order_id db)) [
          | inl missing ↦ absurd (ground arith)
          | inr (order, e) ↦ (order, e, ground arith)
        ]

        module _ (order : UserOrder) (eo : find_order prisma yuan order_id db ≡ some order) where
          pub refunded_store_lem :
              (store : Store) × (find_first (λ s. s.store_id === order.store_id) db.store
                ≡ some store)
          unfolding refund_order
          refunded_store_lem =
              elim (Option-cases (find_first (λ s. s.store_id === order.store_id) db.store)) [
                | inl missing ↦ absurd (ground arith)
                | inr found ↦ found
              ]

          module _ (store : Store)
              (es : find_first (λ s. s.store_id === order.store_id) db.store ≡ some store) where
            pub refunded_guards_lem :
                (store.user_id ≡ user_id)
                × (order.status ≡ pos 1)
                × (ltb_ℤ (order.money -ℤ order.refunded_amount) a ≡ false)
            unfolding refund_order
            refunded_guards_lem = (
              ground (arith, eq_iff store.user_id user_id),
              ground (arith, ==ℤ_iff order.status (pos 1)),
              ground arith,
            )

            pub refunded_payee_lem :
                (payee : Option StoreMember) × ((refund_member prisma yuan order db).0 ≡ ok payee)
                × ((refund_order prisma yuan recharge_id refund_id now order_id user_id amount_cents
                      clear_points db).1
                    ≡ refunded_db order a payee db)
            unfolding refund_order refunded_db
            refunded_payee_lem =
                let same = refund_member-state order db in
                elim (Result-cases (refund_member prisma yuan order db).0) [
                  | inl (e, failed) ↦ absurd (ground arith)
                  | inr (payee, paid) ↦ (payee, paid, ground arith)
                ]
