-- ===== src/Cashier/Refund/Balance.antt =====
-- What a granted `refundOrder` (src/store/cashier/cashier.service.ts) changes, and the balance of the
-- orders' refunded sums with the refund log.
use open_api.Prelude.{
  ℕ, ℤ, pos, ◌+ℤ◌, ◌==ℤ◌, ◌≤ℤ◌, leb_ℤ, sum_ℤ, int_laws, Bool, true, false, not, ◌&&◌, String, ◌===◌,
  ◌≡◌, inl, inr, refl, ap, Option, none, some, List, [], ◌∷◌, ◌++◌, map, if◌then◌else◌, ok, arith,
  select, select-append, find-map_where_key, find-map_where_other, Option-cases, Bool-cases, eq_iff,
}
use open_api.Schema.{UserOrder, Store, StoreMember, StoreOrderRefund, Db}
use open_api.Prisma.{Prisma}
use open_api.Cashier.Refund.{
  RefundResult, is_guest, restored_points, find_order, find_member, pay_back, refund_order,
}
use open_api.Cashier.Refund.Ledger.{
  Payee, refund_member-Payee, clears, refunded_db, refunded_amount_lem, refunded_order_lem,
  refunded_store_lem, refunded_guards_lem, refunded_payee_lem,
}

-- The sum of the refund log's amounts for an order.
abbrev pub logged : String → List StoreOrderRefund → ℤ
logged id logs = sum_ℤ (map (λ r. r.amount) (select (λ r. r.order_id === id) logs))

sum_ℤ-snoc :
    (logs : List StoreOrderRefund) (r : StoreOrderRefund)
    → sum_ℤ (map (λ r. r.amount) (logs ++ r ∷ [])) ≡ sum_ℤ (map (λ r. r.amount) logs) +ℤ r.amount
sum_ℤ-snoc [] r = grind int_laws
sum_ℤ-snoc (l ∷ ls) r = grind (int_laws, sum_ℤ-snoc ls r)

-- A further row of the log counts for its own order, and only for it.
logged_same :
    (id : String) (logs : List StoreOrderRefund) (r : StoreOrderRefund)
    → (r.order_id === id) ≡ true
    → logged id (logs ++ r ∷ []) ≡ logged id logs +ℤ r.amount
logged_same id logs r same =
    rw (select-append (λ r. r.order_id === id) logs (r ∷ []), same)
      (sum_ℤ-snoc (select (λ r. r.order_id === id) logs) r)

logged_other :
    (id : String) (logs : List StoreOrderRefund) (r : StoreOrderRefund)
    → (r.order_id === id) ≡ false
    → logged id (logs ++ r ∷ []) ≡ logged id logs
logged_other id [] r other = rw other
logged_other id (l ∷ ls) r other = ground (arith, logged_other id ls r other)

module _ (prisma : Prisma) (yuan : ℤ → String) where
  open prisma use {
    Table, rows, update, create, find_first, find_first-rows, rows-update, rows-create,
  }

  -- Each order's sum is what the refund log says, and at most what was paid.
  abbrev pub IsBalanced : Db Table → Type 0
  IsBalanced db =
      (id : String) (o : UserOrder)
      → find_order prisma yuan id db ≡ some o
      → (o.refunded_amount ≡ logged id (rows db.store_order_refund))
        × (o.refunded_amount ≤ℤ o.money)

  -- What a granted refund has found and changed.
  pub record Refunded (order_id user_id : String) (amount_cents : Option ℤ) (clear_points : Bool)
      (db db' : Db Table) : Type 0 where
    pub order : UserOrder
    pub amount : ℤ
    pub store : Store
    pub payee : Option StoreMember
    pub asked : (amount_cents ≡ some amount) × (pos 1 ≤ℤ amount)
    pub found : find_order prisma yuan order_id db ≡ some order
    pub paid : order.status ≡ pos 1
    pub within : order.refunded_amount +ℤ amount ≤ℤ order.money
    pub by_owner :
        (find_first (λ s. s.store_id === order.store_id) db.store ≡ some store)
        × (store.user_id ≡ user_id)
    pub pays : Payee prisma yuan order payee db
    pub order_after :
        (o : UserOrder) × (find_order prisma yuan order_id db' ≡ some o)
        × (o.refunded_amount ≡ order.refunded_amount +ℤ amount)
        × (o.money ≡ order.money)
        × (o.status
            ≡ (if leb_ℤ order.money (order.refunded_amount +ℤ amount) then pos 2 else pos 1))
    pub member_after :
        (m : StoreMember)
        → payee ≡ some m
        → find_member prisma yuan order.user_id db'
          ≡ some (record m {
            balance = m.balance +ℤ amount;
            points =
                if not (is_guest order)
                  && (clear_points && not (order.refund_clear_points ==ℤ pos 1))
                then restored_points order m
                else m.points;
          })
    pub other_members :
        (other : String)
        → (other === order.user_id) ≡ false
        → find_member prisma yuan other db' ≡ find_member prisma yuan other db
    pub other_orders :
        (other : String)
        → (other === order_id) ≡ false
        → find_order prisma yuan other db' ≡ find_order prisma yuan other db
    pub log_after :
        (l : StoreOrderRefund) × (rows db'.store_order_refund
          ≡ rows db.store_order_refund ++ l ∷ [])
        × (l.order_id ≡ order_id)
        × (l.amount ≡ amount)

  Payee-member :
      (order : UserOrder) (payee : Option StoreMember) (db : Db Table) (m : StoreMember)
      → payee ≡ some m
      → Payee prisma yuan order payee db
      → find_member prisma yuan order.user_id db ≡ some m
  unfolding Payee
  Payee-member order none db m p h = cc
  Payee-member order (some m') db m p (_, e, _) = ground arith

  module _ (recharge_id refund_id : String) (now : ℕ) (order_id user_id : String)
      (amount_cents : Option ℤ) (clear_points : Bool) (db : Db Table) (order : UserOrder) (a : ℤ)
      (payee : Option StoreMember) where
    -- The tables afterwards.
    abbrev after : Db Table
    after =
        refunded_db prisma yuan recharge_id refund_id now order_id user_id amount_cents clear_points
          order a payee db

    -- The order afterwards.
    abbrev order_row : UserOrder
    order_row = record order {
      refunded_amount = order.refunded_amount +ℤ a;
      refund_clear_points =
          if clears prisma yuan recharge_id refund_id now order_id user_id amount_cents clear_points
            order
          then pos 1
          else order.refund_clear_points;
      status = if leb_ℤ order.money (order.refunded_amount +ℤ a) then pos 2 else order.status;
      update_date = now;
    }

    find_order-after :
        find_order prisma yuan order_id db ≡ some order
        → (o : UserOrder) × (find_order prisma yuan order_id after ≡ some o)
          × (o.refunded_amount ≡ order.refunded_amount +ℤ a)
          × (o.money ≡ order.money)
          × (o.status
              ≡ (if leb_ℤ order.money (order.refunded_amount +ℤ a) then pos 2 else order.status))
    unfolding find_order refunded_db
    find_order-after e = (
      order_row,
      rw (find_first-rows, rows-update)
          (find-map_where_key (λ o. o.order_id) order_id _ (rows db.user_order) order (λ o. refl)
            (rw find_first-rows at e)),
      refl,
      refl,
      refl,
    )

    find_order-after_other :
        (other : String)
        → (other === order_id) ≡ false
        → find_order prisma yuan other after ≡ find_order prisma yuan other db
    unfolding find_order refunded_db
    find_order-after_other other ne =
        rw (find_first-rows, find_first-rows, rows-update)
          (find-map_where_other (λ o. o.order_id) order_id other _ (rows db.user_order) (λ o. refl)
            ne)

    find_member-after :
        (m : StoreMember)
        → find_member prisma yuan order.user_id db ≡ some m
        → payee ≡ some m
        → find_member prisma yuan order.user_id after
          ≡ some (record m {
            balance = m.balance +ℤ a;
            points =
                if clears prisma yuan recharge_id refund_id now order_id user_id amount_cents
                  clear_points order
                then restored_points order m
                else m.points;
          })
    unfolding find_member refunded_db pay_back
    find_member-after m e p = rw p (
        rw (find_first-rows, rows-update)
          (find-map_where_key (λ o. o.member_id) order.user_id _ (rows db.store_member) m
            (λ o. refl) (rw find_first-rows at e)))

    find_member-after_other :
        (other : String)
        → (other === order.user_id) ≡ false
        → find_member prisma yuan other after ≡ find_member prisma yuan other db
    unfolding find_member refunded_db pay_back
    find_member-after_other other ne = elim (Option-cases payee) [
      | inl nobody ↦ rw nobody
      | inr (m, p) ↦ rw p (
          rw (find_first-rows, find_first-rows, rows-update)
            (find-map_where_other (λ o. o.member_id) order.user_id other _ (rows db.store_member)
              (λ o. refl) ne))
    ]

    log-after :
        (l : StoreOrderRefund) × (rows after.store_order_refund
          ≡ rows db.store_order_refund ++ l ∷ [])
        × (l.order_id ≡ order_id)
        × (l.amount ≡ a)
    unfolding refunded_db
    log-after = (_, rows-create _ db.store_order_refund, refl, refl)

  -- A granted refund is asked by the owner of the store, for an order that is paid and not fully
  -- refunded, and for a positive amount within what is left to refund. The order's refunded sum
  -- grows by the amount, its status becomes 2 exactly when the sum reaches what was paid, the log
  -- gets one row, and a member's balance grows by the amount; no other member or order changes.
  pub refund_order-Refunded :
      (recharge_id refund_id : String) (now : ℕ) (order_id user_id : String)
      (amount_cents : Option ℤ) (clear_points : Bool) (db : Db Table) (r : RefundResult)
      → (refund_order prisma yuan recharge_id refund_id now order_id user_id amount_cents
          clear_points db).0
        ≡ ok r
      → Refunded order_id user_id amount_cents clear_points db
          (refund_order prisma yuan recharge_id refund_id now order_id user_id amount_cents
            clear_points db).1
  refund_order-Refunded rid fid now id user cents clear db r h =
      let (a, ea) = refunded_amount_lem prisma yuan rid fid now id user cents clear db r h in
      let (order, eo, positive) =
        refunded_order_lem prisma yuan rid fid now id user cents clear db r h a ea in
      let (store, es) =
        refunded_store_lem prisma yuan rid fid now id user cents clear db r h a ea order eo in
      let (owner, paid, fits) =
        refunded_guards_lem prisma yuan rid fid now id user cents clear db r h a ea order eo store
          es in
      let (payee, pays, state) =
        refunded_payee_lem prisma yuan rid fid now id user cents clear db r h a ea order eo store
          es in
      let is_paid = refund_member-Payee prisma yuan order db payee pays in
      let (o, found, sum, money, status) =
        find_order-after rid fid now id user cents clear db order a payee eo in
      rw state (record {
        order = order;
        amount = a;
        store = store;
        payee = payee;
        asked = (ea, positive);
        found = eo;
        paid = paid;
        within = grind int_laws;
        by_owner = (es, owner);
        pays = is_paid;
        order_after = (o, found, sum, money, rw paid at status);
        member_after = λ m p.
            find_member-after rid fid now id user cents clear db order a payee m
              (Payee-member order payee db m p is_paid) p;
        other_members = find_member-after_other rid fid now id user cents clear db order a payee;
        other_orders = find_order-after_other rid fid now id user cents clear db order a payee;
        log_after = log-after rid fid now id user cents clear db order a payee;
      })

  Refunded-IsBalanced :
      (id user : String) (cents : Option ℤ) (clear : Bool) (db db' : Db Table)
      → Refunded id user cents clear db db'
      → IsBalanced db
      → IsBalanced db'
  Refunded-IsBalanced id user cents clear db db' granted books other o e =
      let (o', found, sum, money, status) = granted.order_after in
      let (l, logs, for_order, amount) = granted.log_after in
      let (before, bound) = books id granted.order granted.found in
      elim (Bool-cases (other === id)) [
        | inl same ↦
            let this : other ≡ id = ground (arith, eq_iff other id) in
            let row : o ≡ o' = ground arith in
            let counts : (l.order_id === other) ≡ true = ground (arith, eq_iff l.order_id other) in
            (
              rw logs (
                  let more = logged_same other (rows db.store_order_refund) l counts in
                  rw (more, row, sum, amount) (rw this (ap (λ s. s +ℤ granted.amount) before))),
              rw (row, money, sum) granted.within,
            )
        | inr apart ↦
            let skips : (l.order_id === other) ≡ false =
              ground (arith, eq_iff l.order_id other, eq_iff other id) in
            rw logs (
              rw (logged_other other (rows db.store_order_refund) l skips)
                (books other o (rw (granted.other_orders other apart) at e)))
      ]

  -- A granted refund keeps the books: if before it each order's refunded sum was what the refund log
  -- says and at most what was paid, then so it is after it.
  pub refund_order-IsBalanced :
      (recharge_id refund_id : String) (now : ℕ) (order_id user_id : String)
      (amount_cents : Option ℤ) (clear_points : Bool) (db : Db Table) (r : RefundResult)
      → (refund_order prisma yuan recharge_id refund_id now order_id user_id amount_cents
          clear_points db).0
        ≡ ok r
      → IsBalanced db
      → IsBalanced
          (refund_order prisma yuan recharge_id refund_id now order_id user_id amount_cents
            clear_points db).1
  refund_order-IsBalanced rid fid now id user cents clear db r h books =
      Refunded-IsBalanced id user cents clear db _
        (refund_order-Refunded rid fid now id user cents clear db r h) books
