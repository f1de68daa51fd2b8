-- ===== src/Cashier/Push/Solvent.antt =====
-- What `pushOrder` (src/store/cashier/cashier.service.ts) does to the accounts of the members.
use open_api.Prelude.{
  ℕ, ℤ, pos, ◌+ℤ◌, ◌-ℤ◌, ◌≤ℤ◌, leb_ℤ, int_laws, Bool, true, false, String, ◌===◌, ◌≡◌, ◌⊎◌, inl,
  inr, refl, Option, none, some, List, [], ◌∷◌, ◌++◌, append-nil, append_assoc, get_or, arith,
  find-map_where_key, find-map_where_other, Option-cases, Bool-cases, eq_iff,
}
use open_api.Schema.{UserOrder, UserOrderInfo, StoreMember, User, Db}
use open_api.Prisma.{Prisma}
use open_api.Cashier.Push.{
  SyncOrder, Operator, PushResult, success, failure, payable, balance_deduction, points_change,
  charged, too_poor, order_infos, find_member, paying_member, add_infos, keys_taken, add_order,
  settle, charge, charge_member, pay_order, message_of, result_of, order_operator, push_order,
}

covered_nonneg : (d b : ℤ) → (d ≤ℤ pos 0) ⊎ (d ≤ℤ b) → pos 0 ≤ℤ b → pos 0 ≤ℤ b -ℤ d
covered_nonneg d b covered h = grind int_laws

module _ (prisma : Prisma) where
  open prisma use {
    Table, rows, update, create, find_first, find_first-rows, rows-update, rows-create,
  }

  rows-add_infos :
      (is : List UserOrderInfo) (t : Table UserOrderInfo)
      → rows (add_infos prisma is t) ≡ rows t ++ is
  unfolding add_infos
  rows-add_infos [] t = rw append-nil
  rows-add_infos (i ∷ is) t =
      rw (rows-add_infos is (create i t), rows-create) (append_assoc (rows t) (i ∷ []) is)

  -- The member that pays is the one of that id.
  paying_member_found :
      (dto : SyncOrder) (db : Db Table) (m : StoreMember)
      → paying_member prisma dto db ≡ some m
      → find_member prisma (get_or dto.member_id "") db ≡ some m
  unfolding paying_member
  paying_member_found dto db m e = ground arith

  -- No member's balance is negative.
  abbrev pub IsSolvent : Db Table → Type 0
  IsSolvent db =
      (id : String) (m : StoreMember) → find_member prisma id db ≡ some m → pos 0 ≤ℤ m.balance

  pub IsSolvent-same :
      (db db' : Db Table) → db'.store_member ≡ db.store_member → IsSolvent db → IsSolvent db'
  unfolding find_member
  IsSolvent-same db db' same solvent id m e = solvent id m (rw same at e)

  find_member-charge :
      (dto : SyncOrder) (db : Db Table) (m : StoreMember)
      → find_member prisma (get_or dto.member_id "") db ≡ some m
      → find_member prisma (get_or dto.member_id "") (charge prisma dto db) ≡ some (charged dto m)
  unfolding find_member charge
  find_member-charge dto db m e =
      rw (find_first-rows, rows-update)
        (find-map_where_key (λ m. m.member_id) (get_or dto.member_id "") (charged dto)
          (rows db.store_member) m (λ m. refl) (rw find_first-rows at e))

  find_member-charge_other :
      (dto : SyncOrder) (db : Db Table) (other : String)
      → (other === get_or dto.member_id "") ≡ false
      → find_member prisma other (charge prisma dto db) ≡ find_member prisma other db
  unfolding find_member charge
  find_member-charge_other dto db other ne =
      rw (find_first-rows, find_first-rows, rows-update)
        (find-map_where_other (λ m. m.member_id) (get_or dto.member_id "") other (charged dto)
          (rows db.store_member) (λ m. refl) ne)

  module _ (trim : String → String) (fresh : ℕ → String) (order_id : String) (now : ℕ)
      (store_id : String) (dto : SyncOrder) (user : Option User) (override : Option Operator)
      (db : Db Table) where
    abbrev push : PushResult × Db Table
    push = push_order prisma trim fresh order_id now store_id dto user override db

    abbrev add_here : Db Table → Db Table
    add_here =
        add_order prisma fresh order_id now store_id dto
          (order_operator prisma trim store_id dto user override db)

    -- The order and its items stand in the database, and nothing else was written.
    pub record Settled (before after : Db Table) : Type 0 where
      pub order : UserOrder
      pub order_added : rows after.user_order ≡ rows before.user_order ++ order ∷ []
      pub named : (order.order_id ≡ order_id) × (order.store_id ≡ store_id)
      pub paid : (order.money ≡ payable dto) × (order.status ≡ pos 1)
      pub not_refunded : order.refunded_amount ≡ pos 0
      pub items_added :
          rows after.user_order_info
          ≡ rows before.user_order_info ++ order_infos fresh order_id 0 dto.items
      pub members_kept : after.store_member ≡ before.store_member

    add_order-Settled : (before : Db Table) → Settled before (add_here before)
    unfolding add_order
    add_order-Settled before = record {
      order = _;
      order_added = rows-create _ before.user_order;
      named = (refl, refl);
      paid = (refl, refl);
      not_refunded = refl;
      items_added = rows-add_infos (order_infos fresh order_id 0 dto.items) before.user_order_info;
      members_kept = refl;
    }

    -- Whether a key of the order or of its items is taken.
    abbrev pub taken : Bool
    taken =
        keys_taken prisma order_id (order_infos fresh order_id 0 dto.items) db.user_order
          db.user_order_info

    push_without_key :
        (payer : Option StoreMember)
        → paying_member prisma dto db ≡ payer
        → ((m : StoreMember) → payer ≡ some m → too_poor dto m ≡ false)
        → taken ≡ true
        → push ≡ (failure dto.local_id prisma.unique_message, db)
    unfolding push_order pay_order charge_member settle charge result_of message_of
    push_without_key none e able t = ground arith
    push_without_key (some m) e able t = let poor = able m refl in ground arith

    push_poor :
        (m : StoreMember)
        → paying_member prisma dto db ≡ some m
        → too_poor dto m ≡ true
        → push ≡ (failure dto.local_id "会员余额不足", db)
    unfolding push_order pay_order charge_member result_of message_of
    push_poor m e poor = ground arith

    push_guest :
        paying_member prisma dto db ≡ none
        → taken ≡ false
        → push ≡ (success dto.local_id order_id, add_here db)
    unfolding push_order pay_order charge_member settle result_of
    push_guest e free = ground arith

    -- An order whose member can pay, and whose keys are free, is added and paid.
    push_member :
        (m : StoreMember)
        → paying_member prisma dto db ≡ some m
        → too_poor dto m ≡ false
        → taken ≡ false
        → push ≡ (success dto.local_id order_id, add_here (charge prisma dto db))
    unfolding push_order pay_order charge_member settle charge result_of
    push_member m e able free = ground arith

    -- The four outcomes: a member cannot pay, a key is taken, nobody pays from an account, a member
    -- pays.
    pub Outcome : Type 0
    Outcome =
        ((m : StoreMember) × (paying_member prisma dto db ≡ some m)
          × (pos 1 ≤ℤ balance_deduction dto)
          × (m.balance +ℤ pos 1 ≤ℤ balance_deduction dto)
          × (push ≡ (failure dto.local_id "会员余额不足", db)))
        ⊎ (((taken ≡ true) × (push ≡ (failure dto.local_id prisma.unique_message, db)))
            ⊎ (((paying_member prisma dto db ≡ none)
                  × (taken ≡ false)
                  × (push.0 ≡ success dto.local_id order_id)
                  × Settled db push.1)
                ⊎ ((m : StoreMember) × (paid_db : Db Table) × (paying_member prisma dto db ≡ some m)
                    × ((balance_deduction dto ≤ℤ pos 0) ⊎ (balance_deduction dto ≤ℤ m.balance))
                    × (taken ≡ false)
                    × (find_member prisma (get_or dto.member_id "") paid_db
                        ≡ some (record m {
                          balance = m.balance -ℤ balance_deduction dto;
                          points = m.points +ℤ points_change dto;
                        }))
                    × ((other : String)
                        → (other === get_or dto.member_id "") ≡ false
                        → find_member prisma other paid_db ≡ find_member prisma other db)
                    × (push.0 ≡ success dto.local_id order_id)
                    × Settled paid_db push.1)))

    -- What a payment from an account comes to.
    push_paid :
        (m : StoreMember)
        → paying_member prisma dto db ≡ some m
        → too_poor dto m ≡ false
        → taken ≡ false
        → Outcome
    unfolding Outcome
    push_paid m e able free =
        let found = paying_member_found dto db m e in
        let done = push_member m e able free in
        inr (
          inr (
            inr (
              m,
              charge prisma dto db,
              e,
              elim (Bool-cases (leb_ℤ (balance_deduction dto) (pos 0))) [
                | inl free ↦ inl (ground arith)
                | inr costs ↦ inr (ground arith)
              ],
              free,
              find_member-charge dto db m found,
              find_member-charge_other dto db,
              rw done refl,
              rw done (add_order-Settled (charge prisma dto db)),
            )))

    -- A pushed order is refused, with nothing written, where it is to be paid from the balance of a
    -- member who has less, or where a key of its rows is taken; else the order and its items are
    -- added, and a member who pays from the balance has lost just the payable amount and changed
    -- points as the order says.
    push_order-Outcome : Outcome
    unfolding Outcome
    push_order-Outcome = elim (Option-cases (paying_member prisma dto db)) [
      | inl guest ↦ elim (Bool-cases taken) [
        | inl t ↦ inr (inl (t, push_without_key none guest (λ m h. absurd (ground arith)) t))
        | inr free ↦
            let done = push_guest guest free in
            inr (inr (inl (guest, free, rw done refl, rw done (add_order-Settled db))))
      ]
      | inr (m, e) ↦ elim (Bool-cases (too_poor dto m)) [
        | inl poor ↦ inl (m, e, ground arith, grind int_laws, push_poor m e poor)
        | inr able ↦ elim (Bool-cases taken) [
          | inl t ↦ inr (inl (t, push_without_key (some m) e (λ n h. ground arith) t))
          | inr free ↦ push_paid m e able free
        ]
      ]
    ]

    find_member-Settled :
        (before after : Db Table) (id : String)
        → Settled before after
        → find_member prisma id after ≡ find_member prisma id before
    unfolding find_member
    find_member-Settled before after id settled = rw settled.members_kept

    -- The member of an order that is added has paid.
    pub push_charges :
        (m : StoreMember)
        → paying_member prisma dto db ≡ some m
        → too_poor dto m ≡ false
        → taken ≡ false
        → (push.0 ≡ success dto.local_id order_id)
          × (find_member prisma (get_or dto.member_id "") push.1 ≡ some (charged dto m))
    unfolding find_member add_order
    push_charges m e able free =
        let done = push_member m e able free in
        let row = find_member-charge dto db m (paying_member_found dto db m e) in
        (rw done refl, rw done row)

    -- A pushed order never makes a member's balance negative.
    pub push_order-IsSolvent : IsSolvent db → IsSolvent push.1
    unfolding Outcome
    push_order-IsSolvent solvent id m e = elim push_order-Outcome [
      | inl (payer, found, costs, poor, same) ↦ solvent id m (rw same at e)
      | inr (inl (t, same)) ↦ solvent id m (rw same at e)
      | inr (inr (inl (guest, free, result, settled))) ↦
          solvent id m (rw (find_member-Settled db push.1 id settled) at e)
      | inr
            (inr
              (inr (payer, paid_db, found, covered, free, charged_row, others, result, settled))) ↦
          let now_found : find_member prisma id paid_db ≡ some m =
            rw (find_member-Settled paid_db push.1 id settled) at e in
          elim (Bool-cases (id === get_or dto.member_id "")) [
            | inr other ↦ solvent id m (rw (others id other) at now_found)
            | inl same ↦
                let before = solvent _ payer (paying_member_found dto db payer found) in
                let this = (eq_iff id (get_or dto.member_id "")).0 same in
                let row = rw (this, charged_row) at now_found in
                let kept : m.balance ≡ payer.balance -ℤ balance_deduction dto = ground arith in
                rw kept (covered_nonneg (balance_deduction dto) payer.balance covered before)
          ]
    ]

    pub push_order-pay_pending : push.1.store_pay_pending ≡ db.store_pay_pending
    unfolding charge add_order
    push_order-pay_pending = elim (Option-cases (paying_member prisma dto db)) [
      | inl guest ↦ elim (Bool-cases taken) [
        | inl t ↦ rw (push_without_key none guest (λ m h. absurd (ground arith)) t) refl
        | inr free ↦ rw (push_guest guest free) refl
      ]
      | inr (m, e) ↦ elim (Bool-cases (too_poor dto m)) [
        | inl poor ↦ rw (push_poor m e poor) refl
        | inr able ↦ elim (Bool-cases taken) [
          | inl t ↦ rw (push_without_key (some m) e (λ n h. ground arith) t) refl
          | inr free ↦ rw (push_member m e able free) refl
        ]
      ]
    ]
