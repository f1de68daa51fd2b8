-- ===== src/Member/Account.antt =====
-- What `refundBalance` (src/store/member/member.service.ts) does to an account.
use open_api.Prelude.{
  ℕ, ℤ, pos, ◌+ℤ◌, ◌-ℤ◌, ==ℤ_iff, ◌≤ℤ◌, leb_ℤ, ltb_ℤ, int_laws, Bool, true, false, String, ◌===◌,
  ◌==◌, ◌≡◌, inl, inr, refl, Option, some, List, [], ◌∷◌, ◌++◌, ok, arith, find, map_where,
  Option-cases, Bool-cases, eq_iff,
}
use open_api.Schema.{Store, StoreMember, StoreRecharge, User, Db}
use open_api.Prisma.{Prisma}
use open_api.Member.{BalanceRefund, find_unique, drained, refund_row, refund_balance}

-- A row that is found by one column and rewritten by another is found again, rewritten.
find-map_where_hit :
    {A : Type 0} (p q : A → Bool) (f : A → A) (xs : List A) (r : A)
    → ((x : A) → p (f x) ≡ p x)
    → find p xs ≡ some r
    → q r ≡ true
    → find p (map_where q f xs) ≡ some (f r)
find-map_where_hit p q f [] r keep e hit = cc
find-map_where_hit p q f (x ∷ xs) r keep e hit = elim (Bool-cases (p x)) [
  | inl here ↦
      let same : x ≡ r = ground arith in
      let hits : q x ≡ true = rw same hit in rw (hits, keep x, here, same)
  | inr later ↦
      let rest = find-map_where_hit p q f xs r keep (rw later at e) hit in
      elim (Bool-cases (q x)) [
        | inl mapped ↦ rw (mapped, keep x, later) rest
        | inr kept ↦ rw (kept, later) rest
      ]
]

==_refl : (n : ℕ) → (n == n) ≡ true
==_refl n = ground arith

module _ (prisma : Prisma) where
  open prisma use {
    Table, rows, update, create, find_first, find_first-rows, rows-update, rows-create,
  }

  -- The tables after a change of a member and a new row of the flow.
  booked : StoreMember → (StoreMember → StoreMember) → StoreRecharge → Db Table → Db Table
  booked member f row db = record db {
    store_member = update (λ m. m.id == member.id) f db.store_member;
    store_recharge = create row db.store_recharge;
  }

  find_unique-booked :
      (id : String) (member : StoreMember) (f : StoreMember → StoreMember) (row : StoreRecharge)
      (db : Db Table)
      → ((m : StoreMember) → (f m).member_id ≡ m.member_id)
      → find_unique prisma id db ≡ some member
      → find_unique prisma id (booked member f row db) ≡ some (f member)
  unfolding find_unique booked
  find_unique-booked id member f row db keep e =
      rw (find_first-rows, rows-update)
        (find-map_where_hit (λ m. m.member_id === id) (λ m. m.id == member.id) f
          (rows db.store_member) member (λ m. rw (keep m)) (rw find_first-rows at e)
          (==_refl member.id))

  -- What a booking has found and changed: the member of the id, and one row of the flow.
  pub record Booked (member_id : String) (change : ℤ) (db db' : Db Table) : Type 0 where
    pub member : StoreMember
    pub member' : StoreMember
    pub row : StoreRecharge
    pub found : find_unique prisma member_id db ≡ some member
    pub found' : find_unique prisma member_id db' ≡ some member'
    pub balance : member'.balance ≡ member.balance +ℤ change
    pub flow : rows db'.store_recharge ≡ rows db.store_recharge ++ row ∷ []
    pub received : row.received_amount ≡ change

  leb_of_ltb : (a b : ℤ) → ltb_ℤ b a ≡ false → pos 0 ≤ℤ b -ℤ a
  leb_of_ltb a b h = grind int_laws

  minus_flow : (a b : ℤ) → b -ℤ a ≡ b +ℤ (pos 0 -ℤ a)
  minus_flow a b = grind int_laws

  module _ (yuan : ℤ → String) where
    -- What a refund of the balance has required and changed.
    pub record Drained (member_id : String) (user : User) (amount_cents : Option ℤ) (clear : Bool)
        (r : BalanceRefund) (db db' : Db Table) : Type 0 where
      pub amount : ℤ
      pub member : StoreMember
      pub store : Store
      pub asked : (amount_cents ≡ some amount) × (leb_ℤ amount (pos 0) ≡ false)
      pub found : find_unique prisma member_id db ≡ some member
      pub active : member.status ≡ pos 1
      pub by_owner :
          (find_first (λ s. s.store_id === member.store_id) db.store ≡ some store)
          × (store.user_id ≡ user.user_id)
      pub found' : find_unique prisma member_id db' ≡ some (drained amount clear member)
      pub left : pos 0 ≤ℤ member.balance -ℤ amount
      pub booked : Booked member_id (pos 0 -ℤ amount) db db'
      pub reported : r.balance ≡ member.balance -ℤ amount

    module _ (recharge_id member_id : String) (user : User) (amount_cents : Option ℤ) (clear : Bool)
        (db : Db Table) (r : BalanceRefund)
        (h : (refund_balance prisma yuan recharge_id member_id user amount_cents clear db).0
          ≡ ok r) where
      drained_found :
          (a : ℤ) × (m : StoreMember) × (amount_cents ≡ some a)
          × (find_unique prisma member_id db ≡ some m)
      unfolding refund_balance
      drained_found = elim (Option-cases amount_cents) [
        | inl missing ↦ absurd (ground arith)
        | inr (a, ea) ↦ elim (Option-cases (find_unique prisma member_id db)) [
          | inl missing ↦ absurd (ground arith)
          | inr (m, e) ↦ (a, m, ea, e)
        ]
      ]

      module _ (a : ℤ) (m : StoreMember) (ea : amount_cents ≡ some a)
          (e : find_unique prisma member_id db ≡ some m) where
        drained_store :
            (store : Store) × (find_first (λ s. s.store_id === m.store_id) db.store ≡ some store)
        unfolding refund_balance
        drained_store = elim (Option-cases (find_first (λ s. s.store_id === m.store_id) db.store)) [
          | inl missing ↦ absurd (ground arith)
          | inr found ↦ found
        ]

        module _ (store : Store)
            (es : find_first (λ s. s.store_id === m.store_id) db.store ≡ some store) where
          drained_guards :
              (leb_ℤ a (pos 0) ≡ false)
              × (m.status ≡ pos 1)
              × (store.user_id ≡ user.user_id)
              × (ltb_ℤ m.balance a ≡ false)
          unfolding refund_balance
          drained_guards = (
            ground arith,
            ground (arith, ==ℤ_iff m.status (pos 1)),
            ground (arith, eq_iff store.user_id user.user_id),
            ground arith,
          )

          drained_state :
              ((refund_balance prisma yuan recharge_id member_id user amount_cents clear db).1
                ≡ booked m (drained a clear) (refund_row prisma yuan recharge_id user m a clear) db)
              × (r.balance ≡ m.balance -ℤ a)
          unfolding refund_balance booked
          drained_state = (ground arith, ground arith)

    -- A granted refund of the balance is asked by the owner of the store of an active member, for a
    -- positive amount that the balance covers. The balance loses the amount, so that it does not
    -- become negative, the points are reset where asked, and the flow gets one row of minus the
    -- amount.
    pub refund_balance-Drained :
        (recharge_id member_id : String) (user : User) (amount_cents : Option ℤ) (clear : Bool)
        (db : Db Table) (r : BalanceRefund)
        → (refund_balance prisma yuan recharge_id member_id user amount_cents clear db).0 ≡ ok r
        → Drained member_id user amount_cents clear r db
            (refund_balance prisma yuan recharge_id member_id user amount_cents clear db).1
    unfolding booked
    refund_balance-Drained rid id user cents clear db r h =
        let (a, m, ea, e) = drained_found rid id user cents clear db r h in
        let (store, es) = drained_store rid id user cents clear db r h a m ea e in
        let (positive, active, owner, covers) =
          drained_guards rid id user cents clear db r h a m ea e store es in
        let (state, reported) = drained_state rid id user cents clear db r h a m ea e store es in
        let row = refund_row prisma yuan rid user m a clear in
        let after = find_unique-booked id m (drained a clear) row db (λ m. refl) e in
        rw state (record {
          amount = a;
          member = m;
          store = store;
          asked = (ea, positive);
          found = e;
          active = active;
          by_owner = (es, owner);
          found' = after;
          left = leb_of_ltb a m.balance covers;
          booked = record {
            member = m;
            member' = drained a clear m;
            row = row;
            found = e;
            found' = after;
            balance = minus_flow a m.balance;
            flow = rows-create row db.store_recharge;
            received = refl;
          };
          reported = reported;
        })
