-- ===== src/Settlement/Summed.antt =====
-- What a run of `generateMonthlySettlement` (src/store/settlement/store-settlement.service.ts) adds,
-- told of the rows of the orders and the settlements alone.
use open_api.Prelude.{
  false, ◌&&◌, String, ◌===◌, ◌≡◌, refl, sym, ap, ◌∙◌, subst, inl, inr, Option, none, some, List,
  [], ◌∷◌, ◌++◌, append-nil, append_assoc, arith, All, All-imply, Option-cases, eq_refl,
}
use open_api.Schema.{StoreSettlement, Db}
use open_api.Prisma.{Prisma}
use open_api.Settlement.{Calendar, start_of, end_of, target_month, is_in}
use open_api.Settlement.Store.{
  settled_orders, find_settled, settle_stores, stores_of, generate_monthly_settlement,
}
use open_api.Settlement.Balanced.{settlement_of-IsBalanced}
use open_api.Settlement.Due.{
  due, settle_stores-due, settle_stores_step, settle_store_new, settle_store_old, added, fresh_row,
}
use open_api.Settlement.Owed.{
  IsOwed, IsAdded, Run, Picked-select, find-append_none, owed, owed-IsOwed, IsOwed-owed,
}

module _ (prisma : Prisma) (calendar : Calendar) where
  open prisma use {Table, rows, find_first-rows, find_many-rows, rows-create}

  module _ (key : String → String) (month : String) where
    -- A run for these stores, by the rows of the two tables.
    abbrev RunOf : List String → Db Table → Db Table → Type 0
    RunOf xs db db' =
        Run xs month (start_of calendar month) (end_of calendar month) (rows db.user_order)
          (rows db.store_settlement) (rows db'.store_settlement)

    abbrev IsNew : List String → Db Table → StoreSettlement → Type 0
    IsNew xs db =
        IsAdded xs month (start_of calendar month) (end_of calendar month) (rows db.user_order)
          (rows db.store_settlement)

    fresh_row-IsNew :
        (x : String) (xs : List String) (db : Db Table)
        → find_settled prisma calendar x month db ≡ none
        → IsNew (x ∷ xs) db (fresh_row prisma calendar key month x db)
    unfolding find_settled settled_orders is_in
    fresh_row-IsNew x xs db missing =
        let start = start_of calendar month in
        let end = end_of calendar month in
        let balanced =
          settlement_of-IsBalanced (key x) x month start end
            (settled_orders prisma calendar x month db) in
        record {
          asked = ground (arith, eq_refl x);
          of_month = (refl, refl);
          first = rw find_first-rows at missing;
          picked = rw find_many-rows (
              Picked-select (IsOwed x start end) (owed x start end) (owed-IsOwed x start end)
                (IsOwed-owed x start end) (rows db.user_order));
          counted = balanced.orders;
          amount = balanced.amount;
          income = balanced.income ∙ balanced.amount;
        }

    -- What is new after one store was settled was new before, and is of another store.
    IsNew-before :
        (x : String) (xs : List String) (db : Db Table) (s : StoreSettlement)
        → IsNew xs (added prisma calendar key month (fresh_row prisma calendar key month x db) db) s
        → IsNew (x ∷ xs) db s × ((x === s.store_id) ≡ false)
    unfolding is_in
    IsNew-before x xs db s n =
        let apart =
          find-append_none (λ r. r.store_id === s.store_id && r.month === month)
            (rows db.store_settlement) (fresh_row prisma calendar key month x db)
            (rw rows-create at n.first) in
        let own = eq_refl month in
        (
          record {
            asked = let asked = n.asked in ground arith;
            of_month = n.of_month;
            first = apart.0;
            picked = n.picked;
            counted = n.counted;
            amount = n.amount;
            income = n.income;
          },
          let other = apart.1 in ground arith,
        )

    IsNew-later :
        (x : String) (xs : List String) (db : Db Table) (s : StoreSettlement)
        → IsNew xs db s
        → IsNew (x ∷ xs) db s
    unfolding is_in
    IsNew-later x xs db s n = record {
      asked = let asked = n.asked in ground arith;
      of_month = n.of_month;
      first = n.first;
      picked = n.picked;
      counted = n.counted;
      amount = n.amount;
      income = n.income;
    }

    -- The run after the first store, from the database before it.
    Run-new :
        (x : String) (xs : List String) (db db' : Db Table)
        → find_settled prisma calendar x month db ≡ none
        → RunOf xs
            (added prisma calendar key month (fresh_row prisma calendar key month x db) db)
            db'
        → RunOf (x ∷ xs) db db'
    Run-new x xs db db' missing run =
        let s = fresh_row prisma calendar key month x db in
        record {
          new = s ∷ run.new;
          grown =
              run.grown
              ∙ ap (λ l. l ++ run.new) (rows-create s db.store_settlement)
              ∙ append_assoc (rows db.store_settlement) (s ∷ []) run.new;
          each = (
            fresh_row-IsNew x xs db missing,
            All-imply _ _ run.new (λ r n. (IsNew-before x xs db r n).0) run.each,
          );
          once = (All-imply _ _ run.new (λ r n. (IsNew-before x xs db r n).1) run.each, run.once);
        }

    settle_stores-Run :
        (xs : List String) (db : Db Table)
        → RunOf xs db (settle_stores prisma calendar key month xs db).1
    unfolding settle_stores
    settle_stores-Run [] db = record { new = []; grown = sym (append-nil _); each = tt; once = tt }
    settle_stores-Run (x ∷ xs) db =
        let step = settle_stores_step prisma calendar key month x xs db in
        elim (Option-cases (find_settled prisma calendar x month db)) [
          | inl missing ↦
              let next =
                added prisma calendar key month (fresh_row prisma calendar key month x db) db in
              let one = settle_store_new prisma calendar key month x db missing in
              subst (RunOf (x ∷ xs) db)
                (sym (step ∙ ap (λ d. (settle_stores prisma calendar key month xs d).1) one))
                (Run-new x xs db (settle_stores prisma calendar key month xs next).1 missing
                  (settle_stores-Run xs next))
          | inr (s, found) ↦
              let one = ap (λ o. o.1) (settle_store_old prisma calendar key month x db s found) in
              let run = settle_stores-Run xs db in
              subst (RunOf (x ∷ xs) db)
                (sym (step ∙ ap (λ d. (settle_stores prisma calendar key month xs d).1) one))
                (record {
                  new = run.new;
                  grown = run.grown;
                  each = All-imply _ _ run.new (IsNew-later x xs db) run.each;
                  once = run.once;
                })
        ]

  -- A run for a month keeps the settlements that were there and adds new ones, of status 0 and at
  -- most one to a store. Each of these is of a store of the run that had none for the month; its
  -- details are those of the store's active, paid orders of the month in the stages received (4)
  -- and finished (5), each once and no others, and its number and its two sums are those of the
  -- details. After the run every store of its list has a settlement for the month.
  pub generate_monthly_settlement-Run :
      (key : String → String) (store_id month : Option String) (db : Db Table)
      → Run
          (stores_of prisma calendar store_id (target_month calendar month) db)
          (target_month calendar month)
          (start_of calendar (target_month calendar month))
          (end_of calendar (target_month calendar month))
          (rows db.user_order)
          (rows db.store_settlement)
          (rows
            (generate_monthly_settlement prisma calendar key store_id month db).1.store_settlement)
        × All
            (λ x.
              (s : StoreSettlement) × (find_settled prisma calendar x
                  (target_month calendar month)
                  (generate_monthly_settlement prisma calendar key store_id month db).1
                ≡ some s))
            (stores_of prisma calendar store_id (target_month calendar month) db)
  unfolding generate_monthly_settlement
  generate_monthly_settlement-Run key store_id month db =
      let m = target_month calendar month in
      let stores = stores_of prisma calendar store_id m db in
      (
        settle_stores-Run key m stores db,
        All-imply _ _ stores (λ x e. (due prisma calendar key m x db, e))
            (settle_stores-due prisma calendar key m stores db),
      )
