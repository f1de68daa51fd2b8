-- ===== src/Settlement/Due.antt =====
-- What `generateMonthlySettlement` (src/store/settlement/store-settlement.service.ts) owes each store.
use open_api.Prelude.{
  true, false, ◌&&◌, String, ◌===◌, ◌≡◌, refl, sym, ap, ◌∙◌, inl, inr, none, some, List, [], ◌∷◌,
  arith, get_or, ok, All, All-imply, find-append, find-append_miss, Bool-cases, Option-cases,
  eq_iff, eq_refl,
}
use open_api.Schema.{StoreSettlement, Db}
use open_api.Prisma.{Prisma}
use open_api.Settlement.{Calendar, start_of, end_of}
use open_api.Settlement.Store.{
  Settled, settlement_of, settled_orders, find_settled, settle_new, settle_store, settle_stores,
}

module _ (prisma : Prisma) (calendar : Calendar) where
  open prisma use {Table, rows, find_first-rows, rows-create}

  module _ (key : String → String) (month : String) where
    -- The settlement that a store has after a run: the one that it had, or the sum of its orders.
    unfoldable pub due : String → Db Table → StoreSettlement
    due x db = get_or (find_settled prisma calendar x month db) (
        settlement_of (key x) x month (start_of calendar month) (end_of calendar month)
          (settled_orders prisma calendar x month db))

    -- The result and the database after one store.
    pub settle_store_lem :
        (x : String) (db : Db Table)
        → (settled : Settled) × ((settle_store prisma calendar key month x db).0 ≡ ok settled)
          × ((settle_store prisma calendar key month x db).1.user_order ≡ db.user_order)
    unfolding settle_store settle_new
    settle_store_lem x db = elim (Option-cases (find_settled prisma calendar x month db)) [
      | inl missing ↦ (
        record {
          store_id = x;
          settlement =
              settlement_of (key x) x month (start_of calendar month) (end_of calendar month)
                (settled_orders prisma calendar x month db);
          skipped = false;
        },
        rw missing refl,
        rw missing refl,
      )
      | inr (s, found) ↦
          (record { store_id = x; settlement = s; skipped = true }, rw found refl, rw found refl)
    ]

    -- The database with one more settlement.
    abbrev pub added : StoreSettlement → Db Table → Db Table
    added s db = record db { store_settlement = prisma.create s db.store_settlement }

    added-find_settled :
        (s : StoreSettlement) (db : Db Table)
        → (s.month === month) ≡ true
        → find_settled prisma calendar s.store_id month db ≡ none
        → find_settled prisma calendar s.store_id month (added s db) ≡ some s
    unfolding find_settled
    added-find_settled s db own missing =
        rw
          (
            find_first-rows,
            rows-create,
            find-append _ (rows db.store_settlement) (s ∷ []) (rw find_first-rows at missing),
            eq_refl s.store_id,
            own,
          )
          refl

    added-find_settled_other :
        (s : StoreSettlement) (y : String) (db : Db Table)
        → (s.store_id === y) ≡ false
        → find_settled prisma calendar y month (added s db)
          ≡ find_settled prisma calendar y month db
    unfolding find_settled
    added-find_settled_other s y db other =
        rw
          (
            find_first-rows,
            find_first-rows,
            rows-create,
            find-append_miss (λ r. r.store_id === y && r.month === month) (rows db.store_settlement)
                s (ground (arith, other)),
          )
          refl

    -- The row that the run would create.
    abbrev pub fresh_row : String → Db Table → StoreSettlement
    fresh_row x db =
        settlement_of (key x) x month (start_of calendar month) (end_of calendar month)
          (settled_orders prisma calendar x month db)

    pub settle_store_new :
        (x : String) (db : Db Table)
        → find_settled prisma calendar x month db ≡ none
        → (settle_store prisma calendar key month x db).1 ≡ added (fresh_row x db) db
    unfolding settle_store settle_new
    settle_store_new x db missing = rw missing refl

    pub settle_store_old :
        (x : String) (db : Db Table) (s : StoreSettlement)
        → find_settled prisma calendar x month db ≡ some s
        → settle_store prisma calendar key month x db
          ≡ (ok (record { store_id = x; settlement = s; skipped = true }), db)
    unfolding settle_store settle_new
    settle_store_old x db s found = rw found refl

    settle_store-due :
        (x : String) (db : Db Table)
        → find_settled prisma calendar x month (settle_store prisma calendar key month x db).1
          ≡ some (due x db)
    unfolding due
    settle_store-due x db = elim (Option-cases (find_settled prisma calendar x month db)) [
      | inr (s, found) ↦ rw (settle_store_old x db s found, found) refl
      | inl missing ↦
          rw (settle_store_new x db missing, missing)
            (added-find_settled (fresh_row x db) db (eq_refl month) missing)
    ]

    settle_store_other :
        (x y : String) (db : Db Table)
        → (x === y) ≡ false
        → find_settled prisma calendar y month (settle_store prisma calendar key month x db).1
          ≡ find_settled prisma calendar y month db
    settle_store_other x y db other =
        elim (Option-cases (find_settled prisma calendar x month db)) [
          | inr (s, found) ↦ rw (settle_store_old x db s found) refl
          | inl missing ↦
              rw (settle_store_new x db missing)
                (added-find_settled_other (fresh_row x db) y db other)
        ]

    settled_orders_kept :
        (x y : String) (db : Db Table)
        → settled_orders prisma calendar y month (settle_store prisma calendar key month x db).1
          ≡ settled_orders prisma calendar y month db
    unfolding settled_orders
    settled_orders_kept x y db =
        let (settled, run, orders) = settle_store_lem x db in ap (prisma.find_many _) orders

    -- What a store is due does not change while the others are settled.
    due_kept :
        (x y : String) (db : Db Table)
        → due y (settle_store prisma calendar key month x db).1 ≡ due y db
    unfolding due
    due_kept x y db = elim (Bool-cases (x === y)) [
      | inl same ↦ rw (sym ((eq_iff x y).0 same)) (
          ap (λ o. get_or o (fresh_row x (settle_store prisma calendar key month x db).1))
            (settle_store-due x db))
      | inr other ↦
          ap (λ o. get_or o (fresh_row y (settle_store prisma calendar key month x db).1))
            (settle_store_other x y db other)
          ∙ ap
              (λ l.
                get_or (find_settled prisma calendar y month db) (
                  settlement_of (key y) y month (start_of calendar month) (end_of calendar month)
                    l))
              (settled_orders_kept x y db)
    ]

    pub settle_stores_step :
        (x : String) (xs : List String) (db : Db Table)
        → (settle_stores prisma calendar key month (x ∷ xs) db).1
          ≡ (settle_stores prisma calendar key month xs
              (settle_store prisma calendar key month x db).1).1
    unfolding settle_stores
    settle_stores_step x xs db = let (settled, run, orders) = settle_store_lem x db in ground arith

    pub settle_stores-user_order :
        (l : List String) (db : Db Table)
        → (settle_stores prisma calendar key month l db).1.user_order ≡ db.user_order
    unfolding settle_stores
    settle_stores-user_order [] db = refl
    settle_stores-user_order (x ∷ xs) db =
        let (settled, run, orders) = settle_store_lem x db in
        rw (settle_stores_step x xs db)
          (settle_stores-user_order xs (settle_store prisma calendar key month x db).1 ∙ orders)

    settle_store_keep :
        (x y : String) (s : StoreSettlement) (db : Db Table)
        → find_settled prisma calendar y month db ≡ some s
        → find_settled prisma calendar y month (settle_store prisma calendar key month x db).1
          ≡ some s
    settle_store_keep x y s db h = elim (Bool-cases (x === y)) [
      | inr other ↦ settle_store_other x y db other ∙ h
      | inl same ↦
          let found : find_settled prisma calendar x month db ≡ some s =
            rw ((eq_iff x y).0 same) h in
          ap (λ o. find_settled prisma calendar y month o.1) (settle_store_old x db s found) ∙ h
    ]

    -- A settlement that is there stays.
    settle_stores_keep :
        (l : List String) (y : String) (s : StoreSettlement) (db : Db Table)
        → find_settled prisma calendar y month db ≡ some s
        → find_settled prisma calendar y month (settle_stores prisma calendar key month l db).1
          ≡ some s
    unfolding settle_stores
    settle_stores_keep [] y s db h = h
    settle_stores_keep (x ∷ xs) y s db h = rw (settle_stores_step x xs db) (
        settle_stores_keep xs y s (settle_store prisma calendar key month x db).1
          (settle_store_keep x y s db h))

    pub settle_stores-due :
        (l : List String) (db : Db Table)
        → All
            (λ x.
              find_settled prisma calendar x month (settle_stores prisma calendar key month l db).1
              ≡ some (due x db))
            l
    settle_stores-due [] db = tt
    settle_stores-due (x ∷ xs) db =
        let next = (settle_store prisma calendar key month x db).1 in
        let step : (y : String)
            → find_settled prisma calendar y month
                (settle_stores prisma calendar key month (x ∷ xs) db).1
              ≡ find_settled prisma calendar y month
                  (settle_stores prisma calendar key month xs next).1 =
          λ y. ap (λ o. find_settled prisma calendar y month o) (settle_stores_step x xs db) in
        (
          step x ∙ settle_stores_keep xs x (due x db) next (settle_store-due x db),
          All-imply _ _ xs (λ y k. step y ∙ k ∙ ap some (due_kept x y db))
              (settle_stores-due xs next),
        )

    pub settle_stores_none :
        (l : List String) (db : Db Table) (d : String → StoreSettlement)
        → All (λ x. find_settled prisma calendar x month db ≡ some (d x)) l
        → (settle_stores prisma calendar key month l db).1 ≡ db
    unfolding settle_stores
    settle_stores_none [] db d h = refl
    settle_stores_none (x ∷ xs) db d h =
        settle_stores_step x xs db
        ∙ ap (λ o. (settle_stores prisma calendar key month xs o.1).1)
            (settle_store_old x db (d x) h.0)
        ∙ settle_stores_none xs db d h.1
