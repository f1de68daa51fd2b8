-- ===== src/Ranking/Exchange.antt =====
-- The exchange of two neighbours, seen on the list that the rank orders.
use mathlib.Core.List.{Perm, map-append}
use mathlib.Core.List.Perm
use open_api.Prelude.{
  ℕ, ℤ, Bool, true, false, String, ◌===◌, ◌≡◌, ap, sym, ◌∙◌, ◌⊎◌, ok, inl, inr, some, List, ◌∷◌,
  ◌++◌, map, arith, select, map_where, All, UniqueBy, UniqueBy-select, IsStrict, eq_iff, eq_refl,
}
use open_api.Prisma.{Prisma}
use open_api.Ranking.{Ranked, Messages, item_at, neighbour, exchange}
use open_api.Ranking.Sorted.{IsAscending-eq_of_perm}
use open_api.Ranking.Lists.{
  map_where-perm, map_where-append, map_where_apart, select-map_where, Mem-select, find-Mem,
  UniqueBy-perm, apart_before, UniqueBy-drop, All-flip,
}
use open_api.Ranking.Neighbours.{neighbour-Neighbours, item_at-Mem}

-- What the two columns of a ranked table are.
pub record IsRanked (kind : Ranked) : Type 0 where
  pub set : IsSet kind.Row
  pub key_kept : (k : ℤ) (r : kind.Row) → kind.key (kind.set_rank k r) ≡ kind.key r
  pub rank_set : (k : ℤ) (r : kind.Row) → kind.rank (kind.set_rank k r) ≡ k

module _ (kind : Ranked) (laws : IsRanked kind) where
  open kind use {Row, key, rank, set_rank}
  open laws use {key_kept, rank_set}

  -- Two neighbours whose ranks are exchanged, each by a test of its key.
  exchanged : (first second : Row) (l : List Row) → List Row
  exchanged first second l =
      map_where (λ r. key r === key second) (set_rank (rank first))
        (map_where (λ r. key r === key first) (set_rank (rank second)) l)

  module _ (xs ys : List Row) (b c : Row) (u : UniqueBy key (xs ++ b ∷ c ∷ ys)) where
    apart_pair : ((key b === key c) ≡ false) × ((key c === key b) ≡ false)
    apart_pair =
        let v = (UniqueBy-drop key xs (b ∷ c ∷ ys) u).0.0 in
        (v, ground (arith, eq_iff (key b) (key c), eq_iff (key c) (key b)))

    apart_after : All (λ x. (key x === key b) ≡ false) ys × All (λ x. (key x === key c) ≡ false) ys
    apart_after =
        let v = UniqueBy-drop key xs (b ∷ c ∷ ys) u in
        (All-flip key b ys v.0.1, All-flip key c ys v.1.0)

    exchanged-down :
        exchanged b c (xs ++ b ∷ c ∷ ys) ≡ xs ++ set_rank (rank c) b ∷ set_rank (rank b) c ∷ ys
    unfolding exchanged
    exchanged-down =
        let (xb, xc) = apart_before key xs ys b c u in
        let (yb, yc) = apart_after in
        let (bc, cb) = apart_pair in
        rw (
          map_where-append,
          map_where_apart (λ r. key r === key b) (set_rank (rank c)) xs xb,
          eq_refl (key b),
          cb,
          map_where_apart (λ r. key r === key b) (set_rank (rank c)) ys yb,
          map_where-append,
          map_where_apart (λ r. key r === key c) (set_rank (rank b)) xs xc,
          key_kept,
          bc,
          eq_refl (key c),
          map_where_apart (λ r. key r === key c) (set_rank (rank b)) ys yc,
        )

    exchanged-up :
        exchanged c b (xs ++ b ∷ c ∷ ys) ≡ xs ++ set_rank (rank c) b ∷ set_rank (rank b) c ∷ ys
    unfolding exchanged
    exchanged-up =
        let (xb, xc) = apart_before key xs ys b c u in
        let (yb, yc) = apart_after in
        let (bc, cb) = apart_pair in
        rw (
          map_where-append,
          map_where_apart (λ r. key r === key c) (set_rank (rank b)) xs xc,
          bc,
          eq_refl (key c),
          map_where_apart (λ r. key r === key c) (set_rank (rank b)) ys yc,
          map_where-append,
          map_where_apart (λ r. key r === key b) (set_rank (rank c)) xs xb,
          eq_refl (key b),
          key_kept,
          cb,
          map_where_apart (λ r. key r === key b) (set_rank (rank c)) ys yb,
        )

  module _ (prisma : Prisma) where
    open prisma use {
      Table, rows, update, find_many_by, find_first, find_first-rows, rows-update,
      find_many_by-perm, find_many_by-IsAscending,
    }

    -- The list of the rows that pass a test, by rank.
    abbrev pub ranking : (Row → Bool) → Table Row → List Row
    ranking p t = find_many_by p rank t

    rows-exchange :
        (t : Table Row) (row other : Row)
        → rows (exchange kind prisma (key row) row other t) ≡ exchanged row other (rows t)
    unfolding exchange exchanged
    rows-exchange t row other = rw (rows-update, rows-update)

    exchange_eq :
        (t : Table Row) (id : String) (chosen row other a b : Row)
        → row ≡ chosen
        → key chosen ≡ id
        → a ≡ chosen
        → b ≡ other
        → exchange kind prisma id row other t ≡ exchange kind prisma (key a) a b t
    exchange_eq t id chosen row other a b same own first second =
        ap (λ r. exchange kind prisma id r other t) same
        ∙ ap (λ k. exchange kind prisma k chosen other t) (sym own)
        ∙ ap (λ r. exchange kind prisma (key r) r other t) (sym first)
        ∙ ap (λ r. exchange kind prisma (key a) a r t) (sym second)

    module _ (p : Row → Bool) (p_kept : (k : ℤ) (r : Row) → p (set_rank k r) ≡ p r) where
      exchanged-perm :
          (t : Table Row) (row other : Row)
          → Perm
              (ranking p (exchange kind prisma (key row) row other t))
              (exchanged row other (ranking p t))
      unfolding exchanged
      exchanged-perm t row other =
          let after = find_many_by-perm p rank (exchange kind prisma (key row) row other t) in
          let rows_after = rows-exchange t row other in
          let before = find_many_by-perm p rank t in
          let first = map_where-perm (λ r. key r === key row) (set_rank (rank other)) before in
          let both = map_where-perm (λ r. key r === key other) (set_rank (rank row)) first in
          Perm.trans after (
            rw
              (
                rows_after,
                select-map_where p (λ r. key r === key other) (set_rank (rank row)) _
                    (λ r. p_kept (rank row) r),
                select-map_where p (λ r. key r === key row) (set_rank (rank other)) _
                    (λ r. p_kept (rank other) r),
              )
              (Perm.symm both))

      module _ (t : Table Row) (u : UniqueBy key (rows t)) (xs ys : List Row) (b c : Row)
          (listed : ranking p t ≡ xs ++ b ∷ c ∷ ys)
          (strict : IsStrict (map rank (ranking p t))) where
        ranking-UniqueBy : UniqueBy key (xs ++ b ∷ c ∷ ys)
        ranking-UniqueBy = rw listed at (
            UniqueBy-perm key (select p (rows t)) (ranking p t)
              (Perm.symm (find_many_by-perm p rank t)) (UniqueBy-select key p (rows t) u))

        -- The neighbours with exchanged ranks, in their new order.
        swapped : List Row
        swapped = xs ++ set_rank (rank b) c ∷ set_rank (rank c) b ∷ ys

        swapped-IsStrict : IsStrict (map rank swapped)
        unfolding swapped
        swapped-IsStrict =
            let before = rw (listed, map-append) at strict in
            rw (map-append, rank_set, rank_set) before

        swapped-perm : Perm (xs ++ set_rank (rank c) b ∷ set_rank (rank b) c ∷ ys) swapped
        unfolding swapped
        swapped-perm = Perm.append_left xs (Perm.swap _ _ ys)

        -- Moving the later of two neighbours up, or the earlier one down, exchanges the two in the
        -- list by rank, and leaves the list round them alone.
        ranking-exchange_up :
            ranking p (exchange kind prisma (key c) c b t)
            ≡ xs ++ set_rank (rank b) c ∷ set_rank (rank c) b ∷ ys
        unfolding swapped
        ranking-exchange_up =
            IsAscending-eq_of_perm laws.set rank _ swapped
              (find_many_by-IsAscending p rank (exchange kind prisma (key c) c b t))
              swapped-IsStrict
              (Perm.trans (exchanged-perm t c b)
                (rw (listed, exchanged-up xs ys b c ranking-UniqueBy) swapped-perm))

        ranking-exchange_down :
            ranking p (exchange kind prisma (key b) b c t)
            ≡ xs ++ set_rank (rank b) c ∷ set_rank (rank c) b ∷ ys
        unfolding swapped
        ranking-exchange_down =
            IsAscending-eq_of_perm laws.set rank _ swapped
              (find_many_by-IsAscending p rank (exchange kind prisma (key b) b c t))
              swapped-IsStrict
              (Perm.trans (exchanged-perm t b c)
                (rw (listed, exchanged-down xs ys b c ranking-UniqueBy) swapped-perm))

      -- The row that a search by the key finds is the one that the list has at a place.
      ranking_member :
          (t : Table Row)
          → UniqueBy key (rows t)
          → (id : String) (n : ℕ) (x r : Row) → item_at kind (ranking p t) n ≡ some x
          → (key x === id) ≡ true
          → find_first (λ y. key y === id) t ≡ some r
          → r ≡ x
      ranking_member t u id n x r at hit found =
          find-Mem key laws.set id (rows t) x r u
            (Mem-select p (rows t) x (
              (Perm.mem_iff (find_many_by-perm p rank t)).0
                (item_at-Mem kind (ranking p t) n x at)))
            hit (rw find_first-rows at found)

      -- What a move does to the list by rank.
      pub record Moved (id type : String) (t t' : Table Row) : Type 0 where
        pub before : List Row
        pub rest : List Row
        pub first : Row
        pub second : Row
        pub moved : ((type ≡ "up") × (key second ≡ id)) ⊎ ((type ≡ "down") × (key first ≡ id))
        pub listed : ranking p t ≡ before ++ first ∷ second ∷ rest
        pub listed' :
            ranking p t'
            ≡ before ++ set_rank (rank first) second ∷ set_rank (rank second) first ∷ rest

      -- The exchange with the chosen neighbour moves the row by one place.
      pub neighbour-Moved :
          (texts : Messages) (id type : String) (t : Table Row) (row other : Row)
          → neighbour kind texts id type (ranking p t) ≡ ok other
          → find_first (λ y. key y === id) t ≡ some row
          → UniqueBy key (rows t)
          → IsStrict (map rank (ranking p t))
          → Moved id type t (exchange kind prisma id row other t)
      neighbour-Moved texts id type t row other h found u strict =
          let (chosen, n) = neighbour-Neighbours kind texts id type (ranking p t) other h in
          let same : row ≡ chosen =
            ranking_member t u id n.place chosen row n.there ((eq_iff (key chosen) id).1 n.own)
              found in
          elim n.sides [
            | inl (up, second, first) ↦ record {
              before = n.before;
              rest = n.rest;
              first = n.first;
              second = n.second;
              moved = inl (up, ap key second ∙ n.own);
              listed = n.listed;
              listed' =
                  ap (ranking p)
                    (exchange_eq t id chosen row other n.second n.first same n.own second first)
                  ∙ ranking-exchange_up t u n.before n.rest n.first n.second n.listed strict;
            }
            | inr (down, first, second) ↦ record {
              before = n.before;
              rest = n.rest;
              first = n.first;
              second = n.second;
              moved = inr (down, ap key first ∙ n.own);
              listed = n.listed;
              listed' =
                  ap (ranking p)
                    (exchange_eq t id chosen row other n.first n.second same n.own first second)
                  ∙ ranking-exchange_down t u n.before n.rest n.first n.second n.listed strict;
            }
          ]
