-- ===== src/Ranking/Neighbours.antt =====
-- The neighbour that `switchRank` chooses, as a place in the list.
use mathlib.Core.List.{Mem, mem-cons_self, mem-cons_of_mem}
use open_api.Prelude.{
  ℕ, zero, suc, ◌+◌, true, false, String, ◌===◌, ◌≡◌, refl, ap, sym, ◌∙◌, ◌⊎◌, ◌-◌, ◌==◌, ok, inl,
  inr, some, List, [], ◌∷◌, ◌++◌, arith, Bool-cases, Option-cases, eq_iff,
}
use open_api.Ranking.{Ranked, Messages, index_from, item_at, below, beside, at_index, neighbour}

module _ (kind : Ranked) where
  open kind use {Row, key}

  -- The last position of a key is that of a row with the key.
  pub index_from-item_at :
      (k : ℕ) (id : String) (l : List Row) (i : ℕ)
      → index_from kind k id l ≡ some i
      → (n : ℕ) × (r : Row) × (i ≡ k + n) × (item_at kind l n ≡ some r) × ((key r === id) ≡ true)
  unfolding index_from item_at
  index_from-item_at k id [] i e = cc
  index_from-item_at k id (x ∷ xs) i e = elim (Option-cases (index_from kind (k + 1) id xs)) [
    | inr (j, later) ↦
        let same : j ≡ i = ground arith in
        let (n, r, place, found, hit) = index_from-item_at (k + 1) id xs j later in
        (suc n, r, omega (arith, sym same), found, hit)
    | inl none_later ↦ elim (Bool-cases (key x === id)) [
      | inl hit ↦ (zero, x, ground arith, refl, hit)
      | inr miss ↦ absurd (ground arith)
    ]
  ]

  pub item_at-Mem : (l : List Row) (n : ℕ) (x : Row) → item_at kind l n ≡ some x → Mem x l
  unfolding item_at
  item_at-Mem [] n x e = cc
  item_at-Mem (y ∷ ys) zero x e = let same : y ≡ x = cc in rw same mem-cons_self
  item_at-Mem (y ∷ ys) (suc n) x e = mem-cons_of_mem y (item_at-Mem ys n x e)

  pub split_at :
      (l : List Row) (j : ℕ) (b c : Row)
      → item_at kind l j ≡ some b
      → item_at kind l (suc j) ≡ some c
      → (xs : List Row) × (ys : List Row) × (l ≡ xs ++ b ∷ c ∷ ys)
  unfolding item_at
  split_at [] j b c eb ec = cc
  split_at (x ∷ []) zero b c eb ec = cc
  split_at (x ∷ y ∷ ys) zero b c eb ec = ([], ys, cc)
  split_at (x ∷ xs) (suc j) b c eb ec =
      let (before, after, e) = split_at xs j b c eb ec in (x ∷ before, after, rw e)

  -- The row of the id and its neighbour, in the list: before it for a move up, after it for one
  -- down.
  pub record Neighbours (id type : String) (l : List Row) (row other : Row) : Type 0 where
    pub before : List Row
    pub rest : List Row
    pub first : Row
    pub second : Row
    pub listed : l ≡ before ++ first ∷ second ∷ rest
    pub place : ℕ
    pub there : item_at kind l place ≡ some row
    pub own : key row ≡ id
    pub sides :
        ((type ≡ "up") × (second ≡ row) × (first ≡ other))
        ⊎ ((type ≡ "down") × (first ≡ row) × (second ≡ other))

  module _ (texts : Messages) (id type : String) (l : List Row) (other : Row)
      (h : neighbour kind texts id type l ≡ ok other) where
    neighbour_index :
        (i : ℕ) × (index_from kind 0 id l ≡ some i) × (beside kind texts type l i ≡ ok other)
    unfolding neighbour at_index
    neighbour_index = elim (Option-cases (index_from kind 0 id l)) [
      | inl nowhere ↦ absurd (ground arith)
      | inr (i, at) ↦ (i, at, ground arith)
    ]

    module _ (i : ℕ) (run : beside kind texts type l i ≡ ok other) where
      beside_up : (type === "up") ≡ true → (j : ℕ) × (i ≡ suc j) × (item_at kind l j ≡ some other)
      unfolding beside
      beside_up up = elim (Bool-cases (i == 0)) [
        | inl top ↦ absurd (ground arith)
        | inr lower ↦ elim (Option-cases (item_at kind l (i - 1))) [
          | inl missing ↦ absurd (ground arith)
          | inr (r, there) ↦ (i - 1, ground arith, ground arith)
        ]
      ]

      beside_down :
          (type === "up") ≡ false
          → ((type === "down") ≡ true) × (item_at kind l (i + 1) ≡ some other)
      unfolding beside below
      beside_down not_up = elim (Bool-cases (type === "down")) [
        | inr neither ↦ absurd (ground arith)
        | inl down ↦ elim (Option-cases (item_at kind l (i + 1))) [
          | inl missing ↦ absurd (ground arith)
          | inr (r, there) ↦ (down, ground arith)
        ]
      ]

    pub neighbour-Neighbours : (row : Row) × Neighbours id type l row other
    neighbour-Neighbours =
        let (i, at, run) = neighbour_index in
        let (n, row, number, there, hit) = index_from-item_at 0 id l i at in
        let place : i ≡ n = omega (arith, number) in
        let here = ap (item_at kind l) place ∙ there in
        elim (Bool-cases (type === "up")) [
          | inl up ↦
              let (j, above, found) = beside_up i run up in
              let (xs, ys, listed) =
                split_at l j other row found (sym (ap (item_at kind l) above) ∙ here) in
              (
                row,
                record {
                  before = xs;
                  rest = ys;
                  first = other;
                  second = row;
                  listed = listed;
                  place = i;
                  there = here;
                  own = (eq_iff (key row) id).0 hit;
                  sides = inl ((eq_iff type "up").0 up, refl, refl);
                },
              )
          | inr not_up ↦
              let (down, found) = beside_down i run not_up in
              let next : i + 1 ≡ suc i = omega arith in
              let (xs, ys, listed) =
                split_at l i row other here (sym (ap (item_at kind l) next) ∙ found) in
              (
                row,
                record {
                  before = xs;
                  rest = ys;
                  first = row;
                  second = other;
                  listed = listed;
                  place = i;
                  there = here;
                  own = (eq_iff (key row) id).0 hit;
                  sides = inr ((eq_iff type "down").0 down, refl, refl);
                },
              )
        ]
