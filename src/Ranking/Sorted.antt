-- ===== src/Ranking/Sorted.antt =====
-- Lists with strictly ascending numbers: such a list is determined by what it contains.
use mathlib.Core.List.{Mem, Perm, mem-cons_self, eq-or-mem_of_mem-cons, not-mem-nil}
use mathlib.Core.List.Perm
use mathlib.Core.Logic.Or
use mathlib.Core.Path.{ap₂}
use native.Mathlib.Bridge.{le_prop}
use open_api.Prelude.{
  ℤ, ◌≤ℤ◌, ltb_ℤ, ◌≡◌, ap, sym, true, List, [], ◌∷◌, map, arith, All, IsAscending, IsStrict,
}

module _ {R : Type 0} (set : IsSet R) (column : R → ℤ) where
  -- What all of a list's numbers are below, its members are below.
  ascending_mem :
      (a : ℤ) (xs : List R) (x : R) → All (λ y. a ≤ℤ y) (map column xs) → Mem x xs → a ≤ℤ column x
  ascending_mem a [] x h m = absurd (not-mem-nil m)
  ascending_mem a (y ∷ ys) x h m =
      Or.elim le_prop (eq-or-mem_of_mem-cons m)
        (λ e. let here : column x ≡ column y = ap column e in ground arith)
        (λ later. ascending_mem a ys x h.1 later)

  heads_le :
      (x y : R) (xs ys : List R)
      → IsAscending (map column (y ∷ ys))
      → Perm (x ∷ xs) (y ∷ ys)
      → column y ≤ℤ column x
  heads_le x y xs ys h p =
      Or.elim le_prop (eq-or-mem_of_mem-cons ((Perm.mem_iff p).0 mem-cons_self))
        (λ e. let here : column x ≡ column y = ap column e in ground arith)
        (λ later. ascending_mem (column y) ys x h.0 later)

  strict_mem_lt :
      (a : ℤ) (xs : List R) (x : R)
      → All (λ y. ltb_ℤ a y ≡ true) (map column xs)
      → Mem x xs
      → ltb_ℤ a (column x) ≡ true
  strict_mem_lt a [] x h m = absurd (not-mem-nil m)
  strict_mem_lt a (y ∷ ys) x h m =
      Or.elim (hlevel) (eq-or-mem_of_mem-cons m)
        (λ e. let here : column x ≡ column y = ap column e in ground arith)
        (λ later. strict_mem_lt a ys x h.1 later)

  heads_eq :
      (x y : R) (xs ys : List R)
      → IsAscending (map column (x ∷ xs))
      → IsStrict (map column (y ∷ ys))
      → Perm (x ∷ xs) (y ∷ ys)
      → x ≡ y
  heads_eq x y xs ys hx hy p =
      Or.elim (set x y) (eq-or-mem_of_mem-cons ((Perm.mem_iff p).0 mem-cons_self)) (λ e. e)
        (λ later.
          let above = strict_mem_lt (column y) ys x hy.0 later in
          let below = heads_le y x ys xs hx (Perm.symm p) in absurd (ground arith))

  pub IsAscending-eq_of_perm :
      (xs ys : List R)
      → IsAscending (map column xs)
      → IsStrict (map column ys)
      → Perm xs ys
      → xs ≡ ys
  IsAscending-eq_of_perm [] ys hx hy p = sym (Perm.eq-nil (Perm.symm p))
  IsAscending-eq_of_perm (x ∷ xs) [] hx hy p = Perm.eq-nil p
  IsAscending-eq_of_perm (x ∷ xs) (y ∷ ys) hx hy p =
      let same = heads_eq x y xs ys hx hy p in
      let tails = Perm.cons_inv (Perm.trans p (Perm.symm (Perm.cons' same Perm.rfl))) in
      ap₂ ◌∷◌ same (IsAscending-eq_of_perm xs ys hx.1 hy.1 tails)
