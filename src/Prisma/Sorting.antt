-- ===== src/Prisma/Sorting.antt =====
-- Rows in ascending order of an integer column, by insertion.
use mathlib.Core.List.{Perm}
use mathlib.Core.List.Perm
use open_api.Prelude.{
  ℤ, ◌≤ℤ◌, leb_ℤ, inl, inr, List, [], ◌∷◌, map, if◌then◌else◌, arith, All, IsAscending, Bool-cases,
}

module _ {R : Type 0} (column : R → ℤ) where
  insert_by : R → List R → List R
  insert_by x [] = x ∷ []
  insert_by x (y ∷ ys) =
      let rest = insert_by x ys in if leb_ℤ (column x) (column y) then x ∷ y ∷ ys else y ∷ rest

  unfoldable pub sort_by : List R → List R
  unfolding insert_by
  sort_by [] = []
  sort_by (x ∷ xs) = insert_by x (sort_by xs)

  insert_by-perm : (x : R) (xs : List R) → Perm (insert_by x xs) (x ∷ xs)
  unfolding insert_by
  insert_by-perm x [] = Perm.rfl
  insert_by-perm x (y ∷ ys) = elim (Bool-cases (leb_ℤ (column x) (column y))) [
    | inl le ↦ rw le Perm.rfl
    | inr gt ↦ rw gt (Perm.trans (Perm.cons y (insert_by-perm x ys)) (Perm.swap x y ys))
  ]

  pub sort_by-perm : (xs : List R) → Perm (sort_by xs) xs
  unfolding sort_by
  sort_by-perm [] = Perm.rfl
  sort_by-perm (x ∷ xs) = Perm.trans (insert_by-perm x (sort_by xs)) (Perm.cons x (sort_by-perm xs))

  All-weaken : (a b : ℤ) (xs : List ℤ) → a ≤ℤ b → All (λ y. b ≤ℤ y) xs → All (λ y. a ≤ℤ y) xs
  All-weaken a b [] le h = tt
  All-weaken a b (x ∷ xs) le h = (ground arith, All-weaken a b xs le h.1)

  All-insert_by :
      (a : ℤ) (x : R) (xs : List R)
      → a ≤ℤ column x
      → All (λ y. a ≤ℤ y) (map column xs)
      → All (λ y. a ≤ℤ y) (map column (insert_by x xs))
  unfolding insert_by
  All-insert_by a x [] le h = (le, tt)
  All-insert_by a x (y ∷ ys) le h = elim (Bool-cases (leb_ℤ (column x) (column y))) [
    | inl first ↦ rw first (le, h)
    | inr later ↦ rw later (h.0, All-insert_by a x ys le h.1)
  ]

  insert_by-IsAscending :
      (x : R) (xs : List R)
      → IsAscending (map column xs)
      → IsAscending (map column (insert_by x xs))
  unfolding insert_by
  insert_by-IsAscending x [] h = (tt, tt)
  insert_by-IsAscending x (y ∷ ys) h = elim (Bool-cases (leb_ℤ (column x) (column y))) [
    | inl le ↦
        let below : column x ≤ℤ column y = ground arith in
        rw le ((below, All-weaken (column x) (column y) (map column ys) below h.0), h)
    | inr gt ↦
        rw gt (All-insert_by (column y) x ys (ground arith) h.0, insert_by-IsAscending x ys h.1)
  ]

  pub sort_by-IsAscending : (xs : List R) → IsAscending (map column (sort_by xs))
  unfolding sort_by
  sort_by-IsAscending [] = tt
  sort_by-IsAscending (x ∷ xs) = insert_by-IsAscending x (sort_by xs) (sort_by-IsAscending xs)
