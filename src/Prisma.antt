-- ===== src/Prisma.antt =====
-- The database client (`@prisma/client`, generated outside the repository) as an interface: a table
-- of rows for each model, the calls that the services make, and their documented effect on the rows.
pub mod InMemory
pub mod Sorting
use mathlib.Core.List.{Perm}
use open_api.Prelude.{
  ℕ, ◌≡◌, Bool, Option, List, [], ◌∷◌, ◌++◌, find, select, length, map, map_where, ℤ, not,
  IsAscending, String,
}

pub record Prisma : Type 1 where
  pub Table : Type 0 → Type 0
  -- The contents of a table, which only the laws and the statements name.
  pub rows : {R : Type 0} → Table R → List R
  -- `findUnique`, `findFirst`: the `where` is a test of a row.
  pub find_first : {R : Type 0} → (R → Bool) → Table R → Option R
  pub find_many : {R : Type 0} → (R → Bool) → Table R → List R
  pub count : {R : Type 0} → (R → Bool) → Table R → ℕ
  -- `update`, `updateMany`: sets fields of the rows that pass the `where`.
  pub update : {R : Type 0} → (R → Bool) → (R → R) → Table R → Table R
  pub create : {R : Type 0} → R → Table R → Table R
  -- `findMany` with `orderBy` an integer column, `asc`; rows with equal values come in any order.
  pub find_many_by : {R : Type 0} → (R → Bool) → (R → ℤ) → Table R → List R
  -- `delete`, `deleteMany`
  pub delete : {R : Type 0} → (R → Bool) → Table R → Table R
  -- The key that `@default(autoincrement())` gives to the next row.
  pub next_id : {R : Type 0} → Table R → ℕ
  -- The texts of the client's exceptions: no row to update, and a unique key that is taken.
  pub missing_message : String
  pub unique_message : String
  pub find_first-rows : {R : Type 0} (p : R → Bool) (t : Table R) → find_first p t ≡ find p (rows t)
  pub find_many-rows : {R : Type 0} (p : R → Bool) (t : Table R) → find_many p t ≡ select p (rows t)
  pub count-rows :
      {R : Type 0} (p : R → Bool) (t : Table R) → count p t ≡ length (select p (rows t))
  pub rows-update :
      {R : Type 0} (p : R → Bool) (f : R → R) (t : Table R)
      → rows (update p f t) ≡ map_where p f (rows t)
  pub rows-create : {R : Type 0} (r : R) (t : Table R) → rows (create r t) ≡ rows t ++ r ∷ []
  pub rows-delete :
      {R : Type 0} (p : R → Bool) (t : Table R)
      → rows (delete p t) ≡ select (λ r. not (p r)) (rows t)
  pub find_many_by-perm :
      {R : Type 0} (p : R → Bool) (column : R → ℤ) (t : Table R)
      → Perm (find_many_by p column t) (select p (rows t))
  pub find_many_by-IsAscending :
      {R : Type 0} (p : R → Bool) (column : R → ℤ) (t : Table R)
      → IsAscending (map column (find_many_by p column t))
