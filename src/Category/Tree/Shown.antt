-- ===== src/Category/Tree/Shown.antt =====
-- Which categories `categoryTree` (src/store/category/category.service.ts) shows.
use open_api.Prelude.{
  Bool, true, false, ◌&&◌, ◌||◌, String, ◌===◌, ◌≡◌, refl, ◌∙◌, get_or, some, List, [], ◌∷◌, map,
  find, select, any, any-select, any_ext, All, UniqueBy, UniqueBy-select, Bool-cases, arith, eq_iff,
  inl, inr, ok,
}
use open_api.Schema.{CategoryGoods, Db}
use open_api.Prisma.{Prisma}
use open_api.Category.Tree.{Node, is_active_of, category_tree}
use open_api.Category.Tree.Nested.{
  as_children, is_under, is_root, branch, nested, array2tree-nested,
}

module _ {T : Type 0} (key : T → String) where
  -- Whether a row with the key stands in the tree, as a root or below one.
  abbrev pub shows : String → List (Node T) → Bool
  shows k tree = any (λ n. key n.row === k || any (λ c. key c === k) (get_or n.children [])) tree

  any-apart :
      (q : T → Bool) (x : T) (k : String) (xs : List T)
      → (key x === k) ≡ true
      → All (λ y. (key x === key y) ≡ false) xs
      → any (λ c. q c && key c === k) xs ≡ false
  any-apart q x k [] e h = refl
  any-apart q x k (y ∷ ys) e h = ground (
    arith,
    h.0,
    eq_iff (key x) k,
    eq_iff (key y) k,
    eq_iff (key x) (key y),
    any-apart q x k ys e h.1,
  )

  -- Only the row that is found by the key has it.
  any-key :
      (q : T → Bool) (k : String) (xs : List T) (w : T)
      → UniqueBy key xs
      → find (λ x. key x === k) xs ≡ some w
      → any (λ c. q c && key c === k) xs ≡ q w
  any-key q k [] w u e = cc
  any-key q k (x ∷ xs) w u e = elim (Bool-cases (key x === k)) [
    | inl here ↦ let none_later = any-apart q x k xs here u.0 in ground arith
    | inr later ↦ ground (arith, any-key q k xs w u.1)
  ]

any_or :
    {T : Type 0} (p q : T → Bool) (xs : List T) → any (λ x. p x || q x) xs ≡ (any p xs || any q xs)
any_or p q [] = refl
any_or p q (x ∷ xs) = ground (arith, any_or p q xs)

and-or : (a b c : Bool) → (a && (b || c)) ≡ (a && b || a && c)
and-or true b c = refl
and-or false b c = refl

as_children_lem : {T : Type 0} (xs : List T) → get_or (as_children xs) [] ≡ xs
as_children_lem [] = refl
as_children_lem (x ∷ xs) = refl

module _ {T : Type 0} (pid key : T → String) (empty_value : String) where
  shows-branches :
      (k : String) (arr xs : List T)
      → shows key k (map (branch pid key empty_value arr) xs)
        ≡ any
            (λ r.
              key r === k || any (λ c. key c === k) (select (is_under pid key empty_value r) arr))
            xs
  shows-branches k arr [] = refl
  shows-branches k arr (x ∷ xs) =
      rw (as_children_lem (select (is_under pid key empty_value x) arr), shows-branches k arr xs)

  -- One row's part in the tree.
  branch_shows :
      (arr : List T) (k : String) (w r : T)
      → UniqueBy key arr
      → find (λ x. key x === k) arr ≡ some w
      → (is_root pid key empty_value arr r
          && (key r === k || any (λ c. key c === k) (select (is_under pid key empty_value r) arr)))
        ≡ (is_root pid key empty_value arr r && key r === k
            || is_root pid key empty_value arr r && is_under pid key empty_value r w)
  branch_shows arr k w r u e =
      let under = is_under pid key empty_value r in
      rw (any-select (λ c. key c === k) under arr, any-key key under k arr w u e)
        (and-or (is_root pid key empty_value arr r) (key r === k) (under w))

  -- A row is shown where it is a root or below a root.
  pub shows-nested :
      (arr : List T) (k : String) (w : T)
      → UniqueBy key arr
      → find (λ x. key x === k) arr ≡ some w
      → shows key k (nested pid key empty_value arr) ≡ (
          is_root pid key empty_value arr w
          || any (λ r. is_root pid key empty_value arr r && is_under pid key empty_value r w) arr)
  shows-nested arr k w u e =
      let root = is_root pid key empty_value arr in
      let shown = λ (r : T).
        key r === k || any (λ c. key c === k) (select (is_under pid key empty_value r) arr) in
      shows-branches k arr (select root arr)
      ∙ any-select shown root arr
      ∙ any_ext _ _ arr (λ r. branch_shows arr k w r u e)
      ∙ any_or (λ r. root r && key r === k) (λ r. root r && is_under pid key empty_value r w) arr
      ∙ rw (any-key key root k arr w u e)

module _ (prisma : Prisma) where
  open prisma use {Table, rows, find_many-rows}

  -- The active categories of a store.
  abbrev pub shelf_of : String → Db Table → List CategoryGoods
  shelf_of store_id db = select (is_active_of prisma store_id) (rows db.category_goods)

  abbrev pub is_top : List CategoryGoods → CategoryGoods → Bool
  is_top = is_root (λ c. c.pid) (λ c. c.category_id) "0"

  abbrev pub is_below : CategoryGoods → CategoryGoods → Bool
  is_below = is_under (λ c. c.pid) (λ c. c.category_id) "0"

  -- Where no two categories have the same id, the tree of a store lists its active categories without
  -- an active parent, in the order of the table, each with the active ones that name it as parent;
  -- the database stays as it was. An active category of the store stands in the tree exactly when
  -- it has no active parent or stands below such a one.
  pub category_tree-shown :
      (store_id : String) (db : Db Table) (w : CategoryGoods)
      → UniqueBy (λ c. c.category_id) (rows db.category_goods)
      → find (λ c. c.category_id === w.category_id) (shelf_of store_id db) ≡ some w
      → let shelf = shelf_of store_id db in
        let tree = nested (λ c. c.pid) (λ c. c.category_id) "0" shelf in
        (category_tree prisma store_id db ≡ (ok tree, db))
        × (shows (λ c. c.category_id) w.category_id tree
            ≡ (is_top shelf w || any (λ p. is_top shelf p && is_below p w) shelf))
  unfolding category_tree
  category_tree-shown store_id db w u e =
      let shelf = shelf_of store_id db in
      let unique =
        UniqueBy-select (λ c. c.category_id) (is_active_of prisma store_id) (rows db.category_goods)
          u in
      (
        rw (
          find_many-rows (is_active_of prisma store_id) db.category_goods,
          array2tree-nested (λ c. c.pid) (λ c. c.category_id) "0" shelf unique,
        ),
        shows-nested (λ c. c.pid) (λ c. c.category_id) "0" shelf w.category_id w unique e,
      )
