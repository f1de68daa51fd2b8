-- ===== src/Category/Tree/Nested.antt =====
-- `array2Tree` (src/common/utils/index.ts) against a description without loops.
use open_api.Prelude.{
  Bool, false, not, ◌&&◌, ◌||◌, String, ◌===◌, ◌≡◌, refl, ap, is_some, get_or, Option, none, some,
  List, [], ◌∷◌, ◌++◌, append_assoc, append-nil, map, All-select, map_where, find, select,
  select_ext, any, All, All-at, UniqueBy, Bool-cases, arith, eq_refl, inl, inr,
}
use mathlib.Core.Option
use mathlib.Core.List.{map-append}
use open_api.Category.Tree.{
  Node, leaf, push_child, entry, put, put_all, has_parent, place_all, array2tree,
}

-- The children of a node: none at all in place of an empty list.
abbrev pub as_children : {T : Type 0} → List T → Option (List T)
as_children [] = none
as_children (x ∷ xs) = some (x ∷ xs)

module _ {T : Type 0} (key : T → String) where
  missing-prefix :
      (pre xs : List T) (x : T)
      → UniqueBy key (pre ++ x ∷ xs)
      → find (λ n. key n.row === key x) (map leaf pre) ≡ none
  missing-prefix [] xs x u = refl
  missing-prefix (p ∷ pre) xs x u =
      let apart = All-at (λ y. (key p === key y) ≡ false) pre x xs u.0 in
      ground (arith, missing-prefix pre xs x u.1)

  put-new :
      (item : T) (nodes : List (Node T))
      → entry key (key item) nodes ≡ none
      → put key item nodes ≡ nodes ++ leaf item ∷ []
  unfolding put
  put-new item [] h = refl
  put-new item (n ∷ ns) h = ground (arith, put-new item ns)

  -- Rows with different keys have one entry each.
  put_all_lem :
      (pre xs : List T)
      → UniqueBy key (pre ++ xs)
      → put_all key xs (map leaf pre) ≡ map leaf (pre ++ xs)
  unfolding put_all
  put_all_lem pre [] u = rw (append-nil pre)
  put_all_lem pre (x ∷ xs) u =
      rw (put-new x (map leaf pre) (missing-prefix pre xs x u), ← map-append leaf pre (x ∷ []))
        (rw (← append_assoc pre (x ∷ []) xs)
          (put_all_lem (pre ++ x ∷ []) xs (rw (append_assoc pre (x ∷ []) xs) u)))

  entry-map :
      (h : T → Node T) (k : String) (xs : List T)
      → ((x : T) → (h x).row ≡ x)
      → entry key k (map h xs) ≡ Option.map h (find (λ x. key x === k) xs)
  entry-map h k [] same = refl
  entry-map h k (x ∷ xs) same = ground (arith, same x, entry-map h k xs same)

  -- Each row is the one that is found by its key.
  Found : List T → T → Type 0
  Found xs t = find (λ x. key x === key t) xs ≡ some t

  All-Found_cons :
      (x : T) (xs ys : List T)
      → All (λ y. (key x === key y) ≡ false) ys
      → All (Found xs) ys
      → All (Found (x ∷ xs)) ys
  unfolding Found
  All-Found_cons x xs [] h k = tt
  All-Found_cons x xs (y ∷ ys) h k = (rw h.0 k.0, All-Found_cons x xs ys h.1 k.1)

  All-Found : (xs : List T) → UniqueBy key xs → All (Found xs) xs
  unfolding Found
  All-Found [] u = tt
  All-Found (x ∷ xs) u = (rw (eq_refl (key x)), All-Found_cons x xs xs u.0 (All-Found xs u.1))

module _ {T : Type 0} (pid key : T → String) (empty_value : String) where
  -- A row that names the other as its parent.
  abbrev pub is_under : T → T → Bool
  is_under r v = not (pid v === empty_value) && key r === pid v

  -- A row with no parent among the rows.
  abbrev pub is_root : List T → T → Bool
  is_root arr v = pid v === empty_value || not (any (λ t. key t === pid v) arr)

  abbrev pub branch : List T → T → Node T
  branch arr r = record { row = r; children = as_children (select (is_under r) arr) }

  -- The rows without a parent, each with the rows below it.
  abbrev pub nested : List T → List (Node T)
  nested arr = map (branch arr) (select (is_root arr) arr)

  adopt : Node T → List T → Node T
  adopt n [] = n
  adopt n (v ∷ vs) = adopt (push_child v n) vs

  adopt-append :
      (r : T) (xs vs : List T)
      → adopt (record { row = r; children = some xs }) vs
        ≡ record { row = r; children = some (xs ++ vs) }
  unfolding adopt
  adopt-append r xs [] = rw (append-nil xs)
  adopt-append r xs (v ∷ vs) = rw (adopt-append r (xs ++ v ∷ []) vs, append_assoc xs (v ∷ []) vs)

  adopt-leaf :
      (r : T) (vs : List T) → adopt (leaf r) vs ≡ record { row = r; children = as_children vs }
  unfolding adopt
  adopt-leaf r [] = refl
  adopt-leaf r (v ∷ vs) = adopt-append r (v ∷ []) vs

  has_parent-push :
      (v : T) (k : String) (nodes : List (Node T))
      → is_some (entry key k (map_where (λ n. key n.row === pid v) (push_child v) nodes))
        ≡ is_some (entry key k nodes)
  has_parent-push v k [] = refl
  has_parent-push v k (n ∷ ns) = ground (arith, has_parent-push v k ns)

  -- What the loop has put below a row, and what it will.
  grown : List T → Node T → Node T
  grown vs n = adopt n (select (is_under n.row) vs)

  grown-push :
      (v : T) (vs : List T) (nodes : List (Node T))
      → (pid v === empty_value) ≡ false
      → map (grown vs) (map_where (λ n. key n.row === pid v) (push_child v) nodes)
        ≡ map (grown (v ∷ vs)) nodes
  unfolding grown adopt
  grown-push v vs [] h = refl
  grown-push v vs (n ∷ ns) h = ground (arith, grown-push v vs ns h)

  grown-skip :
      (v : T) (vs : List T) (nodes : List (Node T))
      → has_parent pid key empty_value nodes v ≡ false
      → map (grown vs) nodes ≡ map (grown (v ∷ vs)) nodes
  unfolding grown
  grown-skip v vs [] h = refl
  grown-skip v vs (n ∷ ns) h = ground (arith, grown-skip v vs ns)

  grown_nil : (nodes : List (Node T)) → map (grown []) nodes ≡ nodes
  unfolding grown adopt
  grown_nil [] = refl
  grown_nil (n ∷ ns) = ap (λ l. n ∷ l) (grown_nil ns)

  place_all_lem :
      (vs : List T) (nodes : List (Node T)) (roots : List T)
      → place_all pid key empty_value vs nodes roots ≡ (
        map (grown vs) nodes,
        roots ++ select (λ v. not (has_parent pid key empty_value nodes v)) vs,
      )
  unfolding place_all
  place_all_lem [] nodes roots = rw (grown_nil nodes, append-nil roots)
  place_all_lem (v ∷ vs) nodes roots = elim (Bool-cases (has_parent pid key empty_value nodes v)) [
    | inl below ↦
        let later = map_where (λ n. key n.row === pid v) (push_child v) nodes in
        let named : (pid v === empty_value) ≡ false = ground arith in
        let same =
          select_ext (λ w. not (has_parent pid key empty_value later w))
            (λ w. not (has_parent pid key empty_value nodes w)) vs
            (λ w.
              ap (λ b. not (not (pid w === empty_value) && b)) (has_parent-push v (pid w) nodes)) in
        rw below (rw (place_all_lem vs later roots, grown-push v vs nodes named, same))
    | inr root ↦ rw root (
        rw (
          place_all_lem vs nodes (roots ++ v ∷ []),
          grown-skip v vs nodes root,
          append_assoc roots (v ∷ [])
              (select (λ w. not (has_parent pid key empty_value nodes w)) vs),
        ))
  ]

  is_some-entry :
      (k : String) (arr : List T)
      → is_some (entry key k (map leaf arr)) ≡ any (λ t. key t === k) arr
  is_some-entry k [] = refl
  is_some-entry k (x ∷ xs) = ground (arith, is_some-entry k xs)

  grown-leaf : (arr xs : List T) → map (grown arr) (map leaf xs) ≡ map (branch arr) xs
  unfolding grown
  grown-leaf arr [] = refl
  grown-leaf arr (x ∷ xs) = rw (adopt-leaf x (select (is_under x) arr), grown-leaf arr xs)

  -- The rows are shown by what is found under their keys.
  map-entry :
      (arr xs : List T)
      → All (Found key arr) xs
      → map (λ item. get_or (entry key (key item) (map (branch arr) arr)) (leaf item)) xs
        ≡ map (branch arr) xs
  unfolding Found
  map-entry arr [] h = refl
  map-entry arr (x ∷ xs) h =
      let found = entry-map key (branch arr) (key x) arr (λ t. refl) in
      rw (found, h.0, map-entry arr xs h.1)

  -- For rows with different keys the two loops build the rows without a parent, in the order of the
  -- list, each with the rows that name it as their parent.
  pub array2tree-nested :
      (arr : List T) → UniqueBy key arr → array2tree pid key empty_value arr ≡ nested arr
  unfolding array2tree
  array2tree-nested arr u =
      let roots =
        select_ext (λ v. not (has_parent pid key empty_value (map leaf arr) v)) (is_root arr) arr
          (λ v. ground (arith, is_some-entry (pid v) arr)) in
      rw (put_all_lem key [] arr u, place_all_lem arr (map leaf arr) [], grown-leaf arr arr, roots)
        (map-entry arr (select (is_root arr) arr)
          (All-select (Found key arr) (is_root arr) arr (All-Found key arr u)))
