-- ===== src/Ranking/Lists.antt =====
-- Lists of rows: membership, order and uniqueness under the operations of a table.
use mathlib.Core.List.{
  Mem, Mem-prop, Perm, Pairwise, mem-cons_self, eq-or-mem_of_mem-cons, not-mem-nil, mem-cons_of_mem,
}
use mathlib.Core.List.Perm
use mathlib.Core.Logic.Or
use open_api.Prelude.{
  Bool, true, false, String, ◌===◌, ◌≡◌, refl, ap, inl, inr, some, List, [], ◌∷◌, ◌++◌, map,
  if◌then◌else◌, arith, find, select, map_where, All, All-at, UniqueBy, Bool-cases, eq_iff,
}

module _ {R : Type 0} where
  All-at_next :
      (P : R → Type 0) (xs : List R) (b c : R) (ys : List R) → All P (xs ++ b ∷ c ∷ ys) → P c
  All-at_next P [] b c ys h = h.1.0
  All-at_next P (x ∷ xs) b c ys h = All-at_next P xs b c ys h.1

  map_where-map :
      (q : R → Bool) (f : R → R) (xs : List R)
      → map_where q f xs ≡ map (λ x. if q x then f x else x) xs
  map_where-map q f [] = refl
  map_where-map q f (x ∷ xs) = ap (◌∷◌ (if q x then f x else x)) (map_where-map q f xs)

  pub map_where-perm :
      (q : R → Bool) (f : R → R) {xs ys : List R}
      → Perm xs ys
      → Perm (map_where q f xs) (map_where q f ys)
  map_where-perm q f {xs} {ys} p =
      rw (map_where-map q f xs, map_where-map q f ys) (Perm.map (λ x. if q x then f x else x) p)

  pub map_where-append :
      (q : R → Bool) (f : R → R) (xs ys : List R)
      → map_where q f (xs ++ ys) ≡ map_where q f xs ++ map_where q f ys
  map_where-append q f [] ys = refl
  map_where-append q f (x ∷ xs) ys = ap (◌∷◌ (if q x then f x else x)) (map_where-append q f xs ys)

  pub map_where_apart :
      (q : R → Bool) (f : R → R) (xs : List R) → All (λ x. q x ≡ false) xs → map_where q f xs ≡ xs
  map_where_apart q f [] h = refl
  map_where_apart q f (x ∷ xs) h = ground (arith, map_where_apart q f xs h.1)

  pub select-map_where :
      (p q : R → Bool) (f : R → R) (xs : List R)
      → ((x : R) → p (f x) ≡ p x)
      → select p (map_where q f xs) ≡ map_where q f (select p xs)
  select-map_where p q f [] keep = refl
  select-map_where p q f (x ∷ xs) keep = ground (arith, keep x, select-map_where p q f xs keep)

  pub Mem-select : (p : R → Bool) (xs : List R) (x : R) → Mem x (select p xs) → Mem x xs
  Mem-select p [] x m = m
  Mem-select p (y ∷ ys) x m = elim (Bool-cases (p y)) [
    | inr out ↦ mem-cons_of_mem y (Mem-select p ys x (rw out at m))
    | inl kept ↦
        let here : Mem x (y ∷ select p ys) = rw kept at m in
        Or.elim Mem-prop (eq-or-mem_of_mem-cons here) (λ e. rw e mem-cons_self)
          (λ later. mem-cons_of_mem y (Mem-select p ys x later))
  ]

  All-Mem :
      (P : R → Bool) (xs : List R) (x : R) → All (λ y. P y ≡ false) xs → Mem x xs → P x ≡ false
  All-Mem P [] x h m = absurd (not-mem-nil m)
  All-Mem P (y ∷ ys) x h m =
      Or.elim (hlevel) (eq-or-mem_of_mem-cons m) (λ e. rw e h.0) (λ later. All-Mem P ys x h.1 later)

  All-of_Mem :
      (P : R → Bool) (xs : List R) → ((x : R) → Mem x xs → P x ≡ false) → All (λ y. P y ≡ false) xs
  All-of_Mem P [] h = tt
  All-of_Mem P (y ∷ ys) h = (h y mem-cons_self, All-of_Mem P ys (λ x m. h x (mem-cons_of_mem y m)))

  module _ (key : R → String) where
    -- A search by a unique key finds the member of that key.
    pub find-Mem :
        (set : IsSet R) (id : String) (xs : List R) (x r : R)
        → UniqueBy key xs
        → Mem x xs
        → (key x === id) ≡ true
        → find (λ y. key y === id) xs ≡ some r
        → r ≡ x
    find-Mem set id [] x r u m k e = absurd (not-mem-nil m)
    find-Mem set id (y ∷ ys) x r u m k e =
        Or.elim (set r x) (eq-or-mem_of_mem-cons m)
          (λ here. let hit : (key y === id) ≡ true = rw here at k in ground arith)
          (λ later.
            let apart = All-Mem (λ z. key y === key z) ys x u.0 later in
            let miss : (key y === id) ≡ false =
              ground (arith, eq_iff (key y) id, eq_iff (key x) id, eq_iff (key y) (key x)) in
            find-Mem set id ys x r u.1 later k (rw miss at e))

    UniqueBy-Pairwise :
        (xs : List R) → UniqueBy key xs → Pairwise (λ a b. (key a === key b) ≡ false) xs
    UniqueBy-Pairwise [] u = Pairwise.nil
    UniqueBy-Pairwise (x ∷ xs) u =
        Pairwise.cons (λ y m. All-Mem (λ z. key x === key z) xs y u.0 m) (UniqueBy-Pairwise xs u.1)

    UniqueBy-of_Pairwise :
        {xs : List R} → Pairwise (λ a b. (key a === key b) ≡ false) xs → UniqueBy key xs
    UniqueBy-of_Pairwise Pairwise.nil = tt
    UniqueBy-of_Pairwise (Pairwise.cons {a = x} {l = xs} apart rest) =
        (All-of_Mem (λ z. key x === key z) xs apart, UniqueBy-of_Pairwise rest)

    pub UniqueBy-perm : (xs ys : List R) → Perm xs ys → UniqueBy key xs → UniqueBy key ys
    UniqueBy-perm xs ys p u = UniqueBy-of_Pairwise (
        Perm.pairwise {R = λ (a : R) (b : R). (key a === key b) ≡ false} (λ a b. hlevel)
          (λ a b h. ground (arith, eq_iff (key a) (key b), eq_iff (key b) (key a))) p
          (UniqueBy-Pairwise xs u))

    -- The rows round two neighbours have other keys.
    pub apart_before :
        (xs ys : List R) (b c : R)
        → UniqueBy key (xs ++ b ∷ c ∷ ys)
        → All (λ x. (key x === key b) ≡ false) xs × All (λ x. (key x === key c) ≡ false) xs
    apart_before [] ys b c u = (tt, tt)
    apart_before (x ∷ xs) ys b c u =
        let (fb, fc) = apart_before xs ys b c u.1 in
        let head = λ (z : R). (key x === key z) ≡ false in
        ((All-at head xs b (c ∷ ys) u.0, fb), (All-at_next head xs b c ys u.0, fc))

    pub UniqueBy-drop : (xs ys : List R) → UniqueBy key (xs ++ ys) → UniqueBy key ys
    UniqueBy-drop [] ys u = u
    UniqueBy-drop (x ∷ xs) ys u = UniqueBy-drop xs ys u.1

    -- Uniqueness read from the other side.
    pub All-flip :
        (b : R) (ys : List R)
        → All (λ y. (key b === key y) ≡ false) ys
        → All (λ y. (key y === key b) ≡ false) ys
    All-flip b [] h = tt
    All-flip b (y ∷ ys) h =
        (ground (arith, eq_iff (key b) (key y), eq_iff (key y) (key b)), All-flip b ys h.1)
