-- ===== src/Prelude/Keys.antt =====
-- Tables with a unique text column: searching by the key, and predicates of all rows.
use mathlib.Core.Path.{◌≡◌, refl}
use mathlib.Core.Logic.{inl, inr}
use mathlib.Core.Bool.{Bool, true, false, ◌&&◌}
use mathlib.Core.List.{List, [], ◌∷◌, ◌++◌}
use mathlib.Core.Option.{none, some}
use Prim.Native.String.{String}
use native.Mathlib.Omega.{arith}
use text.Mathlib.TextEquality.{eq_iff}
use open_api.Prelude.Tests.{Bool-cases, if-cases, ◌===◌}
use open_api.Prelude.Lists.{All, All-find, find, find_sound, map_where, select, any}

module _ {ℓ} {A : Type ℓ} where
  -- No two rows have the same key (`@unique`).
  abbrev pub UniqueBy : (A → String) → List A → Type ℓ
  UniqueBy key [] = Unit
  UniqueBy key (x ∷ xs) = All (λ y. (key x === key y) ≡ false) xs × UniqueBy key xs

module _ {ℓ κ} {A : Type ℓ} (P : A → Type κ) where
  pub All-append : (xs ys : List A) → All P xs → All P ys → All P (xs ++ ys)
  All-append [] ys h k = k
  All-append (x ∷ xs) ys h k = (h.0, All-append xs ys h.1 k)

  pub All-map_where :
      (p : A → Bool) (f : A → A) (xs : List A)
      → ((x : A) → p x ≡ true → P x → P (f x))
      → All P xs
      → All P (map_where p f xs)
  All-map_where p f [] keep h = tt
  All-map_where p f (x ∷ xs) keep h = elim (Bool-cases (p x)) [
    | inl hit ↦ rw hit (keep x hit h.0, All-map_where p f xs keep h.1)
    | inr miss ↦ rw miss (h.0, All-map_where p f xs keep h.1)
  ]

module _ {ℓ} {A : Type ℓ} (key : A → String) where
  -- A search by key and a further test finds the row of that key.
  pub find-key :
      (id : String) (q : A → Bool) (xs : List A) (r : A)
      → UniqueBy key xs
      → find (λ x. key x === id && q x) xs ≡ some r
      → find (λ x. key x === id) xs ≡ some r
  find-key id q [] r u e = e
  find-key id q (x ∷ xs) r u e = elim (Bool-cases (key x === id)) [
    | inr other ↦ rw other (find-key id q xs r u.1 (rw other at e))
    | inl same ↦ elim (Bool-cases (q x)) [
      | inl fits ↦ rw same (rw (same, fits) at e)
      | inr fails ↦
          let later : find (λ x. key x === id && q x) xs ≡ some r = rw (same, fails) at e in
          let found = find_sound (λ x. key x === id && q x) xs r later in
          let apart = All-find (λ y. (key x === key y) ≡ false) _ xs r u.0 later in
          ground (arith, eq_iff (key x) id, eq_iff (key r) id, eq_iff (key x) (key r))
    ]
  ]

  pub find-map_where_key :
      (id : String) (f : A → A) (xs : List A) (r : A)
      → ((x : A) → key (f x) ≡ key x)
      → find (λ x. key x === id) xs ≡ some r
      → find (λ x. key x === id) (map_where (λ x. key x === id) f xs) ≡ some (f r)
  find-map_where_key id f [] r keep e = cc
  find-map_where_key id f (x ∷ xs) r keep e = elim (Bool-cases (key x === id)) [
    | inl same ↦ rw (same, keep x, same) (let eq : x ≡ r = ground arith in rw eq)
    | inr other ↦ rw (other, other) (find-map_where_key id f xs r keep (rw other at e))
  ]

  pub find-map_where_other :
      (id other : String) (f : A → A) (xs : List A)
      → ((x : A) → key (f x) ≡ key x)
      → (other === id) ≡ false
      → find (λ x. key x === other) (map_where (λ x. key x === id) f xs)
        ≡ find (λ x. key x === other) xs
  find-map_where_other id other f [] keep ne = refl
  find-map_where_other id other f (x ∷ xs) keep ne = ground (
    arith,
    keep x,
    eq_iff (key x) id,
    eq_iff (key x) other,
    eq_iff other id,
    find-map_where_other id other f xs keep ne,
  )

module _ {ℓ} {A : Type ℓ} where
  -- A search that implies the selection does not notice it.
  pub find-select :
      (p q : A → Bool) (xs : List A)
      → ((x : A) → p x ≡ true → q x ≡ true)
      → find p (select q xs) ≡ find p xs
  find-select p q [] h = refl
  find-select p q (x ∷ xs) h = ground (arith, h x, find-select p q xs h)

  pub All-select {κ} :
      (P : A → Type κ) (q : A → Bool) (xs : List A) → All P xs → All P (select q xs)
  All-select P q [] h = tt
  All-select P q (x ∷ xs) h =
      if-cases (All P) (q x) (λ _. (h.0, All-select P q xs h.1)) (λ _. All-select P q xs h.1)

  pub UniqueBy-select :
      (key : A → String) (q : A → Bool) (xs : List A) → UniqueBy key xs → UniqueBy key (select q xs)
  UniqueBy-select key q [] u = tt
  UniqueBy-select key q (x ∷ xs) u =
      if-cases (UniqueBy key) (q x)
        (λ _. (All-select (λ y. (key x === key y) ≡ false) q xs u.0, UniqueBy-select key q xs u.1))
        (λ _. UniqueBy-select key q xs u.1)

  pub any-find : (p : A → Bool) (xs : List A) (x : A) → find p xs ≡ some x → any p xs ≡ true
  any-find p [] x e = cc
  any-find p (y ∷ ys) x e = ground (arith, any-find p ys x)

module _ {ℓ} {A : Type ℓ} where
  -- Searching after an update of the row that the search had found.
  pub find-map_where_hit :
      (p q : A → Bool) (f : A → A) (xs : List A) (r : A)
      → ((x : A) → p (f x) ≡ p x)
      → q r ≡ true
      → find p xs ≡ some r
      → find p (map_where q f xs) ≡ some (f r)
  find-map_where_hit p q f [] r keep hit e = cc
  find-map_where_hit p q f (x ∷ xs) r keep hit e = elim (Bool-cases (p x)) [
    | inl here ↦ let same : x ≡ r = ground arith in rw (same, hit, keep r, (rw same at here))
    | inr not_here ↦ ground (arith, keep x, find-map_where_hit p q f xs r keep hit)
  ]

  -- Where no row passes both tests, an update by the one leaves a search by the other alone.
  pub find-map_where_apart :
      (p q : A → Bool) (f : A → A) (xs : List A)
      → ((x : A) → p (f x) ≡ p x)
      → All (λ x. q x ≡ true → p x ≡ false) xs
      → find p (map_where q f xs) ≡ find p xs
  find-map_where_apart p q f [] keep h = refl
  find-map_where_apart p q f (x ∷ xs) keep h =
      let rest = find-map_where_apart p q f xs keep h.1 in ground (arith, keep x, h.0)

module _ {ℓ} {A : Type ℓ} (key : A → String) where
  pub All-flip_key :
      (id : String) (p : A → Bool) (xs : List A)
      → All (λ y. (id === key y) ≡ false) xs
      → All (λ y. (key y === id) ≡ true → p y ≡ false) xs
  All-flip_key id p [] h = tt
  All-flip_key id p (x ∷ xs) h = (
    (λ same. absurd (ground (arith, h.0, eq_iff (key x) id, eq_iff id (key x)))),
    All-flip_key id p xs h.1,
  )

  -- The row that a test finds is the only one with its key.
  pub only-key :
      (p q : A → Bool) (xs : List A) (r : A)
      → ((x : A) → p x ≡ true → q x ≡ false)
      → UniqueBy key xs
      → find p xs ≡ some r
      → All (λ x. (key x === key r) ≡ true → q x ≡ false) xs
  only-key p q [] r apart u e = tt
  only-key p q (x ∷ xs) r apart u e = elim (Bool-cases (p x)) [
    | inl here ↦
        let same : x ≡ r = ground arith in
        (λ _. apart x here, All-flip_key (key r) q xs (rw same at u.0))
    | inr later ↦
        let rest : find p xs ≡ some r = rw later at e in
        let ne = All-find (λ y. (key x === key y) ≡ false) p xs r u.0 rest in
        ((λ same. absurd (ground arith)), only-key p q xs r apart u.1 rest)
  ]

  -- After an update of the row that was found, the search finds that row again.
  pub find-map_where_again :
      (p : A → Bool) (f : A → A) (xs : List A) (r : A) (id : String)
      → ((x : A) → key (f x) ≡ key x)
      → p (f r) ≡ true
      → (key r === id) ≡ true
      → find p xs ≡ some r
      → (y : A) × (find p (map_where (λ x. key x === id) f xs) ≡ some y) × ((key y === id) ≡ true)
  find-map_where_again p f [] r id keep fits own e = cc
  find-map_where_again p f (x ∷ xs) r id keep fits own e = elim (Bool-cases (p x)) [
    | inl here ↦
        let same : x ≡ r = ground arith in (f r, rw (same, own, fits) refl, rw (keep r) own)
    | inr not_here ↦
        let (y, found, y_own) = find-map_where_again p f xs r id keep fits own (rw not_here at e) in
        elim (Bool-cases (key x === id)) [
          | inr other ↦ (y, rw (other, not_here) found, y_own)
          | inl hit ↦ elim (Bool-cases (p (f x))) [
            | inl now ↦ (f x, rw (hit, now) refl, rw (keep x) hit)
            | inr still ↦ (y, rw (hit, still) found, y_own)
          ]
        ]
  ]

module _ {ℓ} {A : Type ℓ} (key : A → String) where
  All-key_map_where :
      (k : String) (p : A → Bool) (f : A → A) (xs : List A)
      → ((x : A) → key (f x) ≡ key x)
      → All (λ y. (k === key y) ≡ false) xs
      → All (λ y. (k === key y) ≡ false) (map_where p f xs)
  All-key_map_where k p f xs keep h =
      All-map_where (λ y. (k === key y) ≡ false) p f xs (λ x hit ne. rw (keep x) ne) h

  pub UniqueBy-map_where :
      (p : A → Bool) (f : A → A) (xs : List A)
      → ((x : A) → key (f x) ≡ key x)
      → UniqueBy key xs
      → UniqueBy key (map_where p f xs)
  UniqueBy-map_where p f [] keep u = tt
  UniqueBy-map_where p f (x ∷ xs) keep u =
      let rest = UniqueBy-map_where p f xs keep u.1 in
      let apart = All-key_map_where (key x) p f xs keep u.0 in
      elim (Bool-cases (p x)) [
        | inl hit ↦ rw (hit, keep x) (apart, rest)
        | inr miss ↦ rw miss (apart, rest)
      ]

  -- A row with a new key.
  pub UniqueBy-append_new :
      (xs : List A) (r : A)
      → find (λ x. key x === key r) xs ≡ none
      → UniqueBy key xs
      → UniqueBy key (xs ++ r ∷ [])
  UniqueBy-append_new [] r new u = (tt, tt)
  UniqueBy-append_new (x ∷ xs) r new u = elim (Bool-cases (key x === key r)) [
    | inl taken ↦ absurd (ground arith)
    | inr apart ↦ (
      All-append (λ y. (key x === key y) ≡ false) xs (r ∷ []) u.0 (apart, tt),
      UniqueBy-append_new xs r (rw apart at new) u.1,
    )
  ]
