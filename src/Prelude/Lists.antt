-- ===== src/Prelude/Lists.antt =====
-- Lists as the contents of a table: searching, selecting and rewriting rows by a Boolean test.
use Prim.Native.Nat.{ℕ, suc, ◌+◌}
use mathlib.Core.Path.{◌≡◌, refl, subst}
use mathlib.Core.Logic.{inl, inr}
use mathlib.Core.Bool.{Bool, true, false, ◌&&◌, ◌||◌}
use mathlib.Core.List.{List, [], ◌∷◌, ◌++◌}
use mathlib.Core.Option.{Option, none, some}
use mathlib.Core.Option
use native.Mathlib.Omega.{arith}
use open_api.Prelude.Tests.{if◌then◌else◌, Bool-cases, is_some}

module _ {ℓ} {A : Type ℓ} where
  abbrev pub length : List A → ℕ
  length [] = 0
  length (x ∷ xs) = suc (length xs)

  -- `xs.find(p)`
  abbrev pub find : (A → Bool) → List A → Option A
  find p [] = none
  find p (x ∷ xs) = if p x then some x else find p xs

  -- `xs.filter(p)`
  abbrev pub select : (A → Bool) → List A → List A
  select p [] = []
  select p (x ∷ xs) = if p x then x ∷ select p xs else select p xs

  -- `xs.some(p)`
  abbrev pub any : (A → Bool) → List A → Bool
  any p [] = false
  any p (x ∷ xs) = p x || any p xs

  -- `xs[xs.length - 1]`
  abbrev pub last : List A → Option A
  last [] = none
  last (x ∷ []) = some x
  last (x ∷ y ∷ ys) = last (y ∷ ys)

  -- Rewrites the rows that pass the test.
  abbrev pub map_where : (A → Bool) → (A → A) → List A → List A
  map_where p f [] = []
  map_where p f (x ∷ xs) = (if p x then f x else x) ∷ map_where p f xs

  abbrev pub All {κ} : (A → Type κ) → List A → Type κ
  All P [] = Unit
  All P (x ∷ xs) = P x × All P xs

  pub length-append : (xs ys : List A) → length (xs ++ ys) ≡ length xs + length ys
  length-append [] ys = omega arith
  length-append (x ∷ xs) ys = omega (arith, length-append xs ys)

module _ {ℓ} {A : Type ℓ} where
  pub select-append :
      (p : A → Bool) (xs ys : List A) → select p (xs ++ ys) ≡ select p xs ++ select p ys
  select-append p [] ys = refl
  select-append p (x ∷ xs) ys = ground (arith, select-append p xs ys)

  -- Searching a table after an update that keeps the searched key.
  pub find-map_where_self :
      (p : A → Bool) (f : A → A) (xs : List A)
      → ((x : A) → p (f x) ≡ p x)
      → find p (map_where p f xs) ≡ Option.map f (find p xs)
  find-map_where_self p f [] keep = refl
  find-map_where_self p f (x ∷ xs) keep = ground (arith, keep x, find-map_where_self p f xs keep)

  -- Rows for which the two tests never hold together are left alone.
  pub find-map_where_ne :
      (p q : A → Bool) (f : A → A) (xs : List A)
      → ((x : A) → p x ≡ true → q x ≡ false)
      → ((x : A) → p (f x) ≡ p x)
      → find p (map_where q f xs) ≡ find p xs
  find-map_where_ne p q f [] apart keep = refl
  find-map_where_ne p q f (x ∷ xs) apart keep =
      ground (arith, keep x, apart x, find-map_where_ne p q f xs apart keep)

  pub find_sound : (p : A → Bool) (xs : List A) (x : A) → find p xs ≡ some x → p x ≡ true
  find_sound p [] x h = cc
  find_sound p (y ∷ xs) x h = ground (arith, find_sound p xs x)

  pub find-append :
      (p : A → Bool) (xs ys : List A) → find p xs ≡ none → find p (xs ++ ys) ≡ find p ys
  find-append p [] ys h = refl
  find-append p (x ∷ xs) ys h = ground (arith, find-append p xs ys)

  pub find-append_miss :
      (p : A → Bool) (xs : List A) (y : A) → p y ≡ false → find p (xs ++ y ∷ []) ≡ find p xs
  find-append_miss p [] y h = rw h
  find-append_miss p (x ∷ xs) y h = ground (arith, find-append_miss p xs y h)

  pub All-imply {κ ι} :
      (P : A → Type κ) (Q : A → Type ι) (xs : List A) → ((x : A) → P x → Q x) → All P xs → All Q xs
  All-imply P Q [] f h = tt
  All-imply P Q (x ∷ xs) f h = (f x h.0, All-imply P Q xs f h.1)

  pub All-at {κ} : (P : A → Type κ) (xs : List A) (b : A) (ys : List A) → All P (xs ++ b ∷ ys) → P b
  All-at P [] b ys h = h.0
  All-at P (x ∷ xs) b ys h = All-at P xs b ys h.1

  pub All-find {κ} :
      (P : A → Type κ) (p : A → Bool) (xs : List A) (x : A) → All P xs → find p xs ≡ some x → P x
  All-find P p [] x h e = cc
  All-find P p (y ∷ xs) x h e = elim (Bool-cases (p y)) [
    | inl hit ↦ let same : y ≡ x = ground arith in subst P same h.0
    | inr miss ↦ All-find P p xs x h.1 (rw miss at e)
  ]

module _ {ℓ} {A : Type ℓ} where
  pub find-append_found :
      (p : A → Bool) (xs ys : List A) (r : A) → find p xs ≡ some r → find p (xs ++ ys) ≡ some r
  find-append_found p [] ys r e = cc
  find-append_found p (x ∷ xs) ys r e = ground (arith, find-append_found p xs ys r)

  -- What an update keeps of a row holds of the row that is found after it.
  pub find-map_where-Holds {κ} :
      (P : A → Type κ) (p q : A → Bool) (f : A → A) (xs : List A) (r : A)
      → ((x : A) → p (f x) ≡ p x)
      → ((x : A) → q x ≡ true → P x → P (f x))
      → find p xs ≡ some r
      → P r
      → (y : A) × (find p (map_where q f xs) ≡ some y) × P y
  find-map_where-Holds P p q f [] r keep next e h = cc
  find-map_where-Holds P p q f (x ∷ xs) r keep next e h = elim (Bool-cases (p x)) [
    | inr miss ↦
        let (y, found, holds) = find-map_where-Holds P p q f xs r keep next (rw miss at e) h in
        (
          y,
          elim (Bool-cases (q x)) [
            | inl hit ↦ rw (hit, keep x, miss) found
            | inr other ↦ rw (other, miss) found
          ],
          holds,
        )
    | inl here ↦
        let same : r ≡ x = ground arith in
        let own : P x = subst P same h in
        elim (Bool-cases (q x)) [
          | inl hit ↦ (f x, rw (hit, keep x, here) refl, next x hit own)
          | inr other ↦ (x, rw (other, here) refl, own)
        ]
  ]

  -- Any test that the found row passes finds a row.
  pub is_some-find :
      (p q : A → Bool) (xs : List A) (r : A)
      → find p xs ≡ some r
      → q r ≡ true
      → is_some (find q xs) ≡ true
  is_some-find p q [] r e h = cc
  is_some-find p q (x ∷ xs) r e h = ground (arith, is_some-find p q xs r)

  pub select_ext :
      (p q : A → Bool) (xs : List A) → ((x : A) → p x ≡ q x) → select p xs ≡ select q xs
  select_ext p q [] h = refl
  select_ext p q (x ∷ xs) h = ground (arith, h x, select_ext p q xs h)

  pub any_ext : (p q : A → Bool) (xs : List A) → ((x : A) → p x ≡ q x) → any p xs ≡ any q xs
  any_ext p q [] h = refl
  any_ext p q (x ∷ xs) h = ground (arith, h x, any_ext p q xs h)

  pub any-select : (p q : A → Bool) (xs : List A) → any p (select q xs) ≡ any (λ x. q x && p x) xs
  any-select p q [] = refl
  any-select p q (x ∷ xs) = ground (arith, any-select p q xs)
