-- ===== src/Address/Count.antt =====
-- src/users/address/address.service.ts: how many default addresses a user has after a write.
use open_api.Prelude.{
  ℕ, ◌≤◌, ◌≡◌, refl, inl, inr, Bool, true, false, ◌&&◌, String, ◌===◌, eq_iff, Option, some, none,
  List, [], ◌∷◌, find, select, length, map_where, All, All-imply, All-find, UniqueBy, find_sound,
  Bool-cases, arith, subst,
}
use open_api.Schema.{UserAddress}
use open_api.Address.{AddressForm, or_false, not_default, kept_flag, rewritten}

-- The user's default addresses.
abbrev pub is_own_default : String → UserAddress → Bool
is_own_default user_id a = a.user_id === user_id && a.is_default

abbrev pub key : UserAddress → String
key a = a.user_address_id

unfoldable pub defaults : String → List UserAddress → ℕ
defaults user_id xs = length (select (is_own_default user_id) xs)

-- Clearing a user's defaults leaves none, and the other users' xs they are.
pub defaults-clear_own :
    (user_id : String) (xs : List UserAddress)
    → defaults user_id (map_where (λ a. a.user_id === user_id) not_default xs) ≡ 0
unfolding defaults
defaults-clear_own user_id [] = refl
defaults-clear_own user_id (a ∷ xs) = ground (arith, defaults-clear_own user_id xs)

-- A change that makes no row a default of the user.
pub defaults-map_where :
    (user_id : String) (p : UserAddress → Bool) (f : UserAddress → UserAddress)
    (xs : List UserAddress)
    → All
        (λ a. p a ≡ true → is_own_default user_id (f a) ≡ true → is_own_default user_id a ≡ true)
        xs
    → defaults user_id (map_where p f xs) ≤ defaults user_id xs
unfolding defaults
defaults-map_where user_id p f [] h = omega arith
defaults-map_where user_id p f (a ∷ xs) h =
    ground (arith, h.0, defaults-map_where user_id p f xs h.1)

map_where_miss :
    (id : String) (f : UserAddress → UserAddress) (xs : List UserAddress)
    → All (λ b. (id === key b) ≡ false) xs
    → map_where (λ a. key a === id) f xs ≡ xs
map_where_miss id f [] h = refl
map_where_miss id f (a ∷ xs) h =
    ground (arith, h.0, eq_iff id (key a), eq_iff (key a) id, map_where_miss id f xs h.1)

-- Where the user has no default, a change of one row makes at most one.
defaults-one :
    (user_id id : String) (f : UserAddress → UserAddress) (xs : List UserAddress)
    → UniqueBy key xs
    → defaults user_id xs ≡ 0
    → defaults user_id (map_where (λ a. key a === id) f xs) ≤ 1
unfolding defaults
defaults-one user_id id f [] u h = omega arith
defaults-one user_id id f (a ∷ xs) u h = elim (Bool-cases (key a === id)) [
  | inr other ↦ ground (arith, defaults-one user_id id f xs u.1)
  | inl hit ↦
      let same : key a ≡ id = (eq_iff (key a) id).0 hit in
      let rest =
        map_where_miss id f xs (subst (λ k. All (λ b. (k === key b) ≡ false) xs) same u.0) in
      ground (arith)
]

-- The rows with the key that was found are the user's.
pub hit-own :
    (user_id id : String) (xs : List UserAddress) (r : UserAddress)
    → UniqueBy key xs
    → find (λ a. key a === id && a.user_id === user_id) xs ≡ some r
    → All (λ a. (key a === id) ≡ true → (a.user_id === user_id) ≡ true) xs
hit-own user_id id [] r u e = tt
hit-own user_id id (a ∷ xs) r u e = elim (Bool-cases (key a === id)) [
  | inr other ↦ ((λ hit. absurd (ground arith)), hit-own user_id id xs r u.1 (rw other at e))
  | inl hit ↦
      let same : key a ≡ id = (eq_iff (key a) id).0 hit in
      let apart = subst (λ k. All (λ b. (k === key b) ≡ false) xs) same u.0 in
      let others =
        All-imply (λ b. (id === key b) ≡ false)
          (λ b. (key b === id) ≡ true → (b.user_id === user_id) ≡ true) xs
          (λ b ne own. absurd (ground (arith, eq_iff id (key b), eq_iff (key b) id))) apart in
      elim (Bool-cases (a.user_id === user_id)) [
        | inl own ↦ ((λ _. own), others)
        | inr foreign ↦
            let later : find (λ b. key b === id && b.user_id === user_id) xs ≡ some r =
              rw (hit, foreign) at e in
            let ne = All-find (λ b. (id === key b) ≡ false) _ xs r apart later in
            let fits = find_sound (λ b. key b === id && b.user_id === user_id) xs r later in
            absurd (ground (arith, eq_iff id (key r), eq_iff (key r) id))
      ]
]

kept_flag-true : (o : Option Bool) (b : Bool) → or_false o ≡ false → kept_flag o b ≡ true → b ≡ true
kept_flag-true none b e h = h
kept_flag-true (some new) b e h = absurd (ground arith)

pub All-of_each :
    (P : UserAddress → Type 0) (xs : List UserAddress) → ((a : UserAddress) → P a) → All P xs
All-of_each P [] h = tt
All-of_each P (a ∷ xs) h = (h a, All-of_each P xs h)

-- A change of the one row of a user leaves each user at most one default, where there is room.
pub defaults-rewritten :
    (u id user_id : String) (form : AddressForm) (xs : List UserAddress)
    → UniqueBy key xs
    → All (λ a. (key a === id) ≡ true → (a.user_id === user_id) ≡ true) xs
    → (or_false form.is_default ≡ true → defaults user_id xs ≡ 0)
    → defaults u xs ≤ 1
    → defaults u (map_where (λ a. a.user_address_id === id) (rewritten form) xs) ≤ 1
defaults-rewritten u id user_id form xs unique own room most =
    elim (Bool-cases (or_false form.is_default)) [
      | inr plain ↦ omega (
        arith,
        most,
        defaults-map_where u (λ a. a.user_address_id === id) (rewritten form) xs
            (All-of_each _ _
              (λ a hit now. ground (arith, kept_flag-true form.is_default a.is_default))),
      )
      | inl wanted ↦ elim (Bool-cases (u === user_id)) [
        | inl same ↦
            let e : u ≡ user_id = (eq_iff u user_id).0 same in
            defaults-one u id (rewritten form) xs unique (rw e (room wanted))
        | inr other ↦ omega (
          arith,
          most,
          defaults-map_where u (λ a. a.user_address_id === id) (rewritten form) xs
              (All-imply _ _ xs
                (λ a owned hit now. absurd (
                  ground (
                    arith,
                    owned hit,
                    eq_iff a.user_id user_id,
                    eq_iff a.user_id u,
                    eq_iff u user_id,
                  )))
                own),
        )
      ]
    ]
