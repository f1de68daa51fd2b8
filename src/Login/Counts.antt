-- ===== src/Login/Counts.antt =====
-- src/auth/auth.service.ts, loginFail: the failed logins that are counted for an account on a day.
use open_api.Prelude.{
  ℕ, ◌+◌, ◌≤◌, ◌<◌, ◌≡◌, refl, ap, sym, ◌∙◌, inl, inr, ℤ, pos, ◌+ℤ◌, ==ℤ_iff, leb_ℤ, Bool, true,
  false, String, ◌===◌, some, if◌then◌else◌, find, find-map_where-Holds, find-map_where_key,
  find-map_where_other, Bool-cases, Option-cases, arith,
}
use open_api.Schema.{User, UserSigninPassword, Db}
use open_api.Prisma.{Prisma}
use open_api.Login.{
  Runtime, Request, login, reset, frozen, reactive, same_text, is_locked, counted, find_password,
  set_password, login_fail,
}

-- The request comes on the day.
abbrev pub IsOn : Runtime → ℤ → Request → Type 0
IsOn js day (login phone password now) = js.day_of now ≡ day
IsOn js day (reset user_id password salt) = Unit
IsOn js day (frozen user_id) = Unit
IsOn js day (reactive user_id) = Unit

-- `k` failed logins are counted, and the third was on the day.
abbrev pub Counts : Runtime → ℤ → ℕ → UserSigninPassword → Type 0
Counts js day k a =
    (a.failed_login_times ≡ pos k)
    × (k ≤ 3)
    × (k ≡ 3 → (at : ℕ) × (a.locked_date ≡ some at) × (js.day_of at ≡ day))

-- One more failed login, while fewer than three are counted.
pub counted-Counts :
    (js : Runtime) (day : ℤ) (k now : ℕ) (a : UserSigninPassword)
    → Counts js day k a
    → js.day_of now ≡ day
    → k < 3
    → Counts js day (k + 1) (counted now a)
unfolding ◌+ℤ◌
counted-Counts js day k now a h on few =
    let times : (counted now a).failed_login_times ≡ pos (k + 1) =
      ap (λ n. n +ℤ pos 1) h.0 ∙ ground arith in
    (times, omega arith, λ third. (now, rw h.0 (ground arith), on))

-- The third failure of the day locks the account for the day.
pub Counts-locked :
    (js : Runtime) (day : ℤ) (now : ℕ) (a : UserSigninPassword)
    → Counts js day 3 a
    → js.day_of now ≡ day
    → is_locked js now a.locked_date ≡ true
Counts-locked js day now a h on =
    let (at, locked, same) = h.2 refl in
    rw locked ((==ℤ_iff (js.day_of now) (js.day_of at)).1 (on ∙ sym same))

module _ (js : Runtime) (prisma : Prisma) (phone user_id : String) (day : ℤ) where
  open prisma use {Table, rows, find_first, find_first-rows, rows-update, rows-create}

  -- The phone is the user's.
  unfoldable pub Owns : Db Table → Type 0
  Owns db =
      (u : User) × (find (λ v. same_text v.phone phone) (rows db.user) ≡ some u)
      × (u.user_id ≡ user_id)

  unfoldable pub Tries : ℕ → Db Table → Type 0
  Tries k db =
      (a : UserSigninPassword) × (find (λ b. b.user_id === user_id) (rows db.user_signin_password)
        ≡ some a)
      × Counts js day k a

  -- After a write of the passwords, at least as many failures are counted.
  pub set_password-Tries :
      (k : ℕ) (id : String) (f : UserSigninPassword → UserSigninPassword) (db : Db Table)
      → ((a : UserSigninPassword) → (f a).user_id ≡ a.user_id)
      → ((a : UserSigninPassword) → Counts js day k a → Counts js day k (f a))
      → Tries k db
      → Tries k (set_password js prisma id f db).1
  unfolding Tries set_password
  set_password-Tries k id f db same keep (a, found, h) =
      let (b, found', h') =
        find-map_where-Holds (Counts js day k) (λ b. b.user_id === user_id) (λ b. b.user_id === id)
          f (rows db.user_signin_password) a (λ x. ap (λ s. s === user_id) (same x))
          (λ x hit. keep x) found h in
      (
        b,
        ap (find (λ b. b.user_id === user_id)) (rows-update _ f db.user_signin_password) ∙ found',
        h',
      )

  -- A failure of the account is counted.
  pub set_password-own :
      (k now : ℕ) (db : Db Table)
      → Tries k db
      → js.day_of now ≡ day
      → k < 3
      → Tries (k + 1) (set_password js prisma user_id (counted now) db).1
  unfolding Tries set_password
  set_password-own k now db (a, found, h) on few = (
    counted now a,
    ap (find (λ b. b.user_id === user_id)) (rows-update _ (counted now) db.user_signin_password)
        ∙ find-map_where_key (λ b. b.user_id) user_id (counted now) (rows db.user_signin_password) a
            (λ b. refl) found,
    counted-Counts js day k now a h on few,
  )

  -- A failure of another account is not.
  pub set_password-other :
      (k now : ℕ) (id : String) (db : Db Table)
      → (user_id === id) ≡ false
      → Tries k db
      → Tries k (set_password js prisma id (counted now) db).1
  unfolding Tries set_password
  set_password-other k now id db ne (a, found, h) = (
    a,
    ap (find (λ b. b.user_id === user_id)) (rows-update _ (counted now) db.user_signin_password)
        ∙ find-map_where_other (λ b. b.user_id) id user_id (counted now)
            (rows db.user_signin_password) (λ b. refl) ne
        ∙ found,
    h,
  )

  -- What the handling of a wrong password adds to the count.
  abbrev pub More : Bool → ℕ → Db Table → Type 0
  More own k db = (k' : ℕ) × Tries k' db × ((if own then 1 else 0) + k ≤ k')

  pub login_fail-own :
      (k now : ℕ) (db : Db Table)
      → Tries k db
      → js.day_of now ≡ day
      → k < 3
      → More true k (login_fail js prisma user_id now db).1
  unfolding login_fail find_password Tries
  login_fail-own k now db (a, found, h) on few =
      let first = find_first-rows (λ b. b.user_id === user_id) db.user_signin_password ∙ found in
      let below : leb_ℤ (pos 3) a.failed_login_times ≡ false = rw h.0 (ground arith) in
      rw (first, below) (k + 1, set_password-own k now db (a, found, h) on few, omega arith)

  pub login_fail-other :
      (k now : ℕ) (id : String) (db : Db Table)
      → (user_id === id) ≡ false
      → Tries k db
      → More false k (login_fail js prisma id now db).1
  unfolding login_fail find_password
  login_fail-other k now id db ne tries =
      elim (Option-cases (find_first (λ b. b.user_id === id) db.user_signin_password)) [
        | inl missing ↦ rw missing (k, tries, omega arith)
        | inr (a, found) ↦ elim (Bool-cases (leb_ℤ (pos 3) a.failed_login_times)) [
          | inl full ↦ rw (found, full) (k, tries, omega arith)
          | inr few ↦ rw (found, few) (k, set_password-other k now id db ne tries, omega arith)
        ]
      ]
