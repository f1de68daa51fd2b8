-- ===== src/Login/Lapse.antt =====
-- src/auth/auth.service.ts, loginByPassword and loginFail, after the day of the third failure.
use open_api.Prelude.{
  ℕ, ◌≡◌, refl, ap, pos, ◌==ℤ◌, leb_ℤ, true, false, String, eq_refl, some, List, [], ◌∷◌, length,
  All, arith, ok, err, unauthorized, raise, after,
}
use open_api.Schema.{User, UserSigninPassword, Db}
use open_api.Prisma.{Prisma}
use open_api.Login.{
  Runtime, Request, login, reset, frozen, reactive, is_locked, find_user_by_phone, find_password,
  login_fail, refuse_password, is_password_valid, login_by_password, serve, is_wrong_guess,
  wrong_guesses,
}

-- The login tests a wrong password of the account at a time at which it is not locked.
abbrev pub IsGuess :
    (js : Runtime) (prisma : Prisma) (phone : String) (a : UserSigninPassword) → Request → Type 0
IsGuess js prisma phone a (login p password now) =
    (p ≡ phone)
    × (is_password_valid js prisma a password ≡ false)
    × (is_locked js now a.locked_date ≡ false)
IsGuess js prisma phone a (reset id password salt) = ⊥
IsGuess js prisma phone a (frozen id) = ⊥
IsGuess js prisma phone a (reactive id) = ⊥

module _ (js : Runtime) (prisma : Prisma) (phone : String) (db : Db prisma.Table) (user : User)
    (a : UserSigninPassword) (own : find_user_by_phone js prisma phone db ≡ some user)
    (auth : find_password js prisma user.user_id db ≡ some a) where
  module _ (is_active : (user.status ==ℤ pos 0) ≡ false)
      (full : leb_ℤ (pos 3) a.failed_login_times ≡ true) where
    login_fail-full : (now : ℕ) → login_fail js prisma user.user_id now db ≡ (ok tt, db)
    unfolding login_fail
    login_fail-full now = rw (auth, full) refl

    refuse_password-full :
        (now : ℕ)
        → refuse_password js prisma user.user_id now db
          ≡ (err (unauthorized "Invalid password"), db)
    unfolding refuse_password
    refuse_password-full now =
        ap (λ r. after r.0 r.1 (λ _. raise {A = User} (unauthorized "Invalid password")))
          (login_fail-full now)

    guess-refused :
        (password : String) (now : ℕ)
        → is_password_valid js prisma a password ≡ false
        → is_locked js now a.locked_date ≡ false
        → login_by_password js prisma phone password now db
          ≡ (err (unauthorized "Invalid password"), db)
    unfolding login_by_password
    guess-refused password now wrong free =
        rw (own, is_active, auth, free, wrong) (refuse_password-full now)

    guess-wrong :
        (request : Request)
        → IsGuess js prisma phone a request
        → (is_wrong_guess js prisma phone request db ≡ true) × (serve js prisma request db ≡ db)
    unfolding is_wrong_guess serve
    guess-wrong (login p password now) (same, wrong, free) =
        let refused = guess-refused password now wrong free in
        rw same (rw (refused, eq_refl phone) refl, ap (λ r. r.1) refused)
    guess-wrong (reset id password salt) h = absurd h
    guess-wrong (frozen id) h = absurd h
    guess-wrong (reactive id) h = absurd h

    -- Once three failures are counted, every wrong password of every later day is tested, however
    -- many there are: no further failure is counted, and the account is not locked again.
    pub wrong_guesses-unbounded :
        (requests : List Request)
        → All (IsGuess js prisma phone a) requests
        → wrong_guesses js prisma phone requests db ≡ length requests
    unfolding wrong_guesses
    wrong_guesses-unbounded [] h = refl
    wrong_guesses-unbounded (request ∷ requests) h =
        let (wrong, same) = guess-wrong request h.0 in
        let rest = wrong_guesses-unbounded requests h.1 in rw (wrong, same) (omega (arith, rest))
