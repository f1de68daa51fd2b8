-- ===== src/Login/Lockout.antt =====
-- src/auth/auth.service.ts, loginByPassword and loginFail: how many wrong passwords of an account can
-- be tested in a day.
use open_api.Prelude.{
  ℕ, ◌+◌, ◌≤◌, ◌<◌, ◌≡◌, ◌⊎◌, refl, ap, sym, ◌∙◌, inl, inr, ℤ, pos, leb_ℤ, String, ◌===◌, Option,
  some, none, List, [], ◌∷◌, if◌then◌else◌, find, All, find-append_found, find-map_where-Holds,
  Bool-cases, Option-cases, arith, subst,
}
use open_api.Schema.{User, UserSigninPassword, Db}
use open_api.Prisma.{Prisma}
use open_api.Login.{
  Runtime, Request, login, reset, frozen, reactive, same_text, find_user_by_phone, find_password,
  set_password, login_fail, login_by_password, upsert_found, upsert_sign_in_by_password,
  reset_password, set_status, serve, is_wrong_guess, wrong_guesses,
}
use open_api.Login.Counts.{IsOn, Owns, Tries, set_password-Tries}
use open_api.Login.Outcome.{login_outcome, guess, login-More}

module _ (js : Runtime) (prisma : Prisma) (phone user_id : String) (day : ℤ) where
  open prisma use {Table, rows, find_first, find_first-rows, rows-update, rows-create}

  -- A call that leaves the users alone.
  Owns-same :
      (db db' : Db Table)
      → db'.user ≡ db.user
      → Owns js prisma phone user_id day db
      → Owns js prisma phone user_id day db'
  unfolding Owns
  Owns-same db db' same (u, found, mine) =
      (u, ap (λ t. find (λ v. same_text v.phone phone) (rows t)) same ∙ found, mine)

  login_fail-user :
      (id : String) (now : ℕ) (db : Db Table) → (login_fail js prisma id now db).1.user ≡ db.user
  unfolding login_fail find_password set_password
  login_fail-user id now db =
      elim (Option-cases (find_first (λ b. b.user_id === id) db.user_signin_password)) [
        | inl missing ↦ rw missing refl
        | inr (a, found) ↦ elim (Bool-cases (leb_ℤ (pos 3) a.failed_login_times)) [
          | inl full ↦ rw (found, full) refl
          | inr few ↦ rw (found, few) refl
        ]
      ]

  login-user :
      (p password : String) (now : ℕ) (db : Db Table)
      → (login_by_password js prisma p password now db).1.user ≡ db.user
  login-user p password now db =
      elim (login_outcome js prisma phone user_id day p password now db) [
        | inl (right, same) ↦ ap (λ d. d.user) same
        | inr (u, user, a, auth, free, written) ↦
            ap (λ d. d.user) written ∙ login_fail-user u.user_id now db
      ]

  upsert_found-Tries :
      (k : ℕ) (id password salt : String) (o : Option UserSigninPassword) (db : Db Table)
      → Tries js prisma phone user_id day k db
      → Tries js prisma phone user_id day k (upsert_found js prisma id password salt o db).1
  unfolding upsert_found Tries
  upsert_found-Tries k id password salt (some existed) db tries =
      set_password-Tries js prisma phone user_id day k id _ db (λ a. refl) (λ a h. h) tries
  upsert_found-Tries k id password salt none db (a, found, h) = (
    a,
    ap (find (λ b. b.user_id === user_id)) (rows-create _ db.user_signin_password)
        ∙ find-append_found (λ b. b.user_id === user_id) (rows db.user_signin_password) _ a found,
    h,
  )

  upsert_found-user :
      (id password salt : String) (o : Option UserSigninPassword) (db : Db Table)
      → (upsert_found js prisma id password salt o db).1.user ≡ db.user
  unfolding upsert_found set_password
  upsert_found-user id password salt none db = refl
  upsert_found-user id password salt (some existed) db = refl

  -- A reset is refused, or writes the password.
  reset_outcome :
      (id password salt : String) (db : Db Table)
      → ((reset_password js prisma id password salt db).1 ≡ db)
        ⊎ ((reset_password js prisma id password salt db).1
            ≡ (upsert_found js prisma id password salt (find_password js prisma id db) db).1)
  unfolding reset_password upsert_sign_in_by_password
  reset_outcome id password salt db = elim (Option-cases (find_password js prisma id db)) [
    | inl missing ↦ inl (rw missing refl)
    | inr (a, found) ↦ inr (rw (found, found) refl)
  ]

  reset_password-Kept :
      (k : ℕ) (id password salt : String) (db : Db Table)
      → Owns js prisma phone user_id day db
      → Tries js prisma phone user_id day k db
      → Owns js prisma phone user_id day (reset_password js prisma id password salt db).1
        × Tries js prisma phone user_id day k (reset_password js prisma id password salt db).1
  reset_password-Kept k id password salt db owns tries = elim (reset_outcome id password salt db) [
    | inl same ↦ (
      subst (Owns js prisma phone user_id day) (sym same) owns,
      subst (Tries js prisma phone user_id day k) (sym same) tries,
    )
    | inr written ↦ (
      subst (Owns js prisma phone user_id day) (sym written)
          (Owns-same db _ (upsert_found-user id password salt _ db) owns),
      subst (Tries js prisma phone user_id day k) (sym written)
          (upsert_found-Tries k id password salt _ db tries),
    )
  ]

  set_status-Kept :
      (k : ℕ) (id : String) (status : ℤ) (db : Db Table)
      → Owns js prisma phone user_id day db
      → Tries js prisma phone user_id day k db
      → Owns js prisma phone user_id day (set_status js prisma id status db).1
        × Tries js prisma phone user_id day k (set_status js prisma id status db).1
  unfolding set_status Owns Tries
  set_status-Kept k id status db (u, found, mine) tries =
      elim (Option-cases (find_first (λ v. v.user_id === id) db.user)) [
        | inl missing ↦ rw missing ((u, found, mine), tries)
        | inr (v, there) ↦
            let f : User → User = λ w. record w { status = status } in
            let (w, found', mine') =
              find-map_where-Holds (λ v. v.user_id ≡ user_id) (λ v. same_text v.phone phone)
                (λ v. v.user_id === id) f (rows db.user) u (λ x. refl) (λ x hit own. own) found
                mine in
            rw there (
              (
                w,
                ap (find (λ v. same_text v.phone phone)) (rows-update _ f db.user) ∙ found',
                mine',
              ),
              tries,
            )
      ]

  serve-More :
      (k : ℕ) (request : Request) (db : Db Table)
      → Owns js prisma phone user_id day db
      → Tries js prisma phone user_id day k db
      → IsOn js day request
      → Owns js prisma phone user_id day (serve js prisma request db)
        × (k' : ℕ) × Tries js prisma phone user_id day k' (serve js prisma request db)
        × ((if is_wrong_guess js prisma phone request db then 1 else 0) + k ≤ k')
  unfolding serve is_wrong_guess guess
  serve-More k (login p password now) db owns tries on =
      let (k', tries', more) =
        login-More js prisma phone user_id day k p password now db owns tries on in
      (Owns-same db _ (login-user p password now db) owns, k', tries', more)
  serve-More k (reset id password salt) db owns tries on =
      let (owns', tries') = reset_password-Kept k id password salt db owns tries in
      (owns', k, tries', omega arith)
  serve-More k (frozen id) db owns tries on =
      let (owns', tries') = set_status-Kept k id (pos 0) db owns tries in
      (owns', k, tries', omega arith)
  serve-More k (reactive id) db owns tries on =
      let (owns', tries') = set_status-Kept k id (pos 1) db owns tries in
      (owns', k, tries', omega arith)

  Tries-le : (k : ℕ) (db : Db Table) → Tries js prisma phone user_id day k db → k ≤ 3
  unfolding Tries
  Tries-le k db (a, found, h) = h.1

  wrong_guesses_bounded :
      (k : ℕ) (requests : List Request) (db : Db Table)
      → Owns js prisma phone user_id day db
      → Tries js prisma phone user_id day k db
      → All (IsOn js day) requests
      → wrong_guesses js prisma phone requests db + k ≤ 3
  unfolding wrong_guesses
  wrong_guesses_bounded k [] db owns tries on = ground (arith, Tries-le k db tries)
  wrong_guesses_bounded k (request ∷ requests) db owns tries on =
      let (owns', k', tries', more) = serve-More k request db owns tries on.0 in
      let rest = wrong_guesses_bounded k' requests _ owns' tries' on.1 in omega (arith, rest, more)

module _ (js : Runtime) (prisma : Prisma) (phone : String) (db : Db prisma.Table) (user : User)
    (a : UserSigninPassword) (own : find_user_by_phone js prisma phone db ≡ some user)
    (auth : find_password js prisma user.user_id db ≡ some a) where
  open prisma use {find_first-rows}

  -- If fewer than three failures of an account are counted, then on one day, among any requests,
  -- resets of passwords and frozen and reactivated users included, the wrong passwords that are
  -- tested and the failures that were counted before are together at most three.
  pub wrong_guesses-le :
      (k : ℕ)
      → a.failed_login_times ≡ pos k
      → k < 3
      → (day : ℤ) (requests : List Request) → All (IsOn js day) requests
      → wrong_guesses js prisma phone requests db + k ≤ 3
  unfolding find_user_by_phone find_password Owns Tries
  wrong_guesses-le k times few day requests on =
      wrong_guesses_bounded js prisma phone user.user_id day k requests db
        (user, sym (find_first-rows (λ v. same_text v.phone phone) db.user) ∙ own, refl)
        (
          a,
          sym (find_first-rows (λ b. b.user_id === user.user_id) db.user_signin_password) ∙ auth,
          (times, omega arith, λ third. absurd (omega arith)),
        )
        on
