-- ===== src/Login/Outcome.antt =====
-- src/auth/auth.service.ts, loginByPassword: what one login does to the count of failures.
use open_api.Prelude.{
  ℕ, ◌+◌, ◌≤◌, ◌<◌, ◌≡◌, ◌⊎◌, refl, ap, sym, ◌∙◌, inl, inr, ℤ, pos, ltb, ◌==ℤ◌, false, ◌&&◌, String,
  ◌===◌, eq_iff, some, if◌then◌else◌, Bool-cases, Option-cases, arith, unauthorized, subst,
  >>=-raise_state,
}
use open_api.Schema.{User, UserSigninPassword, Db}
use open_api.Prisma.{Prisma}
use open_api.Login.{
  Runtime, same_text, is_locked, find_user_by_phone, find_password, login_fail, refuse_password,
  is_password_valid, login_by_password, is_wrong,
}
use open_api.Login.Counts.{Counts, Counts-locked, Owns, Tries, login_fail-own, login_fail-other}

module _ (js : Runtime) (prisma : Prisma) (phone user_id : String) (day : ℤ) where
  open prisma use {Table, rows, find_first, find_first-rows, rows-update, rows-create}

  -- A login tests a wrong password and counts the failure, or does not and writes nothing.
  pub login_outcome :
      (p password : String) (now : ℕ) (db : Db Table)
      → ((is_wrong (login_by_password js prisma p password now db).0 ≡ false)
          × ((login_by_password js prisma p password now db).1 ≡ db))
        ⊎ ((u : User) × (find_user_by_phone js prisma p db ≡ some u)
            × (a : UserSigninPassword) × (find_password js prisma u.user_id db ≡ some a)
            × (is_locked js now a.locked_date ≡ false)
            × ((login_by_password js prisma p password now db).1
                ≡ (login_fail js prisma u.user_id now db).1))
  unfolding login_by_password refuse_password
  login_outcome p password now db = elim (Option-cases (find_user_by_phone js prisma p db)) [
    | inl missing ↦ inl (rw missing refl, rw missing refl)
    | inr (u, user) ↦ elim (Bool-cases (u.status ==ℤ pos 0)) [
      | inl out ↦ inl (rw (user, out) refl, rw (user, out) refl)
      | inr is_active ↦ elim (Option-cases (find_password js prisma u.user_id db)) [
        | inl missing ↦ inl (rw (user, is_active, missing) refl, rw (user, is_active, missing) refl)
        | inr (a, auth) ↦ elim (Bool-cases (is_locked js now a.locked_date)) [
          | inl locked ↦
              inl (rw (user, is_active, auth, locked) refl, rw (user, is_active, auth, locked) refl)
          | inr free ↦ elim (Bool-cases (is_password_valid js prisma a password)) [
            | inl valid ↦ inl (
              rw (user, is_active, auth, free, valid) refl,
              rw (user, is_active, auth, free, valid) refl,
            )
            | inr wrong ↦ inr (
              u,
              user,
              a,
              auth,
              free,
              rw (user, is_active, auth, free, wrong)
                  (>>=-raise_state User (login_fail js prisma u.user_id now)
                    (unauthorized "Invalid password") db),
            )
          ]
        ]
      ]
    ]
  ]

  unfoldable pub guess : String → String → ℕ → Db Table → ℕ
  guess p password now db =
      if p === phone && is_wrong (login_by_password js prisma p password now db).0 then 1 else 0

  pub few_left :
      (k now : ℕ) (db : Db Table) (a : UserSigninPassword)
      → Tries js prisma phone user_id day k db
      → find_password js prisma user_id db ≡ some a
      → is_locked js now a.locked_date ≡ false
      → js.day_of now ≡ day
      → k < 3
  unfolding Tries find_password
  few_left k now db a (b, found, h) auth free on = elim (Bool-cases (ltb k 3)) [
    | inl lt ↦ ground arith
    | inr ge ↦
        let third : k ≡ 3 = ground (arith, h.1) in
        let first = find_first-rows (λ c. c.user_id === user_id) db.user_signin_password ∙ found in
        let same : b ≡ a = ground (arith, first, auth) in
        let locked =
          Counts-locked js day now a
            (subst (λ n. Counts js day n a) third (subst (Counts js day k) same h)) on in
        absurd (ground arith)
  ]

  other_phone :
      (p : String) (u : User) (db : Db Table)
      → Owns js prisma phone user_id day db
      → find_user_by_phone js prisma p db ≡ some u
      → (user_id === u.user_id) ≡ false
      → (p === phone) ≡ false
  unfolding Owns find_user_by_phone
  other_phone p u db (v, found, mine) user other = elim (Bool-cases (p === phone)) [
    | inr apart ↦ apart
    | inl same ↦
        let e : p ≡ phone = (eq_iff p phone).0 same in
        let first = find_first-rows (λ w. same_text w.phone phone) db.user ∙ found in
        let again : find_first (λ w. same_text w.phone phone) db.user ≡ some u = rw e at user in
        let one : v ≡ u = ground (arith, first, again) in
        absurd (ground (arith, eq_iff user_id u.user_id, mine, one))
  ]

  at_most_one :
      (p password : String) (now : ℕ) (db : Db Table) (k k' : ℕ)
      → 1 + k ≤ k'
      → guess p password now db + k ≤ k'
  unfolding guess
  at_most_one p password now db k k' more = ground arith

  pub login-More :
      (k : ℕ) (p password : String) (now : ℕ) (db : Db Table)
      → Owns js prisma phone user_id day db
      → Tries js prisma phone user_id day k db
      → js.day_of now ≡ day
      → (k' : ℕ) × Tries js prisma phone user_id day k'
          (login_by_password js prisma p password now db).1
        × (guess p password now db + k ≤ k')
  unfolding guess
  login-More k p password now db owns tries on = elim (login_outcome p password now db) [
    | inl (right, same) ↦
        (k, subst (Tries js prisma phone user_id day k) (sym same) tries, rw right (ground arith))
    | inr (u, user, a, auth, free, written) ↦ elim (Bool-cases (user_id === u.user_id)) [
      | inl own ↦
          let same : u.user_id ≡ user_id = sym ((eq_iff user_id u.user_id).0 own) in
          let few =
            few_left k now db a tries (ap (λ id. find_password js prisma id db) (sym same) ∙ auth)
              free on in
          let (k', tries', more) =
            login_fail-own js prisma phone user_id day k now db tries on few in
          let state = written ∙ ap (λ id. (login_fail js prisma id now db).1) same in
          (
            k',
            subst (Tries js prisma phone user_id day k') (sym state) tries',
            at_most_one p password now db k k' more,
          )
      | inr other ↦
          let (k', tries', more) =
            login_fail-other js prisma phone user_id day k now u.user_id db other tries in
          let foreign = other_phone p u db owns user other in
          (
            k',
            subst (Tries js prisma phone user_id day k') (sym written) tries',
            rw foreign (ground (arith, more)),
          )
    ]
  ]
