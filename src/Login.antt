-- ===== src/Login.antt =====
-- src/auth/auth.service.ts, loginByPassword and the calls around it, with what they use of
-- src/users/users.service.ts. `bcrypt.hashSync`, and the local day of a time, which
-- `moment(a).isSame(b, 'day')` compares, are parameters. The password of an account that is made for
-- it comes with its salt.
pub mod Counts
pub mod Outcome
pub mod Lockout
pub mod Lapse
mod Tests
use open_api.Prelude.{
  ℕ, ◌+◌, ℤ, pos, ◌+ℤ◌, ◌==ℤ◌, leb_ℤ, Bool, true, false, not, ◌&&◌, String, ◌===◌, Option, none,
  some, if◌then◌else◌, List, [], ◌∷◌, Action, Result, ok, err, not_found, bad_request, unauthorized,
  record_missing, pure, raise, raise_if, gets, or_raise, modify, ◌>>=◌, ◌>>◌,
}
use open_api.Schema.{User, UserSigninPassword, Db}
use open_api.Prisma.{Prisma}

-- What the code takes from libraries: the hash of a password with a salt, and the day of a time.
pub record Runtime : Type 0 where
  pub hash : String → String → String
  pub day_of : ℕ → ℤ

abbrev pub filed_login_times : ℤ
filed_login_times = pos 3

abbrev pub same_text : Option String → String → Bool
same_text none b = false
same_text (some a) b = a === b

-- `isSameDate && userAuth.locked_date`
abbrev pub is_locked : Runtime → ℕ → Option ℕ → Bool
is_locked js now none = false
is_locked js now (some at) = js.day_of now ==ℤ js.day_of at

abbrev pub counted : ℕ → UserSigninPassword → UserSigninPassword
counted now a = record a {
  failed_login_times = a.failed_login_times +ℤ pos 1;
  locked_date = if leb_ℤ filed_login_times (a.failed_login_times +ℤ pos 1) then some now else none;
}

module _ (js : Runtime) (prisma : Prisma) where
  open prisma use {Table, find_first, update, create}

  unfoldable pub find_user_by_phone : String → Db Table → Option User
  find_user_by_phone phone db = find_first (λ u. same_text u.phone phone) db.user

  unfoldable pub find_password : String → Db Table → Option UserSigninPassword
  find_password user_id db = find_first (λ a. a.user_id === user_id) db.user_signin_password

  unfoldable pub set_password :
      String → (UserSigninPassword → UserSigninPassword) → Action (Db Table) (Unit {0})
  set_password user_id f = modify (λ db. record db {
    user_signin_password = update (λ a. a.user_id === user_id) f db.user_signin_password;
  })

  unfoldable pub login_fail : String → ℕ → Action (Db Table) (Unit {0})
  login_fail user_id now = do
    user_auth ←
        or_raise (← gets (find_password user_id)) (not_found "No user auth found for user_id")
    if leb_ℤ filed_login_times user_auth.failed_login_times
        then pure tt
        else set_password user_id (counted now)

  -- The wrong password: `throw new UnauthorizedException` after `loginFail`.
  unfoldable pub refuse_password : String → ℕ → Action (Db Table) User
  refuse_password user_id now = do login_fail user_id now; raise (unauthorized "Invalid password")

  unfoldable pub is_password_valid : UserSigninPassword → String → Bool
  is_password_valid a password = a.password === js.hash password a.salt

  unfoldable pub login_by_password : String → String → ℕ → Action (Db Table) User
  login_by_password phone password now = do
    user ← or_raise (← gets (find_user_by_phone phone)) (not_found "No user found for phone")
    raise_if (user.status ==ℤ pos 0) (bad_request "The user has been frozen for phone")
    user_auth ←
        or_raise (← gets (find_password user.user_id)) (not_found "No user auth found for phone")
    raise_if (is_locked js now user_auth.locked_date) (bad_request "The user is locked for phone")
    if is_password_valid user_auth password then pure user else refuse_password user.user_id now

  -- An account that had no password gets its row.
  unfoldable pub upsert_found :
      String → String → String → Option UserSigninPassword → Action (Db Table) (Unit {0})
  unfolding set_password
  upsert_found user_id password salt (some existed) =
      set_password user_id (λ a. record a { salt = salt; password = js.hash password salt })
  upsert_found user_id password salt none = modify (λ db. record db {
    user_signin_password =
        create
          (record {
            user_id = user_id;
            salt = salt;
            password = js.hash password salt;
            failed_login_times = pos 0;
            locked_date = none;
          })
          db.user_signin_password;
  })

  unfoldable pub upsert_sign_in_by_password :
      String → String → String → Action (Db Table) (Unit {0})
  unfolding upsert_found
  upsert_sign_in_by_password user_id password salt = do
    existed ← gets (find_password user_id)
    upsert_found user_id password salt existed

  unfoldable pub reset_password : String → String → String → Action (Db Table) (Unit {0})
  unfolding upsert_sign_in_by_password
  reset_password user_id password salt = do
    or_raise (← gets (find_password user_id)) (not_found "No user auth found for user_id")
    upsert_sign_in_by_password user_id password salt

  -- `frozen` and `reactive`: the update throws where there is no such user.
  unfoldable pub set_status : String → ℤ → Action (Db Table) (Unit {0})
  set_status user_id status = do
    or_raise (← gets (λ db. find_first (λ u. u.user_id === user_id) db.user)) record_missing
    modify (λ db. record db {
      user = update (λ u. u.user_id === user_id) (λ u. record u { status = status }) db.user;
    })

-- A login with its phone, password and time; a new password with its salt; a user frozen or made
-- active.
pub data Request : Type 0 where
  login : String → String → ℕ → Request
  reset : String → String → String → Request
  frozen reactive : String → Request

-- The answer to a login that tested a wrong password.
abbrev pub is_wrong : Result User → Bool
is_wrong (err (unauthorized e)) = true
is_wrong r = false

module _ (js : Runtime) (prisma : Prisma) where
  open prisma use {Table}

  -- The database after a request.
  unfoldable pub serve : Request → Db Table → Db Table
  serve (login phone password now) db = (login_by_password js prisma phone password now db).1
  serve (reset user_id password salt) db = (reset_password js prisma user_id password salt db).1
  serve (frozen user_id) db = (set_status js prisma user_id (pos 0) db).1
  serve (reactive user_id) db = (set_status js prisma user_id (pos 1) db).1

  -- Whether a request tests a wrong password of the phone's account.
  unfoldable pub is_wrong_guess : String → Request → Db Table → Bool
  is_wrong_guess phone (login p password now) db =
      p === phone && is_wrong (login_by_password js prisma p password now db).0
  is_wrong_guess phone request db = false

  -- How many of the requests do.
  unfoldable pub wrong_guesses : String → List Request → Db Table → ℕ
  wrong_guesses phone [] db = 0
  wrong_guesses phone (request ∷ requests) db =
      (if is_wrong_guess phone request db then 1 else 0)
      + wrong_guesses phone requests (serve request db)
