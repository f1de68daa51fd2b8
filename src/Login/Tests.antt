-- ===== src/Login/Tests.antt =====
-- Logins on a small database.
use open_api.Prelude.{
  ◌+◌, ◌≤◌, pos, ◌/◌, ◌+ℤ◌, ◌≡◌, refl, none, some, List, [], ◌∷◌, length, All, arith,
}
use Prim.Native.String.{◌++◌}
use open_api.Schema.{User, UserSigninPassword, Db}
use open_api.Prisma.InMemory.{in_memory, empty_db}
use open_api.Login.{
  Runtime, Request, login, frozen, reactive, find_user_by_phone, find_password, login_by_password,
  login_fail, refuse_password, set_password, is_password_valid, set_status, serve, is_wrong_guess,
  wrong_guesses,
}
use open_api.Login.Lockout.{wrong_guesses-le}
use open_api.Login.Lapse.{IsGuess, wrong_guesses-unbounded}

-- Days of 100 ticks.
abbrev runtime : Runtime
runtime = record { hash = λ password salt. password ++ salt; day_of = λ at. pos (at / 100) }

abbrev li : User
li = record {
  user_id = "u1";
  status = pos 1;
  phone = some "138";
  first_name = some "Li";
  last_name = none;
}

abbrev secret : UserSigninPassword
secret = record {
  user_id = "u1";
  salt = "s";
  password = "rights";
  failed_login_times = pos 0;
  locked_date = none;
}

abbrev sample : Db (λ R. List R)
sample = record empty_db { user = li ∷ []; user_signin_password = secret ∷ [] }

-- The account after three failures, the last at 30.
abbrev guessed : UserSigninPassword
guessed = record secret { failed_login_times = pos 3; locked_date = some 30 }

abbrev lapsed : Db (λ R. List R)
lapsed = record empty_db { user = li ∷ []; user_signin_password = guessed ∷ [] }

abbrev guesses : List Request
guesses =
    login "138" "a" 10
    ∷ login "138" "b" 20
    ∷ frozen "u1"
    ∷ login "138" "c" 25
    ∷ reactive "u1"
    ∷ login "138" "d" 30
    ∷ login "138" "e" 40
    ∷ login "138" "right" 50
    ∷ []

-- Three of the guesses are tested, the one while the user is frozen is not.
guesses_run : wrong_guesses runtime in_memory "138" guesses sample ≡ 3
unfolding wrong_guesses is_wrong_guess serve login_by_password find_user_by_phone find_password
    is_password_valid refuse_password login_fail set_password set_status ◌+ℤ◌
guesses_run = refl

-- A right password does not set the count back.
right_run :
    wrong_guesses runtime in_memory "138"
      (login "138" "a" 10 ∷ login "138" "right" 20 ∷ login "138" "b" 30 ∷ [])
      sample
    ≡ 2
unfolding wrong_guesses is_wrong_guess serve login_by_password find_user_by_phone find_password
    is_password_valid refuse_password login_fail set_password ◌+ℤ◌
right_run = refl

li_phone : find_user_by_phone runtime in_memory "138" sample ≡ some li
unfolding find_user_by_phone
li_phone = refl

li_secret : find_password runtime in_memory "u1" sample ≡ some secret
unfolding find_password
li_secret = refl

wrong_guesses-le_example : wrong_guesses runtime in_memory "138" guesses sample + 0 ≤ 3
wrong_guesses-le_example =
    wrong_guesses-le runtime in_memory "138" sample li secret li_phone li_secret 0 refl
      (omega arith) (pos 0) guesses (refl, (refl, (tt, (refl, (tt, (refl, (refl, (refl, tt))))))))

abbrev next_day : List Request
next_day =
    login "138" "a" 110 ∷ login "138" "b" 120 ∷ login "138" "c" 130 ∷ login "138" "d" 140 ∷ []

lapsed_phone : find_user_by_phone runtime in_memory "138" lapsed ≡ some li
unfolding find_user_by_phone
lapsed_phone = refl

lapsed_secret : find_password runtime in_memory "u1" lapsed ≡ some guessed
unfolding find_password
lapsed_secret = refl

next_day-IsGuess : All (IsGuess runtime in_memory "138" guessed) next_day
unfolding is_password_valid
next_day-IsGuess =
    ((refl, refl, refl), ((refl, refl, refl), ((refl, refl, refl), ((refl, refl, refl), tt))))

wrong_guesses-unbounded_example :
    wrong_guesses runtime in_memory "138" next_day lapsed ≡ length next_day
wrong_guesses-unbounded_example =
    wrong_guesses-unbounded runtime in_memory "138" lapsed li guessed lapsed_phone lapsed_secret
      refl refl next_day next_day-IsGuess
