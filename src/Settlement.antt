-- ===== src/Settlement.antt =====
-- src/store/settlement/store-settlement.service.ts and platform-settlement.service.ts: the monthly
-- settlements of the stores and of the platform. The dates of the runtime are a parameter.
pub mod Store
pub mod Platform
pub mod Balanced
pub mod Due
pub mod Once
pub mod Owed
pub mod Summed
pub mod Online
mod Tests
use Prim.Native.String.{◌++◌}
use open_api.Prelude.{
  ℕ, ℤ, pos, ◌+ℤ◌, ◌-ℤ◌, String, ◌===◌, Bool, true, false, not, ◌||◌, Option, List, [], ◌∷◌,
  or_text, if◌then◌else◌,
}

-- The runtime's dates: the time of the call (`new Date()`), the local year and month of a time (the
-- months count from 0), `setMonth`, `new Date(year, month, day)`, the two numbers of a month's text
-- (`split('-').map(Number)`), a number padded to two digits, the text of the SQL `date` of a time,
-- and the time of `new Date` of such a text. `decimal` prints a number.
pub record Calendar : Type 0 where
  pub now : ℕ
  pub full_year : ℕ → ℤ
  pub month_of : ℕ → ℤ
  pub set_month : ℤ → ℕ → ℕ
  pub local : ℤ → ℤ → ℤ → ℕ
  pub year_month : String → ℤ × ℤ
  pub padded : ℤ → String
  pub printed : ℤ → String
  pub date : ℕ → String
  pub time_of : String → ℕ
  pub decimal : ℕ → String

abbrev pub get_last_month : Calendar → String
get_last_month calendar =
    let d = calendar.set_month (calendar.month_of calendar.now -ℤ pos 1) calendar.now in
    calendar.printed (calendar.full_year d) ++ "-" ++ calendar.padded (calendar.month_of d +ℤ pos 1)

-- The two bounds of `getMonthRange`.
abbrev pub start_of : Calendar → String → ℕ
start_of calendar month =
    let (year, m) = calendar.year_month month in calendar.local year (m -ℤ pos 1) (pos 1)

abbrev pub end_of : Calendar → String → ℕ
end_of calendar month = let (year, m) = calendar.year_month month in calendar.local year m (pos 1)

-- `month || this.getLastMonth(now)`
abbrev pub target_month : Calendar → Option String → String
target_month calendar month = or_text month (get_last_month calendar)

-- Whether a text is among others.
unfoldable pub is_in : String → List String → Bool
is_in x [] = false
is_in x (y ∷ ys) = y === x || is_in x ys

-- The texts without repetitions (`distinct`).
unfoldable pub distinct : List String → List String
distinct [] = []
distinct (x ∷ xs) = let rest = distinct xs in if is_in x rest then rest else x ∷ rest
