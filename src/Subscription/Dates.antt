-- ===== src/Subscription/Dates.antt =====
-- The forms and the dates of src/store/store-subscription: its dto folder, and the months of
-- store-subscription.service.ts.
use Prim.Native.String.{◌++◌}
use open_api.Prelude.{ℕ, ℤ, pos, ◌+ℤ◌, String, Option}

-- The runtime at the time of a call (`new Date()`): the local year and month of a time (the months
-- count from 0), `setMonth`, `setDate`, `new Date(year, month, day, …)` to the millisecond, a number
-- padded to two digits or printed plainly, the text of `Date.now()`, and `trim`.
pub record Runtime : Type 0 where
  pub now : ℕ
  pub full_year : ℕ → ℤ
  pub month_of : ℕ → ℤ
  pub day_of : ℕ → ℤ
  pub set_month : ℤ → ℕ → ℕ
  pub set_day : ℤ → ℕ → ℕ
  pub local : ℤ → ℤ → ℤ → ℕ
  pub local_time : ℤ → ℤ → ℤ → ℤ → ℤ → ℤ → ℤ → ℕ
  pub padded : ℤ → String
  pub printed : ℤ → String
  pub now_text : String
  pub trim : String → String

-- CreateStoreServicePlanDto
pub record CreatePlan : Type 0 where
  pub name : String
  pub description : Option String
  pub monthly_fee : ℤ
  pub max_subscriptions : Option ℤ

-- CreateStoreServiceSubscriptionDto
pub record CreateSubscription : Type 0 where
  pub store_id : String
  pub plan_id : String
  pub start_date : Option ℕ

-- PayStoreServiceInvoiceDto
pub record PayInvoice : Type 0 where
  pub amount : ℤ
  pub method : String
  pub remark : Option String

-- CreateStoreServiceContractDto
pub record CreateContract : Type 0 where
  pub store_id : String
  pub plan_id : String
  pub contract_no : Option String
  pub start_date : ℕ
  pub end_date : ℕ
  pub total_amount : ℤ
  pub sign_type : ℤ
  pub signed_at : Option ℕ
  pub file_url : Option String

module _ (js : Runtime) where
  -- The text of a time's month.
  abbrev pub month_text : ℕ → String
  month_text at = js.printed (js.full_year at) ++ "-" ++ js.padded (js.month_of at +ℤ pos 1)

  -- The first and the last day of a time's month, and seven days after the first.
  abbrev pub period_start : ℕ → ℕ
  period_start at = js.local (js.full_year at) (js.month_of at) (pos 1)

  abbrev pub period_end : ℕ → ℕ
  period_end at = js.local (js.full_year at) (js.month_of at +ℤ pos 1) (pos 0)

  abbrev pub due_date : ℕ → ℕ
  due_date at = js.set_day (js.day_of (period_start at) +ℤ pos 7) (period_start at)

  -- The first and the last millisecond of a time's month.
  abbrev pub month_start : ℕ → ℕ
  month_start at =
      js.local_time (js.full_year at) (js.month_of at) (pos 1) (pos 0) (pos 0) (pos 0) (pos 0)

  abbrev pub month_end : ℕ → ℕ
  month_end at =
      js.local_time (js.full_year at) (js.month_of at +ℤ pos 1) (pos 0) (pos 23) (pos 59) (pos 59)
        (pos 999)

  -- One month after a time.
  abbrev pub month_later : ℕ → ℕ
  month_later at = js.set_month (js.month_of at +ℤ pos 1) at
