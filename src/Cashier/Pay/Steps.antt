-- ===== src/Cashier/Pay/Steps.antt =====
-- The steps of `memberPay` (src/store/cashier/cashier.service.ts): only the middle one, the call of
-- `pushOrder`, holds the lock of the store, so the steps of several calls interleave.
use open_api.Prelude.{ℕ, ℤ, Bool, true, false, String, List, [], ◌∷◌, Result, ok, err}
use open_api.Schema.{StoreMember, StorePayPending, Db}
use open_api.Prisma.{Prisma}
use open_api.Cashier.Push.{PushResult}
use open_api.Cashier.Pricing.{Numbers, Settings, Amounts}
use open_api.Cashier.Pay.{PayResult, check_pay, push_pay, finish_pay}

-- A call: what the runtime supplies, the two arguments, and the time.
pub record Call : Type 0 where
  pub trim : String → String
  pub fresh : ℕ → String
  pub order_id : String
  pub now : ℕ
  pub today : ℤ
  pub pending_id : String
  pub phone : String

-- How far a call has come.
pub data Stage (js : Numbers) : Type 0 where
  begun : Stage js
  checked : (found : StorePayPending × StoreMember × Amounts js) → Stage js
  pushed : (found : StorePayPending × StoreMember × Amounts js) (result : PushResult) → Stage js
  returned : (result : Result PayResult) → Stage js

abbrev after_check : {js : Numbers} → Result (StorePayPending × StoreMember × Amounts js) → Stage js
after_check (ok found) = checked found
after_check (err e) = returned (err e)

abbrev after_push :
    {js : Numbers} → StorePayPending × StoreMember × Amounts js → Result PushResult → Stage js
after_push found (ok result) = pushed found result
after_push found (err e) = returned (err e)

module _ (prisma : Prisma) (js : Numbers) (stored : String → Settings js) where
  open prisma use {Table}

  -- The next step of a call.
  unfoldable pub step : Call → Stage js → Db Table → Stage js × Db Table
  step c begun db =
      let (r, db') = check_pay prisma js stored c.now c.today c.pending_id c.phone db in
      (after_check r, db')
  step c (checked found) db =
      let (r, db') = push_pay prisma js stored c.trim c.fresh c.order_id c.now found db in
      (after_push found r, db')
  step c (pushed found result) db =
      let (r, db') = finish_pay prisma js stored c.pending_id found.1 found.2 result db in
      (returned r, db')
  step c (returned r) db = (returned r, db)

  -- Two calls that take turns: `true` is a step of the first.
  unfoldable pub interleave :
      Call → Call → List Bool → Stage js → Stage js → Db Table → Stage js × Stage js × Db Table
  interleave c d [] a b db = (a, b, db)
  interleave c d (true ∷ turns) a b db =
      let (a', db') = step c a db in interleave c d turns a' b db'
  interleave c d (false ∷ turns) a b db =
      let (b', db') = step d b db in interleave c d turns a b' db'

  -- What any steps of any calls of `memberPay`, at any stage, may come to.
  pub data Steps (db : Db Table) : Db Table → Type 0 where
    here : Steps db db
    next : {db' : Db Table} → Steps db db' → (c : Call) (a : Stage js) → Steps db (step c a db').1
