-- ===== src/Cashier/Pay.antt =====
-- Pending payments and `memberPay` of src/store/cashier/cashier.service.ts. `stored` gives the
-- settings that `getSettings` (src/store/store.service.ts) parses out of a store's history, over its
-- defaults. A pending row holds the draft itself in place of its JSON text.
mod Pending
pub mod Once
pub mod Steps
pub mod Lasting
pub mod Overlap
use open_api.Prelude.{
  ℕ, ◌+◌, ℤ, pos, ltb, ltb_ℤ, ◌==ℤ◌, Bool, true, false, not, ◌&&◌, String, ◌===◌, get_or, or_text,
  Option, none, some, if◌then◌else◌, Action, bad_request, pure, raise, gets, or_raise, raise_if,
  modify, ◌>>=◌, ◌>>◌, ok, err,
}
use open_api.Schema.{Store, StoreMember, StorePayPending, Draft, Db}
use open_api.Prisma.{Prisma}
use open_api.Cashier.Push.{SyncOrder, Operator, PushResult, success, failure, push_order}
use open_api.Cashier.Pricing.{Numbers, Settings, Amounts, calc_member_pay_amounts}

-- PENDING_TTL_MS
abbrev pub pending_ttl : ℕ
pending_ttl = 1800000

-- The object that `memberPay` returns, with its amount in cents.
pub record PayResult : Type 0 where
  pub order_id : String
  pub payable_amount : ℤ
  pub points_used : ℤ
  pub earn_points : ℤ

-- The operator of an order that the customer pays.
abbrev pub customer : Operator
customer = record { operator_type = "customer"; operator_staff_id = none; operator_name = "顾客" }

module _ (prisma : Prisma) where
  open prisma use {Table, find_first, update, create}

  unfoldable pub find_pending : String → Db Table → Option StorePayPending
  find_pending id db = find_first (λ p. p.pending_id === id) db.store_pay_pending

  unfoldable pub set_pending :
      String → (StorePayPending → StorePayPending) → Action (Db Table) (Unit {0})
  set_pending id f = modify (λ db. record db {
    store_pay_pending = update (λ p. p.pending_id === id) f db.store_pay_pending;
  })

  -- The row as it is now; an overdue row is expired first.
  pub refresh : String → StorePayPending → Action (Db Table) StorePayPending
  refresh pending_id row = do
    set_pending pending_id (λ p. record p { status = "expired" })
    pure (record row { status = "expired" })

  -- `getPendingRow`; the store is given where the till asks.
  unfoldable pub get_pending_row : ℕ → String → Option String → Action (Db Table) StorePayPending
  unfolding refresh
  get_pending_row now pending_id store_id = do
    row ← or_raise (← gets (find_pending pending_id)) (bad_request "待支付订单不存在")
    raise_if (not (or_text store_id "" === "") && not (row.store_id === or_text store_id ""))
        (bad_request "待支付订单不存在")
    if row.status === "pending" && ltb row.expire_at now then refresh pending_id row else pure row

  create_pending : String → ℕ → String → Draft → Action (Db Table) String
  create_pending fresh now store_id order = do
    modify (λ db. record db {
      store_pay_pending =
          create
            (record {
              pending_id = fresh;
              store_id = store_id;
              status = "pending";
              payload = order;
              order_id = none;
              member_id = none;
              expire_at = now + pending_ttl;
            })
            db.store_pay_pending;
    })
    pure fresh

  update_pending : ℕ → String → String → Draft → Action (Db Table) String
  update_pending now pending_id store_id order = do
    existing ← get_pending_row now pending_id (some store_id)
    raise_if (not (existing.status === "pending")) (bad_request "待支付订单已失效")
    set_pending pending_id (λ p. record p { payload = order; expire_at = now + pending_ttl })
    pure pending_id

  -- `createOrUpdatePendingOrder`, without the picture of the code: the row's id.
  pub create_or_update_pending_order :
      String → ℕ → String → Draft → Option String → Action (Db Table) String
  create_or_update_pending_order fresh now store_id order pending_id =
      if or_text pending_id "" === ""
      then create_pending fresh now store_id order
      else update_pending now (or_text pending_id "") store_id order

  -- `getPendingOrderStatus`
  pub get_pending_order_status :
      ℕ → String → String → Action (Db Table) (String × Option String × Option String)
  get_pending_order_status now pending_id store_id = do
    row ← get_pending_row now pending_id (some store_id)
    pure (row.status, row.order_id, row.member_id)

  -- `findByPhone` of src/store/member/member.service.ts
  unfoldable pub find_by_phone : String → String → Db Table → Option StoreMember
  find_by_phone store_id phone db =
      find_first (λ m. m.store_id === store_id && (m.phone === phone && m.status ==ℤ pos 1))
        db.store_member

  module _ (js : Numbers) (stored : String → Settings js) where
    unfoldable pub get_settings : String → Action (Db Table) (Settings js)
    get_settings store_id = do
      or_raise (← gets (λ db. find_first (λ s. s.store_id === store_id) db.store))
          (bad_request "店铺不存在")
      pure (stored store_id)

    -- `calcByPendingIdAndPhone`
    unfoldable pub calc_by_pending_id_and_phone :
        ℕ → ℤ → String → String → Action (Db Table) (StorePayPending × StoreMember × Amounts js)
    calc_by_pending_id_and_phone now today pending_id phone = do
      row ← get_pending_row now pending_id none
      raise_if (not (row.status === "pending")) (bad_request "订单已失效或已支付")
      member ← or_raise (← gets (find_by_phone row.store_id phone)) (bad_request "您不是本店会员，请联系店员")
      settings ← get_settings row.store_id
      pure (
        row,
        member,
        calc_member_pay_amounts js today row.payload.total_amount member.points settings,
      )

    -- The order that a member pays.
    unfoldable pub scanned_order : Draft → StoreMember → Amounts js → SyncOrder
    scanned_order draft member calc = record {
      local_id = draft.local_id;
      member_id = some member.member_id;
      total_amount = draft.total_amount;
      created_at = draft.created_at;
      payment_method = some "member_scan";
      points_used = some calc.points_used;
      earn_points = some calc.earn_points;
      payable_amount = some calc.payable;
      discount_rate = some calc.discount_rate;
      operator_type = none;
      operator_staff_id = none;
      operator_name = none;
      items = draft.items;
    }

    -- The last part, which holds no lock again.
    unfoldable pub finish_pay :
        String → StoreMember → Amounts js → PushResult → Action (Db Table) PayResult
    finish_pay pending_id member calc (failure local_id message) =
        raise (bad_request (if message === "" then "支付失败，请联系店员充值" else message))
    finish_pay pending_id member calc (success local_id remote_id) = do
      set_pending pending_id (λ p. record p {
        status = "paid";
        order_id = some remote_id;
        member_id = some member.member_id;
      })
      pure (record {
        order_id = remote_id;
        payable_amount = calc.payable;
        points_used = calc.points_used;
        earn_points = calc.earn_points;
      })

    -- The first part of `memberPay`, up to the test of the balance, which holds no lock.
    abbrev pub check_pay :
        ℕ → ℤ → String → String → Action (Db Table) (StorePayPending × StoreMember × Amounts js)
    check_pay now today pending_id phone = do
      found ← calc_by_pending_id_and_phone now today pending_id phone
      raise_if (ltb_ℤ found.1.balance found.2.payable) (bad_request "支付失败，请联系店员充值")
      pure found

    -- Its call of `pushOrder`, which holds the lock.
    abbrev pub push_pay :
        (String → String)
        → (ℕ → String)
        → String
        → ℕ
        → StorePayPending × StoreMember × Amounts js
        → Action (Db Table) PushResult
    push_pay trim fresh order_id now found db =
        let pushed =
          push_order prisma trim fresh order_id now found.0.store_id
            (scanned_order found.0.payload found.1 found.2) none (some customer) db in
        (ok pushed.0, pushed.1)

    -- The whole of a payment that no other call's steps separate.
    unfoldable pub member_pay :
        (String → String)
        → (ℕ → String)
        → String
        → ℕ
        → ℤ
        → String
        → String
        → Action (Db Table) PayResult
    unfolding finish_pay
    member_pay trim fresh order_id now today pending_id phone = do
      found ← check_pay now today pending_id phone
      result ← push_pay trim fresh order_id now found
      finish_pay pending_id found.1 found.2 result
