-- ===== src/Cashier/Push.antt =====
-- `pushOrder` and `resolveOrderOperator` of src/store/cashier/cashier.service.ts. The transaction
-- writes nothing where it throws, and `pushOrder` turns what is thrown into a result.
pub mod Solvent
use mathlib.Core.Option
use open_api.Prelude.{
  ℕ, ◌+◌, ℤ, pos, ◌==ℤ◌, ◌+ℤ◌, ◌-ℤ◌, ltb_ℤ, Bool, true, false, not, ◌&&◌, ◌||◌, String, ◌===◌,
  get_or, or_text, or_null, is_some, Option, none, some, List, [], ◌∷◌, if◌then◌else◌, Action,
  Error, bad_request, not_found, forbidden, unauthorized, conflict, plain_error, record_missing,
  unique_violation, Result, ok, err, pure, gets, raise_if, modify, transaction, ◌>>=◌, ◌>>◌,
}
use open_api.Schema.{
  Address, UserOrder, UserOrderInfo, Store, StoreMember, StoreStaff, DraftItem, User, Db,
}
use open_api.Prisma.{Prisma}
use open_api.Platform.{is_id}

-- SyncOrderDto of src/store/cashier/dto/cashier-order.dto.ts.
pub record SyncOrder : Type 0 where
  pub local_id : String
  pub member_id : Option String
  pub total_amount : ℤ
  pub created_at : ℕ
  pub payment_method : Option String
  pub points_used : Option ℤ
  pub earn_points : Option ℤ
  pub payable_amount : Option ℤ
  pub discount_rate : Option ℤ
  pub operator_type : Option String
  pub operator_staff_id : Option String
  pub operator_name : Option String
  pub items : List DraftItem

pub record Operator : Type 0 where
  pub operator_type : String
  pub operator_staff_id : Option String
  pub operator_name : String

-- The one result that `pushOrder` returns.
pub data PushResult : Type 0 where
  success : (local_id remote_id : String) → PushResult
  failure : (local_id message : String) → PushResult

-- The amount to pay, and the part of it that comes from a member's balance.
abbrev pub payable : SyncOrder → ℤ
payable dto = get_or dto.payable_amount dto.total_amount

abbrev pub balance_deduction : SyncOrder → ℤ
balance_deduction dto =
    let method = get_or dto.payment_method "" in
    if method === "balance" || method === "member_scan" then payable dto else pos 0

abbrev pub points_change : SyncOrder → ℤ
points_change dto = get_or dto.earn_points (pos 0) -ℤ get_or dto.points_used (pos 0)

-- The member's row after the payment.
abbrev pub charged : SyncOrder → StoreMember → StoreMember
charged dto m = record m {
  balance = m.balance -ℤ balance_deduction dto;
  points = m.points +ℤ points_change dto;
}

-- `balanceDeduction > 0 && member.balance < balanceDeduction`
abbrev pub too_poor : SyncOrder → StoreMember → Bool
too_poor dto m = ltb_ℤ (pos 0) (balance_deduction dto) && ltb_ℤ m.balance (balance_deduction dto)

-- The row of the order: finished, settled, and handed over at the till.
abbrev pub cashier_order : String → ℕ → String → SyncOrder → Operator → UserOrder
cashier_order order_id now store_id dto operator =
    let discount = dto.total_amount -ℤ payable dto in
    record {
      order_id = order_id;
      user_id = or_text dto.member_id "CASHIER_GUEST";
      store_id = store_id;
      status = pos 1;
      stage = pos 3;
      payment_method = or_text dto.payment_method "CASHIER_OFFLINE";
      pay_status = pos 0;
      paid_at = none;
      pay_proof_url = none;
      money = payable dto;
      original_amount = dto.total_amount;
      discount_rate = get_or dto.discount_rate (pos 100);
      discount_amount = if ltb_ℤ (pos 0) discount then discount else pos 0;
      points_used = get_or dto.points_used (pos 0);
      points_earn = get_or dto.earn_points (pos 0);
      refunded_amount = pos 0;
      refund_clear_points = pos 0;
      operator_type = some operator.operator_type;
      operator_staff_id = or_null operator.operator_staff_id;
      operator_name = or_null (some operator.operator_name);
      place = record {
        province = "";
        city = "";
        area = "";
        town = "";
        address = "线下收银";
        phone = "";
        recipient = "CASHIER";
      };
      delivery_date = dto.created_at;
      create_date = dto.created_at;
      update_date = now;
    }

-- The rows of the items, with the keys `fresh 0`, `fresh 1` and so on.
unfoldable pub order_infos : (ℕ → String) → String → ℕ → List DraftItem → List UserOrderInfo
order_infos fresh order_id n [] = []
order_infos fresh order_id n (item ∷ items) =
    (record {
      order_info_id = fresh n;
      order_id = order_id;
      goods_id = item.goods_id;
      goods_name = item.name;
      goods_version_id = item.version_id;
      count = item.count;
      price = item.price;
    })
    ∷ order_infos fresh order_id (n + 1) items

module _ (prisma : Prisma) where
  open prisma use {Table, find_first, update, create}

  unfoldable pub find_member : String → Db Table → Option StoreMember
  find_member id db = find_first (λ m. m.member_id === id) db.store_member

  -- The member that an order names, where it names one that exists.
  unfoldable pub paying_member : SyncOrder → Db Table → Option StoreMember
  paying_member dto db =
      if get_or dto.member_id "" === "" || get_or dto.member_id "" === "CASHIER_GUEST"
      then none
      else find_member (get_or dto.member_id "") db

  unfoldable pub add_infos : List UserOrderInfo → Table UserOrderInfo → Table UserOrderInfo
  add_infos [] t = t
  add_infos (i ∷ is) t = add_infos is (create i t)

  -- Whether the unique key of an item's row is taken when the row is created.
  infos_taken : List UserOrderInfo → Table UserOrderInfo → Bool
  infos_taken [] t = false
  infos_taken (i ∷ is) t =
      let rest = infos_taken is (create i t) in
      is_some (find_first (λ o. o.order_info_id === i.order_info_id) t) || rest

  -- Whether the unique key of the order, or of one of its items, is taken.
  unfoldable pub keys_taken :
      String → List UserOrderInfo → Table UserOrder → Table UserOrderInfo → Bool
  unfolding infos_taken
  keys_taken order_id infos orders order_infos =
      is_some (find_first (λ o. o.order_id === order_id) orders) || infos_taken infos order_infos

  -- The rows of the order and of its items.
  unfoldable pub add_order :
      (ℕ → String) → String → ℕ → String → SyncOrder → Operator → Db Table → Db Table
  add_order fresh order_id now store_id dto operator db = record db {
    user_order = create (cashier_order order_id now store_id dto operator) db.user_order;
    user_order_info = add_infos (order_infos fresh order_id 0 dto.items) db.user_order_info;
  }

  -- The transaction's own writes, after the member's payment: the client throws where a unique key
  -- is taken.
  pub settle : (ℕ → String) → String → ℕ → String → SyncOrder → Operator → Action (Db Table) String
  settle fresh order_id now store_id dto operator = do
    taken ← gets (λ db.
        keys_taken order_id (order_infos fresh order_id 0 dto.items) db.user_order
          db.user_order_info)
    raise_if taken unique_violation
    modify (add_order fresh order_id now store_id dto operator)
    pure order_id

  -- The member's payment.
  unfoldable pub charge : SyncOrder → Db Table → Db Table
  charge dto db = record db {
    store_member =
        update (λ m. m.member_id === get_or dto.member_id "") (charged dto) db.store_member;
  }

  staff_operator : Option StoreStaff → Option String → Operator
  staff_operator none phone = record {
    operator_type = "staff";
    operator_staff_id = none;
    operator_name = or_text phone "店员";
  }
  staff_operator (some s) phone = record {
    operator_type = "staff";
    operator_staff_id = some s.staff_id;
    operator_name = if s.name === "" then "店员" else s.name;
  }

  -- The staff row of a caller: `phone` is the caller's phone, trimmed.
  pub find_staff : String → User → String → Db Table → Option StoreStaff
  find_staff store_id user phone db =
      find_first
        (λ s.
          s.store_id === store_id
          && s.status ==ℤ pos 1
          && (is_id s.user_id user.user_id
              || (not (or_text user.phone "" === "") && s.phone === phone)))
        db.store_staff

  -- The operator of a caller with an id.
  caller_operator : (String → String) → String → User → Db Table → Operator
  caller_operator trim store_id user db =
      let staff = find_staff store_id user (trim (or_text user.phone "")) db in
      let owner =
        Option.map (λ s. s.user_id) (find_first (λ s. s.store_id === store_id) db.store) in
      if is_id owner user.user_id
      then record {
        operator_type = "owner";
        operator_staff_id = or_null (Option.map (λ s. s.staff_id) staff);
        operator_name = "店主";
      }
      else staff_operator staff user.phone

  resolve_order_operator : (String → String) → String → Option User → Db Table → Operator
  unfolding caller_operator staff_operator
  resolve_order_operator trim store_id none db = staff_operator none none
  resolve_order_operator trim store_id (some user) db =
      if user.user_id === ""
      then staff_operator none none
      else caller_operator trim store_id user db

  -- The operator of an order: the override, the one that the order names, or the caller.
  pub order_operator :
      (String → String) → String → SyncOrder → Option User → Option Operator → Db Table → Operator
  unfolding resolve_order_operator
  order_operator trim store_id dto user (some operator) db = operator
  order_operator trim store_id dto user none db =
      if or_text dto.operator_type "" === ""
      then resolve_order_operator trim store_id user db
      else record {
        operator_type = or_text dto.operator_type "";
        operator_staff_id = or_null dto.operator_staff_id;
        operator_name = or_text dto.operator_name "";
      }

  -- The member pays, or lacks the balance.
  pub charge_member : SyncOrder → Option StoreMember → Action (Db Table) (Unit {0})
  charge_member dto none = pure tt
  charge_member dto (some member) = do
    raise_if (too_poor dto member) (plain_error "会员余额不足")
    modify (charge dto)

  -- The body of the transaction: the order's id.
  pub pay_order :
      (ℕ → String) → String → ℕ → String → SyncOrder → Operator → Action (Db Table) String
  unfolding charge_member settle
  pay_order fresh order_id now store_id dto operator = do
    payer ← gets (paying_member dto)
    charge_member dto payer
    settle fresh order_id now store_id dto operator

  -- `error.message`
  pub message_of : Error → String
  message_of (bad_request message) = message
  message_of (not_found message) = message
  message_of (forbidden message) = message
  message_of (unauthorized message) = message
  message_of (conflict message) = message
  message_of (plain_error message) = message
  message_of record_missing = prisma.missing_message
  message_of unique_violation = prisma.unique_message

  -- What `pushOrder` reports: its `catch` takes every exception.
  pub result_of : String → Result String → PushResult
  result_of local_id (ok order_id) = success local_id order_id
  result_of local_id (err e) = failure local_id (message_of e)

  unfoldable pub push_order :
      (String → String)
      → (ℕ → String)
      → String
      → ℕ
      → String
      → SyncOrder
      → Option User
      → Option Operator
      → Db Table
      → PushResult × Db Table
  unfolding pay_order result_of message_of
  push_order trim fresh order_id now store_id dto user override db =
      let operator = order_operator trim store_id dto user override db in
      let (result, db') = transaction (pay_order fresh order_id now store_id dto operator) db in
      (result_of dto.local_id result, db')
