-- ===== src/Platform.antt =====
-- src/platform/platform.service.ts: orders for larger quotas, the activation codes that they earn,
-- and the quotas that the codes raise. `trim` and `to_upper` are the functions of a JavaScript
-- string, which follow the Unicode tables of the runtime; nothing is assumed of them. The random
-- codes of `generateCode` are an argument.
mod Const
pub mod Codes
pub mod Confirm
mod Tests
pub use Const.*
use text.Mathlib.Text.{starts_with}
use open_api.Prelude.{
  ℕ, ◌+◌, zero, suc, ℤ, pos, ◌+ℤ◌, ◌-ℤ◌, ◌==ℤ◌, leb_ℤ, max_zero, Bool, true, false, not, ◌&&◌, ◌||◌,
  String, ◌===◌, codes, all_digits, length, ◌==◌, is_some, get_or, Option, none, some,
  if◌then◌else◌, Action, bad_request, not_found, pure, raise, gets, or_raise, raise_if, modify,
  ◌>>=◌, ◌>>◌,
}
use open_api.Schema.{Store, StoreMember, PlatformQuotaOrder, PlatformActivationCode, User, Db}
use open_api.Prisma.{Prisma}

-- The string functions of the runtime.
pub record Runtime : Type 0 where
  pub trim : String → String
  pub to_upper : String → String

pub record MemberQuota : Type 0 where
  pub free_limit : ℤ
  pub extra_limit : ℤ
  pub total_limit : ℤ
  pub used_count : ℤ
  pub remaining : ℤ
  pub at_limit : Bool

-- CreateQuotaOrderDto
pub record CreateQuotaOrder : Type 0 where
  pub order_type : String
  pub store_id : Option String
  pub quota_amount : Option ℤ

-- ValidateCodeDto
pub record ValidateCode : Type 0 where
  pub code : String
  pub code_type : String
  pub store_id : Option String

-- `id && id !== other`, on an optional id.
pub is_other : Option String → String → Bool
is_other none s = false
is_other (some id) s = not (id === "") && not (id === s)

-- `column === id`, on an optional column.
pub is_id : Option String → String → Bool
is_id none s = false
is_id (some id) s = id === s

-- `a && b && a !== b`, on two optional ids.
pub differ : Option String → Option String → Bool
differ none b = false
differ (some a) b = not (a === "") && is_other b a

-- The code that a confirmed order earns.
abbrev pub code_of : String → PlatformQuotaOrder → PlatformActivationCode
code_of code order = record {
  code = code;
  order_id = some order.order_id;
  code_type =
      if order.order_type === type_store_create then type_store_create else type_member_quota;
  bound_phone = order.phone;
  user_id = some order.user_id;
  store_id = order.store_id;
  quota_amount = order.quota_amount;
  status = code_unused;
  used_date = none;
  used_store_id = none;
}

-- Marks the code as used for a store.
abbrev pub spend : ℕ → String → PlatformActivationCode → PlatformActivationCode
spend now store_id c = record c {
  status = code_used;
  used_date = some now;
  used_store_id = some store_id;
}

module _ (js : Runtime) where
  open js use {trim, to_upper}

  -- `String(code || '').trim().toUpperCase()`
  abbrev pub normalized : String → String
  normalized code = to_upper (trim code)

  -- A text that is empty, begins with "tmp" or has thirteen digits is no bound phone.
  pub is_unbound_phone : String → Bool
  is_unbound_phone phone =
      phone === ""
      || starts_with phone "tmp"
      || (length (codes phone) == 13 && all_digits (codes phone))

  unfoldable pub assert_bound_phone : {S : Type 0} → User → Action S String
  assert_bound_phone user =
      let phone = trim (get_or user.phone "") in
      do raise_if (is_unbound_phone phone) (bad_request "请先绑定手机号"); pure phone

module _ (prisma : Prisma) where
  open prisma use {Table, find_first, find_many, count, update, create}

  pub find_store : String → Db Table → Option Store
  find_store store_id db = find_first (λ s. s.store_id === store_id) db.store

  pub find_code : String → Db Table → Option PlatformActivationCode
  find_code code db = find_first (λ c. c.code === code) db.platform_activation_code

  pub find_quota_order : String → Db Table → Option PlatformQuotaOrder
  find_quota_order id db = find_first (λ o. o.order_id === id) db.platform_quota_order

  -- `getStoreQuotaCheck`: whether the user needs a code for one more store.
  unfoldable pub needs_code : User → Db Table → Bool
  needs_code user db =
      leb_ℤ free_stores_per_user (pos (count (λ s. s.user_id === user.user_id) db.store))

  pub active_members : String → Db Table → ℕ
  active_members store_id db =
      count (λ m. m.store_id === store_id && m.status ==ℤ pos 1) db.store_member

  -- The list of prices that the answer also has is constant, and left out.
  pub get_member_quota_info : String → Action (Db Table) MemberQuota
  get_member_quota_info store_id = do
    store ← or_raise (← gets (find_store store_id)) (not_found "店铺不存在")
    used ← gets (active_members store_id)
    let total = free_members_per_store +ℤ store.extra_member_limit
    pure (record {
      free_limit = free_members_per_store;
      extra_limit = store.extra_member_limit;
      total_limit = total;
      used_count = pos used;
      remaining = max_zero (total -ℤ pos used);
      at_limit = leb_ℤ total (pos used);
    })

  -- The exception's message is without the limit that the source prints in it.
  pub assert_can_add_member : String → Action (Db Table) MemberQuota
  assert_can_add_member store_id = do
    info ← get_member_quota_info store_id
    raise_if info.at_limit (bad_request "会员已达上限")
    pure info

  -- `createUniqueCode`: the first of at most so many random codes that no row has.
  pub create_unique_code : ℕ → (ℕ → String) → Db Table → Option String
  create_unique_code zero candidate db = none
  create_unique_code (suc n) candidate db =
      let rest = create_unique_code n (λ i. candidate (i + 1)) db in
      if is_some (find_first (λ c. c.code === candidate 0) db.platform_activation_code)
      then rest
      else some (candidate 0)

  -- The store, quota and price of an order for one more store: none, none and nothing.
  store_create_terms : User → Action (Db Table) (Option String × Option ℤ × ℤ)
  store_create_terms user = do
    needed ← gets (needs_code user)
    raise_if (not needed) (bad_request "当前无需购买门店验证码")
    pure (none, none, pos 0)

  -- Those of an order for more members of a store.
  member_quota_terms : CreateQuotaOrder → Action (Db Table) (Option String × Option ℤ × ℤ)
  member_quota_terms dto = do
    store_id ← or_raise dto.store_id (bad_request "请指定门店")
    raise_if (store_id === "") (bad_request "请指定门店")
    amount ← or_raise dto.quota_amount (bad_request "请选择有效的扩容人数")
    price ← or_raise (member_quota_price amount) (bad_request "请选择有效的扩容人数")
    or_raise (← gets (find_store store_id)) (not_found "店铺不存在")
    pure (some store_id, some amount, price)

  order_terms : User → CreateQuotaOrder → Action (Db Table) (Option String × Option ℤ × ℤ)
  order_terms user dto =
      if dto.order_type === type_store_create
      then store_create_terms user
      else if dto.order_type === type_member_quota
      then member_quota_terms dto
      else raise (bad_request "无效的订单类型")

  pub create_quota_order :
      Runtime → String → User → CreateQuotaOrder → Action (Db Table) PlatformQuotaOrder
  create_quota_order js order_id user dto = do
    phone ← assert_bound_phone js user
    terms ← order_terms user dto
    let order : PlatformQuotaOrder = record {
      order_id = order_id;
      user_id = user.user_id;
      phone = phone;
      order_type = dto.order_type;
      store_id = terms.0;
      quota_amount = terms.1;
      amount = terms.2;
      status = order_pending;
      confirm_date = none;
      confirm_user_id = none;
    }
    modify (λ db. record db { platform_quota_order = create order db.platform_quota_order })
    pure order

  pub confirm_order : (ℕ → String) → ℕ → String → User → Action (Db Table) PlatformActivationCode
  confirm_order candidate now id admin = do
    order ← or_raise (← gets (find_quota_order id)) (not_found "订单不存在")
    raise_if (not (order.status ==ℤ order_pending)) (bad_request "订单状态不可确认")
    existing ← gets (λ db. find_first (λ c. is_id c.order_id id) db.platform_activation_code)
    raise_if (is_some existing) (bad_request "该订单已发码")
    code ← or_raise (← gets (create_unique_code 10 candidate)) (bad_request "验证码生成失败，请重试")
    modify (λ db. record db {
      platform_quota_order =
          update (λ o. o.order_id === id)
            (λ o. record o {
              status = order_confirmed;
              confirm_date = some now;
              confirm_user_id = some admin.user_id;
            })
            db.platform_quota_order;
      platform_activation_code = create (code_of code order) db.platform_activation_code;
    })
    pure (code_of code order)

  pub cancel_order : String → Action (Db Table) (Unit {0})
  cancel_order id = do
    order ← or_raise (← gets (find_quota_order id)) (not_found "订单不存在")
    raise_if (not (order.status ==ℤ order_pending)) (bad_request "仅待处理订单可取消")
    modify (λ db. record db {
      platform_quota_order =
          update (λ o. o.order_id === id) (λ o. record o { status = order_cancelled })
            db.platform_quota_order;
    })

  module _ (js : Runtime) where
    unfoldable pub validate_code : User → ValidateCode → Action (Db Table) PlatformActivationCode
    validate_code user dto = do
      phone ← assert_bound_phone js user
      found ← or_raise (← gets (find_code (normalized js dto.code))) (bad_request "验证码无效")
      raise_if (found.status ==ℤ code_used) (bad_request "验证码已使用")
      raise_if (not (found.code_type === dto.code_type)) (bad_request "验证码类型不匹配")
      raise_if (not (found.bound_phone === phone)) (bad_request "验证码与当前绑定手机号不匹配")
      raise_if (dto.code_type === type_member_quota && differ dto.store_id found.store_id)
          (bad_request "验证码不适用于当前门店")
      pure found

    unfoldable pub redeem_store_create_code :
        ℕ → User → String → String → Action (Db Table) PlatformActivationCode
    redeem_store_create_code now user code store_id = do
      phone ← assert_bound_phone js user
      found ← or_raise (← gets (find_code (normalized js code))) (bad_request "验证码无效")
      raise_if (found.status ==ℤ code_used) (bad_request "验证码已使用")
      raise_if (not (found.code_type === type_store_create)) (bad_request "验证码类型不匹配")
      raise_if (not (found.bound_phone === phone)) (bad_request "验证码与当前绑定手机号不匹配")
      modify (λ db. record db {
        platform_activation_code =
            update (λ c. c.code === normalized js code) (spend now store_id)
              db.platform_activation_code;
      })
      pure found

    pub redeem_member_quota_code : ℕ → User → String → String → Action (Db Table) MemberQuota
    redeem_member_quota_code now user code store_id = do
      phone ← assert_bound_phone js user
      store ← or_raise (← gets (find_store store_id)) (not_found "店铺不存在")
      found ← or_raise (← gets (find_code (normalized js code))) (bad_request "验证码无效")
      raise_if (found.status ==ℤ code_used) (bad_request "验证码已使用")
      raise_if (not (found.code_type === type_member_quota)) (bad_request "验证码类型不匹配")
      raise_if (not (found.bound_phone === phone)) (bad_request "验证码与当前绑定手机号不匹配")
      raise_if (is_other found.store_id store_id) (bad_request "验证码不适用于当前门店")
      let quota_amount = get_or found.quota_amount (pos 0)
      raise_if (quota_amount ==ℤ pos 0) (bad_request "验证码数据异常")
      modify (λ db. record db {
        platform_activation_code =
            update (λ c. c.code === normalized js code) (spend now store_id)
              db.platform_activation_code;
        store =
            update (λ s. s.store_id === store_id)
              (λ s. record s { extra_member_limit = store.extra_member_limit +ℤ quota_amount })
              db.store;
      })
      get_member_quota_info store_id

    unfoldable pub check_activation_code : User → Option String → Action (Db Table) (Unit {0})
    check_activation_code user activation_code = do
      raise_if (js.trim (get_or activation_code "") === "") (bad_request "创建第2个及以后门店需要验证码")
      validate_code user (record {
        code = get_or activation_code "";
        code_type = type_store_create;
        store_id = none;
      })
      pure tt

    unfoldable pub assert_store_create_allowed : User → Option String → Action (Db Table) (Unit {0})
    assert_store_create_allowed user activation_code = do
      needed ← gets (needs_code user)
      if needed then check_activation_code user activation_code else pure tt
