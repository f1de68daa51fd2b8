-- ===== src/Platform/Const.antt =====
-- src/platform/platform.const.ts
use open_api.Prelude.{ℤ, pos, ◌==ℤ◌, String, Option, none, some, if◌then◌else◌}

abbrev pub type_store_create : String
type_store_create = "STORE_CREATE"

abbrev pub type_member_quota : String
type_member_quota = "MEMBER_QUOTA"

-- PLATFORM_ORDER_STATUS
abbrev pub order_pending : ℤ
order_pending = pos 0

abbrev pub order_confirmed : ℤ
order_confirmed = pos 1

abbrev pub order_cancelled : ℤ
order_cancelled = pos 2

-- PLATFORM_CODE_STATUS
abbrev pub code_unused : ℤ
code_unused = pos 0

abbrev pub code_used : ℤ
code_used = pos 1

abbrev pub free_stores_per_user : ℤ
free_stores_per_user = pos 1

abbrev pub free_members_per_store : ℤ
free_members_per_store = pos 10

-- MEMBER_QUOTA_PRICES, in cents; `none` for a key that it lacks.
abbrev pub member_quota_price : ℤ → Option ℤ
member_quota_price n =
    if n ==ℤ pos 10
    then some (pos 100)
    else if n ==ℤ pos 50
    then some (pos 450)
    else if n ==ℤ pos 100
    then some (pos 800)
    else none
