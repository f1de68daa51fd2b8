-- ===== src/Platform/Tests.antt =====
-- Runs of the platform service on small databases, and its theorems at them.
use open_api.Prelude.{
  ℕ, zero, suc, pos, ◌+ℤ◌, ◌-ℤ◌, String, ◌≡◌, refl, false, none, some, List, [], ◌∷◌, ok, err,
  bad_request,
}
use open_api.Schema.{Store, PlatformQuotaOrder, PlatformActivationCode, User, Db}
use open_api.Prisma.InMemory.{in_memory, empty_db}
use open_api.Platform.{
  Runtime, MemberQuota, is_unbound_phone, assert_bound_phone, find_store, find_code,
  find_quota_order, get_member_quota_info, active_members, create_unique_code,
  redeem_member_quota_code, confirm_order, code_of, spend, is_other, is_id,
}
use open_api.Platform.Codes.{Redeemed, redeem_member_quota_code-Redeemed}
use open_api.Platform.Confirm.{Confirmed, confirm_order-Confirmed}

-- A runtime on texts that need no trimming and are in upper case.
abbrev plain : Runtime
plain = record { trim = λ s. s; to_upper = λ s. s }

abbrev li : User
li = record {
  user_id = "u1";
  phone = some "13800000000";
  status = pos 1;
  first_name = some "Li";
  last_name = none;
}

abbrev tea : Store
tea = record {
  store_id = "s1";
  user_id = "u1";
  store_name = "Tea";
  phone = "13800000000";
  status = pos 3;
  extra_member_limit = pos 5;
}

abbrev wanted : PlatformQuotaOrder
wanted = record {
  order_id = "o1";
  user_id = "u1";
  phone = "13800000000";
  order_type = "MEMBER_QUOTA";
  store_id = some "s1";
  quota_amount = some (pos 50);
  amount = pos 450;
  status = pos 0;
  confirm_date = none;
  confirm_user_id = none;
}

abbrev fresh : PlatformActivationCode
fresh = code_of "AB23CD45" wanted

abbrev used : PlatformActivationCode
used = spend 3 "s1" (code_of "ZZ23CD45" wanted)

abbrev sample : Db (λ R. List R)
sample = record empty_db {
  store = tea ∷ [];
  platform_quota_order = wanted ∷ [];
  platform_activation_code = used ∷ fresh ∷ [];
}

-- The first candidate is taken.
abbrev candidates : ℕ → String
candidates zero = "ZZ23CD45"
candidates (suc n) = "QQ23CD45"

abbrev info : MemberQuota
info = record {
  free_limit = pos 10;
  extra_limit = pos 55;
  total_limit = pos 65;
  used_count = pos 0;
  remaining = pos 65;
  at_limit = false;
}

redeem_runs : (redeem_member_quota_code in_memory plain 9 li "AB23CD45" "s1" sample).0 ≡ ok info
unfolding redeem_member_quota_code assert_bound_phone is_unbound_phone find_store find_code
    get_member_quota_info active_members is_other ◌+ℤ◌ ◌-ℤ◌
redeem_runs = refl

confirm_runs : (confirm_order in_memory candidates 9 "o1" li sample).0 ≡ err (bad_request "该订单已发码")
unfolding confirm_order find_quota_order is_id
confirm_runs = refl

-- The same database before any code was issued for the order.
abbrev bare : Db (λ R. List R)
bare = record sample { platform_activation_code = record used { order_id = none } ∷ [] }

confirm_runs_bare :
    (confirm_order in_memory candidates 9 "o1" li bare).0 ≡ ok (code_of "QQ23CD45" wanted)
unfolding confirm_order find_quota_order is_id create_unique_code
confirm_runs_bare = refl

redeem_member_quota_code-Redeemed_example :
    Redeemed in_memory plain 9 li "AB23CD45" "s1" info sample
      (redeem_member_quota_code in_memory plain 9 li "AB23CD45" "s1" sample).1
redeem_member_quota_code-Redeemed_example =
    redeem_member_quota_code-Redeemed in_memory plain 9 li "AB23CD45" "s1" sample info redeem_runs

confirm_order-Confirmed_example :
    Confirmed in_memory 9 "o1" li
      (code_of "QQ23CD45" wanted)
      bare
      (confirm_order in_memory candidates 9 "o1" li bare).1
confirm_order-Confirmed_example =
    confirm_order-Confirmed in_memory candidates 9 "o1" li bare _ confirm_runs_bare
