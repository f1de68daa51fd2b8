-- ===== src/Application/Const.antt =====
-- The constants of src/store/const/index.ts.
use open_api.Prelude.{ℤ, pos, negsuc}

-- Members of STORE_ACTION_TYPES.
abbrev pub action_apply : ℤ
action_apply = pos 0

abbrev pub action_preview : ℤ
action_preview = pos 2

abbrev pub action_reviewed : ℤ
action_reviewed = pos 3

abbrev pub action_approved : ℤ
action_approved = pos 4

abbrev pub action_updated : ℤ
action_updated = pos 9

abbrev pub action_transform : ℤ
action_transform = pos 10

abbrev pub action_frozen : ℤ
action_frozen = pos 99

-- Members of STORE_STATUS_TYPES.
abbrev pub store_frozen : ℤ
store_frozen = negsuc 2

abbrev pub store_pending : ℤ
store_pending = pos 0

abbrev pub store_preview : ℤ
store_preview = pos 1

abbrev pub store_reviewed : ℤ
store_reviewed = pos 2

abbrev pub store_approved : ℤ
store_approved = pos 3
