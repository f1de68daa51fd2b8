-- ===== src/Order/Const.antt =====
-- src/order/const/index.ts: the numbers of the enumerations.
use open_api.Prelude.{ℤ, pos, negsuc, String}

-- E_USER_ORDER_STATUS
abbrev pub status_delete : ℤ
status_delete = negsuc 1

abbrev pub status_cancel : ℤ
status_cancel = negsuc 0

abbrev pub status_active : ℤ
status_active = pos 0

-- E_USER_ORDER_STAGE
abbrev pub stage_create : ℤ
stage_create = pos 1

abbrev pub stage_accept : ℤ
stage_accept = pos 2

abbrev pub stage_delivery : ℤ
stage_delivery = pos 3

abbrev pub stage_received : ℤ
stage_received = pos 4

abbrev pub stage_finished : ℤ
stage_finished = pos 5

-- E_USER_ORDER_PAY_STATUS
abbrev pub unpaid : ℤ
unpaid = pos 0

abbrev pub paid : ℤ
paid = pos 1

-- E_USER_ORDER_PAYMENT_METHOD
abbrev pub online_qr : String
online_qr = "online_qr"
