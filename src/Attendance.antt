-- ===== src/Attendance.antt =====
-- src/store/attendance/attendance.service.ts: punching in and out, and the owner's corrections. The
-- time `now` and the text `today` of the local day are arguments (`new Date()`, `todayStr()`), and
-- `parse` is the time that `new Date(input)` reads from a text, `none` where it is invalid.
mod Tests
pub mod Shift
pub mod Paired
pub mod Day
use text.Mathlib.Text.{starts_with}
use open_api.Prelude.{
  ℕ, ℤ, pos, ◌==ℤ◌, ltb, Bool, true, false, not, ◌&&◌, ◌||◌, String, ◌===◌, is_some, or_text,
  Option, none, some, if◌then◌else◌, Action, bad_request, not_found, forbidden, pure, raise, gets,
  or_raise, raise_if, modify, ◌>>=◌, ◌>>◌,
}
use open_api.Schema.{Store, StoreStaff, StoreAttendance, User, Db}
use open_api.Prisma.{Prisma}

-- PunchDto
pub record Punch : Type 0 where
  pub store_id : String
  pub type : String

-- AdjustAttendanceDto
pub record AdjustAttendance : Type 0 where
  pub store_id : String
  pub staff_id : String
  pub work_date : String
  pub check_in_at : Option String
  pub check_out_at : Option String
  pub remark : Option String

-- The `OR` of the search for the staff of a user.
unfoldable pub is_staff_of : User → StoreStaff → Bool
is_staff_of user s =
    (not (user.user_id === "") && or_text s.user_id "" === user.user_id)
    || (not (or_text user.phone "" === "") && s.phone === or_text user.phone "")

-- The `where` of that search.
unfoldable pub is_active_staff : String → User → StoreStaff → Bool
unfolding is_staff_of
is_active_staff store_id user s =
    s.store_id === store_id && (s.status ==ℤ pos 1 && is_staff_of user s)

-- `staff.user_id = user.user_id`
abbrev pub with_user : User → StoreStaff → StoreStaff
with_user user s = record s { user_id = some user.user_id }

-- The unique key of a record: store, staff and day.
unfoldable pub is_day : String → String → String → StoreAttendance → Bool
is_day store_id staff_id work_date r =
    r.store_id === store_id && (r.staff_id === staff_id && r.work_date === work_date)

abbrev pub checked_in : ℕ → String → StoreAttendance → StoreAttendance
checked_in now by r = record r {
  check_in_at = some now;
  check_in_type = some "self";
  check_in_by = some by;
}

abbrev pub checked_out : ℕ → String → StoreAttendance → StoreAttendance
checked_out now by r = record r {
  check_out_at = some now;
  check_out_type = some "self";
  check_out_by = some by;
}

-- `if (checkInAt) { … }` and `if (checkOutAt) { … }` on the data of a correction.
abbrev pub correct_in : Option ℕ → String → StoreAttendance → StoreAttendance
correct_in none by r = r
correct_in (some at) by r = record r {
  check_in_at = some at;
  check_in_type = some "owner";
  check_in_by = some by;
}

abbrev pub correct_out : Option ℕ → String → StoreAttendance → StoreAttendance
correct_out none by r = r
correct_out (some at) by r = record r {
  check_out_at = some at;
  check_out_type = some "owner";
  check_out_by = some by;
}

-- `dto.remark != null ? dto.remark : existing.remark`
abbrev pub remarked : Option String → StoreAttendance → StoreAttendance
remarked none r = r
remarked (some text) r = record r { remark = some text }

-- `checkInAt && checkOutAt && checkOutAt < checkInAt`
abbrev pub is_reversed : Option ℕ → Option ℕ → Bool
is_reversed none b = false
is_reversed (some a) none = false
is_reversed (some a) (some b) = ltb b a

module _ (prisma : Prisma) where
  open prisma use {Table, find_first, update, create}

  unfoldable pub find_store : String → Db Table → Option Store
  find_store id db = find_first (λ s. s.store_id === id) db.store

  unfoldable pub find_staff : String → Db Table → Option StoreStaff
  find_staff id db = find_first (λ s. s.staff_id === id) db.store_staff

  unfoldable pub find_day : String → String → String → Db Table → Option StoreAttendance
  find_day store_id staff_id work_date db =
      find_first (is_day store_id staff_id work_date) db.store_attendance

  pub set_record : String → (StoreAttendance → StoreAttendance) → Action (Db Table) (Unit {0})
  set_record id f = modify (λ db. record db {
    store_attendance = update (λ r. r.attendance_id === id) f db.store_attendance;
  })

  pub add_record : StoreAttendance → Action (Db Table) (Unit {0})
  add_record r = modify (λ db. record db { store_attendance = create r db.store_attendance })

  -- `!staff.user_id && user.user_id`
  is_unbound : User → StoreStaff → Bool
  is_unbound user staff = or_text staff.user_id "" === "" && not (user.user_id === "")

  -- The user of a staff found by the phone is written down.
  bind_user : User → StoreStaff → Action (Db Table) (Unit {0})
  unfolding is_unbound
  bind_user user staff =
      if is_unbound user staff
      then modify (λ db. record db {
        store_staff = update (λ s. s.staff_id === staff.staff_id) (with_user user) db.store_staff;
      })
      else pure tt

  -- Whether the user owns the store.
  unfoldable pub is_owned : Option Store → User → Bool
  is_owned none user = false
  is_owned (some store) user = store.user_id === user.user_id

  no_staff : String → User → Action (Db Table) StoreStaff
  no_staff store_id user = do
    store ← gets (find_store store_id)
    raise_if (is_owned store user) (forbidden "请先在「员工考勤」中将自己添加为员工后再打卡")
    raise (forbidden "您不是该门店员工，无法打卡")

  found_staff : String → User → Option StoreStaff → Action (Db Table) StoreStaff
  unfolding bind_user no_staff is_unbound
  found_staff store_id user none = no_staff store_id user
  found_staff store_id user (some staff) = do
    bind_user user staff
    pure (if is_unbound user staff then with_user user staff else staff)

  unfoldable pub resolve_staff : String → User → Action (Db Table) StoreStaff
  unfolding found_staff
  resolve_staff store_id user = do
    staff ← gets (λ db. find_first (is_active_staff store_id user) db.store_staff)
    found_staff store_id user staff

  module _ (fresh : String) (now : ℕ) where
    -- The record that a first punch creates.
    abbrev pub first_record : String → String → String → String → StoreAttendance
    first_record store_id staff_id today by = record {
      attendance_id = fresh;
      store_id = store_id;
      staff_id = staff_id;
      work_date = today;
      check_in_at = some now;
      check_out_at = none;
      check_in_type = some "self";
      check_out_type = none;
      check_in_by = some by;
      check_out_by = none;
      remark = none;
    }

    unfoldable pub punch_in :
        String → String → String → String → Option StoreAttendance → Action (Db Table) (Unit {0})
    unfolding set_record add_record
    punch_in store_id staff_id today by none = add_record (first_record store_id staff_id today by)
    punch_in store_id staff_id today by (some existing) = do
      raise_if (is_some existing.check_in_at) (bad_request "今日已上班打卡")
      set_record existing.attendance_id (checked_in now by)

    unfoldable pub punch_out : String → Option StoreAttendance → Action (Db Table) (Unit {0})
    unfolding set_record
    punch_out by none = raise (bad_request "请先上班打卡")
    punch_out by (some existing) = do
      raise_if (not (is_some existing.check_in_at)) (bad_request "请先上班打卡")
      raise_if (is_some existing.check_out_at) (bad_request "今日已下班打卡")
      set_record existing.attendance_id (checked_out now by)

    -- The rest of `punch`, once the staff is known.
    unfoldable pub punch_as : String → User → Punch → StoreStaff → Action (Db Table) (Unit {0})
    punch_as today user dto staff = do
      existing ← gets (find_day dto.store_id staff.staff_id today)
      if dto.type === "in"
          then punch_in dto.store_id staff.staff_id today user.user_id existing
          else punch_out user.user_id existing

    unfoldable pub punch : String → User → Punch → Action (Db Table) (Unit {0})
    punch today user dto = do staff ← resolve_staff dto.store_id user; punch_as today user dto staff

  unfoldable pub assert_owner : String → User → Action (Db Table) Store
  assert_owner store_id user = do
    store ← gets (find_store store_id)
    raise_if (not (is_owned store user)) (forbidden "仅门店所有者可操作")
    or_raise store (forbidden "仅门店所有者可操作")

  module _ (parse : String → Option ℕ) (fresh : String) where
    unfoldable pub parsed : String → Action (Db Table) (Option ℕ)
    parsed input = do at ← or_raise (parse input) (bad_request "时间格式无效"); pure (some at)

    -- `input ? parseDateTime(input) : undefined`
    unfoldable pub parse_date_time : Option String → Action (Db Table) (Option ℕ)
    unfolding parsed
    parse_date_time none = pure none
    parse_date_time (some input) = if input === "" then pure none else parsed input

    -- The record that a correction creates.
    abbrev pub corrected_record : AdjustAttendance → User → ℕ → Option ℕ → StoreAttendance
    corrected_record dto user check_in check_out = correct_out check_out user.user_id (record {
      attendance_id = fresh;
      store_id = dto.store_id;
      staff_id = dto.staff_id;
      work_date = dto.work_date;
      check_in_at = some check_in;
      check_out_at = none;
      check_in_type = some "owner";
      check_out_type = none;
      check_in_by = some user.user_id;
      check_out_by = none;
      remark = if or_text dto.remark "" === "" then none else dto.remark;
    })

    new_record : AdjustAttendance → User → Option ℕ → Option ℕ → Action (Db Table) (Unit {0})
    unfolding add_record
    new_record dto user none check_out = raise (bad_request "新建记录时请填写上班时间")
    new_record dto user (some check_in) check_out =
        add_record (corrected_record dto user check_in check_out)

    unfoldable pub correct :
        AdjustAttendance
        → User
        → Option ℕ
        → Option ℕ
        → Option StoreAttendance
        → Action (Db Table) (Unit {0})
    unfolding set_record new_record
    correct dto user check_in check_out none = new_record dto user check_in check_out
    correct dto user check_in check_out (some existing) = set_record existing.attendance_id (λ r.
        correct_out check_out user.user_id
          (correct_in check_in user.user_id (remarked dto.remark r)))

    unfoldable pub adjust : User → AdjustAttendance → Action (Db Table) (Unit {0})
    adjust user dto = do
      assert_owner dto.store_id user
      raise_if (starts_with dto.staff_id "owner-") (bad_request "请先将店主添加为员工后再补卡（旧虚拟记录已停用）")
      staff ← or_raise (← gets (find_staff dto.staff_id)) (not_found "员工不存在")
      raise_if (not (staff.store_id === dto.store_id)) (not_found "员工不存在")
      raise_if (or_text dto.check_in_at "" === "" && or_text dto.check_out_at "" === "")
          (bad_request "请至少填写上班或下班时间")
      check_in ← parse_date_time dto.check_in_at
      check_out ← parse_date_time dto.check_out_at
      raise_if (is_reversed check_in check_out) (bad_request "下班时间不能早于上班时间")
      existing ← gets (find_day dto.store_id dto.staff_id dto.work_date)
      correct dto user check_in check_out existing
