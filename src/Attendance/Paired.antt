-- ===== src/Attendance/Paired.antt =====
-- What every request of src/store/attendance/attendance.service.ts keeps of the records.
use open_api.Prelude.{
  Action, ℕ, true, String, ◌===◌, ◌≡◌, refl, Option, none, some, List, [], ◌∷◌, is_some, arith, All,
  All-append, All-map_where, Keeps, raise-Keeps, keeps,
}
use open_api.Schema.{StoreAttendance, User, Db}
use open_api.Prisma.{Prisma}
use open_api.Attendance.{
  Punch, AdjustAttendance, checked_in, checked_out, correct_in, correct_out, remarked, set_record,
  add_record, resolve_staff, punch_in, punch_out, punch_as, punch, new_record, correct, adjust,
  found_staff, bind_user, no_staff, parse_date_time, parsed, assert_owner,
}

-- A record has the time of a check in.
abbrev pub IsOpened : StoreAttendance → Type 0
IsOpened r = is_some r.check_in_at ≡ true

checked_in-IsOpened :
    (now : ℕ) (by : String) (r : StoreAttendance) → IsOpened r → IsOpened (checked_in now by r)
checked_in-IsOpened now by r h = refl

checked_out-IsOpened :
    (now : ℕ) (by : String) (r : StoreAttendance) → IsOpened r → IsOpened (checked_out now by r)
checked_out-IsOpened now by r h = h

correct-IsOpened :
    (dto : AdjustAttendance) (check_in check_out : Option ℕ) (by : String) (r : StoreAttendance)
    → IsOpened r
    → IsOpened (correct_out check_out by (correct_in check_in by (remarked dto.remark r)))
correct-IsOpened dto check_in check_out by r h = ground arith

module _ (prisma : Prisma) where
  open prisma use {Table, rows, rows-update, rows-create}

  unfoldable pub AllOpened : Db Table → Type 0
  AllOpened db = All IsOpened (rows db.store_attendance)

  set_record-AllOpened :
      (id : String) (f : StoreAttendance → StoreAttendance)
      → ((r : StoreAttendance) → IsOpened r → IsOpened (f r))
      → Keeps AllOpened (set_record prisma id f)
  unfolding set_record AllOpened Keeps
  set_record-AllOpened id f keep db h = rw rows-update (
      All-map_where IsOpened (λ r. r.attendance_id === id) f (rows db.store_attendance)
        (λ x _. keep x) h)

  add_record-AllOpened : (r : StoreAttendance) → IsOpened r → Keeps AllOpened (add_record prisma r)
  unfolding add_record AllOpened Keeps
  add_record-AllOpened r new db h =
      rw rows-create (All-append IsOpened (rows db.store_attendance) (r ∷ []) h (new, tt))

  pub resolve_staff-attendance :
      (store_id : String) (user : User) (db : Db Table)
      → (resolve_staff prisma store_id user db).1.store_attendance ≡ db.store_attendance
  unfolding resolve_staff found_staff bind_user no_staff
  resolve_staff-attendance store_id user db = ground arith

  resolve_staff-AllOpened :
      (store_id : String) (user : User) → Keeps AllOpened (resolve_staff prisma store_id user)
  unfolding AllOpened Keeps
  resolve_staff-AllOpened store_id user db h = rw (resolve_staff-attendance store_id user db) h

  module _ (fresh : String) (now : ℕ) where
    punch_in-AllOpened :
        (store_id staff_id today by : String) (existing : Option StoreAttendance)
        → Keeps AllOpened (punch_in prisma fresh now store_id staff_id today by existing)
    unfolding punch_in
    punch_in-AllOpened store_id staff_id today by none = add_record-AllOpened _ refl
    punch_in-AllOpened store_id staff_id today by (some r) =
        search (keeps, set_record-AllOpened, checked_in-IsOpened)

    punch_out-AllOpened :
        (by : String) (existing : Option StoreAttendance)
        → Keeps AllOpened (punch_out prisma fresh now by existing)
    unfolding punch_out
    punch_out-AllOpened by none = raise-Keeps (Unit {0}) AllOpened _
    punch_out-AllOpened by (some r) = search (keeps, set_record-AllOpened, checked_out-IsOpened)

    punch-AllOpened :
        (today : String) (user : User) (dto : Punch)
        → Keeps AllOpened (punch prisma fresh now today user dto)
    unfolding punch punch_as
    punch-AllOpened today user dto =
        search (keeps, resolve_staff-AllOpened, punch_in-AllOpened, punch_out-AllOpened)

  module _ (parse : String → Option ℕ) (fresh : String) where
    correct-AllOpened :
        (dto : AdjustAttendance) (user : User) (check_in check_out : Option ℕ)
        (existing : Option StoreAttendance)
        → Keeps AllOpened (correct prisma parse fresh dto user check_in check_out existing)
    unfolding correct new_record
    correct-AllOpened dto user none check_out none = raise-Keeps (Unit {0}) AllOpened _
    correct-AllOpened dto user (some at) none none = add_record-AllOpened _ refl
    correct-AllOpened dto user (some at) (some left) none = add_record-AllOpened _ refl
    correct-AllOpened dto user check_in check_out (some r) =
        set_record-AllOpened r.attendance_id _
          (correct-IsOpened dto check_in check_out user.user_id)

    parse-AllOpened :
        (input : Option String) → Keeps AllOpened (parse_date_time prisma parse fresh input)
    unfolding parse_date_time parsed Keeps
    parse-AllOpened input db h =
        let same : (parse_date_time prisma parse fresh input db).1 ≡ db = ground arith in rw same h

    owner-AllOpened :
        (store_id : String) (user : User) → Keeps AllOpened (assert_owner prisma store_id user)
    unfolding assert_owner Keeps
    owner-AllOpened store_id user db h =
        let same : (assert_owner prisma store_id user db).1 ≡ db = ground arith in rw same h

    adjust-AllOpened :
        (user : User) (dto : AdjustAttendance)
        → Keeps AllOpened (adjust prisma parse fresh user dto)
    unfolding adjust
    adjust-AllOpened user dto =
        search (keeps, owner-AllOpened, parse-AllOpened, correct-AllOpened) depth 14

  module _ (parse : String → Option ℕ) where
    -- A request, with the key of a new record and the time and day at which it comes.
    pub data Request : Type 0 where
      punching : String → ℕ → String → User → Punch → Request
      adjusting : String → User → AdjustAttendance → Request

    pub serve : Request → Action (Db Table) (Unit {0})
    serve (punching fresh now today user dto) = punch prisma fresh now today user dto
    serve (adjusting fresh user dto) = adjust prisma parse fresh user dto

    -- The database after a sequence of requests, granted or not.
    pub serve_all : List Request → Db Table → Db Table
    unfolding serve
    serve_all [] db = db
    serve_all (q ∷ qs) db = serve_all qs (serve q db).1

    -- Whatever requests come, granted or not, every record has the time of a check in afterwards
    -- where every one had it before.
    pub serve_all-AllOpened :
        (requests : List Request) (db : Db Table) → AllOpened db → AllOpened (serve_all requests db)
    unfolding serve_all serve Keeps
    serve_all-AllOpened [] db h = h
    serve_all-AllOpened (punching fresh now today user dto ∷ qs) db h =
        serve_all-AllOpened qs _ (punch-AllOpened fresh now today user dto db h)
    serve_all-AllOpened (adjusting fresh user dto ∷ qs) db h =
        serve_all-AllOpened qs _ (adjust-AllOpened parse fresh user dto db h)
