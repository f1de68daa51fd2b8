-- ===== src/Attendance/Shift.antt =====
-- A staff's day as a shift, and `punch` (src/store/attendance/attendance.service.ts) as its steps.
use open_api.Prelude.{
  >>=_ok, >>=_returned, ℕ, true, false, ◌&&◌, String, ◌===◌, ◌≡◌, refl, ap, ◌∙◌, ◌≢◌, inl, inr,
  Option, none, some, [], ◌∷◌, arith, ok, UniqueBy, All-find, find, find-map_where_hit,
  find-map_where_apart, only-key, find-append, find-append_miss, Bool-cases, Option-cases, eq_iff,
  eq_refl,
}
use open_api.Schema.{StoreAttendance, StoreStaff, User, Db}
use open_api.Prisma.{Prisma}
use open_api.Attendance.{
  Punch, is_day, checked_out, first_record, find_day, set_record, add_record, resolve_staff,
  punch_in, punch_out, punch_as, punch,
}
use open_api.Attendance.Paired.{IsOpened, AllOpened, resolve_staff-attendance}

-- Before the check in, between it and the check out, and after that, with the times.
pub data Shift : Type 0 where
  off : Shift
  working : ℕ → Shift
  done : ℕ → ℕ → Shift

abbrev of_times : Option ℕ → Option ℕ → Shift
of_times none _ = off
of_times (some a) none = working a
of_times (some a) (some b) = done a b

unfoldable pub shift_of : Option StoreAttendance → Shift
shift_of none = off
shift_of (some r) = of_times r.check_in_at r.check_out_at

-- The steps of a shift: the type of the punch and its time.
pub data Punched (type : String) (now : ℕ) : Shift → Shift → Type 0 where
  starts : type ≡ "in" → Punched type now off (working now)
  ends : (from : ℕ) → type ≢ "in" → Punched type now (working from) (done from now)

module _ (prisma : Prisma) where
  open prisma use {Table, rows, find_first, find_first-rows, rows-update, rows-create}

  -- The shift of a staff on a day.
  unfoldable pub shift : String → String → String → Db Table → Shift
  unfolding shift_of
  shift store_id staff_id day db = shift_of (find_day prisma store_id staff_id day db)

  -- All other days and staff have the records that they had.
  pub OthersKept : String → String → String → Db Table → Db Table → Type 0
  OthersKept store_id staff_id day db db' =
      (s m d : String)
      → (s === store_id && (m === staff_id && d === day)) ≡ false
      → find_day prisma s m d db' ≡ find_day prisma s m d db

  is_day-apart :
      (s m d store_id staff_id day : String) (x : StoreAttendance)
      → (s === store_id && (m === staff_id && d === day)) ≡ false
      → is_day store_id staff_id day x ≡ true
      → is_day s m d x ≡ false
  unfolding is_day
  is_day-apart s m d store_id staff_id day x ne h = ground (
    arith,
    eq_iff s store_id,
    eq_iff m staff_id,
    eq_iff d day,
    eq_iff x.store_id store_id,
    eq_iff x.staff_id staff_id,
    eq_iff x.work_date day,
    eq_iff x.store_id s,
    eq_iff x.staff_id m,
    eq_iff x.work_date d,
  )

  module _ (store_id staff_id day : String) (db : Db Table) where
    -- What an update of the day's record does.
    module _ (f : StoreAttendance → StoreAttendance) (r : StoreAttendance)
        (keep : (s m d : String) (x : StoreAttendance) → is_day s m d (f x) ≡ is_day s m d x)
        (found : find_day prisma store_id staff_id day db ≡ some r) where
      listed : find (is_day store_id staff_id day) (rows db.store_attendance) ≡ some r
      unfolding find_day
      listed = rw find_first-rows at found

      pub set_record-find_day :
          find_day prisma store_id staff_id day (set_record prisma r.attendance_id f db).1
          ≡ some (f r)
      unfolding find_day set_record
      set_record-find_day =
          rw (find_first-rows, rows-update)
            (find-map_where_hit (is_day store_id staff_id day)
              (λ x. x.attendance_id === r.attendance_id) f (rows db.store_attendance) r
              (keep store_id staff_id day) ((eq_iff r.attendance_id r.attendance_id).1 refl) listed)

      set_record-OthersKept :
          UniqueBy (λ x. x.attendance_id) (rows db.store_attendance)
          → OthersKept store_id staff_id day db (set_record prisma r.attendance_id f db).1
      unfolding find_day set_record OthersKept
      set_record-OthersKept u s m d ne =
          rw (find_first-rows, find_first-rows, rows-update)
            (find-map_where_apart (is_day s m d) (λ x. x.attendance_id === r.attendance_id) f
              (rows db.store_attendance) (keep s m d)
              (only-key (λ x. x.attendance_id) (is_day store_id staff_id day) (is_day s m d)
                (rows db.store_attendance) r (λ x. is_day-apart s m d store_id staff_id day x ne) u
                listed))

    module _ (r : StoreAttendance) (own : is_day store_id staff_id day r ≡ true)
        (missing : find_day prisma store_id staff_id day db ≡ none) where
      pub add_record-find_day :
          find_day prisma store_id staff_id day (add_record prisma r db).1 ≡ some r
      unfolding find_day add_record
      add_record-find_day = rw (
        find_first-rows,
        rows-create,
        find-append (is_day store_id staff_id day) (rows db.store_attendance) (r ∷ [])
            (rw find_first-rows at missing),
        own,
      )

      add_record-OthersKept : OthersKept store_id staff_id day db (add_record prisma r db).1
      unfolding find_day add_record OthersKept
      add_record-OthersKept s m d ne =
          rw (find_first-rows, find_first-rows, rows-create)
            (find-append_miss (is_day s m d) (rows db.store_attendance) r
              (is_day-apart s m d store_id staff_id day r ne own))

  pub first_record-is_day :
      (fresh : String) (now : ℕ) (store_id staff_id day by : String)
      → is_day store_id staff_id day (first_record prisma fresh now store_id staff_id day by) ≡ true
  unfolding is_day
  first_record-is_day fresh now store_id staff_id day by =
      ground (arith, eq_refl store_id, eq_refl staff_id, eq_refl day)

  -- The day of a staff takes one step, and no other day changes.
  pub record Stepped (type : String) (now : ℕ) (store_id staff_id day : String) (db db' : Db Table)
      : Type 0 where
    pub step : Punched type now (shift store_id staff_id day db) (shift store_id staff_id day db')
    pub others : OthersKept store_id staff_id day db db'

  module _ (fresh : String) (now : ℕ) (store_id staff_id day by : String) (db : Db Table)
      (opened : AllOpened prisma db)
      (unique : UniqueBy (λ r. r.attendance_id) (rows db.store_attendance)) where
    day-IsOpened :
        (r : StoreAttendance) → find_day prisma store_id staff_id day db ≡ some r → IsOpened r
    unfolding find_day AllOpened
    day-IsOpened r e =
        All-find IsOpened (is_day store_id staff_id day) (rows db.store_attendance) r opened
          (rw find_first-rows at e)

    punch_in-Stepped :
        (existing : Option StoreAttendance)
        → find_day prisma store_id staff_id day db ≡ existing
        → (type : String) → type ≡ "in"
        → (punch_in prisma fresh now store_id staff_id day by existing db).0 ≡ ok tt
        → Stepped type now store_id staff_id day db
            (punch_in prisma fresh now store_id staff_id day by existing db).1
    unfolding punch_in shift shift_of
    punch_in-Stepped none missing type same h =
        let own : is_day store_id staff_id day
              (first_record prisma fresh now store_id staff_id day by)
            ≡ true =
          first_record-is_day fresh now store_id staff_id day by in
        let added = add_record-find_day store_id staff_id day db _ own missing in
        record {
          step = rw (missing, added) (starts same);
          others = add_record-OthersKept store_id staff_id day db _ own missing;
        }
    punch_in-Stepped (some r) found type same h =
        absurd (let checked = day-IsOpened r found in ground arith)

    checking_out :
        (r : StoreAttendance)
        → find_day prisma store_id staff_id day db ≡ some r
        → (type : String) → type ≢ "in"
        → (from : ℕ) → r.check_in_at ≡ some from
        → r.check_out_at ≡ none
        → Stepped type now store_id staff_id day db
            (set_record prisma r.attendance_id (checked_out now by) db).1
    unfolding shift shift_of is_day
    checking_out r found type out from start no_end =
        let updated =
          set_record-find_day store_id staff_id day db (checked_out now by) r (λ s m d x. refl)
            found in
        record {
          step = rw (found, updated, start, no_end) (ends from out);
          others =
              set_record-OthersKept store_id staff_id day db (checked_out now by) r
                (λ s m d x. refl) found unique;
        }

    punch_out-Stepped :
        (existing : Option StoreAttendance)
        → find_day prisma store_id staff_id day db ≡ existing
        → (type : String) → type ≢ "in"
        → (punch_out prisma fresh now by existing db).0 ≡ ok tt
        → Stepped type now store_id staff_id day db (punch_out prisma fresh now by existing db).1
    unfolding punch_out shift shift_of
    punch_out-Stepped none missing type out h = absurd (ground arith)
    punch_out-Stepped (some r) found type out h = elim (Option-cases r.check_in_at) [
      | inl no_start ↦ absurd (let checked = day-IsOpened r found in ground arith)
      | inr (from, start) ↦ elim (Option-cases r.check_out_at) [
        | inr (till, end) ↦ absurd (ground arith)
        | inl no_end ↦
            let state : (punch_out prisma fresh now by (some r) db).1
                ≡ (set_record prisma r.attendance_id (checked_out now by) db).1 =
              ground arith in
            rw state (checking_out r found type out from start no_end)
      ]
    ]

  pub resolve_staff-find_day :
      (store_id : String) (user : User) (s m d : String) (db : Db Table)
      → find_day prisma s m d (resolve_staff prisma store_id user db).1 ≡ find_day prisma s m d db
  unfolding find_day
  resolve_staff-find_day store_id user s m d db =
      ap (λ t. find_first (is_day s m d) t) (resolve_staff-attendance prisma store_id user db)

  Stepped-from :
      (type : String) (now : ℕ) (store_id staff_id day : String) (db db1 db' : Db Table)
      → ((s m d : String) → find_day prisma s m d db1 ≡ find_day prisma s m d db)
      → Stepped type now store_id staff_id day db1 db'
      → Stepped type now store_id staff_id day db db'
  unfolding shift OthersKept
  Stepped-from type now store_id staff_id day db db1 db' same k = record {
    step = rw (same store_id staff_id day) at k.step;
    others = λ s m d ne. k.others s m d ne ∙ same s m d;
  }

  module _ (fresh : String) (now : ℕ) (today : String) (user : User) (dto : Punch) where
    punch_as-Stepped :
        (staff : StoreStaff) (db : Db Table)
        → (punch_as prisma fresh now today user dto staff db).0 ≡ ok tt
        → AllOpened prisma db
        → UniqueBy (λ r. r.attendance_id) (rows db.store_attendance)
        → Stepped dto.type now dto.store_id staff.staff_id today db
            (punch_as prisma fresh now today user dto staff db).1
    unfolding punch_as
    punch_as-Stepped staff db h opened unique = elim (Bool-cases (dto.type === "in")) [
      | inl entering ↦ rw entering (
          punch_in-Stepped fresh now dto.store_id staff.staff_id today user.user_id db opened unique
            _ refl dto.type ((eq_iff dto.type "in").0 entering) (rw entering at h))
      | inr leaving ↦ rw leaving (
          punch_out-Stepped fresh now dto.store_id staff.staff_id today user.user_id db opened
            unique _ refl dto.type (λ same. ground (arith, eq_iff dto.type "in")) (rw leaving at h))
    ]

    -- Where every record has a check in and no two records have the same key, a granted punch is
    -- that of a staff of the store, and it is a step of that staff's shift of the day: a punch "in"
    -- begins the shift at its time, and any other one ends a shift that has begun. All other days
    -- and staff keep their records.
    pub punch-Stepped :
        (db : Db Table)
        → (punch prisma fresh now today user dto db).0 ≡ ok tt
        → AllOpened prisma db
        → UniqueBy (λ r. r.attendance_id) (rows db.store_attendance)
        → (staff : StoreStaff) × ((resolve_staff prisma dto.store_id user db).0 ≡ ok staff)
          × Stepped dto.type now dto.store_id staff.staff_id today db
              (punch prisma fresh now today user dto db).1
    unfolding punch AllOpened
    punch-Stepped db h opened unique =
        let (staff, resolved, run) =
          >>=_returned (resolve_staff prisma dto.store_id user)
            (punch_as prisma fresh now today user dto) db tt h in
        let same = resolve_staff-attendance prisma dto.store_id user db in
        let state =
          >>=_ok (resolve_staff prisma dto.store_id user) (punch_as prisma fresh now today user dto)
            db staff resolved in
        (
          staff,
          resolved,
          Stepped-from dto.type now dto.store_id staff.staff_id today db
              (resolve_staff prisma dto.store_id user db).1 _
              (λ s m d. resolve_staff-find_day dto.store_id user s m d db)
              (rw state (punch_as-Stepped staff _ run (rw same opened) (rw same unique))),
        )
