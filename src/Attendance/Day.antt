-- ===== src/Attendance/Day.antt =====
-- A whole day of `punch` (src/store/attendance/attendance.service.ts): in, and later out.
use open_api.Prelude.{
  ℕ, true, String, ◌===◌, ◌≡◌, refl, sym, ap, ◌∙◌, inl, inr, none, some, is_some, arith, ok,
  if◌then◌else◌, find-map_where_again, find_sound, Bool-cases, Option-cases, >>=_ok, eq_iff,
  eq_refl,
}
use open_api.Schema.{StoreAttendance, StoreStaff, User, Db}
use open_api.Prisma.{Prisma}
use open_api.Attendance.{
  is_day, is_staff_of, is_active_staff, is_unbound, with_user, find_day, resolve_staff, found_staff,
  bind_user, no_staff, punch_in, punch_out, punch_as, punch, add_record, set_record, first_record,
  checked_out,
}
use open_api.Attendance.Shift.{
  shift, shift_of, done, resolve_staff-find_day, add_record-find_day, set_record-find_day,
  first_record-is_day,
}

module _ (prisma : Prisma) where
  open prisma use {Table, rows, update, find_first, find_first-rows, rows-update}

  module _ (store_id : String) (user : User) (db : Db Table) where
    -- The table of the staff after the search.
    staff_after : StoreStaff → Table StoreStaff
    staff_after r =
        if is_unbound prisma user r
        then update (λ s. s.staff_id === r.staff_id) (with_user user) db.store_staff
        else db.store_staff

    resolve_staff_lem :
        (staff : StoreStaff)
        → (resolve_staff prisma store_id user db).0 ≡ ok staff
        → (r : StoreStaff) × (find_first (is_active_staff store_id user) db.store_staff ≡ some r)
          × ((resolve_staff prisma store_id user db).1.store_staff ≡ staff_after r)
          × (staff.staff_id ≡ r.staff_id)
    unfolding resolve_staff found_staff bind_user no_staff staff_after
    resolve_staff_lem staff h =
        elim (Option-cases (find_first (is_active_staff store_id user) db.store_staff)) [
          | inl missing ↦ absurd (ground arith)
          | inr (r, found) ↦ (r, found, ground arith, ground arith)
        ]

    resolved-by :
        (r : StoreStaff)
        → find_first (is_active_staff store_id user) db.store_staff ≡ some r
        → (staff : StoreStaff) × ((resolve_staff prisma store_id user db).0 ≡ ok staff)
          × (staff.staff_id ≡ r.staff_id)
    unfolding resolve_staff found_staff bind_user
    resolved-by r found =
        ((if is_unbound prisma user r then with_user user r else r), ground arith, ground arith)

    with_user-is_active_staff :
        (r : StoreStaff)
        → is_unbound prisma user r ≡ true
        → is_active_staff store_id user r ≡ true
        → is_active_staff store_id user (with_user user r) ≡ true
    unfolding is_active_staff is_staff_of is_unbound
    with_user-is_active_staff r free active = ground (arith, eq_refl user.user_id)

    find_again :
        (r : StoreStaff)
        → find_first (is_active_staff store_id user) db.store_staff ≡ some r
        → (y : StoreStaff) × (find_first (is_active_staff store_id user) (staff_after r) ≡ some y)
          × (y.staff_id ≡ r.staff_id)
    unfolding staff_after
    find_again r found = elim (Bool-cases (is_unbound prisma user r)) [
      | inr known ↦ (r, rw known found, refl)
      | inl free ↦
          let listed = rw find_first-rows at found in
          let active = find_sound (is_active_staff store_id user) (rows db.store_staff) r listed in
          let (y, again, own) =
            find-map_where_again (λ s. s.staff_id) (is_active_staff store_id user) (with_user user)
              (rows db.store_staff) r r.staff_id (λ _. refl)
              (with_user-is_active_staff r free active) (eq_refl r.staff_id) listed in
          (y, rw (free, find_first-rows, rows-update) again, (eq_iff y.staff_id r.staff_id).0 own)
    ]

  is_day-checked_out :
      (now : ℕ) (by s m d : String) (x : StoreAttendance)
      → is_day s m d (checked_out now by x) ≡ is_day s m d x
  unfolding is_day
  is_day-checked_out now by s m d x = refl

  -- What a granted first punch leaves behind.
  module _ (fresh : String) (now : ℕ) (today store_id : String) (user : User) (staff : StoreStaff)
      (db : Db Table) where
    punching_in :
        (resolve_staff prisma store_id user db).0 ≡ ok staff
        → find_day prisma store_id staff.staff_id today db ≡ none
        → punch prisma fresh now today user (record { store_id = store_id; type = "in" }) db
          ≡ add_record prisma
              (first_record prisma fresh now store_id staff.staff_id today user.user_id)
              (resolve_staff prisma store_id user db).1
    unfolding punch punch_as punch_in
    punching_in resolved missing =
        let here =
          resolve_staff-find_day prisma store_id user store_id staff.staff_id today db ∙ missing in
        >>=_ok (resolve_staff prisma store_id user)
          (punch_as prisma fresh now today user (record { store_id = store_id; type = "in" })) db
          staff resolved
        ∙ rw here refl

    -- What a granted last punch leaves behind.
    punching_out :
        (r : StoreAttendance)
        → (resolve_staff prisma store_id user db).0 ≡ ok staff
        → find_day prisma store_id staff.staff_id today db ≡ some r
        → is_some r.check_in_at ≡ true
        → r.check_out_at ≡ none
        → punch prisma fresh now today user (record { store_id = store_id; type = "out" }) db
          ≡ set_record prisma r.attendance_id
              (checked_out now user.user_id)
              (resolve_staff prisma store_id user db).1
    unfolding punch punch_as punch_out
    punching_out r resolved found started going =
        let here =
          resolve_staff-find_day prisma store_id user store_id staff.staff_id today db ∙ found in
        >>=_ok (resolve_staff prisma store_id user)
          (punch_as prisma fresh now today user (record { store_id = store_id; type = "out" })) db
          staff resolved
        ∙ rw (here, started, going) refl

  module _ (store_id : String) (user : User) (staff : StoreStaff) (db : Db Table)
      (resolved : (resolve_staff prisma store_id user db).0 ≡ ok staff) where
    resolved_later :
        (db' : Db Table)
        → db'.store_staff ≡ (resolve_staff prisma store_id user db).1.store_staff
        → (staff' : StoreStaff) × ((resolve_staff prisma store_id user db').0 ≡ ok staff')
          × (staff'.staff_id ≡ staff.staff_id)
    resolved_later db' same =
        let (r, found, table, own) = resolve_staff_lem store_id user db staff resolved in
        let (y, again, y_own) = find_again store_id user db r found in
        let (staff', run, own') =
          resolved-by store_id user db' y
            (ap (λ t. find_first (is_active_staff store_id user) t) (same ∙ table) ∙ again) in
        (staff', run, own' ∙ y_own ∙ sym own)

    -- For a user who is an active staff of a store and has no record of the day, a punch "in" and
    -- a later punch "out" are both granted, and the shift of the day is then from the one to the
    -- other.
    pub punch_in_out :
        (fresh fresh' : String) (now now' : ℕ) (today : String)
        → find_day prisma store_id staff.staff_id today db ≡ none
        → ((punch prisma fresh now today user (record { store_id = store_id; type = "in" }) db).0
            ≡ ok tt)
          × ((punch prisma fresh' now' today user
                (record { store_id = store_id; type = "out" })
                (punch prisma fresh now today user
                  (record { store_id = store_id; type = "in" })
                  db).1).0
              ≡ ok tt)
          × (shift prisma store_id staff.staff_id today
                (punch prisma fresh' now' today user
                  (record { store_id = store_id; type = "out" })
                  (punch prisma fresh now today user
                    (record { store_id = store_id; type = "in" })
                    db).1).1
              ≡ done now now')
    unfolding shift shift_of add_record set_record
    punch_in_out fresh fresh' now now' today missing =
        let mid = (resolve_staff prisma store_id user db).1 in
        let r = first_record prisma fresh now store_id staff.staff_id today user.user_id in
        let db' = (add_record prisma r mid).1 in
        let first = punching_in fresh now today store_id user staff db resolved missing in
        let there =
          resolve_staff-find_day prisma store_id user store_id staff.staff_id today db ∙ missing in
        let added =
          add_record-find_day prisma store_id staff.staff_id today mid r
            (first_record-is_day prisma fresh now store_id staff.staff_id today user.user_id)
            there in
        let (staff', again, same) = resolved_later db' refl in
        let found : find_day prisma store_id staff'.staff_id today db' ≡ some r = rw same added in
        let second =
          punching_out fresh' now' today store_id user staff' db' r again found refl refl in
        let kept =
          resolve_staff-find_day prisma store_id user store_id staff.staff_id today db' ∙ added in
        let updated =
          set_record-find_day prisma store_id staff.staff_id today
            (resolve_staff prisma store_id user db').1 (checked_out now' user.user_id) r
            (is_day-checked_out now' user.user_id) kept in
        (ap (λ o. o.0) first, rw first (ap (λ o. o.0) second), rw (first, second, updated) refl)
