-- ===== src/Staff/Hiring.antt =====
-- `create` of src/store/staff/staff.service.ts, and what it gives to
-- src/store/attendance/attendance.service.ts.
use open_api.Prelude.{
  pos, Bool, true, false, String, ◌===◌, ◌≡◌, refl, inl, inr, Option, none, some, List, [], ◌∷◌,
  ◌++◌, ok, arith, or_text, get_or, is_some, find, find-append, Bool-cases, Option-cases, eq_refl,
}
use open_api.Schema.{StoreStaff, User, Db}
use open_api.Prisma.{Prisma}
use open_api.Attendance.{is_staff_of, is_active_staff}
use open_api.Staff.{CreateStaff, is_real_mobile_phone, find_phone, user_of, staff_of, create_staff}

-- A search finds something in a list that ends with a row that passes.
find-last :
    (p : StoreStaff → Bool) (xs : List StoreStaff) (x : StoreStaff)
    → p x ≡ true
    → is_some (find p (xs ++ x ∷ [])) ≡ true
find-last p [] x h = rw h refl
find-last p (y ∷ ys) x h = ground (arith, find-last p ys x h)

module _ (trim : String → String) (prisma : Prisma) where
  open prisma use {Table, rows, find_first, find_first-rows, rows-create}

  -- What a granted creation requires and brings about.
  pub record Hired (staff_id : String) (dto : CreateStaff) (db db' : Db Table) : Type 0 where
    pub valid : is_real_mobile_phone trim (trim dto.phone) ≡ true
    pub free : find_phone trim prisma dto.store_id (trim dto.phone) db ≡ none
    pub user_id : Option String
    pub listed :
        find_phone trim prisma dto.store_id (trim dto.phone) db'
        ≡ some (staff_of trim prisma staff_id dto user_id)
    pub may_punch :
        (user : User)
        → get_or dto.status (pos 1) ≡ pos 1
        → (or_text user.phone "" === "") ≡ false
        → or_text user.phone "" ≡ trim dto.phone
        → is_some (find_first (is_active_staff dto.store_id user) db'.store_staff) ≡ true

  create_staff_lem :
      (staff_id : String) (dto : CreateStaff) (db : Db Table)
      → (create_staff trim prisma staff_id dto db).0 ≡ ok tt
      → (is_real_mobile_phone trim (trim dto.phone) ≡ true)
        × (find_phone trim prisma dto.store_id (trim dto.phone) db ≡ none)
        × (user_id : Option String) × ((create_staff trim prisma staff_id dto db).1 ≡ record db {
          store_staff = prisma.create (staff_of trim prisma staff_id dto user_id) db.store_staff;
        })
  unfolding create_staff
  create_staff_lem staff_id dto db h =
      elim (Bool-cases (is_real_mobile_phone trim (trim dto.phone))) [
        | inr wrong ↦ absurd (ground arith)
        | inl valid ↦ elim (Option-cases (find_first (λ s. s.store_id === dto.store_id) db.store)) [
          | inl missing ↦ absurd (ground arith)
          | inr (store, found) ↦
              elim (Option-cases (find_phone trim prisma dto.store_id (trim dto.phone) db)) [
                | inr (other, taken) ↦ absurd (ground arith)
                | inl free ↦
                    (valid, free, user_of trim prisma dto store db, rw (valid, found, free) refl)
              ]
        ]
      ]

  -- A granted creation has a valid mobile phone that no staff of the store had. Afterwards the new
  -- staff is the one with that phone in the store, and unless it is made inactive a user with that
  -- phone is found among the active staff of the store, as `punch` requires.
  pub create_staff-Hired :
      (staff_id : String) (dto : CreateStaff) (db : Db Table)
      → (create_staff trim prisma staff_id dto db).0 ≡ ok tt
      → Hired staff_id dto db (create_staff trim prisma staff_id dto db).1
  unfolding find_phone is_active_staff is_staff_of
  create_staff-Hired staff_id dto db h =
      let (valid, free, user_id, state) = create_staff_lem staff_id dto db h in
      let own = eq_refl dto.store_id in
      let phone = eq_refl (trim dto.phone) in
      rw state (record {
        valid = valid;
        free = free;
        user_id = user_id;
        listed =
            rw
              (
                find_first-rows,
                rows-create,
                find-append _ (rows db.store_staff) _ (rw find_first-rows at free),
                own,
                phone,
              )
              refl;
        may_punch = λ user active given same.
            rw (find_first-rows, rows-create)
              (find-last _ (rows db.store_staff) (staff_of trim prisma staff_id dto user_id)
                (rw (own, active, same) (ground arith)));
      })
