-- ===== src/Attendance/Tests.antt =====
-- Runs of the attendance service on a small database, and its theorems at them.
use open_api.Prelude.{ℕ, pos, String, ◌≡◌, refl, none, some, Option, List, [], ◌∷◌, ok}
use open_api.Schema.{Store, StoreStaff, User, Db}
use open_api.Prisma.InMemory.{in_memory, empty_db}
use open_api.Attendance.{
  Punch, is_staff_of, is_active_staff, is_unbound, is_day, is_owned, bind_user, found_staff,
  find_store, find_day, find_staff, resolve_staff, add_record, set_record, punch_in, punch_as,
  punch, assert_owner, parsed, parse_date_time, correct, adjust,
}
use open_api.Attendance.Paired.{AllOpened, punching, serve_all, serve_all-AllOpened}
use open_api.Attendance.Shift.{Stepped, shift, done, punch-Stepped}
use open_api.Attendance.Day.{punch_in_out}

abbrev li : StoreStaff
li = record {
  staff_id = "t1";
  store_id = "s1";
  user_id = none;
  name = "Li";
  phone = "13811111111";
  status = pos 1;
  can_cashier = pos 0;
}

abbrev li_user : User
li_user = record {
  user_id = "u1";
  phone = some "13811111111";
  status = pos 1;
  first_name = none;
  last_name = none;
}

abbrev sample : Db (λ R. List R)
sample = record empty_db { store_staff = li ∷ [] }

abbrev entering : Punch
entering = record { store_id = "s1"; type = "in" }

abbrev leaving : Punch
leaving = record { store_id = "s1"; type = "out" }

abbrev bound_li : StoreStaff
bound_li = record li { user_id = some "u1" }

resolve_runs : (resolve_staff in_memory "s1" li_user sample).0 ≡ ok bound_li
unfolding resolve_staff found_staff bind_user is_unbound is_active_staff is_staff_of
resolve_runs = refl

no_record : find_day in_memory "s1" "t1" "2024-05-01" sample ≡ none
unfolding find_day
no_record = refl

punch_runs : (punch in_memory "a1" 100 "2024-05-01" li_user entering sample).0 ≡ ok tt
unfolding punch punch_as punch_in add_record find_day resolve_staff found_staff bind_user is_unbound
    is_active_staff is_staff_of
punch_runs = refl

none_opened : AllOpened in_memory sample
unfolding AllOpened
none_opened = tt

serve_all-AllOpened_example : AllOpened in_memory (
    serve_all in_memory
      (λ _. none)
      (punching "a1" 100 "2024-05-01" li_user entering
        ∷ punching "a2" 900 "2024-05-01" li_user leaving
        ∷ [])
      sample)
serve_all-AllOpened_example = serve_all-AllOpened in_memory (λ _. none) _ sample none_opened

punch-Stepped_example :
    (staff : StoreStaff) × ((resolve_staff in_memory "s1" li_user sample).0 ≡ ok staff)
    × Stepped in_memory "in" 100 "s1" staff.staff_id "2024-05-01" sample
        (punch in_memory "a1" 100 "2024-05-01" li_user entering sample).1
punch-Stepped_example =
    punch-Stepped in_memory "a1" 100 "2024-05-01" li_user entering sample punch_runs none_opened tt

punch_in_out_example :
    ((punch in_memory "a1" 100 "2024-05-01" li_user entering sample).0 ≡ ok tt)
    × ((punch in_memory "a2" 900 "2024-05-01" li_user leaving
          (punch in_memory "a1" 100 "2024-05-01" li_user entering sample).1).0
        ≡ ok tt)
    × (shift in_memory "s1" "t1" "2024-05-01"
          (punch in_memory "a2" 900 "2024-05-01" li_user leaving
            (punch in_memory "a1" 100 "2024-05-01" li_user entering sample).1).1
        ≡ done 100 900)
punch_in_out_example =
    punch_in_out in_memory "s1" li_user bound_li sample resolve_runs "a1" "a2" 100 900 "2024-05-01"
      no_record

abbrev shop : Store
shop = record {
  store_id = "s1";
  user_id = "owner";
  store_name = "Tea";
  phone = "13900000000";
  status = pos 3;
  extra_member_limit = pos 0;
}

abbrev owner : User
owner = record {
  user_id = "owner";
  phone = none;
  status = pos 1;
  first_name = none;
  last_name = none;
}

abbrev parse_sample : String → Option ℕ
parse_sample s = some 50

-- A correction of the check out alone is not compared with the check in, here at 100.
early_check_out :
    shift in_memory "s1" "t1" "2024-05-01"
      (adjust in_memory parse_sample "a3" owner
        (record {
          store_id = "s1";
          staff_id = "t1";
          work_date = "2024-05-01";
          check_in_at = none;
          check_out_at = some "2024-05-01T00:00:50";
          remark = none;
        })
        (record sample {
          store = shop ∷ [];
          store_attendance =
              record {
                attendance_id = "a1";
                store_id = "s1";
                staff_id = "t1";
                work_date = "2024-05-01";
                check_in_at = some 100;
                check_out_at = none;
                check_in_type = some "self";
                check_out_type = none;
                check_in_by = some "u1";
                check_out_by = none;
                remark = none;
              }
              ∷ [];
        })).1
    ≡ done 100 50
unfolding adjust assert_owner find_store is_owned find_staff find_day is_day parse_date_time parsed
    correct set_record shift
early_check_out = refl
