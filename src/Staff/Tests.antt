-- ===== src/Staff/Tests.antt =====
-- A run of `create` on a small database, and its theorem at it.
use open_api.Prelude.{pos, String, ◌≡◌, refl, none, List, [], ◌∷◌, ok}
use open_api.Schema.{Store, Db}
use open_api.Prisma.InMemory.{in_memory, empty_db}
use open_api.Staff.{CreateStaff, is_temp_phone, is_real_mobile_phone, find_phone, create_staff}
use open_api.Staff.Hiring.{Hired, create_staff-Hired}

abbrev same : String → String
same s = s

abbrev shop : Store
shop = record {
  store_id = "s1";
  user_id = "owner";
  store_name = "Tea";
  phone = "13900000000";
  status = pos 3;
  extra_member_limit = pos 0;
}

abbrev sample : Db (λ R. List R)
sample = record empty_db { store = shop ∷ [] }

abbrev applicant : CreateStaff
applicant = record {
  store_id = "s1";
  name = "Li";
  phone = "13811111111";
  user_id = none;
  status = none;
  can_cashier = none;
}

hire_runs : (create_staff same in_memory "t1" applicant sample).0 ≡ ok tt
unfolding create_staff is_real_mobile_phone is_temp_phone find_phone
hire_runs = refl

create_staff-Hired_example :
    Hired same in_memory "t1" applicant sample (create_staff same in_memory "t1" applicant sample).1
create_staff-Hired_example = create_staff-Hired same in_memory "t1" applicant sample hire_runs
