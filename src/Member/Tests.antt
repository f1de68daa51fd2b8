-- ===== src/Member/Tests.antt =====
-- Runs of the member service on a small database, and its theorems at them.
use open_api.Prelude.{ℤ, pos, ◌-ℤ◌, String, ◌≡◌, refl, true, none, some, List, [], ◌∷◌, ok}
use open_api.Schema.{Store, StoreMember, User, Db}
use open_api.Prisma.InMemory.{in_memory, empty_db}
use open_api.Member.{CreateRecharge, find_unique, find_one, recharge, recharge_row, refund_balance}
use open_api.Member.Account.{Drained, refund_balance-Drained}

abbrev wang : StoreMember
wang = record {
  id = 1;
  member_id = "m1";
  store_id = "s1";
  name = "Wang";
  phone = "13822222222";
  gender = pos 0;
  avatar = none;
  birthday = none;
  balance = pos 600;
  points = pos 20;
  status = pos 1;
}

abbrev shop : Store
shop = record {
  store_id = "s1";
  user_id = "owner";
  store_name = "Tea";
  phone = "13900000000";
  status = pos 3;
  extra_member_limit = pos 0;
}

abbrev owner : User
owner = record {
  user_id = "owner";
  phone = none;
  status = pos 1;
  first_name = none;
  last_name = none;
}

abbrev sample : Db (λ R. List R)
sample = record empty_db { store = shop ∷ []; store_member = wang ∷ [] }

abbrev top_up : CreateRecharge
top_up = record {
  member_id = "m1";
  store_id = "s1";
  amount = pos 1000;
  received_amount = pos 1200;
  cashier_name = none;
  remark = none;
}

abbrev in_cents : ℤ → String
in_cents n = "n"

recharge_runs : (recharge in_memory "r1" top_up sample).0 ≡ ok (recharge_row in_memory "r1" top_up)
unfolding recharge find_one find_unique
recharge_runs = refl

refund_runs :
    (refund_balance in_memory in_cents "r2" "m1" owner (some (pos 200)) true sample).0
    ≡ ok (record {
      member_id = "m1";
      refund_amount = pos 200;
      balance = pos 400;
      points = pos 0;
      clear_points = true;
      record_id = "r2";
    })
unfolding refund_balance find_unique ◌-ℤ◌
refund_runs = refl

refund_balance-Drained_example :
    Drained in_memory in_cents "m1" owner
      (some (pos 200))
      true
      (record {
        member_id = "m1";
        refund_amount = pos 200;
        balance = pos 400;
        points = pos 0;
        clear_points = true;
        record_id = "r2";
      })
      sample
      (refund_balance in_memory in_cents "r2" "m1" owner (some (pos 200)) true sample).1
refund_balance-Drained_example =
    refund_balance-Drained in_memory in_cents "r2" "m1" owner (some (pos 200)) true sample _
      refund_runs
