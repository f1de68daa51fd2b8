-- ===== src/Resource/Tests.antt =====
-- A run of the approval on a small database, and its theorem at it.
use open_api.Prelude.{pos, ◌≡◌, refl, List, [], ◌∷◌, ok, err, bad_request}
use open_api.Schema.{Db}
use open_api.Prisma.InMemory.{in_memory, empty_db}
use open_api.Resource.{find_resource_order, get_store_resource, raise_quota, approve_order}
use open_api.Resource.Approval.{Approved, approve_order-Approved}

abbrev sample : Db (λ R. List R)
sample = record empty_db {
  store_resource = record { store_id = "s1"; total_quota = pos 10485760 } ∷ [];
  store_resource_order =
      record {
        id = 1;
        order_id = "RO-1";
        store_id = "s1";
        type = pos 2;
        quota_amount = pos 1048576;
        price = pos 500;
        status = pos 0;
        create_date = 9;
      }
      ∷ [];
}

approve_runs : (approve_order in_memory 1 sample).0 ≡ ok tt
unfolding approve_order find_resource_order get_store_resource raise_quota
approve_runs = refl

approve_order-Approved_example : Approved in_memory 1 sample (approve_order in_memory 1 sample).1
approve_order-Approved_example = approve_order-Approved in_memory 1 sample approve_runs

-- A second approval is refused.
approved_twice :
    (approve_order in_memory 1 (approve_order in_memory 1 sample).1).0
    ≡ err (bad_request "该申请已通过，请勿重复操作")
unfolding approve_order find_resource_order get_store_resource raise_quota
approved_twice = refl
