-- ===== src/Application/Tests.antt =====
-- A store that is created, changed by its owner and judged again.
use open_api.Prelude.{
  pos, ◌≡◌, refl, map, String, ◌==ℤ◌, false, none, some, List, [], ◌∷◌, err, unique_violation,
}
use Prim.Native.String.{◌++◌ as str_append}
use open_api.Schema.{Store, StoreResource, User, Db}
use open_api.Prisma.InMemory.{in_memory, empty_db}
use open_api.Prisma.Sorting.{sort_by}
use open_api.Resource.{free_quota}
use open_api.Platform.{Runtime, needs_code, assert_store_create_allowed}
use open_api.Application.{
  CreateStoreInput, store_approved, store_pending, store_of, find_store, create_store, add_store,
  add_resource, find_in_status, last_history, adapter,
}
use open_api.Application.Approved.{Request, apply, judge, serve, serve_all, approved_unreachable}

abbrev plain : Runtime
plain = record { trim = λ s. s; to_upper = λ s. s }

abbrev li : User
li = record {
  user_id = "u1";
  status = pos 1;
  phone = some "13800000000";
  first_name = some "Li";
  last_name = none;
}

abbrev form : CreateStoreInput
form = record { store_id = none; activation_code = none; store_name = "Tea"; phone = "13800000000" }

abbrev key : String → String
key prefix = str_append prefix "1"

abbrev opened : Db (λ R. List R)
opened = serve_all plain in_memory (apply 1 key li form ∷ []) empty_db

-- The first store of a user is approved at once, with its history and its room.
opened_run : opened ≡ record empty_db {
  store = store_of "store-1" li form ∷ [];
  store_history = opened.store_history;
  store_resource = record { store_id = "store-1"; total_quota = free_quota } ∷ [];
  store_resource_order = opened.store_resource_order;
}
unfolding serve_all serve create_store assert_store_create_allowed needs_code find_store add_store
    add_resource
opened_run = refl

-- The same store after its owner has changed the application.
abbrev changed : Store
changed = record (store_of "store-1" li form) { status = store_pending }

abbrev room : StoreResource
room = record { store_id = "store-1"; total_quota = free_quota }

abbrev pending : Db (λ R. List R)
pending = record empty_db { store = changed ∷ []; store_resource = room ∷ [] }

-- The changed store passes through preview and review, and its approval fails.
abbrev judged : List Request
judged =
    judge 3 "RO-2" "store-1" (pos 1) li
    ∷ judge 4 "RO-3" "store-1" (pos 2) li
    ∷ judge 5 "RO-4" "store-1" (pos 3) li
    ∷ []

judged_run : map (λ s. s.status) (serve_all plain in_memory judged pending).store ≡ pos 2 ∷ []
unfolding serve_all serve adapter find_store find_in_status last_history sort_by add_resource
judged_run = refl

approve_run :
    (adapter in_memory 5 "RO-4" "store-1"
      (pos 3)
      li
      (record pending { store = record changed { status = pos 2 } ∷ [] })).0
    ≡ err unique_violation
unfolding adapter find_in_status add_resource
approve_run = refl

pending_store : find_store in_memory "store-1" pending ≡ some changed
unfolding find_store
pending_store = refl

approved_unreachable_example :
    (t : Store) × (find_store in_memory "store-1" (serve_all plain in_memory judged pending)
      ≡ some t)
    × ((t.status ==ℤ store_approved) ≡ false)
approved_unreachable_example =
    approved_unreachable plain in_memory "store-1" pending changed room pending_store refl refl
      judged
