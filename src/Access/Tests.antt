-- ===== src/Access/Tests.antt =====
-- The resources of a user on a small database.
use open_api.Prelude.{
  ℕ, ℤ, pos, ◌≡◌, refl, none, some, String, ◌===◌, ◌==ℤ◌, ◌&&◌, List, [], ◌∷◌, any, ok, err,
  bad_request, unique_violation, map,
}
use open_api.Schema.{Auth, Role, UserRole, AuthRole, Db}
use open_api.Prisma.InMemory.{in_memory, empty_db}
use open_api.Access.{
  active, resource_of, query_rows, create_auth, clashes, find_role, update_role, create_auth_role,
  frozen_auth_role, reactive_auth_role, get_resources_by_user_id, role_ids_of, resources_of_roles,
}
use open_api.Access.Granted.{is_granted, get_resources_by_user_id-granted}
use open_api.Access.Frozen.{frozen_auth_role-undone}

abbrev page : String → ℤ → Auth
page id status = record {
  auth_id = id;
  pid = "0";
  side = pos 2;
  path = id;
  method = none;
  status = status;
}

abbrev clerk : Role
clerk = record { role_id = "r1"; role_name = "clerk"; description = none }

abbrev has_clerk : UserRole
has_clerk = record { id = 1; role_id = "r1"; user_id = "u1"; status = pos 1 }

abbrev gives : ℕ → String → AuthRole
gives id auth_id = record { id = id; auth_id = auth_id; role_id = "r1"; status = pos 1 }

abbrev sample : Db (λ R. List R)
sample = record empty_db {
  auth = page "shop" (pos 1) ∷ page "till" (pos 1) ∷ page "old" (pos 0) ∷ [];
  role = clerk ∷ [];
  user_role = has_clerk ∷ [];
  auth_role = gives 1 "shop" ∷ gives 2 "old" ∷ [];
}

-- The page that no relation gives and the inactive one are not among the user's resources.
resources_run :
    map (λ r. r.auth_id) (get_resources_by_user_id in_memory "u1" sample).resources ≡ "shop" ∷ []
unfolding get_resources_by_user_id role_ids_of resources_of_roles query_rows
resources_run = refl

grant_run :
    map
      (λ r. r.auth_id)
      (get_resources_by_user_id in_memory "u1"
        (create_auth_role in_memory
          (record { auth_id = "till"; role_id = "r1" })
          sample).1).resources
    ≡ "shop" ∷ "till" ∷ []
unfolding get_resources_by_user_id role_ids_of resources_of_roles query_rows create_auth_role
grant_run = refl

-- A role cannot keep its name in an update.
update_role_run :
    (update_role in_memory "r1"
      (record { role_name = "clerk"; description = some "till" })
      sample).0
    ≡ err (bad_request "The role has been existed")
unfolding update_role find_role
update_role_run = refl

-- A resource that differs from another in the method only passes the check of `createAuth`, and
-- breaks the unique key of the table.
create_auth_run :
    (create_auth in_memory "new"
      (record { pid = "0"; side = pos 2; path = "shop"; method = some "GET" })
      sample).0
    ≡ err unique_violation
unfolding create_auth clashes
create_auth_run = refl

get_resources_by_user_id-granted_example :
    any (λ r. r.path === "shop") (get_resources_by_user_id in_memory "u1" sample).resources
    ≡ any
        (λ a.
          a.status ==ℤ active
          && ((resource_of a).path === "shop" && is_granted in_memory "u1" sample a.auth_id))
        sample.auth
get_resources_by_user_id-granted_example =
    get_resources_by_user_id-granted in_memory "u1" sample (λ r. r.path === "shop")

frozen_auth_role-undone_example :
    ((frozen_auth_role in_memory 1 sample).0 ≡ ok tt)
    × ((user_id : String)
        → get_resources_by_user_id in_memory user_id (frozen_auth_role in_memory 1 sample).1
          ≡ get_resources_by_user_id in_memory user_id
              (record sample { auth_role = gives 2 "old" ∷ [] }))
    × ((reactive_auth_role in_memory 1 (frozen_auth_role in_memory 1 sample).1).0 ≡ ok tt)
    × ((reactive_auth_role in_memory 1 (frozen_auth_role in_memory 1 sample).1).1.auth_role
        ≡ sample.auth_role)
frozen_auth_role-undone_example =
    frozen_auth_role-undone in_memory 1 (gives 1 "shop") sample refl refl
