-- ===== src/Access.antt =====
-- src/auth/role-management/role-management.service.ts: resources, roles, and the relations that give
-- a user's roles their resources. The identifiers of new rows are arguments.
mod Forms
pub mod Granted
pub mod Frozen
mod Tests
pub use Forms.*
use open_api.Prelude.{
  ℕ, ℤ, pos, ◌==ℤ◌, Bool, true, false, not, ◌==◌, ◌&&◌, ◌||◌, String, ◌===◌, is_some, Option, none,
  some, if◌then◌else◌, List, [], ◌∷◌, ◌++◌, map, any, select, Action, not_found, bad_request,
  record_missing, unique_violation, pure, raise_if, gets, or_raise, modify, ◌>>=◌, ◌>>◌,
}
use open_api.Schema.{Auth, Role, UserAuth, UserRole, AuthRole, Db}
use open_api.Prisma.{Prisma}

-- The members of EAUTH_STATUS, EAUTH_ROLE_STATUS, EUSER_ROLE_STATUS and EUSER_AUTH_STATUS.
abbrev pub inactive : ℤ
inactive = pos 0

abbrev pub active : ℤ
active = pos 1

-- `where: { method }`: a method that is not given is no condition.
abbrev pub same_method : Option String → Option String → Bool
same_method none method = true
same_method (some wanted) none = false
same_method (some wanted) (some method) = method === wanted

-- A field that the call does not have stays as it is.
abbrev pub kept_text : Option String → Option String → Option String
kept_text none old = old
kept_text (some new) old = some new

abbrev pub resource_of : Auth → Resource
resource_of a = record {
  auth_id = a.auth_id;
  side = a.side;
  path = a.path;
  method = a.method;
  status = a.status;
}

-- The rows of one resource in the join: one for each of its relations.
abbrev pub rows_of_auth : Auth → List AuthRole → List Resource
rows_of_auth a bs = map (λ b. resource_of a) (select (λ b. a.auth_id === b.auth_id) bs)

-- `FROM auth AS A JOIN auth_role AS B ON A.auth_id = B.auth_id`
pub query_rows : List Auth → List AuthRole → List Resource
query_rows [] bs = []
query_rows (a ∷ xs) bs = rows_of_auth a bs ++ query_rows xs bs

-- The resource of another identifier that has the side and the path.
abbrev pub is_other_auth : String → Option Auth → Bool
is_other_auth auth_id none = false
is_other_auth auth_id (some a) = not (a.auth_id === auth_id)

abbrev pub is_other_user_role : ℕ → Option UserRole → Bool
is_other_user_role id none = false
is_other_user_role id (some c) = not (c.id == id)

abbrev pub is_empty : List String → Bool
is_empty [] = true
is_empty (id ∷ ids) = false

module _ (prisma : Prisma) where
  open prisma use {Table, find_first, find_many, update, create, next_id}

  unfoldable pub find_auth : String → Db Table → Option Auth
  find_auth auth_id db = find_first (λ a. a.auth_id === auth_id) db.auth

  unfoldable pub find_and_fail_auth_by_auth_id : String → Action (Db Table) Auth
  find_and_fail_auth_by_auth_id auth_id = do
    or_raise (← gets (find_auth auth_id)) (bad_request "The auth_id <> not exist!")

  -- The key of a resource, its side with its path, is unique; so is its identifier.
  unfoldable pub clashes : Auth → Db Table → Bool
  clashes new db = is_some (
      find_first (λ a. a.auth_id === new.auth_id || (a.side ==ℤ new.side && a.path === new.path))
        db.auth)

  unfoldable pub create_auth : String → CreateAuth → Action (Db Table) (Unit {0})
  create_auth auth_id dto = do
    existed ← gets (λ db. is_some (
        find_first
          (λ a. a.side ==ℤ dto.side && (a.path === dto.path && same_method dto.method a.method))
          db.auth))
    raise_if existed (bad_request "The <> existed on")
    let new : Auth = record {
      auth_id = auth_id;
      pid = dto.pid;
      side = dto.side;
      path = dto.path;
      method = dto.method;
      status = active;
    }
    taken ← gets (clashes new)
    raise_if taken unique_violation
    modify (λ db. record db { auth = create new db.auth })

  unfoldable pub update_auth : String → UpdateAuth → Action (Db Table) (Unit {0})
  unfolding find_and_fail_auth_by_auth_id
  update_auth auth_id dto = do
    find_and_fail_auth_by_auth_id auth_id
    new_auth ← gets (λ db. find_first (λ a. a.side ==ℤ dto.side && a.path === dto.path) db.auth)
    raise_if (is_other_auth auth_id new_auth) (bad_request "The <> existed on")
    modify (λ db. record db {
      auth =
          update (λ a. a.auth_id === auth_id)
            (λ a. record a {
              pid = dto.pid;
              side = dto.side;
              path = dto.path;
              method = kept_text dto.method a.method;
              status = dto.status;
            })
            db.auth;
    })

  unfoldable pub find_role : String → Db Table → Option Role
  find_role role_id db = find_first (λ r. r.role_id === role_id) db.role

  -- `exitedAndFailRoleByRoleName`
  unfoldable pub existed_and_fail_role_by_role_name : String → Action (Db Table) (Unit {0})
  existed_and_fail_role_by_role_name role_name = do
    existed ← gets (λ db. is_some (find_first (λ r. r.role_name === role_name) db.role))
    raise_if existed (bad_request "The role has been existed")

  unfoldable pub create_role : String → UpsertRole → Action (Db Table) (Unit {0})
  unfolding existed_and_fail_role_by_role_name
  create_role role_id dto = do
    existed_and_fail_role_by_role_name dto.role_name
    taken ← gets (λ db. is_some (find_role role_id db))
    raise_if taken unique_violation
    modify (λ db. record db {
      role =
          create
            (record { role_id = role_id; role_name = dto.role_name; description = dto.description })
            db.role;
    })

  unfoldable pub update_role : String → UpsertRole → Action (Db Table) (Unit {0})
  unfolding existed_and_fail_role_by_role_name
  update_role role_id dto = do
    or_raise (← gets (find_role role_id)) (not_found "Can't find role by")
    existed_and_fail_role_by_role_name dto.role_name
    modify (λ db. record db {
      role =
          update (λ r. r.role_id === role_id)
            (λ r. record r {
              role_name = dto.role_name;
              description = kept_text dto.description r.description;
            })
            db.role;
    })

  unfoldable pub existed_and_fail_auth_role : CreateAuthRole → Action (Db Table) (Unit {0})
  existed_and_fail_auth_role dto = do
    existed ← gets (λ db.
        is_some
          (find_first (λ b. b.auth_id === dto.auth_id && b.role_id === dto.role_id) db.auth_role))
    raise_if existed (bad_request "The relation has been existed by")

  unfoldable pub create_auth_role : CreateAuthRole → Action (Db Table) (Unit {0})
  unfolding existed_and_fail_auth_role
  create_auth_role dto = do
    existed_and_fail_auth_role dto
    modify (λ db. record db {
      auth_role =
          create
            (record {
              id = next_id db.auth_role;
              auth_id = dto.auth_id;
              role_id = dto.role_id;
              status = active;
            })
            db.auth_role;
    })

  unfoldable pub find_auth_role : ℕ → Db Table → Option AuthRole
  find_auth_role id db = find_first (λ b. b.id == id) db.auth_role

  unfoldable pub set_auth_role : ℕ → ℤ → Action (Db Table) (Unit {0})
  set_auth_role id status = modify (λ db. record db {
    auth_role = update (λ b. b.id == id) (λ b. record b { status = status }) db.auth_role;
  })

  -- `findFirstOrThrow` throws where there is no row.
  unfoldable pub frozen_auth_role : ℕ → Action (Db Table) (Unit {0})
  unfolding set_auth_role
  frozen_auth_role id = do
    item ← or_raise (← gets (find_auth_role id)) record_missing
    raise_if (item.status ==ℤ inactive) (bad_request "It's frozen")
    set_auth_role item.id inactive

  unfoldable pub reactive_auth_role : ℕ → Action (Db Table) (Unit {0})
  unfolding set_auth_role
  reactive_auth_role id = do
    item ← or_raise (← gets (find_auth_role id)) record_missing
    raise_if (item.status ==ℤ active) (bad_request "It's active")
    set_auth_role item.id active

  unfoldable pub find_user_role : String → String → Db Table → Option UserRole
  find_user_role user_id role_id db =
      find_first (λ c. c.user_id === user_id && c.role_id === role_id) db.user_role

  unfoldable pub create_user_role : String → String → Action (Db Table) (Unit {0})
  create_user_role user_id role_id = do
    existed ← gets (λ db. is_some (find_user_role user_id role_id db))
    raise_if existed (bad_request "It's existed")
    modify (λ db. record db {
      user_role =
          create
            (record {
              id = next_id db.user_role;
              role_id = role_id;
              user_id = user_id;
              status = active;
            })
            db.user_role;
    })

  unfoldable pub update_user_role : ℕ → UpdateUserRole → Action (Db Table) (Unit {0})
  update_user_role id dto = do
    or_raise (← gets (λ db. find_first (λ c. c.id == id) db.user_role))
        (bad_request "It's not exist")
    user_role ← gets (find_user_role dto.user_id dto.role_id)
    raise_if (is_other_user_role id user_role) (bad_request "It's existed")
    modify (λ db. record db {
      user_role =
          update (λ c. c.id == id)
            (λ c. record c { user_id = dto.user_id; role_id = dto.role_id; status = dto.status })
            db.user_role;
    })

  -- The identifiers of the user's roles.
  unfoldable pub role_ids_of : String → Db Table → List String
  role_ids_of user_id db =
      map (λ c. c.role_id)
        (find_many (λ c. c.user_id === user_id && c.status ==ℤ active) db.user_role)

  -- The query: `B.role_id IN (…)`, and both rows active. The rows come in any order; this is one.
  unfoldable pub resources_of_roles : List String → Db Table → List Resource
  resources_of_roles role_ids db =
      query_rows (find_many (λ a. a.status ==ℤ active) db.auth)
        (find_many (λ b. any (λ id. id === b.role_id) role_ids && b.status ==ℤ active) db.auth_role)

  unfoldable pub get_resources_by_user_id : String → Db Table → Resources
  get_resources_by_user_id user_id db =
      let role_ids = role_ids_of user_id db in
      record {
        user_auth = find_first (λ u. u.user_id === user_id && u.status ==ℤ active) db.user_auth;
        resources = if is_empty role_ids then [] else resources_of_roles role_ids db;
      }
