-- ===== src/Access/Forms.antt =====
-- src/auth/role-management/dto, and what the query of a user's resources returns.
use open_api.Prelude.{ℤ, String, Option, List}
use open_api.Schema.{UserAuth}

-- CreateAuthForRoleManagementDto
pub record CreateAuth : Type 0 where
  pub pid : String
  pub side : ℤ
  pub path : String
  pub method : Option String

-- UpdateAuthForRoleManagementDto
pub record UpdateAuth : Type 0 where
  pub pid : String
  pub side : ℤ
  pub path : String
  pub method : Option String
  pub status : ℤ

-- UpsertRoleForRoleManagementDto
pub record UpsertRole : Type 0 where
  pub role_name : String
  pub description : Option String

-- CreateAuthRoleForRoleManagementDto
pub record CreateAuthRole : Type 0 where
  pub auth_id : String
  pub role_id : String

-- UpdateUserRoleForRoleManagementDto
pub record UpdateUserRole : Type 0 where
  pub user_id : String
  pub role_id : String
  pub status : ℤ

-- ResourcesFromAuth, with the status that the query selects too.
pub record Resource : Type 0 where
  pub auth_id : String
  pub side : ℤ
  pub path : String
  pub method : Option String
  pub status : ℤ

-- What getResourcesByUserId returns.
pub record Resources : Type 0 where
  pub user_auth : Option UserAuth
  pub resources : List Resource
