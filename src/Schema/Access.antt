-- ===== src/Schema/Access.antt =====
-- The rows of prisma/schema.prisma about passwords, resources, roles and who has them.
use open_api.Prelude.{ℕ, ℤ, String, Option, Bool}

pub record UserSigninPassword : Type 0 where
  pub user_id : String
  pub salt : String
  pub password : String
  pub failed_login_times : ℤ
  pub locked_date : Option ℕ

pub record Auth : Type 0 where
  pub auth_id : String
  pub pid : String
  pub side : ℤ
  pub path : String
  pub method : Option String
  pub status : ℤ

pub record Role : Type 0 where
  pub role_id : String
  pub role_name : String
  pub description : Option String

pub record UserAuth : Type 0 where
  pub user_id : String
  pub is_admin : Bool
  pub status : ℤ

pub record UserRole : Type 0 where
  pub id : ℕ
  pub role_id : String
  pub user_id : String
  pub status : ℤ

pub record AuthRole : Type 0 where
  pub id : ℕ
  pub auth_id : String
  pub role_id : String
  pub status : ℤ
