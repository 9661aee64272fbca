-- ===== src/Models/People.antt =====
-- app/models/user.py and app/models/student.py. Keys, versions and times (microseconds since the
-- epoch) are natural numbers; a nullable column is an `Option`.
use system_uni.Prelude.{ℕ, String, Option}

pub data UserRole : Type 0 where
  admin user guest : UserRole

pub UserRole-discrete : Discrete UserRole
UserRole-discrete = hlevel

pub record User : Type 0 where
  pub id : ℕ
  pub username : String
  pub email : String
  pub role : UserRole
  pub created_at : ℕ
  pub password_hash : String
  pub token_version : ℕ

pub record Student : Type 0 where
  pub id : ℕ
  pub name : String
  pub age : Option ℕ
  pub email : String
  pub created_at : ℕ
  pub department_id : ℕ
  pub user_id : Option ℕ
  pub version_id : ℕ
