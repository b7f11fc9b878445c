-- ===== src/Users/Entity.antt =====
-- internal/users/entity.go. An e-mail address is its bytes; a time is a number of seconds.
use go_grpc_starter.Prelude.{ℕ, String, Bool, true, false, Option, is_some, List}

pub data UserStatus : Type 0 where
  active inactive suspended : UserStatus

pub data UserRole : Type 0 where
  user admin : UserRole

-- The two bookkeeping times take no part in what is modelled.
pub record User : Type 0 where
  pub id : ℕ
  pub email : List ℕ
  pub password_hash : String
  pub first_name : String
  pub last_name : String
  pub avatar : String
  pub bio : String
  pub status : UserStatus
  pub role : UserRole
  pub email_verified_at : Option ℕ
  pub last_login_at : Option ℕ
  pub deleted_at : Option ℕ

abbrev is_active_status : UserStatus → Bool
is_active_status active = true
is_active_status _ = false

abbrev is_suspended_status : UserStatus → Bool
is_suspended_status suspended = true
is_suspended_status _ = false

abbrev is_admin_role : UserRole → Bool
is_admin_role admin = true
is_admin_role _ = false

unfoldable pub is_active : User → Bool
is_active u = is_active_status u.status

unfoldable pub is_suspended : User → Bool
is_suspended u = is_suspended_status u.status

unfoldable pub is_admin : User → Bool
is_admin u = is_admin_role u.role

unfoldable pub is_email_verified : User → Bool
is_email_verified u = is_some u.email_verified_at
