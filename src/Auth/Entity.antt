-- ===== src/Auth/Entity.antt =====
-- internal/auth/entity.go, types.go and errors.go. A time is a number of seconds, 0 for Go's zero
-- time. The device attributes that no operation sets are left out.
use go_grpc_starter.Prelude.{ℕ, ◌-◌, String, Bool, false, ◌&&◌, not, Option, none, some, ltb, ◌==◌}
use go_grpc_starter.Errs.{GoError, domain, unauthorized, bad_request, forbidden}
use go_grpc_starter.Users.Entity.{User}

pub record DeviceSession : Type 0 where
  pub id : ℕ
  pub user_id : ℕ
  pub platform : String
  pub manufacturer : String
  pub model : String
  pub name : String
  pub device_id : String
  pub ip_address : String
  pub user_agent : String
  pub last_activity : ℕ
  pub revoked_at : Option ℕ
  pub revoked_reason : String

abbrev is_set : Option ℕ → Bool
is_set none = false
is_set (some at) = not (at == 0)

-- `IsRevoked`
unfoldable pub is_revoked : DeviceSession → Bool
is_revoked ds = is_set ds.revoked_at

-- `IsInactive`; the time since a later moment is 0 here and negative there, and both are within the
-- timeout.
unfoldable pub is_inactive : ℕ → ℕ → DeviceSession → Bool
is_inactive now timeout ds = ltb timeout (now - ds.last_activity)

-- `IsValid`
unfoldable pub is_valid : ℕ → ℕ → DeviceSession → Bool
unfolding is_revoked is_inactive
is_valid now timeout ds = not (is_revoked ds) && not (is_inactive now timeout ds)

-- The stored part of `RefreshToken`; `Session` is joined to it by `Found`.
pub record RefreshToken : Type 0 where
  pub session_id : ℕ
  pub token_hash : String
  pub token_family : String
  pub expires_at : ℕ
  pub revoked_at : Option ℕ
  pub revoked_reason : String

unfoldable pub is_token_revoked : RefreshToken → Bool
is_token_revoked rt = is_set rt.revoked_at

unfoldable pub is_expired : ℕ → RefreshToken → Bool
is_expired now rt = ltb rt.expires_at now

-- A token with its session and the user of that.
pub record Found : Type 0 where
  pub token : RefreshToken
  pub session : DeviceSession
  pub owner : User

pub record DeviceInfo : Type 0 where
  pub device_id : String
  pub name : String
  pub platform : String
  pub model : String
  pub manufacturer : String
  pub ip_address : String
  pub user_agent : String

-- `toSession`, with the identifier and the time that `Create` gives the row.
unfoldable pub to_session : ℕ → ℕ → ℕ → DeviceInfo → DeviceSession
to_session id now user_id d = record {
  id = id;
  user_id = user_id;
  platform = d.platform;
  manufacturer = d.manufacturer;
  model = d.model;
  name = d.name;
  device_id = d.device_id;
  ip_address = d.ip_address;
  user_agent = d.user_agent;
  last_activity = now;
  revoked_at = none;
  revoked_reason = "";
}

pub record TokenPair (Settings : Type 0) : Type 0 where
  pub access_token : String
  pub refresh_token : String
  pub expires_in : ℕ
  pub user : User
  pub settings : Option Settings

abbrev pub err_invalid_credentials : GoError
err_invalid_credentials = domain (unauthorized "INVALID_CREDENTIALS" "auth.invalid_credentials")

abbrev pub err_account_inactive : GoError
err_account_inactive = domain (forbidden "ACCOUNT_INACTIVE" "auth.account_inactive")

abbrev pub err_invalid_token : GoError
err_invalid_token = domain (unauthorized "INVALID_AUTH_TOKEN" "auth.invalid_token")

abbrev pub err_token_revoked : GoError
err_token_revoked = domain (unauthorized "ACCESS_TOKEN_REVOKED" "auth.token_revoked")

abbrev pub err_session_not_found : GoError
err_session_not_found = domain (unauthorized "SESSION_NOT_FOUND" "auth.session_not_found")

abbrev pub err_cannot_remove_current_device : GoError
err_cannot_remove_current_device =
    domain (bad_request "CANNOT_REMOVE_CURRENT_DEVICE" "auth.cannot_remove_current_device")
