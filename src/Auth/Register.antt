-- ===== src/Auth/Register.antt =====
-- `Register` of internal/auth/service.go.
pub mod Created
pub mod Outcome
use go_grpc_starter.Prelude.{ℕ, String, Bool, some, List, if◌then◌else◌}
use go_grpc_starter.Errs.{GoError, domain, conflict}
use go_grpc_starter.Store.{Action, pure, raise, ◌>>=◌, ◌>>◌, with_tx}
use go_grpc_starter.Users.Entity.{User}
use go_grpc_starter.Settings.{Settings, Codec, default_settings, settings_create}
use go_grpc_starter.Auth.Entity.{DeviceInfo, TokenPair}
use go_grpc_starter.Auth.Tables.{AuthDb}
use go_grpc_starter.Auth.Users.{user_create, exists_by_email}
use go_grpc_starter.Auth.Session.{Collaborators, AuthConfig, outside}
use go_grpc_starter.Auth.Tokens.{create_session_and_tokens}
use go_grpc_starter.Auth.Login.{Accounts}
use go_grpc_starter.Auth.Password.{validate_password, send_verification}

abbrev pub err_email_exists : GoError
err_email_exists = domain (conflict "EMAIL_ALREADY_EXISTS" "auth.email_exists")

pub record RegisterInput : Type 0 where
  pub email : List ℕ
  pub password : List ℕ
  pub first_name : String
  pub last_name : String
  pub device : DeviceInfo

-- `accepts` are the checks that the table has on a new account: the form of the address and the lengths of
-- the names.
module _ {W : Type 0} (k : Collaborators W Settings) (a : Accounts W) (json : Codec)
    (accepts : List ℕ → String → String → Bool) (cfg : AuthConfig) (now : ℕ) where
  -- The transaction, from its end.
  unfoldable pub first_session : RegisterInput → User → Action W AuthDb (User × TokenPair Settings)
  first_session input user = do
    tokens ← create_session_and_tokens k cfg now user input.device (some default_settings)
    pure (user, tokens)

  unfoldable pub set_up : RegisterInput → User → Action W AuthDb (User × TokenPair Settings)
  set_up input user = do settings_create json user.id default_settings; first_session input user

  unfoldable pub create_account :
      RegisterInput → String → Action W AuthDb (User × TokenPair Settings)
  create_account input hash = do
    user ← user_create accepts (a.normalize_email input.email) hash input.first_name input.last_name
    set_up input user

  unfoldable pub finish_register : User × TokenPair Settings → Action W AuthDb (TokenPair Settings)
  finish_register (user, tokens) = do send_verification k a cfg now user; pure tokens

  unfoldable pub register_hashed : RegisterInput → String → Action W AuthDb (TokenPair Settings)
  register_hashed input hash = do
    created ← with_tx (create_account input hash)
    finish_register created

  unfoldable pub register_free : RegisterInput → Bool → Action W AuthDb (TokenPair Settings)
  register_free input taken =
      if taken
      then raise err_email_exists
      else (do hash ← outside (a.hash_password input.password); register_hashed input hash)

  unfoldable pub register_valid : RegisterInput → Action W AuthDb (TokenPair Settings)
  register_valid input = do
    taken ← exists_by_email (a.normalize_email input.email)
    register_free input taken

  unfoldable pub register : RegisterInput → Action W AuthDb (TokenPair Settings)
  register input = do validate_password input.password; register_valid input
