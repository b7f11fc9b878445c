-- ===== src/Auth/Login.antt =====
-- internal/auth/lockout.go and `Login` of internal/auth/service.go.
use go_grpc_starter.Prelude.{ℕ, String, Bool, false, not, Option, List, leb, if◌then◌else◌}
use go_grpc_starter.Errs.{GoError, domain, Result, ok, err, too_many_requests}
use go_grpc_starter.Store.{Action, pure, raise, ◌>>=◌, ◌>>◌}
use go_grpc_starter.Users.Entity.{User, is_active}
use go_grpc_starter.Auth.Entity.{
  DeviceInfo, TokenPair, err_invalid_credentials, err_account_inactive,
}
use go_grpc_starter.Auth.Tables.{AuthDb}
use go_grpc_starter.Auth.Users.{find_by_email, update_last_login}
use go_grpc_starter.Auth.Session.{Collaborators, AuthConfig, tell, ask, attempt}
use go_grpc_starter.Auth.Tokens.{record_attempt, create_session_and_tokens}

abbrev pub err_too_many_attempts : GoError
err_too_many_attempts = domain (too_many_requests "TOO_MANY_ATTEMPTS" "auth.too_many_attempts")

-- What the service asks of Redis, of argon2 and of the mail, in the words of `Collaborators`.
pub record Accounts (W : Type 0) : Type 0 where
  -- `normalizeEmail`: `strings.ToLower` after `strings.TrimSpace`
  pub normalize_email : List ℕ → List ℕ
  -- `verifyPassword`, from the encoded hash and the password
  pub verify_password : String → List ℕ → Bool
  pub hash_password : List ℕ → W → Result String × W
  -- `Counter`, `IncrementWithTTL` and `Delete` at the key of the e-mail address
  pub counter : List ℕ → W → Result ℕ × W
  pub increment : List ℕ → ℕ → W → W
  pub reset_counter : List ℕ → W → W
  -- `id.NewUUIDNoDash`
  pub new_code : W → String × W
  -- `Set` and `GetDel` at `VerificationTokenKey` and `PasswordResetKey`
  pub put_verification : String → ℕ → W → Result (Unit {0}) × W
  pub take_verification : String → W → Result (Option ℕ) × W
  pub put_reset : String → ℕ → W → Result (Unit {0}) × W
  pub take_reset : String → W → Result (Option ℕ) × W
  pub send_verification_email : List ℕ → String → W → W
  pub send_reset_email : List ℕ → String → W → W

-- `loginLimiter`
pub record LoginLimiter : Type 0 where
  pub max_attempts : ℕ
  pub window : ℕ

-- `newLoginLimiter`; a setting that is not positive is 0 here.
unfoldable pub new_login_limiter : ℕ → ℕ → LoginLimiter
new_login_limiter max_attempts window = record {
  max_attempts = if leb max_attempts 0 then 10 else max_attempts;
  window = if leb window 0 then 900 else window;
}

-- The test of `blocked`: a counter that cannot be read lets the login pass, as lockout.go fails open.
abbrev pub counter_blocks : LoginLimiter → Result ℕ → Bool
counter_blocks l (ok n) = leb l.max_attempts n
counter_blocks l (err _) = false

module _ {W Settings : Type 0} (k : Collaborators W Settings) (a : Accounts W) (l : LoginLimiter)
    (cfg : AuthConfig) (now : ℕ) where
  unfoldable pub blocked : List ℕ → Action W AuthDb Bool
  blocked email = ask (λ w. let (r, w') = a.counter email w in (counter_blocks l r, w'))

  unfoldable pub record_failure : List ℕ → Action W AuthDb (Unit {0})
  record_failure email = tell (a.increment email l.window)

  unfoldable pub finish_login :
      List ℕ → User → TokenPair Settings → Action W AuthDb (TokenPair Settings)
  finish_login email user tokens = do
    attempt (update_last_login now user.id)
    record_attempt k cfg now email user.id "login" "success"
    pure tokens

  -- `Login`, once the password is right and the account active.
  unfoldable pub admit : List ℕ → User → DeviceInfo → Action W AuthDb (TokenPair Settings)
  admit email user device = do
    tell (a.reset_counter email)
    settings ← ask (k.settings_of user.id)
    tokens ← create_session_and_tokens k cfg now user device settings
    finish_login email user tokens

  unfoldable pub login_found :
      List ℕ → List ℕ → DeviceInfo → User → Action W AuthDb (TokenPair Settings)
  login_found email password device user =
      if not (a.verify_password user.password_hash password)
      then (do
        record_failure email
        record_attempt k cfg now email user.id "login" "wrong_password"
        raise err_invalid_credentials)
      else if not (is_active user)
      then (do record_attempt k cfg now email user.id "login" "blocked"; raise err_account_inactive)
      else admit email user device

  unfoldable pub login_lookup :
      List ℕ → List ℕ → DeviceInfo → Result User → Action W AuthDb (TokenPair Settings)
  login_lookup email password device (ok user) = login_found email password device user
  login_lookup email password device (err _) = do
    record_failure email
    record_attempt k cfg now email 0 "login" "not_found"
    raise err_invalid_credentials

  unfoldable pub login_open : List ℕ → List ℕ → DeviceInfo → Action W AuthDb (TokenPair Settings)
  login_open email password device c =
      let (r, c') = find_by_email email c in login_lookup email password device r c'

  unfoldable pub login_checked :
      List ℕ → List ℕ → DeviceInfo → Bool → Action W AuthDb (TokenPair Settings)
  login_checked email password device locked =
      if locked
      then (do record_attempt k cfg now email 0 "login" "locked"; raise err_too_many_attempts)
      else login_open email password device

  unfoldable pub login : List ℕ → List ℕ → DeviceInfo → Action W AuthDb (TokenPair Settings)
  login email password device = do
    locked ← blocked (a.normalize_email email)
    login_checked (a.normalize_email email) password device locked
