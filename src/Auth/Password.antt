-- ===== src/Auth/Password.antt =====
-- The codes sent by mail and the changes of password of internal/auth/service.go.
use go_grpc_starter.Prelude.{ℕ, String, not, Option, some, none, List, length, ltb, if◌then◌else◌}
use go_grpc_starter.Errs.{GoError, domain, Result, ok, err, bad_request}
use go_grpc_starter.Store.{Action, pure, raise, ◌>>=◌, ◌>>◌}
use go_grpc_starter.Users.Entity.{User, is_email_verified}
use go_grpc_starter.Auth.Tables.{AuthDb}
use go_grpc_starter.Auth.Repository.{revoke_all_by_user_id}
use go_grpc_starter.Auth.Users.{
  find_by_id, find_by_email, update_password_hash, mark_email_verified,
}
use go_grpc_starter.Auth.Session.{
  Collaborators, AuthConfig, outside, tell, ask, attempt, revoke_other_sessions,
}
use go_grpc_starter.Auth.Login.{Accounts}

abbrev pub err_invalid_verification_token : GoError
err_invalid_verification_token =
    domain (bad_request "INVALID_VERIFICATION_TOKEN" "auth.invalid_verification_token")

abbrev pub err_invalid_reset_token : GoError
err_invalid_reset_token = domain (bad_request "INVALID_RESET_TOKEN" "auth.invalid_reset_token")

abbrev pub err_incorrect_password : GoError
err_incorrect_password = domain (bad_request "INCORRECT_PASSWORD" "auth.incorrect_password")

abbrev pub err_weak_password : GoError
err_weak_password = domain (bad_request "WEAK_PASSWORD" "auth.weak_password")

abbrev pub min_password_len : ℕ
min_password_len = 8

-- What `GetDel` found under the key of a code; a failure counts as nothing found.
abbrev pub owner_of : GoError → Result (Option ℕ) → Result ℕ
owner_of e (ok (some id)) = ok id
owner_of e (ok none) = err e
owner_of e (err _) = err e

module _ {W : Type 0} where
  unfoldable pub validate_password : List ℕ → Action W AuthDb (Unit {0})
  validate_password plain =
      if ltb (length plain) min_password_len then raise err_weak_password else pure tt

module _ {W Settings : Type 0} (k : Collaborators W Settings) (a : Accounts W) (cfg : AuthConfig)
    (now : ℕ) where
  -- `GetDel` of a code, which no second caller finds.
  unfoldable pub take_verification_code : String → Action W AuthDb ℕ
  take_verification_code code = outside (λ w.
      let (r, w') = a.take_verification code w in (owner_of err_invalid_verification_token r, w'))

  unfoldable pub take_reset_code : String → Action W AuthDb ℕ
  take_reset_code code =
      outside (λ w. let (r, w') = a.take_reset code w in (owner_of err_invalid_reset_token r, w'))

  unfoldable pub verify_email : String → Action W AuthDb (Unit {0})
  verify_email code = do user_id ← take_verification_code code; mark_email_verified now user_id

  -- A code that cannot be stored is not sent.
  unfoldable pub store_and_send : User → Action W AuthDb (Unit {0})
  store_and_send user = do
    code ← ask a.new_code
    outside (a.put_verification code user.id)
    tell (a.send_verification_email user.email code)

  unfoldable pub send_verification : User → Action W AuthDb (Unit {0})
  send_verification user = attempt (store_and_send user)

  unfoldable pub resend_verification : ℕ → Action W AuthDb (Unit {0})
  resend_verification user_id = do
    user ← find_by_id user_id
    if is_email_verified user then pure tt else send_verification user

  unfoldable pub send_reset : Result User → Action W AuthDb (Unit {0})
  send_reset (err _) = pure tt
  send_reset (ok user) = do
    code ← ask a.new_code
    outside (a.put_reset code user.id)
    tell (a.send_reset_email user.email code)

  unfoldable pub request_password_reset : List ℕ → Action W AuthDb (Unit {0})
  request_password_reset email c =
      let (r, c') = find_by_email (a.normalize_email email) c in send_reset r c'

  -- `ResetPassword`, once the code has named the account.
  unfoldable pub reset_account : List ℕ → ℕ → Action W AuthDb (Unit {0})
  reset_account new_password user_id = do
    hash ← outside (a.hash_password new_password)
    update_password_hash user_id hash
    attempt (revoke_all_by_user_id now user_id "password_reset")

  unfoldable pub reset_with_code : String → List ℕ → Action W AuthDb (Unit {0})
  reset_with_code code new_password = do
    user_id ← take_reset_code code
    reset_account new_password user_id

  unfoldable pub reset_password : String → List ℕ → Action W AuthDb (Unit {0})
  reset_password code new_password = do
    validate_password new_password
    reset_with_code code new_password

  -- `ChangePassword`, once the current password has been checked.
  unfoldable pub store_password : ℕ → ℕ → List ℕ → Action W AuthDb (Unit {0})
  store_password user_id current_session_id next = do
    validate_password next
    hash ← outside (a.hash_password next)
    update_password_hash user_id hash
    attempt (revoke_other_sessions k cfg now user_id current_session_id "password_change")

  unfoldable pub change_password : ℕ → ℕ → List ℕ → List ℕ → Action W AuthDb (Unit {0})
  change_password user_id current_session_id current next = do
    user ← find_by_id user_id
    if not (a.verify_password user.password_hash current)
        then raise err_incorrect_password
        else store_password user_id current_session_id next
