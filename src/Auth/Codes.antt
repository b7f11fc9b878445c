-- ===== src/Auth/Codes.antt =====
-- The codes of `ResetPassword` and `VerifyEmail` of internal/auth/service.go, with the cache manager.
use go_grpc_starter.Prelude.{ℕ, String, ◌≡◌, ◌≢◌, subst, some, List}
use go_grpc_starter.Errs.{ok}
use go_grpc_starter.Store.{Conn}
use go_grpc_starter.Store.Inversion.{bind_ok}
use go_grpc_starter.Redis.{Redis, IsRedis}
use go_grpc_starter.Redis.Reach.{Reach}
use go_grpc_starter.Cache.{Codec, build_key, password_reset_key}
use go_grpc_starter.Cache.Once.{get_del_once}
use go_grpc_starter.Auth.Tables.{AuthDb}
use go_grpc_starter.Auth.Session.{Collaborators, AuthConfig}
use go_grpc_starter.Auth.Login.{Accounts}
use go_grpc_starter.Auth.Password.{
  err_invalid_reset_token, err_invalid_verification_token, take_reset_code, take_verification_code,
  reset_account, reset_with_code, reset_password, verify_email, validate_password,
}
use go_grpc_starter.Auth.Reset.{owner_of_ok, validate_ok}
use go_grpc_starter.Auth.Users.{mark_email_verified}
use go_grpc_starter.Auth.Cached.{cached}

module _ {R Settings : Type 0} (k : Collaborators R Settings) (a : Accounts R) (cfg : AuthConfig)
    (now : ℕ) where
  -- A reset that succeeds has taken its code, and so has a verification.
  reset_password-takes :
      (code : String) (new_password : List ℕ) (c : Conn R AuthDb)
      → (reset_password k a cfg now code new_password c).0 ≡ ok tt
      → (id : ℕ) × ((a.take_reset code c.outside).0 ≡ ok (some id))
  unfolding reset_password reset_with_code take_reset_code
  reset_password-takes code new_password c h =
      let rest = reset_with_code k a cfg now code new_password in
      let (_, e0, e1, _) = bind_ok (λ _. rest) (validate_password new_password) c h in
      let same = (validate_ok k a cfg now new_password c e0).1 in
      let e2 : (rest c).0 ≡ ok tt = subst (λ d. (rest d).0 ≡ ok tt) same e1 in
      let (id, e3, _, _) =
        bind_ok (reset_account k a cfg now new_password) (take_reset_code k a cfg now code) c e2 in
      (id, owner_of_ok err_invalid_reset_token (a.take_reset code c.outside).0 e3)

  verify_email-takes :
      (code : String) (c : Conn R AuthDb)
      → (verify_email k a cfg now code c).0 ≡ ok tt
      → (id : ℕ) × ((a.take_verification code c.outside).0 ≡ ok (some id))
  unfolding verify_email take_verification_code
  verify_email-takes code c h =
      let (id, e, _, _) =
        bind_ok (mark_email_verified now) (take_verification_code k a cfg now code) c h in
      (id, owner_of_ok err_invalid_verification_token (a.take_verification code c.outside).0 e)

module _ {R Settings : Type 0} (k : Collaborators R Settings) (base : Accounts R) (cfg : AuthConfig)
    (s : Redis R) (h : IsRedis s) (prefix : String) (token_data : Codec ℕ)
    (bytes_text : List ℕ → String) where
  abbrev accounts : Accounts R
  accounts = cached s prefix token_data bytes_text base

  -- A code of a password reset works once. After a call of `ResetPassword` that succeeded, no other with
  -- that code does, wherever the server has got to from the point at which the first had taken the code, by
  -- commands of any clients that do not write that code's key, in any order, and whatever fails; a call that
  -- runs at the same time as the first is among these.
  pub reset_password_once :
      (now later : ℕ) (code : String) (new_password other_password : List ℕ) (c d : Conn R AuthDb)
      → (reset_password k accounts cfg now code new_password c).0 ≡ ok tt
      → Reach s h
          (build_key prefix (password_reset_key code))
          (accounts.take_reset code c.outside).1
          d.outside
      → (reset_password k accounts cfg later code other_password d).0 ≢ ok tt
  unfolding cached
  reset_password_once now later code new_password other_password c d first run second =
      let (_, taken) = reset_password-takes k accounts cfg now code new_password c first in
      let (_, again) = reset_password-takes k accounts cfg later code other_password d second in
      get_del_once s h prefix token_data (password_reset_key code) c.outside d.outside taken run
        again
