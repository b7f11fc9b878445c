-- ===== src/Auth/Repository.antt =====
-- internal/auth/device_session_repository.go and refresh_token_repository.go over the tables.
use go_grpc_starter.Prelude.{ℕ, String, Option, none, some, List, ◌==◌, str_eq}
use go_grpc_starter.Errs.{GoError, other}
use go_grpc_starter.Store.{Action, pure, raise, ◌>>=◌, query, constrained_query, run}
use go_grpc_starter.Users.Entity.{User}
use go_grpc_starter.Auth.Entity.{
  DeviceSession, RefreshToken, Found, DeviceInfo, err_session_not_found, err_invalid_token,
}
use go_grpc_starter.Auth.Tables.{
  AuthDb, revoke_sessions_where, revoke_tokens_where, create_device_session,
  get_active_by_user_and_device, revoke_device_session, list_active_devices, get_user_by_id,
  get_device_session_by_id, create_refresh_token, token_by_hash,
}

module _ {W : Type 0} where
  -- `pgx.ErrNoRows` told apart from a row.
  abbrev pub or_missing : {A : Type 0} → GoError → Option A → Action W AuthDb A
  or_missing e none = raise e
  or_missing e (some a) = pure a

-- A statement that returns nothing, and one that writes nothing.
abbrev pub done : (AuthDb → AuthDb) → AuthDb → Unit {0} × AuthDb
done f o = (tt, f o)

abbrev pub seen : {A : Type 0} → (AuthDb → A) → AuthDb → A × AuthDb
seen f o = (f o, o)

-- Over the outside world that the caller's actions change.
module _ {W : Type 0} (now : ℕ) where
  unfoldable pub session_create : ℕ → DeviceInfo → Action W AuthDb DeviceSession
  session_create user_id d =
      run (constrained_query (other "create device session") (create_device_session now user_id d))

  unfoldable pub find_active_devices_by_user : ℕ → ℕ → Action W AuthDb (List DeviceSession)
  find_active_devices_by_user user_id timeout =
      run (query (list_active_devices now timeout user_id))

  unfoldable pub session_revoke : String → ℕ → Action W AuthDb DeviceSession
  session_revoke reason id =
      run (do r ← query (revoke_device_session now reason id); or_missing err_session_not_found r)

  unfoldable pub revoke_all_by_user_id : ℕ → String → Action W AuthDb (Unit {0})
  revoke_all_by_user_id user_id reason = run (
      query (done (revoke_sessions_where now reason (λ (s : DeviceSession). s.user_id == user_id))))

  unfoldable pub revoke_active_by_device_id : String → String → Action W AuthDb (Unit {0})
  revoke_active_by_device_id device_id reason = run (
      query (
        done
          (revoke_sessions_where now reason (λ (s : DeviceSession). str_eq s.device_id device_id))))

  unfoldable pub revoke_by_token_hash : String → String → Action W AuthDb (Unit {0})
  revoke_by_token_hash hash reason = run (
      query
        (done (revoke_tokens_where now reason (λ (t : RefreshToken). str_eq t.token_hash hash))))

  unfoldable pub revoke_by_session_id : ℕ → String → Action W AuthDb (Unit {0})
  revoke_by_session_id session_id reason = run (
      query
        (done (revoke_tokens_where now reason (λ (t : RefreshToken). t.session_id == session_id))))

  unfoldable pub revoke_by_token_family : String → String → Action W AuthDb (Unit {0})
  revoke_by_token_family family reason = run (
      query (
        done (revoke_tokens_where now reason (λ (t : RefreshToken). str_eq t.token_family family))))

module _ {W : Type 0} where
  unfoldable pub find_by_user_and_device_id : ℕ → String → Action W AuthDb DeviceSession
  find_by_user_and_device_id user_id device_id = run (do
    r ← query (get_active_by_user_and_device user_id device_id)
    or_missing err_session_not_found r)

  unfoldable pub token_create : RefreshToken → Action W AuthDb (Unit {0})
  token_create t = run (constrained_query (other "create refresh token") (create_refresh_token t))

  abbrev with_session : RefreshToken → DeviceSession → Option User → Action W AuthDb Found
  with_session t s none = raise (other "load token user")
  with_session t s (some u) = pure (record { token = t; session = s; owner = u })

  abbrev with_token : RefreshToken → Option DeviceSession → Action W AuthDb Found
  with_token t none = raise (other "load token session")
  with_token t (some s) = do u ← query (seen (get_user_by_id s.user_id)); with_session t s u

  abbrev with_hash : Option RefreshToken → Action W AuthDb Found
  with_hash none = raise err_invalid_token
  with_hash (some t) = do s ← query (seen (get_device_session_by_id t.session_id)); with_token t s

  -- A hash of 64 digits passes the test on its length, and rows of equal hash have its prefix.
  unfoldable pub find_by_token_hash : String → Action W AuthDb Found
  find_by_token_hash hash = run (do t ← query (seen (token_by_hash hash)); with_hash t)

  abbrev with_owner : DeviceSession → Option User → Action W AuthDb (DeviceSession × User)
  with_owner s none = raise (other "load session user")
  with_owner s (some u) = pure (s, u)

  abbrev with_row : Option DeviceSession → Action W AuthDb (DeviceSession × User)
  with_row none = raise err_session_not_found
  with_row (some s) = do u ← query (seen (get_user_by_id s.user_id)); with_owner s u

  -- `FindByID` of a session, whose field `User` is joined to it.
  unfoldable pub session_find_by_id : ℕ → Action W AuthDb (DeviceSession × User)
  session_find_by_id id = run (do s ← query (seen (get_device_session_by_id id)); with_row s)
