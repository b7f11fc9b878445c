-- ===== src/Auth/Session.antt =====
-- internal/auth/session.go. Redis, the token generator and the event bus are collaborators: an outside
-- world `W` that no rollback takes back, and what the service asks of it.
use go_grpc_starter.Prelude.{
  ℕ, String, Bool, false, Option, List, [], ◌∷◌, map, length, leb, ◌==◌, if◌then◌else◌, str_eq,
}
use mathlib.Core.List.{reverse}
use go_grpc_starter.Errs.{Result, ok}
use go_grpc_starter.Store.{Action, pure, raise, ◌>>=◌, ◌>>◌}
use go_grpc_starter.Auth.Entity.{DeviceSession, err_cannot_remove_current_device}
use go_grpc_starter.Auth.Tables.{AuthDb}
use go_grpc_starter.Auth.Repository.{
  find_active_devices_by_user, session_revoke, revoke_by_session_id, find_by_user_and_device_id,
}

-- `AuthAttemptRecorded`, but for its request id and time.
pub record Attempt : Type 0 where
  pub email : List ℕ
  pub user_id : ℕ
  pub channel : String
  pub outcome : String

pub record Collaborators (W Settings : Type 0) : Type 0 where
  -- `atManager`
  pub generate_access : ℕ → ℕ → String → W → Result String × W
  pub revoke_access : String → W → Result (Unit {0}) × W
  -- `apptoken.GenerateRefreshToken`, `id.NewUUIDNoDash` and `hashToken`
  pub generate_refresh : W → Result (String × String) × W
  pub new_family : W → String × W
  pub hash_token : String → String
  -- `cacheManager` at `SessionDataKey`
  pub cache_session : DeviceSession → W → W
  pub drop_session : ℕ → W → W
  -- `settings.GetByUserID`, whose error the service drops
  pub settings_of : ℕ → W → Option Settings × W
  -- `bus.Publish`, whose error `recordAttempt` logs
  pub publish : Attempt → W → W

-- `Security.Auth` of the configuration; `max_devices_per_user` is 0 for a value that is not positive.
pub record AuthConfig : Type 0 where
  pub max_inactivity_timeout : ℕ
  pub max_devices_per_user : ℕ
  pub access_token_expiry : ℕ
  pub refresh_token_expiry : ℕ

module _ {W : Type 0} where
  -- A call of a collaborator.
  abbrev pub outside : {A : Type 0} → (W → Result A × W) → Action W AuthDb A
  outside f c = let (r, w) = f c.outside in (r, record c { outside = w })

  abbrev pub tell : (W → W) → Action W AuthDb (Unit {0})
  tell f c = (ok tt, record c { outside = f c.outside })

  abbrev pub ask : {A : Type 0} → (W → A × W) → Action W AuthDb A
  ask f c = let (a, w) = f c.outside in (ok a, record c { outside = w })

  -- A call whose error is logged and dropped.
  abbrev pub attempt : {A : Type 0} → Action W AuthDb A → Action W AuthDb (Unit {0})
  attempt m c = (ok tt, (m c).1)

-- The client's view of a session.
pub record DeviceSessionInfo : Type 0 where
  pub id : ℕ
  pub device_id : String
  pub device_name : String
  pub platform : String
  pub manufacturer : String
  pub model : String
  pub last_used_at : ℕ
  pub current : Bool

unfoldable pub session_info : ℕ → DeviceSession → DeviceSessionInfo
session_info current_session_id s = record {
  id = s.id;
  device_id = s.device_id;
  device_name = s.name;
  platform = s.platform;
  manufacturer = s.manufacturer;
  model = s.model;
  last_used_at = s.last_activity;
  current = s.id == current_session_id;
}

module _ {W Settings : Type 0} (k : Collaborators W Settings) (cfg : AuthConfig) (now : ℕ) where
  -- `revokeSessionAndTokens` after the session: a token revocation that fails is logged.
  unfoldable pub drop_tokens : ℕ → String → Action W AuthDb (Unit {0})
  drop_tokens session_id reason = do
    attempt (revoke_by_session_id now session_id reason)
    tell (k.drop_session session_id)

  unfoldable pub revoke_session_and_tokens : DeviceSession → String → Action W AuthDb (Unit {0})
  revoke_session_and_tokens session reason = do
    session_revoke now reason session.id
    drop_tokens session.id reason

  -- The loop of `evictOldestIfOverLimit`, over the sessions with the oldest first.
  unfoldable pub evict_loop : List DeviceSession → Action W AuthDb (Unit {0})
  evict_loop [] c = (ok tt, c)
  evict_loop (oldest ∷ rest) c =
      let more = (do revoke_session_and_tokens oldest "device_limit"; evict_loop rest) c in
      if leb cfg.max_devices_per_user (length (oldest ∷ rest)) then more else (ok tt, c)

  unfoldable pub evict_rows : List DeviceSession → Action W AuthDb (Unit {0})
  evict_rows sessions = evict_loop (reverse sessions)

  unfoldable pub evict_listed : ℕ → Action W AuthDb (Unit {0})
  evict_listed user_id = do
    sessions ← find_active_devices_by_user now user_id cfg.max_inactivity_timeout
    evict_rows sessions

  -- It returns nothing: a listing or a revocation that fails ends it.
  unfoldable pub evict_oldest_if_over_limit : ℕ → Action W AuthDb (Unit {0})
  evict_oldest_if_over_limit user_id =
      if cfg.max_devices_per_user == 0 then pure tt else attempt (evict_listed user_id)

  unfoldable pub logout : ℕ → String → Action W AuthDb (Unit {0})
  logout session_id access_token = do
    attempt (session_revoke now "logout" session_id)
    if str_eq access_token "" then pure tt else attempt (outside (k.revoke_access access_token))
    attempt (revoke_by_session_id now session_id "logout")
    tell (k.drop_session session_id)

  unfoldable pub list_devices : ℕ → ℕ → Action W AuthDb (List DeviceSessionInfo)
  list_devices user_id current_session_id = do
    sessions ← find_active_devices_by_user now user_id cfg.max_inactivity_timeout
    pure (map (session_info current_session_id) sessions)

  unfoldable pub remove_device : ℕ → String → ℕ → Action W AuthDb (Unit {0})
  remove_device user_id device_id current_session_id = do
    session ← find_by_user_and_device_id user_id device_id
    if session.id == current_session_id
        then raise err_cannot_remove_current_device
        else revoke_session_and_tokens session "user_revoked_device"

  -- A failure to revoke one session is logged, and the loop goes on.
  unfoldable pub revoke_each :
      (DeviceSession → Bool) → String → List DeviceSession → Action W AuthDb (Unit {0})
  revoke_each skip reason [] = pure tt
  revoke_each skip reason (s ∷ sessions) = do
    if skip s then pure tt else attempt (revoke_session_and_tokens s reason)
    revoke_each skip reason sessions

  unfoldable pub revoke_all_sessions : ℕ → String → Action W AuthDb (Unit {0})
  revoke_all_sessions user_id reason = do
    sessions ← find_active_devices_by_user now user_id cfg.max_inactivity_timeout
    revoke_each (λ _. false) reason sessions

  unfoldable pub revoke_other_sessions : ℕ → ℕ → String → Action W AuthDb (Unit {0})
  revoke_other_sessions user_id keep_session_id reason = do
    sessions ← find_active_devices_by_user now user_id cfg.max_inactivity_timeout
    revoke_each (λ (s : DeviceSession). s.id == keep_session_id) reason sessions
