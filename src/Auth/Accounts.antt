-- ===== src/Auth/Accounts.antt =====
-- The calls of internal/auth on sessions and refresh tokens leave the accounts and their settings alone.
use go_grpc_starter.Prelude.{
  ℕ, String, refl, Bool, false, Bool-cases, none, some, Option, inl, inr, List, [], ◌∷◌, length,
  leb, ◌==◌, str_eq, arith,
}
use mathlib.Core.List.{reverse}
use go_grpc_starter.Errs.{GoError, Result}
use go_grpc_starter.Store.{Action, ◌>>◌}
use go_grpc_starter.Store.Keeps.{
  Keeps, pure-Keeps, raise-Keeps, query-Keeps, constrained-Keeps, with_tx-Keeps, run-Keeps,
  if-Keeps, bind-Keeps,
}
use go_grpc_starter.Users.Entity.{User}
use go_grpc_starter.Auth.Entity.{
  DeviceSession, DeviceInfo, RefreshToken, TokenPair, err_session_not_found,
}
use go_grpc_starter.Auth.Tables.{
  AuthDb, revoke_sessions_where, revoke_tokens_where, create_device_session, revoke_device_session,
  list_active_devices, create_refresh_token,
}
use go_grpc_starter.Auth.Repository.{
  or_missing, session_create, find_active_devices_by_user, session_revoke, revoke_by_session_id,
  revoke_active_by_device_id, token_create,
}
use go_grpc_starter.Auth.Session.{
  Collaborators, AuthConfig, outside, tell, ask, attempt, drop_tokens, revoke_session_and_tokens,
  evict_loop, evict_rows, evict_listed, evict_oldest_if_over_limit, revoke_each,
  revoke_all_sessions,
}
use go_grpc_starter.Auth.Tokens.{
  Issued, new_token, token_pair, issue_token_pair, generate_token_pair, first_tokens, start_session,
  clear_device, open_session, finish_session, create_evicted, create_session_and_tokens,
}

-- The accounts, their settings and the next identifier.
abbrev pub accounts : AuthDb → List User × List (ℕ × String) × ℕ
accounts o = (o.users, o.settings, o.next_user)

module _ {W : Type 0} where
  abbrev Silent : {A : Type 0} → Action W AuthDb A → Type 0
  Silent m = Keeps accounts m

  pub outside-Keeps : {A : Type 0} (f : W → Result A × W) → Silent (outside f)
  outside-Keeps f = record { at = λ c. refl }

  pub tell-Keeps : (f : W → W) → Silent (tell f)
  tell-Keeps f = record { at = λ c. refl }

  pub ask-Keeps : {A : Type 0} (f : W → A × W) → Silent (ask f)
  ask-Keeps f = record { at = λ c. refl }

  pub attempt-Keeps : {A : Type 0} (m : Action W AuthDb A) → Silent m → Silent (attempt m)
  attempt-Keeps m k = record { at = λ c. k.at c }

  or_missing-Keeps : {A : Type 0} (e : GoError) (o : Option A) → Silent (or_missing e o)
  or_missing-Keeps e none = raise-Keeps accounts e
  or_missing-Keeps e (some a) = pure-Keeps accounts a

module _ {W : Type 0} (now : ℕ) where
  session_create-Keeps :
      (user_id : ℕ) (d : DeviceInfo) → Silent {W = W} (session_create now user_id d)
  unfolding session_create create_device_session
  session_create-Keeps user_id d = run-Keeps accounts _ (
      constrained-Keeps accounts _ (create_device_session now user_id d)
        (λ o p h. ground (arith, h)))

  find_active-Keeps :
      (user_id timeout : ℕ) → Silent {W = W} (find_active_devices_by_user now user_id timeout)
  unfolding find_active_devices_by_user list_active_devices
  find_active-Keeps user_id timeout =
      run-Keeps accounts _
        (query-Keeps accounts (list_active_devices now timeout user_id) (λ o. refl))

  session_revoke-Keeps : (reason : String) (id : ℕ) → Silent {W = W} (session_revoke now reason id)
  unfolding session_revoke revoke_device_session revoke_sessions_where
  session_revoke-Keeps reason id = run-Keeps accounts _ (
      bind-Keeps accounts _ (or_missing-Keeps err_session_not_found) _
        (query-Keeps accounts (revoke_device_session now reason id) (λ o. refl)))

  revoke_by_session_id-Keeps :
      (id : ℕ) (reason : String) → Silent {W = W} (revoke_by_session_id now id reason)
  unfolding revoke_by_session_id revoke_tokens_where
  revoke_by_session_id-Keeps id reason = run-Keeps accounts _ (query-Keeps accounts _ (λ o. refl))

  revoke_active-Keeps :
      (device : String) (reason : String)
      → Silent {W = W} (revoke_active_by_device_id now device reason)
  unfolding revoke_active_by_device_id revoke_sessions_where
  revoke_active-Keeps device reason = run-Keeps accounts _ (query-Keeps accounts _ (λ o. refl))

  token_create-Keeps : (t : RefreshToken) → Silent {W = W} (token_create t)
  unfolding token_create create_refresh_token
  token_create-Keeps t =
      run-Keeps accounts _
        (constrained-Keeps accounts _ (create_refresh_token t) (λ o p h. ground (arith, h)))

module _ {W Settings : Type 0} (k : Collaborators W Settings) (cfg : AuthConfig) (now : ℕ) where
  revoke_session_and_tokens-Keeps :
      (s : DeviceSession) (reason : String) → Silent (revoke_session_and_tokens k cfg now s reason)
  unfolding revoke_session_and_tokens drop_tokens
  revoke_session_and_tokens-Keeps s reason =
      bind-Keeps accounts _
        (λ _.
          bind-Keeps accounts _ (λ _. tell-Keeps (k.drop_session s.id)) _
            (attempt-Keeps _ (revoke_by_session_id-Keeps now s.id reason)))
        _ (session_revoke-Keeps now reason s.id)

  more_evictions :
      (oldest : DeviceSession) (rest : List DeviceSession)
      → Silent (evict_loop k cfg now rest)
      → Silent
          (do revoke_session_and_tokens k cfg now oldest "device_limit"; evict_loop k cfg now rest)
  more_evictions oldest rest kept =
      bind-Keeps accounts _ (λ _. kept) _ (revoke_session_and_tokens-Keeps oldest "device_limit")

  evict_loop-Keeps : (sessions : List DeviceSession) → Silent (evict_loop k cfg now sessions)
  unfolding evict_loop
  evict_loop-Keeps [] = record { at = λ c. refl }
  evict_loop-Keeps (oldest ∷ rest) = record {
    at = λ c. elim (Bool-cases (leb cfg.max_devices_per_user (length (oldest ∷ rest)))) [
      | inl e ↦ rw e ((more_evictions oldest rest (evict_loop-Keeps rest)).at c)
      | inr e ↦ rw e refl
    ];
  }

  evict_listed-Keeps : (user_id : ℕ) → Silent (evict_listed k cfg now user_id)
  unfolding evict_listed evict_rows
  evict_listed-Keeps user_id =
      bind-Keeps accounts _ (λ sessions. evict_loop-Keeps (reverse sessions)) _
        (find_active-Keeps now user_id cfg.max_inactivity_timeout)

  evict_oldest-Keeps : (user_id : ℕ) → Silent (evict_oldest_if_over_limit k cfg now user_id)
  unfolding evict_oldest_if_over_limit
  evict_oldest-Keeps user_id =
      if-Keeps accounts (cfg.max_devices_per_user == 0) _ _ (pure-Keeps accounts tt)
        (attempt-Keeps _ (evict_listed-Keeps user_id))

  revoke_each-Keeps :
      (skip : DeviceSession → Bool) (reason : String) (sessions : List DeviceSession)
      → Silent (revoke_each k cfg now skip reason sessions)
  unfolding revoke_each
  revoke_each-Keeps skip reason [] = pure-Keeps accounts tt
  revoke_each-Keeps skip reason (s ∷ sessions) =
      bind-Keeps accounts _ (λ _. revoke_each-Keeps skip reason sessions) _
        (if-Keeps accounts (skip s) _ _ (pure-Keeps accounts tt)
          (attempt-Keeps _ (revoke_session_and_tokens-Keeps s reason)))

  pub revoke_all_sessions-Keeps :
      (user_id : ℕ) (reason : String) → Silent (revoke_all_sessions k cfg now user_id reason)
  unfolding revoke_all_sessions
  revoke_all_sessions-Keeps user_id reason =
      bind-Keeps accounts _ (revoke_each-Keeps (λ _. false) reason) _
        (find_active-Keeps now user_id cfg.max_inactivity_timeout)

  issue_token_pair-Keeps : (s : DeviceSession) → Silent (issue_token_pair k cfg now s)
  unfolding issue_token_pair
  issue_token_pair-Keeps s =
      bind-Keeps accounts _
        (λ _.
          bind-Keeps accounts _ (λ _. pure-Keeps accounts _) _ (outside-Keeps k.generate_refresh))
        _ (outside-Keeps (k.generate_access s.id s.user_id s.device_id))

  generate_token_pair-Keeps :
      (user : User) (s : DeviceSession) (settings : Option Settings)
      → Silent (generate_token_pair k cfg now user s settings)
  unfolding generate_token_pair
  generate_token_pair-Keeps user s settings =
      bind-Keeps accounts _
        (λ (issued : Issued).
          bind-Keeps accounts _
            (λ family.
              bind-Keeps accounts _
                (λ _. pure-Keeps accounts (token_pair k cfg now issued user settings)) _
                (token_create-Keeps now (new_token k cfg now s.id issued.token_hash family)))
            _ (ask-Keeps k.new_family))
        _ (issue_token_pair-Keeps s)

  open_session-Keeps :
      (user : User) (device : DeviceInfo) (settings : Option Settings)
      → Silent (open_session k cfg now user device settings)
  unfolding open_session clear_device start_session first_tokens
  open_session-Keeps user device settings =
      bind-Keeps accounts _
        (λ _.
          bind-Keeps accounts _
            (λ (s : DeviceSession).
              bind-Keeps accounts _ (λ _. pure-Keeps accounts _) _
                (generate_token_pair-Keeps user s settings))
            _ (session_create-Keeps now user.id device))
        _
        (if-Keeps accounts (str_eq device.device_id "") _ _ (pure-Keeps accounts tt)
          (revoke_active-Keeps now device.device_id "relogin"))

  finish_session-Keeps :
      (p : DeviceSession × TokenPair Settings) → Silent (finish_session k cfg now p)
  unfolding finish_session
  finish_session-Keeps (s, tokens) =
      bind-Keeps accounts _ (λ _. pure-Keeps accounts tokens) _ (tell-Keeps (k.cache_session s))

  pub create_session-Keeps :
      (user : User) (device : DeviceInfo) (settings : Option Settings)
      → Silent (create_session_and_tokens k cfg now user device settings)
  unfolding create_session_and_tokens create_evicted
  create_session-Keeps user device settings =
      bind-Keeps accounts _
        (λ _.
          bind-Keeps accounts _ finish_session-Keeps _
            (with_tx-Keeps accounts _ (open_session-Keeps user device settings)))
        _ (evict_oldest-Keeps user.id)
