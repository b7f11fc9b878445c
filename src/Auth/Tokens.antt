-- ===== src/Auth/Tokens.antt =====
-- internal/auth/tokens.go, and `createSessionAndTokens` of session.go, which issues the first tokens.
use go_grpc_starter.Prelude.{ℕ, ◌+◌, String, not, Option, none, List, [], if◌then◌else◌, str_eq}
use go_grpc_starter.Errs.{Result, ok, err}
use go_grpc_starter.Store.{Action, pure, raise, ◌>>=◌, ◌>>◌, with_tx}
use go_grpc_starter.Users.Entity.{User}
use go_grpc_starter.Auth.Entity.{
  DeviceSession, RefreshToken, Found, DeviceInfo, TokenPair, is_token_revoked, is_expired, is_valid,
  err_invalid_token, err_token_revoked, err_session_not_found,
}
use go_grpc_starter.Auth.Tables.{AuthDb}
use go_grpc_starter.Auth.Repository.{
  session_create, session_revoke, revoke_active_by_device_id, revoke_by_token_hash,
  revoke_by_token_family, token_create, find_by_token_hash,
}
use go_grpc_starter.Auth.Session.{
  Collaborators, AuthConfig, outside, tell, ask, attempt, evict_oldest_if_over_limit,
}

-- The three strings that `issueTokenPair` returns.
pub record Issued : Type 0 where
  pub access_token : String
  pub raw_refresh : String
  pub token_hash : String

module _ {W Settings : Type 0} (k : Collaborators W Settings) (cfg : AuthConfig) (now : ℕ) where
  unfoldable pub record_attempt : List ℕ → ℕ → String → String → Action W AuthDb (Unit {0})
  record_attempt email user_id channel outcome = tell (
      k.publish (record { email = email; user_id = user_id; channel = channel; outcome = outcome }))

  unfoldable pub issue_token_pair : DeviceSession → Action W AuthDb Issued
  issue_token_pair session = do
    access ← outside (k.generate_access session.id session.user_id session.device_id)
    refresh ← outside k.generate_refresh
    pure (record { access_token = access; raw_refresh = refresh.0; token_hash = refresh.1 })

  abbrev pub new_token : ℕ → String → String → RefreshToken
  new_token session_id hash family = record {
    session_id = session_id;
    token_hash = hash;
    token_family = family;
    expires_at = now + cfg.refresh_token_expiry;
    revoked_at = none;
    revoked_reason = "";
  }

  abbrev pub token_pair : Issued → User → Option Settings → TokenPair Settings
  token_pair i user settings = record {
    access_token = i.access_token;
    refresh_token = i.raw_refresh;
    expires_in = cfg.access_token_expiry;
    user = user;
    settings = settings;
  }

  unfoldable pub generate_token_pair :
      User → DeviceSession → Option Settings → Action W AuthDb (TokenPair Settings)
  generate_token_pair user session settings = do
    issued ← issue_token_pair session
    family ← ask k.new_family
    token_create (new_token session.id issued.token_hash family)
    pure (token_pair issued user settings)

  -- The transaction of `createSessionAndTokens`, from its end: the tokens of the new session, the new
  -- session, and the revocation of the device's earlier one.
  unfoldable pub first_tokens :
      User → Option Settings → DeviceSession → Action W AuthDb (DeviceSession × TokenPair Settings)
  first_tokens user settings session = do
    tokens ← generate_token_pair user session settings
    pure (session, tokens)

  unfoldable pub start_session :
      User → DeviceInfo → Option Settings → Action W AuthDb (DeviceSession × TokenPair Settings)
  start_session user device settings = do
    session ← session_create now user.id device
    first_tokens user settings session

  unfoldable pub clear_device : DeviceInfo → Action W AuthDb (Unit {0})
  clear_device device =
      if str_eq device.device_id ""
      then pure tt
      else revoke_active_by_device_id now device.device_id "relogin"

  unfoldable pub open_session :
      User → DeviceInfo → Option Settings → Action W AuthDb (DeviceSession × TokenPair Settings)
  open_session user device settings = do clear_device device; start_session user device settings

  unfoldable pub finish_session :
      DeviceSession × TokenPair Settings → Action W AuthDb (TokenPair Settings)
  finish_session (session, tokens) = do tell (k.cache_session session); pure tokens

  unfoldable pub create_evicted :
      User → DeviceInfo → Option Settings → Action W AuthDb (TokenPair Settings)
  create_evicted user device settings = do
    opened ← with_tx (open_session user device settings)
    finish_session opened

  unfoldable pub create_session_and_tokens :
      User → DeviceInfo → Option Settings → Action W AuthDb (TokenPair Settings)
  create_session_and_tokens user device settings = do
    evict_oldest_if_over_limit k cfg now user.id
    create_evicted user device settings

  -- A revoked token that comes back: its family and its session are revoked.
  unfoldable pub punish_reuse : Found → Action W AuthDb (TokenPair Settings)
  punish_reuse found = do
    attempt (revoke_by_token_family now found.token.token_family "token_reuse")
    attempt (session_revoke now "token_reuse" found.session.id)
    record_attempt found.owner.email found.session.user_id "refresh" "blocked"
    raise err_token_revoked

  -- The transaction that swaps the old token for the new one.
  unfoldable pub swap_tokens : String → Found → Issued → Action W AuthDb (Unit {0})
  swap_tokens hash found issued = do
    revoke_by_token_hash now hash "rotated"
    token_create (new_token found.session.id issued.token_hash found.token.token_family)

  unfoldable pub answer : Found → Issued → Action W AuthDb (TokenPair Settings)
  unfolding record_attempt
  answer found issued = do
    settings ← ask (k.settings_of found.session.user_id)
    record_attempt found.owner.email found.session.user_id "refresh" "success"
    pure (token_pair issued found.owner settings)

  unfoldable pub rotate_with : String → Found → Issued → Action W AuthDb (TokenPair Settings)
  rotate_with hash found issued = do with_tx (swap_tokens hash found issued); answer found issued

  unfoldable pub rotate : String → Found → Action W AuthDb (TokenPair Settings)
  rotate hash found = do issued ← issue_token_pair found.session; rotate_with hash found issued

  -- `RefreshTokens`, once the token is found.
  unfoldable pub refresh_found : String → Found → Action W AuthDb (TokenPair Settings)
  refresh_found hash found =
      if is_token_revoked found.token
      then punish_reuse found
      else if is_expired now found.token
      then (do
        record_attempt found.owner.email found.session.user_id "refresh" "not_found"
        raise err_invalid_token)
      else if not (is_valid now cfg.max_inactivity_timeout found.session)
      then raise err_session_not_found
      else rotate hash found

  unfoldable pub refresh_lookup : Result Found → String → Action W AuthDb (TokenPair Settings)
  refresh_lookup (ok found) hash = refresh_found hash found
  refresh_lookup (err _) hash = do
    record_attempt [] 0 "refresh" "not_found"
    raise err_invalid_token

  unfoldable pub refresh_tokens : String → Action W AuthDb (TokenPair Settings)
  refresh_tokens refresh_token c =
      let (r, c') = find_by_token_hash (k.hash_token refresh_token) c in
      refresh_lookup r (k.hash_token refresh_token) c'
