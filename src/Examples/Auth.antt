-- ===== src/Examples/Auth.antt =====
-- The sessions and tokens of internal/auth on a small table.
use go_grpc_starter.Prelude.{
  ℕ, zero, suc, ◌≡◌, ◌≢◌, refl, String, true, false, Option, none, some, [], ◌∷◌, All, arith, find,
  any, filter, ◌==◌, str_eq,
}
use go_grpc_starter.Errs.{ok, err}
use go_grpc_starter.Store.{Conn, run, query, constrained_query, with_tx}
use go_grpc_starter.Store.Calm.{IsCalm}
use go_grpc_starter.Users.Entity.{User, active, user}
use go_grpc_starter.Auth.Entity.{
  DeviceSession, RefreshToken, DeviceInfo, TokenPair, err_token_revoked, is_token_revoked,
  is_expired, is_valid, is_revoked, is_inactive, to_session,
}
use go_grpc_starter.Auth.Tables.{
  AuthDb, is_live, is_open, token_by_hash, get_device_session_by_id, get_user_by_id,
  create_refresh_token, create_device_session, revoke_tokens_where, revoke_sessions_where,
  revoke_device_session, update_where, is_active_device, list_active_devices, latest_first,
  insert_latest,
}
use go_grpc_starter.Auth.Repository.{
  find_by_token_hash, revoke_by_token_hash, token_create, session_create, session_revoke,
  revoke_active_by_device_id, revoke_by_session_id, find_active_devices_by_user,
}
use go_grpc_starter.Auth.Session.{
  Collaborators, AuthConfig, evict_oldest_if_over_limit, evict_listed, evict_rows, evict_loop,
  revoke_session_and_tokens, drop_tokens,
}
use go_grpc_starter.Auth.Tokens.{
  refresh_tokens, create_session_and_tokens, refresh_lookup, refresh_found, rotate, rotate_with,
  swap_tokens, answer, issue_token_pair, record_attempt, generate_token_pair, first_tokens,
  start_session, clear_device, open_session, finish_session, create_evicted,
}
use go_grpc_starter.Auth.Rotation.{Refreshed, refresh_tokens_ok}
use go_grpc_starter.Auth.Once.{IsDated, refresh_tokens_once}
use go_grpc_starter.Auth.Reuse.{refresh_tokens_reuse}
use go_grpc_starter.Auth.Create.{Opens, create_session-Opens}

-- The outside world counts the random values drawn.
abbrev random : ℕ → String
random zero = "r0"
random (suc _) = "r1"

abbrev pub collaborators : Collaborators ℕ ℕ
collaborators = record {
  generate_access = λ _ _ _ w. (ok "access", w);
  revoke_access = λ _ w. (ok tt, w);
  generate_refresh = λ w. (ok (random w, random w), suc w);
  new_family = λ w. ("family", w);
  hash_token = λ t. t;
  cache_session = λ _ w. w;
  drop_session = λ _ w. w;
  settings_of = λ _ w. (none, w);
  publish = λ _ w. w;
}

abbrev pub config : AuthConfig
config = record {
  max_inactivity_timeout = 100;
  max_devices_per_user = 2;
  access_token_expiry = 10;
  refresh_token_expiry = 1000;
}

abbrev pub ada : User
ada = record {
  id = 1;
  email = 97 ∷ [];
  password_hash = "hash";
  first_name = "Ada";
  last_name = "L";
  avatar = "";
  bio = "";
  status = active;
  role = user;
  email_verified_at = none;
  last_login_at = none;
  deleted_at = none;
}

abbrev pub session : ℕ → String → DeviceSession
session id device = record {
  id = id;
  user_id = 1;
  platform = "ios";
  manufacturer = "";
  model = "";
  name = "";
  device_id = device;
  ip_address = "";
  user_agent = "";
  last_activity = 50;
  revoked_at = none;
  revoked_reason = "";
}

abbrev pub token : String → Option ℕ → RefreshToken
token hash revoked_at = record {
  session_id = 1;
  token_hash = hash;
  token_family = "old";
  expires_at = 500;
  revoked_at = revoked_at;
  revoked_reason = "";
}

abbrev pub start : Conn ℕ AuthDb
start = record {
  db = record {
    users = ada ∷ [];
    sessions = session 1 "phone" ∷ session 2 "tablet" ∷ [];
    tokens = token "fresh" none ∷ token "spent" (some 40) ∷ [];
    settings = [];
    next_session = 3;
    next_user = 2;
  };
  outside = 0;
  in_tx = false;
  aborted = false;
  clock = 0;
  faults = λ _. false;
}

abbrev pub pair : String → TokenPair ℕ
pair refresh = record {
  access_token = "access";
  refresh_token = refresh;
  expires_in = 10;
  user = ada;
  settings = none;
}

abbrev pub phone : DeviceInfo
phone = record {
  device_id = "phone";
  name = "";
  platform = "ios";
  model = "";
  manufacturer = "";
  ip_address = "";
  user_agent = "";
}

refresh_succeeds : (refresh_tokens collaborators config 60 "fresh" start).0 ≡ ok (pair "r0")
unfolding refresh_tokens refresh_lookup refresh_found rotate rotate_with swap_tokens answer
    issue_token_pair record_attempt find_by_token_hash revoke_by_token_hash token_create run query
    constrained_query with_tx token_by_hash find get_device_session_by_id get_user_by_id
    is_token_revoked is_expired is_valid is_revoked is_inactive create_refresh_token
    revoke_tokens_where update_where any
refresh_succeeds = refl

create_succeeds :
    (create_session_and_tokens collaborators config 60 ada phone none start).0 ≡ ok (pair "r0")
unfolding create_session_and_tokens evict_oldest_if_over_limit evict_listed evict_rows evict_loop
    revoke_session_and_tokens drop_tokens create_evicted open_session clear_device start_session
    finish_session first_tokens generate_token_pair issue_token_pair session_create session_revoke
    revoke_active_by_device_id revoke_by_session_id find_active_devices_by_user token_create
    create_refresh_token create_device_session to_session revoke_device_session revoke_tokens_where
    revoke_sessions_where update_where list_active_devices latest_first insert_latest
    is_active_device run query constrained_query with_tx find any filter
create_succeeds = refl

after_idle : (refresh_tokens collaborators config 60 "fresh" start).1.in_tx ≡ false
unfolding refresh_tokens refresh_lookup refresh_found rotate rotate_with swap_tokens answer
    issue_token_pair record_attempt find_by_token_hash revoke_by_token_hash token_create run query
    constrained_query with_tx token_by_hash find get_device_session_by_id get_user_by_id
    is_token_revoked is_expired is_valid is_revoked is_inactive create_refresh_token
    revoke_tokens_where update_where any
after_idle = refl

dated : All IsDated start.db.tokens
dated = ground arith

calm : IsCalm start
calm = record { no_faults = λ _. refl; sound = refl }

refresh_tokens_once_example :
    (refresh_tokens collaborators config 61 "fresh"
      (refresh_tokens collaborators config 60 "fresh" start).1).0
    ≢ ok (pair "r1")
refresh_tokens_once_example =
    refresh_tokens_once collaborators config 60 61 "fresh" start
      (refresh_tokens collaborators config 60 "fresh" start).1 (ground arith) refl after_idle dated
      refresh_succeeds refl

refresh_tokens_ok_example :
    Refreshed collaborators config 60 "fresh" start.db
      (refresh_tokens collaborators config 60 "fresh" start).1.db
refresh_tokens_ok_example =
    refresh_tokens_ok collaborators config 60 "fresh" start refl refresh_succeeds

refresh_tokens_reuse_example :
    ((refresh_tokens collaborators config 60 "spent" start).0 ≡ err err_token_revoked)
    × All
        (λ (x : RefreshToken). str_eq x.token_family "old" ≡ true → is_live x ≡ false)
        (refresh_tokens collaborators config 60 "spent" start).1.db.tokens
    × All
        (λ (x : DeviceSession). (x.id == 1) ≡ true → is_open x ≡ false)
        (refresh_tokens collaborators config 60 "spent" start).1.db.sessions
unfolding token_by_hash get_device_session_by_id get_user_by_id find is_token_revoked
refresh_tokens_reuse_example =
    refresh_tokens_reuse collaborators config 60 "spent" (token "spent" (some 40))
      (session 1 "phone") ada start calm refl refl refl refl refl

create_session-Opens_example :
    (s : DeviceSession) × Opens collaborators config 60 ada phone s
      (create_session_and_tokens collaborators config 60 ada phone none start).1.db
create_session-Opens_example =
    create_session-Opens collaborators config 60 ada phone none start refl create_succeeds
