-- ===== src/Examples/Account.antt =====
-- `Login` and `ResetPassword` of internal/auth on the small table of Examples/Auth.
use go_grpc_starter.Prelude.{
  All, ◌<◌, ◌≢◌, none, arith, ℕ, ◌≡◌, refl, some, List, [], ◌∷◌, find, any, filter, length, leb,
  ◌⊎◌,
}
use go_grpc_starter.Errs.{GoError, ok, err}
use go_grpc_starter.Store.{Conn, run, query, constrained_query, with_tx}
use go_grpc_starter.Store.Calm.{IsCalm}
use go_grpc_starter.Users.Entity.{is_active}
use go_grpc_starter.Auth.Entity.{DeviceSession, to_session, err_invalid_credentials}
use go_grpc_starter.Auth.Tables.{
  AuthDb, token_by_hash, get_device_session_by_id, create_refresh_token, create_device_session,
  revoke_tokens_where, revoke_sessions_where, revoke_device_session, update_where, is_active_device,
  list_active_devices, latest_first, insert_latest,
}
use go_grpc_starter.Auth.Repository.{
  token_create, session_create, session_revoke, revoke_active_by_device_id, revoke_by_session_id,
  revoke_all_by_user_id, find_active_devices_by_user,
}
use go_grpc_starter.Auth.Users.{
  get_user_by_email, find_by_email, update_last_login, set_last_login, update_users,
  update_password_hash, set_password_hash,
}
use go_grpc_starter.Auth.Session.{
  evict_oldest_if_over_limit, evict_listed, evict_rows, evict_loop, revoke_session_and_tokens,
  drop_tokens,
}
use go_grpc_starter.Auth.Tokens.{
  refresh_tokens, create_session_and_tokens, issue_token_pair, record_attempt, generate_token_pair,
  first_tokens, start_session, clear_device, open_session, finish_session, create_evicted,
}
use go_grpc_starter.Auth.Login.{
  Accounts, LoginLimiter, new_login_limiter, blocked, finish_login, admit, login_found,
  login_lookup, login_open, login_checked, login,
}
use go_grpc_starter.Auth.Password.{
  validate_password, take_reset_code, reset_account, reset_with_code, reset_password,
}
use go_grpc_starter.Auth.Distinct.{IsDistinct}
use go_grpc_starter.Auth.Evict.{active_count}
use go_grpc_starter.Auth.Limit.{evict_oldest_below}
use go_grpc_starter.Auth.Admit.{Admitted, login_ok}
use go_grpc_starter.Auth.Refuse.{login_refuses}
use go_grpc_starter.Auth.Ended.{IsStamped, reset_password_ends}
use go_grpc_starter.Examples.Auth.{token, session, collaborators, config, start, pair, phone}

-- A password is right if it has at most eight bytes; three logins have failed.
abbrev pub accounts : Accounts ℕ
accounts = record {
  normalize_email = λ e. e;
  verify_password = λ _ plain. leb (length plain) 8;
  hash_password = λ _ w. (ok "new hash", w);
  counter = λ _ w. (ok 3, w);
  increment = λ _ _ w. w;
  reset_counter = λ _ w. w;
  new_code = λ w. ("code", w);
  put_verification = λ _ _ w. (ok tt, w);
  take_verification = λ _ w. (ok (some 1), w);
  put_reset = λ _ _ w. (ok tt, w);
  take_reset = λ _ w. (ok (some 1), w);
  send_verification_email = λ _ _ w. w;
  send_reset_email = λ _ _ w. w;
}

abbrev limiter : LoginLimiter
limiter = record { max_attempts = 10; window = 900 }

default_limits : new_login_limiter 0 0 ≡ limiter
unfolding new_login_limiter
default_limits = refl

abbrev pub eight : List ℕ
eight = 1 ∷ 2 ∷ 3 ∷ 4 ∷ 5 ∷ 6 ∷ 7 ∷ 8 ∷ []

abbrev nine : List ℕ
nine = 0 ∷ eight

login_succeeds :
    (login collaborators accounts limiter config 60 (97 ∷ []) eight phone start).0 ≡ ok (pair "r0")
unfolding login login_checked login_open login_lookup login_found admit finish_login blocked
    is_active find_by_email get_user_by_email update_last_login set_last_login update_users
    create_session_and_tokens evict_oldest_if_over_limit evict_listed evict_rows evict_loop
    revoke_session_and_tokens drop_tokens create_evicted open_session clear_device start_session
    finish_session first_tokens generate_token_pair issue_token_pair record_attempt session_create
    session_revoke revoke_active_by_device_id revoke_by_session_id find_active_devices_by_user
    token_create create_refresh_token create_device_session to_session revoke_device_session
    revoke_tokens_where revoke_sessions_where update_where list_active_devices latest_first
    insert_latest is_active_device run query constrained_query with_tx find any filter
login_succeeds = refl

login_ok_example :
    (((n : ℕ) × ((accounts.counter (97 ∷ []) 0).0 ≡ ok n) × (n < limiter.max_attempts))
      ⊎ ((e : GoError) × ((accounts.counter (97 ∷ []) 0).0 ≡ err e)))
    × Admitted collaborators accounts limiter config 60
        (97 ∷ [])
        eight
        phone
        start.db
        (login collaborators accounts limiter config 60 (97 ∷ []) eight phone start).1.db
login_ok_example =
    login_ok collaborators accounts limiter config 60 (97 ∷ []) eight phone start refl
      login_succeeds

login_refuses_example :
    ((login collaborators accounts limiter config 60 (97 ∷ []) nine phone start).0
      ≡ err err_invalid_credentials)
    × ((login collaborators accounts limiter config 60 (97 ∷ []) nine phone start).1.db ≡ start.db)
login_refuses_example =
    login_refuses collaborators accounts limiter config 60 (97 ∷ []) nine phone start refl
      (λ _ _. refl)

calm : IsCalm start
calm = record { no_faults = λ _. refl; sound = refl }

reset_succeeds : (reset_password collaborators accounts config 60 "code" eight start).0 ≡ ok tt
unfolding reset_password reset_with_code reset_account take_reset_code validate_password
    update_password_hash set_password_hash update_users revoke_all_by_user_id revoke_sessions_where
    update_where run query with_tx
reset_succeeds = refl

distinct : IsDistinct start.db.sessions
distinct = ground arith

evict_oldest_below_example :
    active_count 60 100 1 (evict_oldest_if_over_limit collaborators config 60 1 start).1.db.sessions
    < 2
evict_oldest_below_example =
    evict_oldest_below 60 1 collaborators config start calm refl (omega arith) distinct

two_before : active_count 60 100 1 start.db.sessions ≡ 2
unfolding active_count filter is_active_device
two_before = refl

abbrev after_reset : Conn ℕ AuthDb
after_reset = (reset_password collaborators accounts config 60 "code" eight start).1

stamped : All IsStamped after_reset.db.sessions
unfolding reset_password reset_with_code reset_account take_reset_code validate_password
    update_password_hash set_password_hash update_users revoke_all_by_user_id revoke_sessions_where
    update_where run query with_tx
stamped = ground arith

abbrev ended : DeviceSession
ended = record (session 1 "phone") { revoked_at = some 60; revoked_reason = "password_reset" }

reset_password_ends_example :
    (refresh_tokens collaborators config 70 "fresh" after_reset).0 ≢ ok (pair "r0")
unfolding reset_password reset_with_code reset_account take_reset_code validate_password
    update_password_hash set_password_hash update_users revoke_all_by_user_id revoke_sessions_where
    update_where run query with_tx token_by_hash get_device_session_by_id find
reset_password_ends_example =
    reset_password_ends collaborators config accounts 60 70 "code" eight start after_reset "fresh"
      (token "fresh" none) ended calm reset_succeeds refl refl stamped refl refl refl
