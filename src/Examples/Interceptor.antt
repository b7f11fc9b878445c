-- ===== src/Examples/Interceptor.antt =====
-- Calls through the chain of internal/interceptor on the tables of Examples/Auth.
use go_grpc_starter.Prelude.{
  ℕ, suc, String, ◌≡◌, ◌≢◌, ◌⊎◌, if◌then◌else◌, refl, none, some, [], ◌∷◌, arith, any, find, leb,
  str_eq, All,
}
use go_grpc_starter.Errs.{ok, GoError, other}
use go_grpc_starter.Store.{Conn, run, query, with_tx}
use go_grpc_starter.Auth.Tables.{
  AuthDb, get_device_session_by_id, get_user_by_id, revoke_sessions_where, update_where,
}
use go_grpc_starter.Auth.Repository.{
  session_find_by_id, revoke_all_by_user_id, find_active_devices_by_user,
}
use go_grpc_starter.Auth.Session.{revoke_all_sessions}
use go_grpc_starter.Interceptor.{Context, returned, panicked, Server, Set, is_public}
use go_grpc_starter.Interceptor.Header.{Metadata, cut, bearer_token}
use go_grpc_starter.Interceptor.Chain.{Handler}
use go_grpc_starter.Interceptor.Unary.{called, inner, unary, authenticate}
use go_grpc_starter.Interceptor.Bearer.{bearer_token_iff}
use go_grpc_starter.Interceptor.Guard.{Admits, unary_guards}
use go_grpc_starter.Interceptor.Answer.{Counted, Leaked, unary_counts}
use go_grpc_starter.Interceptor.Opaque.{seen, unary_opaque}
use go_grpc_starter.Users.Entity.{User, suspended, is_active}
use go_grpc_starter.Store.Calm.{IsCalm}
use go_grpc_starter.Auth.Entity.{DeviceSession, is_revoked, is_inactive}
use go_grpc_starter.Auth.Users.{
  set_status, update_status, soft_delete_user, soft_delete_by_id, update_users,
  update_password_hash, set_password_hash,
}
use go_grpc_starter.Auth.Password.{
  validate_password, take_reset_code, reset_account, reset_with_code, reset_password,
}
use go_grpc_starter.Auth.Ended.{IsStamped}
use go_grpc_starter.Interceptor.Ended.{reset_password_shuts}
use go_grpc_starter.Interceptor.Stream.{Receive, stream, unvalidated, validating, stream_mirrors}
use go_grpc_starter.Users.Service.{UserCollaborators, delete_account}
use go_grpc_starter.Interceptor.Shut.{status_shuts, delete_account_shuts}
use go_grpc_starter.Examples.Auth.{start, ada, session, config, collaborators}
use go_grpc_starter.Examples.Account.{accounts, eight}

-- `Bearer t`
abbrev bearer_t : Metadata
bearer_t key =
    if str_eq key "authorization"
    then ((66 ∷ 101 ∷ 97 ∷ 114 ∷ 101 ∷ 114 ∷ 32 ∷ 116 ∷ []) ∷ [])
    else []

bearer_token_iff_example : bearer_token (some bearer_t) ≡ ok (116 ∷ [])
bearer_token_iff_example =
    (bearer_token_iff bearer_t (116 ∷ [])).1 (66 ∷ 101 ∷ 97 ∷ 114 ∷ 101 ∷ 114 ∷ [], [], refl, refl)

abbrev set : Set ℕ ℕ
set = record {
  validate_token =
      λ _ w. (ok (record { session_id = 1; user_id = 1; device_id = "phone"; issued_at = 40 }), w);
  max_inactivity_timeout = 100;
  locale = none;
  validator = none;
  new_uuid = λ w. ("id", suc w);
  bytes_text = λ _. "t";
}

abbrev call : Context
call = record { metadata = some bearer_t; request_id = ""; language = ""; subject = none }

abbrev idle : Server ℕ
idle = record { conn = start; in_flight = 0; requests = []; log = [] }

abbrev me : String
me = "/user.v1.UserService/GetMe"

unary_guards_example :
    (Admits set 60 ℕ me (called set 60 call idle).0 5 (called set 60 call idle).1
      × ((called set 60 call idle).1.conn.db ≡ idle.conn.db))
    ⊎ ((g h : Handler ℕ ℕ ℕ GoError)
        → unary set 60 me g call 5 idle ≡ unary set 60 me h call 5 idle)
unfolding is_public any
unary_guards_example = unary_guards set 60 me call 5 idle refl

abbrev fails : String → Handler ℕ ℕ ℕ GoError
fails text _ _ s = (returned none (some (other text)), s)

unary_opaque_example :
    seen set 60 (unary set 60 me (fails "disk full") call 5 idle)
    ≡ seen set 60 (unary set 60 me (fails "no route") call 5 idle)
unary_opaque_example =
    unary_opaque set 60 (fails "disk full") (fails "no route") (λ _ _ _. (refl, refl)) me call 5
      idle

abbrev panics : Handler ℕ ℕ ℕ GoError
panics _ _ s = (panicked, s)

unary_counts_example :
    (((inner set 60 me panics (called set 60 call idle).0 5 (called set 60 call idle).1).0
        ≢ panicked)
      × Counted set 60 me idle (unary set 60 me panics call 5 idle))
    ⊎ (((inner set 60 me panics (called set 60 call idle).0 5 (called set 60 call idle).1).0
          ≡ panicked)
        × Leaked set 60 idle (unary set 60 me panics call 5 idle))
unary_counts_example = unary_counts set 60 me call 5 idle panics (λ _ _ _. (refl, refl))

abbrev bob : User
bob = record ada { id = 2; email = 98 ∷ [] }

abbrev shared : Conn ℕ AuthDb
shared = record start {
  db = record start.db {
    users = ada ∷ bob ∷ [];
    sessions = session 1 "phone" ∷ record (session 2 "tablet") { user_id = 2 } ∷ [];
  };
}

abbrev of_bob : Set ℕ ℕ
of_bob = record set {
  validate_token =
      λ _ w. (ok (record { session_id = 2; user_id = 2; device_id = "tablet"; issued_at = 40 }), w);
}

calm : IsCalm shared
calm = record { no_faults = λ _. refl; sound = refl }

abbrev after : Conn ℕ AuthDb
after = (reset_password collaborators accounts config 60 "code" eight shared).1

abbrev bobs_session : DeviceSession
bobs_session = record (session 2 "tablet") { user_id = 2 }

bob_enters : (authenticate of_bob 70 call after).0 ≡ ok (bobs_session, bob)
unfolding authenticate bearer_token cut session_find_by_id get_device_session_by_id get_user_by_id
    find is_revoked is_inactive is_active reset_password reset_with_code reset_account
    take_reset_code validate_password update_password_hash set_password_hash update_users
    revoke_all_by_user_id revoke_sessions_where update_where run query with_tx
bob_enters = refl

shared_reset : (reset_password collaborators accounts config 60 "code" eight shared).0 ≡ ok tt
unfolding reset_password reset_with_code reset_account take_reset_code validate_password
    update_password_hash set_password_hash update_users revoke_all_by_user_id revoke_sessions_where
    update_where run query with_tx
shared_reset = refl

stamped : All IsStamped after.db.sessions
unfolding reset_password reset_with_code reset_account take_reset_code validate_password
    update_password_hash set_password_hash update_users revoke_all_by_user_id revoke_sessions_where
    update_where run query with_tx
stamped = ground arith

reset_password_shuts_example : bobs_session.user_id ≢ 1
reset_password_shuts_example =
    reset_password_shuts collaborators accounts config of_bob 60 70 1 "code" eight shared after call
      calm shared_reset refl refl stamped bob_enters

abbrev suspended_ada : Conn ℕ AuthDb
suspended_ada = (update_status 1 suspended shared).1

status_shuts_example : bobs_session.user_id ≢ 1
unfolding authenticate bearer_token cut session_find_by_id get_device_session_by_id get_user_by_id
    find is_revoked is_inactive is_active update_status set_status update_users update_where run
    query with_tx
status_shuts_example =
    status_shuts of_bob 70 1 suspended shared suspended_ada call (λ e. cc) refl refl
      (refl {a = ok (bobs_session, bob)})

abbrev users : UserCollaborators ℕ
users = record {
  storage = none;
  new_uuid = λ w. ("u", w);
  decimal = λ _. "1";
  publish_account_deleted = λ _ _ w. (ok tt, w);
}

-- The database fails once the account is marked, so its sessions are not revoked.
abbrev failing : Conn ℕ AuthDb
failing = record shared { faults = λ n. leb 4 n }

abbrev without_ada : Conn ℕ AuthDb
without_ada = record shared {
  db = record shared.db { users = record ada { deleted_at = some 60 } ∷ bob ∷ [] };
}

deleted :
    ((delete_account collaborators users config 60 1 failing).0 ≡ ok tt)
    × (without_ada.db ≡ (delete_account collaborators users config 60 1 failing).1.db)
unfolding delete_account soft_delete_by_id soft_delete_user revoke_all_sessions
    find_active_devices_by_user update_where run query with_tx
deleted = (refl, refl)

enters : (authenticate of_bob 70 call without_ada).0 ≡ ok (bobs_session, bob)
unfolding authenticate bearer_token cut session_find_by_id get_device_session_by_id get_user_by_id
    find is_revoked is_inactive is_active run query with_tx
enters = refl

delete_account_shuts_example : bobs_session.user_id ≢ 1
delete_account_shuts_example =
    delete_account_shuts of_bob collaborators users config 60 1 70 failing without_ada call
      deleted.0 deleted.1 enters

abbrev upload : String
upload = "/user.v1.UserService/UploadAvatar"

abbrev receives : Receive ℕ ℕ
receives s = (ok 7, s)

-- A handler that reads one message
abbrev reads_one : Handler ℕ (Receive ℕ ℕ) (Unit {0}) GoError
reads_one _ recv s = let (m, s') = recv s in (returned (some tt) none, s')

stream_mirrors_example :
    stream set 60 upload reads_one call receives idle
    ≡ unary
        (unvalidated set 60)
        60
        upload
        (λ c recv. reads_one c (validating set 60 recv))
        call
        receives
        idle
stream_mirrors_example = stream_mirrors set 60 upload reads_one call receives idle refl
