-- ===== src/Examples/Lockout.antt =====
-- The codes and the counter of internal/auth on the server of Examples/Server.
use go_grpc_starter.Prelude.{
  ℕ, String, ◌≡◌, ◌≢◌, refl, Option, none, some, List, [], ◌∷◌, arith, length, leb, false,
  str_append,
}
use go_grpc_starter.Errs.{ok, err}
use go_grpc_starter.Store.{Conn, run, query, with_tx}
use go_grpc_starter.Redis.{set_of}
use go_grpc_starter.Redis.Reach.{Reach}
use go_grpc_starter.Cache.{
  build_key, then_send, add_tags, set_text, set, get_del, password_reset_key, rate_limit_key,
}
use go_grpc_starter.Auth.Tables.{AuthDb, revoke_sessions_where, update_where}
use go_grpc_starter.Auth.Repository.{revoke_all_by_user_id}
use go_grpc_starter.Auth.Users.{update_users, update_password_hash, set_password_hash}
use go_grpc_starter.Auth.Session.{Collaborators, Attempt}
use go_grpc_starter.Auth.Login.{Accounts, LoginLimiter, login, err_too_many_attempts}
use go_grpc_starter.Auth.Password.{
  validate_password, take_reset_code, reset_account, reset_with_code, reset_password,
}
use go_grpc_starter.Auth.Cached.{cached, login_key}
use go_grpc_starter.Auth.Codes.{reset_password_once}
use go_grpc_starter.Auth.Lockout.Count.{IsUp}
use go_grpc_starter.Auth.Lockout.Locked.{tries, lockout_holds}
use go_grpc_starter.Examples.Auth.{config, start, phone}
use go_grpc_starter.Examples.Server.{Server, server, works, empty, written, unary, incremented}
use go_grpc_starter.Examples.Cache.{numbers}

abbrev collaborators : Collaborators Server ℕ
collaborators = record {
  generate_access = λ _ _ _ r. (ok "access", r);
  revoke_access = λ _ r. (ok tt, r);
  generate_refresh = λ r. (ok ("r", "r"), r);
  new_family = λ r. ("family", r);
  hash_token = λ t. t;
  cache_session = λ _ r. r;
  drop_session = λ _ r. r;
  settings_of = λ _ r. (none, r);
  publish = λ _ r. r;
}

-- A password is right if it has at most eight bytes.
abbrev accounts : Accounts Server
accounts = record {
  normalize_email = λ e. e;
  verify_password = λ _ plain. leb (length plain) 8;
  hash_password = λ _ r. (ok "new hash", r);
  counter = λ _ r. (ok 0, r);
  increment = λ _ _ r. r;
  reset_counter = λ _ r. r;
  new_code = λ r. ("code", r);
  put_verification = λ _ _ r. (ok tt, r);
  take_verification = λ _ r. (ok none, r);
  put_reset = λ _ _ r. (ok tt, r);
  take_reset = λ _ r. (ok none, r);
  send_verification_email = λ _ _ r. r;
  send_reset_email = λ _ _ r. r;
}

abbrev letters : List ℕ → String
letters [] = ""
letters (_ ∷ xs) = str_append "a" (letters xs)

abbrev eight : List ℕ
eight = 1 ∷ 2 ∷ 3 ∷ 4 ∷ 5 ∷ 6 ∷ 7 ∷ 8 ∷ []

abbrev nine : List ℕ
nine = 9 ∷ eight

abbrev with_code : Server
with_code =
    (set server "app" numbers (password_reset_key "code") 1 (record { ttl = 3600; tags = [] })
      empty).1

abbrev on : Server → Conn Server AuthDb
on r = record {
  db = start.db;
  outside = r;
  in_tx = false;
  aborted = false;
  clock = 0;
  faults = λ _. false;
}

abbrev backed : Accounts Server
backed = cached server "app" numbers letters accounts

reset_succeeds :
    (reset_password collaborators backed config 60 "code" eight (on with_code)).0 ≡ ok tt
unfolding reset_password reset_with_code reset_account take_reset_code validate_password
    update_password_hash set_password_hash update_users revoke_all_by_user_id revoke_sessions_where
    update_where run query with_tx cached password_reset_key set set_text add_tags then_send get_del
    build_key written unary
reset_succeeds = refl

reset_password_once_example :
    (reset_password collaborators backed config 70 "code" eight
      (on (backed.take_reset "code" with_code).1)).0
    ≢ ok tt
reset_password_once_example =
    reset_password_once collaborators accounts config server works "app" numbers letters 60 70
      "code" eight eight (on with_code) (on (backed.take_reset "code" with_code).1) reset_succeeds
      Reach.here

answers : IsUp server works
answers = record {
  get_up = λ k r. (_, refl);
  incr_up = λ k r m e. incremented_up k r _ m e;
  expire_nx_up = λ k t r. refl;
}
  where
    incremented_up :
        (k : String) (r : Server) (o : Option ℕ) (m : ℕ)
        → o ≡ some m
        → (n : ℕ) × ((incremented k r o).0 ≡ ok n)
    incremented_up k r none m e = cc
    incremented_up k r (some x) m e = (_, refl)

abbrev limiter : LoginLimiter
limiter = record { max_attempts = 2; window = 900 }

-- Each attempt is queued in the same Redis.
abbrev queue_key : String
queue_key = "asynq:{events}:pending"

abbrev queueing : Collaborators Server ℕ
queueing = record collaborators {
  publish = λ _ r. written queue_key (some (record { value = set_of ("task" ∷ []); ttl = none })) r;
}

queue_apart :
    (att : Attempt) (r : Server)
    → queueing.publish att r (build_key "app" (login_key letters (97 ∷ [])))
      ≡ r (build_key "app" (login_key letters (97 ∷ [])))
unfolding written build_key login_key rate_limit_key
queue_apart att r = refl

-- The right password, after two wrong ones
lockout_holds_example :
    (login queueing backed limiter config 60 (97 ∷ []) eight phone (
      tries queueing accounts limiter config 60 server works "app" numbers letters
        (97 ∷ [])
        phone
        (nine ∷ nine ∷ [])
        (on empty))).0
    ≡ err err_too_many_attempts
lockout_holds_example =
    lockout_holds queueing accounts limiter config 60 server works "app" numbers letters answers
      (97 ∷ []) phone queue_apart (nine ∷ nine ∷ []) eight (on empty) refl
      ((λ _ _. refl), ((λ _ _. refl), tt)) (omega arith)
