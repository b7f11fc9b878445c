-- ===== src/Maintenance.antt =====
-- internal/maintenance/sweeper.go over the statements of internal/store/query that it runs.
pub mod Sweep
use go_grpc_starter.Prelude.{
  ℕ, ◌-◌, String, Bool, not, ◌||◌, Option, none, some, false, List, [], ◌∷◌, filter, length, ltb,
}
use go_grpc_starter.Errs.{Result, ok, err}
use go_grpc_starter.Store.{Conn, query, run}
use go_grpc_starter.Auth.Entity.{RefreshToken}
use go_grpc_starter.Auth.Tables.{AuthDb}
use go_grpc_starter.Event.Outbox.Table.{OutboxEvent, Outbox}

-- The columns of auth.login_attempts that matter here
pub record LoginAttempt : Type 0 where
  pub email : List ℕ
  pub created_at : ℕ

pub record Tables : Type 0 where
  pub auth : AuthDb
  pub outbox : Outbox
  pub attempts : List LoginAttempt

pub record Retention : Type 0 where
  pub refresh_tokens : ℕ
  pub processed_outbox : ℕ
  pub login_attempts : ℕ

-- The counter of deleted rows, and the jobs whose failure was logged, the latest first
pub record Report : Type 0 where
  pub deleted : List (String × ℕ)
  pub failed : List String

abbrev pub is_before : ℕ → Option ℕ → Bool
is_before t none = false
is_before t (some s) = ltb s t

unfoldable pub is_stale_token : ℕ → RefreshToken → Bool
is_stale_token before t = ltb t.expires_at before || is_before before t.revoked_at

unfoldable pub is_old_row : ℕ → OutboxEvent → Bool
is_old_row before row = is_before before row.processed_at

unfoldable pub is_old_attempt : ℕ → LoginAttempt → Bool
is_old_attempt before a = ltb a.created_at before

-- `DELETE … WHERE p`, with the number of rows deleted
unfoldable pub delete_where {ℓ} : {A : Type ℓ} → (A → Bool) → List A → ℕ × List A
unfolding filter
delete_where p xs = (length (filter p xs), filter (λ x. not (p x)) xs)

unfoldable pub delete_stale_refresh_tokens : ℕ → Tables → ℕ × Tables
unfolding is_stale_token delete_where
delete_stale_refresh_tokens before o =
    let (n, rows) = delete_where (is_stale_token before) o.auth.tokens in
    (n, record o { auth = record o.auth { tokens = rows } })

unfoldable pub delete_processed_outbox_before : ℕ → Tables → ℕ × Tables
unfolding is_old_row delete_where
delete_processed_outbox_before before o =
    let (n, rows) = delete_where (is_old_row before) o.outbox.rows in
    (n, record o { outbox = record o.outbox { rows = rows } })

unfoldable pub delete_login_attempts_before : ℕ → Tables → ℕ × Tables
unfolding is_old_attempt delete_where
delete_login_attempts_before before o =
    let (n, rows) = delete_where (is_old_attempt before) o.attempts in
    (n, record o { attempts = rows })

abbrev noted : String → Result ℕ → Report → Report
noted job (ok n) r = record r { deleted = (job, n) ∷ r.deleted }
noted job (err _) r = record r { failed = job ∷ r.failed }

-- `run` of the sweeper
unfoldable pub run_job : String → (Tables → ℕ × Tables) → Conn Report Tables → Conn Report Tables
run_job job del c =
    let (n, c') = run (query del) c in record c' { outside = noted job n c'.outside }

-- `sweep`; a time before the zero time is the zero time here, and no row is older than either.
unfoldable pub sweep : Retention → ℕ → Conn Report Tables → Conn Report Tables
unfolding run_job delete_stale_refresh_tokens delete_processed_outbox_before
    delete_login_attempts_before
sweep cfg now c =
    run_job "login_attempts" (delete_login_attempts_before (now - cfg.login_attempts)) (
      run_job "processed_outbox" (delete_processed_outbox_before (now - cfg.processed_outbox))
        (run_job "refresh_tokens" (delete_stale_refresh_tokens (now - cfg.refresh_tokens)) c))
