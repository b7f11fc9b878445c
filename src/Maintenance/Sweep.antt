-- ===== src/Maintenance/Sweep.antt =====
-- What a sweep of internal/maintenance/sweeper.go leaves.
use go_grpc_starter.Prelude.{
  ℕ, ◌-◌, ◌≡◌, refl, sym, subst, ap, ◌∙◌, inl, inr, String, Bool, true, false, not, some, List, [],
  ◌∷◌, filter, find, take, Bool-cases, arith,
}
use go_grpc_starter.Store.{Conn}
use go_grpc_starter.Store.Inversion.{run-query-db}
use go_grpc_starter.Auth.Entity.{RefreshToken}
use go_grpc_starter.Auth.Tables.{token_by_hash}
use go_grpc_starter.Event.Outbox.Table.{OutboxEvent, is_pending, order_rows, pending_outbox_batch}
use go_grpc_starter.Maintenance.{
  Tables, Retention, Report, is_stale_token, is_old_row, delete_where, delete_stale_refresh_tokens,
  delete_processed_outbox_before, delete_login_attempts_before, run_job, sweep,
}

module _ {A : Type 0} where
  -- The rows that are not deleted are found, and listed, as before.
  find-kept :
      (p q : A → Bool) (xs : List A) (a : A)
      → find p xs ≡ some a
      → q a ≡ false
      → find p (filter (λ x. not (q x)) xs) ≡ some a
  unfolding find filter
  find-kept p q [] a e kept = cc
  find-kept p q (x ∷ xs) a e kept = elim (Bool-cases (p x)) [
    | inl yes' ↦
        let same : x ≡ a = ground (arith, e, yes') in
        rw (subst (λ z. q z ≡ false) (sym same) kept, yes', same) refl
    | inr no' ↦
        let ih = find-kept p q xs a (ground (arith, e, no')) kept in
        elim (Bool-cases (q x)) [ inl gone ↦ rw gone ih | inr here ↦ rw (here, no') ih ]
  ]

  filter-kept :
      (p q : A → Bool)
      → ((a : A) → p a ≡ true → q a ≡ false)
      → (xs : List A) → filter p (filter (λ x. not (q x)) xs) ≡ filter p xs
  unfolding filter
  filter-kept p q apart [] = refl
  filter-kept p q apart (x ∷ xs) =
      let ih = filter-kept p q apart xs in
      elim (Bool-cases (q x)) [
        | inl gone ↦ ground (arith, gone, ih, apart x)
        | inr here ↦ ground (arith, here, ih)
      ]

-- What the rest of the program sees of the tables is the same.
pub record Unseen (before : ℕ) (o o' : Tables) : Type 0 where
  pub users : o'.auth.users ≡ o.auth.users
  pub sessions : o'.auth.sessions ≡ o.auth.sessions
  pub tokens :
      (hash : String) (t : RefreshToken)
      → token_by_hash hash o.auth ≡ some t
      → is_stale_token before t ≡ false
      → token_by_hash hash o'.auth ≡ some t
  pub pending :
      (later : ℕ) (locked : ℕ → Bool) (max_retry limit : ℕ)
      → (pending_outbox_batch later locked max_retry limit o'.outbox).0
        ≡ (pending_outbox_batch later locked max_retry limit o.outbox).0

module _ (before : ℕ) where
  Unseen-refl : (o : Tables) → Unseen before o o
  Unseen-refl o = record {
    users = refl;
    sessions = refl;
    tokens = λ _ _ e _. e;
    pending = λ _ _ _ _. refl;
  }

  Unseen-trans :
      {o o' o'' : Tables} → Unseen before o o' → Unseen before o' o'' → Unseen before o o''
  Unseen-trans a b = record {
    users = b.users ∙ a.users;
    sessions = b.sessions ∙ a.sessions;
    tokens = λ hash t e fresh. b.tokens hash t (a.tokens hash t e fresh) fresh;
    pending = λ later locked m l. b.pending later locked m l ∙ a.pending later locked m l;
  }

  pending_of_old :
      (t later : ℕ) (locked : ℕ → Bool) (max_retry : ℕ) (row : OutboxEvent)
      → is_pending later locked max_retry row ≡ true
      → is_old_row t row ≡ false
  unfolding is_pending is_old_row
  pending_of_old t later locked max_retry row h = ground (arith, h)

  tokens-Unseen : (o : Tables) → Unseen before o (delete_stale_refresh_tokens before o).1
  unfolding delete_stale_refresh_tokens delete_where token_by_hash
  tokens-Unseen o = record {
    users = refl;
    sessions = refl;
    tokens = λ hash t e fresh. find-kept _ (is_stale_token before) o.auth.tokens t e fresh;
    pending = λ _ _ _ _. refl;
  }

  outbox-Unseen : (t : ℕ) (o : Tables) → Unseen before o (delete_processed_outbox_before t o).1
  unfolding delete_processed_outbox_before delete_where pending_outbox_batch
  outbox-Unseen t o = record {
    users = refl;
    sessions = refl;
    tokens = λ _ _ e _. e;
    pending = λ later locked max_retry limit.
        ap (λ rows. take limit (order_rows rows))
          (filter-kept (is_pending later locked max_retry) (is_old_row t)
            (pending_of_old t later locked max_retry) o.outbox.rows);
  }

  attempts-Unseen : (t : ℕ) (o : Tables) → Unseen before o (delete_login_attempts_before t o).1
  unfolding delete_login_attempts_before
  attempts-Unseen t o = record {
    users = refl;
    sessions = refl;
    tokens = λ _ _ e _. e;
    pending = λ _ _ _ _. refl;
  }

  run_job-Unseen :
      (job : String) (del : Tables → ℕ × Tables) (c : Conn Report Tables)
      → ((o : Tables) → Unseen before o (del o).1)
      → Unseen before c.db (run_job job del c).db
  unfolding run_job
  run_job-Unseen job del c unseen = elim (run-query-db c del) [
    | inl same ↦ subst (Unseen before c.db) (sym same) (Unseen-refl c.db)
    | inr done ↦ subst (Unseen before c.db) (sym done) (unseen c.db)
  ]

-- A sweep takes nothing away that the program still uses. Whatever fails, the users and the sessions are the
-- same after it; the drain claims the same outbox rows, then or later; and each refresh token that neither
-- expired nor was revoked longer ago than the retention is found by its hash as before.
pub sweep-Unseen :
    (cfg : Retention) (now : ℕ) (c : Conn Report Tables)
    → Unseen (now - cfg.refresh_tokens) c.db (sweep cfg now c).db
unfolding sweep
sweep-Unseen cfg now c =
    let before = now - cfg.refresh_tokens in
    Unseen-trans before (run_job-Unseen before "refresh_tokens" _ c (tokens-Unseen before)) (
      Unseen-trans before (run_job-Unseen before "processed_outbox" _ _ (outbox-Unseen before _))
        (run_job-Unseen before "login_attempts" _ _ (attempts-Unseen before _)))
