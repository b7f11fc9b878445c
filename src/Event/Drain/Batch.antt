-- ===== src/Event/Drain/Batch.antt =====
-- What `drainBatch` of internal/event/bus.go does to the outbox.
use go_grpc_starter.Prelude.{
  ℕ, suc, String, ◌≡◌, refl, sym, subst, ◌∙◌, ap, Bool, true, false, List, [], ◌∷◌, length, leb,
  arith, All, All-weaken,
}
use go_grpc_starter.Errs.{GoError, Result, ok, err}
use go_grpc_starter.Store.{Action, pure, opened, with_tx}
use go_grpc_starter.Store.Inversion.{bind_ok, run-query_ok}
use go_grpc_starter.Store.Atomic.{with_tx_rollback, with_tx_commit, with_tx_idle}
use go_grpc_starter.Event.Outbox.{outbox_max_retry, pending_batch}
use go_grpc_starter.Event.Outbox.Table.{
  OutboxEvent, Outbox, update_row, pending_outbox_batch, is_pending,
}
use go_grpc_starter.Event.Outbox.Pending.{pending_outbox_batch_sound}
use go_grpc_starter.Event.Bus.{Bus}
use go_grpc_starter.Event.Drain.{
  Factory, Tally, no_tally, process_row, process_rows, run_rows, batch, end_batch, drain_batch,
  record_breaker,
}
use go_grpc_starter.Event.Drain.Settle.{
  State, Fate, apply_fate, NotExhausted, Settles, process_row-Settles,
}

-- One update for each row of the batch, in order.
abbrev pub apply_fates : ℕ → List OutboxEvent → List Fate → List OutboxEvent → List OutboxEvent
apply_fates now (row ∷ rows) (fate ∷ fates) table =
    apply_fates now rows fates (update_row row.id (apply_fate now fate) table)
apply_fates now _ _ table = table

-- The batch `rows`, processed from `c` to `d`.
pub record SettlesAll (now : ℕ) (rows : List OutboxEvent) (c d : State) : Type 0 where
  pub fates : List Fate
  pub one_each : length fates ≡ length rows
  pub same_rows : d.db.rows ≡ apply_fates now rows fates c.db.rows
  pub size_kept : d.outside.drain_batch_size ≡ c.outside.drain_batch_size
  pub letters : All NotExhausted c.db.dead_letters → All NotExhausted d.db.dead_letters

abbrev Fresh : OutboxEvent → Type 0
Fresh row = leb outbox_max_retry row.retry_count ≡ false

Settles-cons :
    {now : ℕ} {row : OutboxEvent} {rows : List OutboxEvent} {b c d : State}
    → Settles now row.id b c
    → SettlesAll now rows c d
    → SettlesAll now (row ∷ rows) b d
Settles-cons {now} {row} {rows} s all = record {
  fates = s.fate ∷ all.fates;
  one_each = ap suc all.one_each;
  same_rows = all.same_rows ∙ ap (apply_fates now rows all.fates) s.same_rows;
  size_kept = all.size_kept ∙ s.size_kept;
  letters = λ a. all.letters (s.letters a);
}

process_rows-SettlesAll :
    (now : ℕ) (registry : List (String × Factory)) (rows : List OutboxEvent) (t : Tally) (c : State)
    {t' : Tally}
    → c.in_tx ≡ true
    → All Fresh rows
    → (process_rows now registry rows t c).0 ≡ ok t'
    → SettlesAll now rows c (process_rows now registry rows t c).1
unfolding process_rows
process_rows-SettlesAll now registry [] t c joined fresh h = record {
  fates = [];
  one_each = refl;
  same_rows = refl;
  size_kept = refl;
  letters = λ a. a;
}
process_rows-SettlesAll now registry (row ∷ rows) t c joined fresh h =
    let (t1, e0, e1, e) =
      bind_ok (process_rows now registry rows) (process_row now registry row t) c h in
    let s = process_row-Settles now row c joined registry t fresh.0 e0 in
    rw e (
      Settles-cons s (
        process_rows-SettlesAll now registry rows t1 (process_row now registry row t c).1 s.joined
          fresh.1 e1))

is_pending-Fresh :
    (now : ℕ) (locked : ℕ → Bool) (row : OutboxEvent)
    → is_pending now locked outbox_max_retry row ≡ true
    → Fresh row
unfolding is_pending
is_pending-Fresh now locked row h = ground arith

module _ (now : ℕ) (locked : ℕ → Bool) (registry : List (String × Factory)) where
  -- The rows that a batch of this size claims.
  abbrev pub claimed : ℕ → Outbox → List OutboxEvent
  claimed size o = (pending_outbox_batch now locked outbox_max_retry size o).0

  claimed-Fresh : (size : ℕ) (o : Outbox) → All Fresh (claimed size o)
  claimed-Fresh size o =
      All-weaken _ Fresh (λ row h. is_pending-Fresh now locked row h.1) (claimed size o)
        (pending_outbox_batch_sound now locked outbox_max_retry size o).0

  fetched_eq :
      {n m : ℕ} {t u : Tally} → ◌≡◌ {A = Result (ℕ × Tally)} (ok (n, t)) (ok (m, u)) → m ≡ n
  fetched_eq e = ground arith

  record Runs (size : ℕ) (c d : State) (fetched : ℕ) : Type 0 where
    count : fetched ≡ length (claimed size c.db)
    all : SettlesAll now (claimed size c.db) c d

  abbrev finish : List OutboxEvent → Tally → Action Bus Outbox (ℕ × Tally)
  finish rows t = pure (length rows, t)

  processed-Runs :
      (size : ℕ) (c d : State) (rows : List OutboxEvent) (fetched : ℕ) (t : Tally)
      → d.in_tx ≡ true
      → d.db ≡ c.db
      → d.outside.drain_batch_size ≡ c.outside.drain_batch_size
      → claimed size c.db ≡ rows
      → (run_rows now registry rows d).0 ≡ ok (fetched, t)
      → Runs size c (run_rows now registry rows d).1 fetched
  unfolding run_rows
  processed-Runs size c d rows fetched t joined same_db same_size same h =
      let (t1, e0, e1, e) = bind_ok (finish rows) (process_rows now registry rows no_tally) d h in
      let s =
        process_rows-SettlesAll now registry rows no_tally d joined
          (subst (All Fresh) same (claimed-Fresh size c.db)) e0 in
      rw e (record {
        count = fetched_eq e1 ∙ ap length (sym same);
        all =
            subst (λ xs. SettlesAll now xs c (process_rows now registry rows no_tally d).1)
              (sym same)
              (record {
                fates = s.fates;
                one_each = s.one_each;
                same_rows =
                    s.same_rows ∙ ap (λ (o : Outbox). apply_fates now rows s.fates o.rows) same_db;
                size_kept = s.size_kept ∙ same_size;
                letters =
                    λ a. s.letters (subst (λ o. All NotExhausted o.dead_letters) (sym same_db) a);
              });
      })

  batch-Runs :
      (size : ℕ) (c : State) (fetched : ℕ) (t : Tally)
      → c.in_tx ≡ true
      → (batch now locked registry size c).0 ≡ ok (fetched, t)
      → Runs size c (batch now locked registry size c).1 fetched
  unfolding batch pending_batch
  batch-Runs size c fetched t joined h =
      let (rows, e0, e1, e) = bind_ok (run_rows now registry) (pending_batch now locked size) c h in
      let (q, e2) =
        run-query_ok c joined (pending_outbox_batch now locked outbox_max_retry size) e0 in
      let kept = (pending_outbox_batch_sound now locked outbox_max_retry size c.db).2 in
      rw e (
        processed-Runs size c (pending_batch now locked size c).1 rows fetched t
          (ap (λ (x : State). x.in_tx) e2 ∙ joined) (ap (λ (x : State). x.db) e2 ∙ kept)
          (ap (λ (x : State). x.outside.drain_batch_size) e2) q e1)

  abbrev claims : State → List OutboxEvent
  claims c = claimed c.outside.drain_batch_size c.db

  -- The work of a batch on a connection.
  abbrev worked : (c : State) → Result (ℕ × Tally) × State
  worked c = with_tx (batch now locked registry c.outside.drain_batch_size) c

  record_breaker-size :
      (attempts failures : ℕ) (b : Bus)
      → (record_breaker now attempts failures b).drain_batch_size ≡ b.drain_batch_size
  unfolding record_breaker
  record_breaker-size attempts failures b = ground arith

  committed :
      (c : State) (fetched : ℕ) (t : Tally)
      → c.in_tx ≡ false
      → (worked c).0 ≡ ok (fetched, t)
      → Runs c.outside.drain_batch_size c (worked c).1 fetched
  committed c fetched t idle h =
      let size = c.outside.drain_batch_size in
      let (e, _, same_db, same_outside, _) =
        with_tx_commit (batch now locked registry size) c idle h in
      let r = batch-Runs size (opened c) fetched t refl e in
      record {
        count = r.count;
        all = record {
          fates = r.all.fates;
          one_each = r.all.one_each;
          same_rows = ap (λ (o : Outbox). o.rows) same_db ∙ r.all.same_rows;
          size_kept = ap (λ (b : Bus). b.drain_batch_size) same_outside ∙ r.all.size_kept;
          letters =
              λ a. subst (λ o. All NotExhausted o.dead_letters) (sym same_db) (r.all.letters a);
        };
      }

  -- What `drainBatch` returns and leaves.
  pub data Drained (c : State) (r : (ℕ × Bool) × State) : Type 0 where
    aborts : r.0 ≡ (0, false) → r.1.db ≡ c.db → Drained c r
    commits : r.0.0 ≡ length (claims c) → SettlesAll now (claims c) c r.1 → Drained c r

  end_batch-Drained :
      (c : State) (p : Result (ℕ × Tally) × State)
      → ((e : GoError) → p.0 ≡ err e → p.1.db ≡ c.db)
      → ((fetched : ℕ) (t : Tally)
          → p.0 ≡ ok (fetched, t)
          → Runs c.outside.drain_batch_size c p.1 fetched)
      → Drained c (end_batch now p)
  unfolding end_batch
  end_batch-Drained c (err e, d) fails runs = aborts refl (fails e refl)
  end_batch-Drained c (ok (fetched, t), d) fails runs =
      let r = runs fetched t refl in
      commits r.count (record {
        fates = r.all.fates;
        one_each = r.all.one_each;
        same_rows = r.all.same_rows;
        size_kept =
            record_breaker-size t.publish_attempts t.publish_failures d.outside ∙ r.all.size_kept;
        letters = r.all.letters;
      })

  end_batch_idle :
      (p : Result (ℕ × Tally) × State) → p.1.in_tx ≡ false → (end_batch now p).1.in_tx ≡ false
  unfolding end_batch
  end_batch_idle (err e, d) h = h
  end_batch_idle (ok (fetched, t), d) h = h

  -- `drainBatch`, called outside a transaction, does all of its batch or nothing, whatever the
  -- database, the queue and the handlers do. Either it reports failure and the tables are as they
  -- were; or it reports the rows that it claimed, and the table has one update for each of them in
  -- order, a stamp of completion or one more failure, and no other change.
  pub drain_batch_outcome :
      (c : State) → c.in_tx ≡ false → Drained c (drain_batch now locked registry c)
  unfolding drain_batch
  drain_batch_outcome c idle =
      end_batch-Drained c (worked c)
        (λ e h.
          (with_tx_rollback (batch now locked registry c.outside.drain_batch_size) c idle h).0)
        (λ fetched t h. committed c fetched t idle h)

  -- No dead letter of a batch says `retry_exhausted`: the query that claims the rows leaves out those
  -- that have failed often enough for it.
  pub drain_batch-NotExhausted :
      (c : State)
      → c.in_tx ≡ false
      → All NotExhausted c.db.dead_letters
      → All NotExhausted (drain_batch now locked registry c).1.db.dead_letters
  drain_batch-NotExhausted c idle h = elim (drain_batch_outcome c idle) [
    | aborts _ e ↦ subst (λ o. All NotExhausted o.dead_letters) (sym e) h
    | commits _ all ↦ all.letters h
  ]

  pub drain_batch_idle :
      (c : State) → c.in_tx ≡ false → (drain_batch now locked registry c).1.in_tx ≡ false
  unfolding drain_batch
  drain_batch_idle c idle =
      end_batch_idle (worked c)
        (with_tx_idle (batch now locked registry c.outside.drain_batch_size) c idle)
