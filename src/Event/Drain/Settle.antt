-- ===== src/Event/Drain/Settle.antt =====
-- What a turn of the loop of `drainBatch` in internal/event/bus.go leaves in the outbox, when it does
-- not break off the batch.
use go_grpc_starter.Prelude.{
  ℕ, String, ◌≡◌, refl, sym, subst, ◌∙◌, ap, true, false, Option, none, some, List, [], ◌∷◌, leb,
  ◌≢◌, All, All-append,
}
use go_grpc_starter.Errs.{Result, ok, err}
use go_grpc_starter.Store.{Conn, Action, pure, ◌>>◌}
use go_grpc_starter.Store.Inversion.{bind_ok, run-query_ok}
use go_grpc_starter.Event.Outbox.{Event, outbox_max_retry, mark_processed, mark_failed, dead_letter}
use go_grpc_starter.Event.Outbox.Table.{
  OutboxEvent, DeadLetter, Outbox, processed, failed, update_row, mark_outbox_processed,
  mark_outbox_failed, insert_outbox_dead_letter,
}
use go_grpc_starter.Event.Bus.{Bus, Subscription, deliver, publish_to, publish, subscribers}
use go_grpc_starter.Event.Drain.{
  Factory, factory_for, Tally, counted, message_of, discard, mark_published, publish_row,
  decode_row, process_row,
}

-- The state of the drain inside its transaction.
abbrev pub State : Type 0
State = Conn Bus Outbox

-- A delivery from the drain leaves the tables, the transaction and the batch size alone.
record Delivers (c d : State) : Type 0 where
  same_db : d.db ≡ c.db
  same_tx : d.in_tx ≡ c.in_tx
  same_size : d.outside.drain_batch_size ≡ c.outside.drain_batch_size

publish_to-Delivers :
    (now : ℕ) (evt : Event) (subs : List Subscription) (c : State)
    → Delivers c (publish_to now true evt subs c).1
unfolding publish_to deliver
publish_to-Delivers now evt [] c = record { same_db = refl; same_tx = refl; same_size = refl }
publish_to-Delivers now evt (s ∷ subs) c = record {
  same_db = refl;
  same_tx = refl;
  same_size = refl;
}

publish-Delivers : (now : ℕ) (evt : Event) (c : State) → Delivers c (publish now true evt c).1
unfolding publish
publish-Delivers now evt c =
    publish_to-Delivers now evt (subscribers evt.event_type c.outside.subs) c

-- How a row leaves its turn.
pub data Fate : Type 0 where
  settled : Fate
  retried : String → Fate

abbrev pub apply_fate : ℕ → Fate → OutboxEvent → OutboxEvent
apply_fate now settled = processed now
apply_fate now (retried message) = failed now message

abbrev pub NotExhausted : DeadLetter → Type 0
NotExhausted l = l.failure_reason ≢ "retry_exhausted"

-- A turn over the row `id` from `c` to `d`.
pub record Settles (now id : ℕ) (c d : State) : Type 0 where
  pub fate : Fate
  pub same_rows : d.db.rows ≡ update_row id (apply_fate now fate) c.db.rows
  pub joined : d.in_tx ≡ true
  pub size_kept : d.outside.drain_batch_size ≡ c.outside.drain_batch_size
  pub letters : All NotExhausted c.db.dead_letters → All NotExhausted d.db.dead_letters

module _ (now : ℕ) (row : OutboxEvent) (c : State) (joined : c.in_tx ≡ true) where
  mark_processed-Settles :
      {u : Unit {0}}
      → (mark_processed now row.id c).0 ≡ ok u
      → Settles now row.id c (mark_processed now row.id c).1
  unfolding mark_processed mark_outbox_processed
  mark_processed-Settles h =
      let (_, e) = run-query_ok c joined (mark_outbox_processed now row.id) h in
      rw e (record {
        fate = settled;
        same_rows = refl;
        joined = joined;
        size_kept = refl;
        letters = λ a. a;
      })

  mark_failed-Settles :
      (m : String) {u : Unit {0}}
      → (mark_failed now row.id m c).0 ≡ ok u
      → Settles now row.id c (mark_failed now row.id m c).1
  unfolding mark_failed mark_outbox_failed
  mark_failed-Settles m h =
      let (_, e) = run-query_ok c joined (mark_outbox_failed now row.id m) h in
      rw e (record {
        fate = retried m;
        same_rows = refl;
        joined = joined;
        size_kept = refl;
        letters = λ a. a;
      })

  mark_published-Settles :
      (r : Result (Unit {0})) {u : Unit {0}}
      → (mark_published now row r c).0 ≡ ok u
      → Settles now row.id c (mark_published now row r c).1
  unfolding mark_published
  mark_published-Settles (ok _) h = mark_processed-Settles h
  mark_published-Settles (err e) h = mark_failed-Settles (message_of e) h

-- A turn that goes on from `c`, after a step that left the rows alone.
Settles-after :
    (now id : ℕ) (b c d : State)
    → c.db.rows ≡ b.db.rows
    → c.outside.drain_batch_size ≡ b.outside.drain_batch_size
    → (All NotExhausted b.db.dead_letters → All NotExhausted c.db.dead_letters)
    → Settles now id c d
    → Settles now id b d
Settles-after now id b c d rows size letters s = record {
  fate = s.fate;
  same_rows = s.same_rows ∙ ap (update_row id (apply_fate now s.fate)) rows;
  joined = s.joined;
  size_kept = s.size_kept ∙ size;
  letters = λ a. s.letters (letters a);
}

unmarshal-other : ◌≢◌ {A = String} "unmarshal_failed" "retry_exhausted"
unmarshal-other p = cc

unknown-other : ◌≢◌ {A = String} "unknown_event_type" "retry_exhausted"
unknown-other p = cc

module _ (now : ℕ) (row : OutboxEvent) (c : State) (joined : c.in_tx ≡ true) where
  -- A dead letter for another reason than its failures.
  module _ (reason last_error : String)
      (other_reason : ◌≢◌ {A = String} reason "retry_exhausted") where
    discard-Settles :
        {u : Unit {0}}
        → (discard now row reason last_error c).0 ≡ ok u
        → Settles now row.id c (discard now row reason last_error c).1
    unfolding discard dead_letter insert_outbox_dead_letter
    discard-Settles h =
        let m : Action Bus Outbox (Unit {0}) = dead_letter row reason last_error in
        let (_, sent, marked, e) = bind_ok (λ _. mark_processed now row.id) m c h in
        let (_, e1) = run-query_ok c joined _ sent in
        rw e (
          Settles-after now row.id c (m c).1 _ (ap (λ (x : State). x.db.rows) e1)
            (ap (λ (x : State). x.outside.drain_batch_size) e1)
            (λ a. rw e1 (All-append NotExhausted c.db.dead_letters _ a (other_reason, tt)))
            (mark_processed-Settles now row (m c).1 (ap (λ (x : State). x.in_tx) e1 ∙ joined)
              marked))

  delivered-Settles :
      (t : Tally) (r : Result (Unit {0})) (d : State) {t' : Tally}
      → Delivers c d
      → ((do mark_published now row r; pure (counted r t)) d).0 ≡ ok t'
      → Settles now row.id c ((do mark_published now row r; pure (counted r t)) d).1
  delivered-Settles t r d k h =
      let (_, e0, _, e) = bind_ok (λ _. pure (counted r t)) (mark_published now row r) d h in
      let s : Settles now row.id d (mark_published now row r d).1 =
        mark_published-Settles now row d (k.same_tx ∙ joined) r e0 in
      rw e (
        Settles-after now row.id c d _ (ap (λ (x : Outbox). x.rows) k.same_db) k.same_size
          (λ a. subst (λ x. All NotExhausted x.dead_letters) (sym k.same_db) a) s)

  publish_row-Settles :
      (t : Tally) (r : Result Event) {t' : Tally}
      → (publish_row now row t r c).0 ≡ ok t'
      → Settles now row.id c (publish_row now row t r c).1
  unfolding publish_row
  publish_row-Settles t (err x) h =
      let (_, e0, _, e) =
        bind_ok (λ _. pure t) (discard now row "unmarshal_failed" (message_of x)) c h in
      rw e (discard-Settles "unmarshal_failed" (message_of x) unmarshal-other e0)
  publish_row-Settles t (ok evt) h =
      delivered-Settles t (publish now true evt c).0 (publish now true evt c).1
        (publish-Delivers now evt c) h

  decode_row-Settles :
      (t : Tally) (f : Option Factory) {t' : Tally}
      → (decode_row now row t f c).0 ≡ ok t'
      → Settles now row.id c (decode_row now row t f c).1
  unfolding decode_row
  decode_row-Settles t none h =
      let (_, e0, _, e) = bind_ok (λ _. pure t) (discard now row "unknown_event_type" "") c h in
      rw e (discard-Settles "unknown_event_type" "" unknown-other e0)
  decode_row-Settles t (some f) h = publish_row-Settles t (f row.payload) h

  -- A turn over a row that has not failed too often.
  pub process_row-Settles :
      (registry : List (String × Factory)) (t : Tally) {t' : Tally}
      → leb outbox_max_retry row.retry_count ≡ false
      → (process_row now registry row t c).0 ≡ ok t'
      → Settles now row.id c (process_row now registry row t c).1
  unfolding process_row
  process_row-Settles registry t fresh h =
      rw fresh (decode_row-Settles t (factory_for registry row.event_type) (rw fresh at h))
