-- ===== src/Event/Drain.antt =====
-- The outbox drain of internal/event/bus.go (`drainOnce`, `drainBatch`, the breaker) and the event
-- registry of internal/event/registry.go. `now` is the time of one batch, in seconds.
pub mod Settle
pub mod Batch
pub mod Finish
pub mod Breaker
use go_grpc_starter.Prelude.{
  ℕ, zero, suc, ◌-◌, String, Bool, true, false, ◌||◌, not, Option, none, some, List, [], ◌∷◌,
  length, leb, ltb, ◌==◌, if◌then◌else◌, str_eq,
}
use go_grpc_starter.Errs.{GoError, domain, status, other, Result, ok, err}
use go_grpc_starter.Store.{Conn, Action, pure, ◌>>=◌, ◌>>◌, with_tx}
use go_grpc_starter.Event.Outbox.{
  Event, outbox_max_retry, mark_processed, mark_failed, dead_letter, pending_batch,
}
use go_grpc_starter.Event.Outbox.Table.{OutboxEvent, Outbox}
use go_grpc_starter.Event.Bus.{Bus, attempt, publish}

-- A factory with the `json.Unmarshal` into the value that it makes.
abbrev pub Factory : Type 0
Factory = String → Result Event

-- `FactoryFor`
unfoldable pub factory_for : List (String × Factory) → String → Option Factory
factory_for [] event_type = none
factory_for ((k, f) ∷ m) event_type =
    if str_eq k event_type then some f else factory_for m event_type

-- `Register`, at the `EventType` of the factory's zero value.
unfoldable pub register : String → Factory → List (String × Factory) → List (String × Factory)
register event_type f [] = (event_type, f) ∷ []
register event_type f ((k, g) ∷ m) =
    let rest = register event_type f m in if str_eq k event_type then (k, f) ∷ m else (k, g) ∷ rest

abbrev pub drain_breaker_threshold : ℕ
drain_breaker_threshold = 3

abbrev pub drain_breaker_cooldown : ℕ
drain_breaker_cooldown = 60

abbrev pub default_drain_batch_size : ℕ
default_drain_batch_size = 100

-- `err.Error()`
abbrev pub message_of : GoError → String
message_of (domain e) = e.message_key
message_of (status code message) = message
message_of (other message) = message

abbrev last_error_text : Option String → String
last_error_text none = ""
last_error_text (some e) = e

-- `breakerAllows`
unfoldable pub breaker_allows : ℕ → Bus → Bool
breaker_allows now b =
    if ltb b.drain_breaker_failures drain_breaker_threshold
    then true
    else not (ltb (now - b.drain_breaker_opened_at) drain_breaker_cooldown)

-- `recordBreaker`
unfoldable pub record_breaker : ℕ → ℕ → ℕ → Bus → Bus
record_breaker now attempts failures b =
    if attempts == 0
    then b
    else if failures == attempts
    then (if suc b.drain_breaker_failures == drain_breaker_threshold
        then record b {
          drain_breaker_failures = suc b.drain_breaker_failures;
          drain_breaker_opened_at = now;
        }
        else record b { drain_breaker_failures = suc b.drain_breaker_failures })
    else record b { drain_breaker_failures = 0 }

-- The counters of `drainBatch`.
pub record Tally : Type 0 where
  pub publish_attempts : ℕ
  pub publish_failures : ℕ

-- A row that is given up: a dead letter, and the row marked processed.
unfoldable pub discard : ℕ → OutboxEvent → String → String → Action Bus Outbox (Unit {0})
discard now row reason last_error = do dead_letter row reason last_error; mark_processed now row.id

abbrev pub counted : Result (Unit {0}) → Tally → Tally
counted (ok _) t = record t { publish_attempts = suc t.publish_attempts }
counted (err _) t = record {
  publish_attempts = suc t.publish_attempts;
  publish_failures = suc t.publish_failures;
}

unfoldable pub mark_published : ℕ → OutboxEvent → Result (Unit {0}) → Action Bus Outbox (Unit {0})
mark_published now row (ok _) = mark_processed now row.id
mark_published now row (err e) = mark_failed now row.id (message_of e)

unfoldable pub publish_row : ℕ → OutboxEvent → Tally → Result Event → Action Bus Outbox Tally
unfolding discard mark_published
publish_row now row t (err e) = do discard now row "unmarshal_failed" (message_of e); pure t
publish_row now row t (ok evt) = do
  r ← attempt (publish now true evt)
  mark_published now row r
  pure (counted r t)

unfoldable pub decode_row : ℕ → OutboxEvent → Tally → Option Factory → Action Bus Outbox Tally
unfolding discard publish_row
decode_row now row t none = do discard now row "unknown_event_type" ""; pure t
decode_row now row t (some unmarshal) = publish_row now row t (unmarshal row.payload)

-- One turn of the loop over the rows.
unfoldable pub process_row :
    ℕ → List (String × Factory) → OutboxEvent → Tally → Action Bus Outbox Tally
unfolding discard decode_row
process_row now registry row t =
    if leb outbox_max_retry row.retry_count
    then (do discard now row "retry_exhausted" (last_error_text row.last_error); pure t)
    else decode_row now row t (factory_for registry row.event_type)

unfoldable pub process_rows :
    ℕ → List (String × Factory) → List OutboxEvent → Tally → Action Bus Outbox Tally
process_rows now registry [] t = pure t
process_rows now registry (row ∷ rows) t = do
  t' ← process_row now registry row t
  process_rows now registry rows t'

abbrev pub no_tally : Tally
no_tally = record { publish_attempts = 0; publish_failures = 0 }

-- The function that `drainBatch` hands to `InTx`, from the loop over the rows on.
unfoldable pub run_rows :
    ℕ → List (String × Factory) → List OutboxEvent → Action Bus Outbox (ℕ × Tally)
run_rows now registry rows = do t ← process_rows now registry rows no_tally; pure (length rows, t)

unfoldable pub batch : ℕ → (ℕ → Bool) → List (String × Factory) → ℕ → Action Bus Outbox (ℕ × Tally)
batch now locked registry size = do rows ← pending_batch now locked size; run_rows now registry rows

-- `fetched` is read only beside `ok`, so it is 0 beside a batch that failed.
unfoldable pub end_batch : ℕ → Result (ℕ × Tally) × Conn Bus Outbox → (ℕ × Bool) × Conn Bus Outbox
end_batch now (err e, c) = ((0, false), c)
end_batch now (ok (fetched, t), c) =
    let b = record_breaker now t.publish_attempts t.publish_failures c.outside in
    ((fetched, ltb b.drain_breaker_failures drain_breaker_threshold), record c { outside = b })

-- `drainBatch`; `locked` tells the rows that another replica holds.
unfoldable pub drain_batch :
    ℕ → (ℕ → Bool) → List (String × Factory) → Conn Bus Outbox → (ℕ × Bool) × Conn Bus Outbox
unfolding end_batch
drain_batch now locked registry c =
    end_batch now (with_tx (batch now locked registry c.outside.drain_batch_size) c)

-- The loop of `drainOnce`, whose test is `!ok || fetched < b.drainBatchSize || ctx.Err() != nil`. The
-- time, the rows that other replicas hold and the cancellation are those at the connection's clock, so
-- that each turn reads them anew. `none` says that the fuel ran out.
unfoldable pub drain_once :
    ℕ
    → (ℕ → ℕ)
    → (ℕ → Bool)
    → (ℕ → ℕ → Bool)
    → List (String × Factory)
    → Conn Bus Outbox
    → Option (Conn Bus Outbox)
drain_once zero now cancelled locked registry c = none
drain_once (suc fuel) now cancelled locked registry c =
    let ((fetched, go_on), c') = drain_batch (now c.clock) (locked c.clock) registry c in
    let rest = drain_once fuel now cancelled locked registry c' in
    if not (breaker_allows (now c.clock) c.outside)
    then some c
    else if not go_on || ltb fetched c'.outside.drain_batch_size || cancelled c'.clock
    then some c'
    else rest
