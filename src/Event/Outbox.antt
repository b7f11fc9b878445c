-- ===== src/Event/Outbox.antt =====
-- internal/event/outbox.go over the statements of internal/store/query/outbox.sql. The table is a
-- list of rows, and a time is a number of seconds.
pub mod Table
pub mod Pending
use go_grpc_starter.Prelude.{
  ℕ, String, Bool, Option, none, some, List, ◌∷◌, ◌++◌, if◌then◌else◌, str_eq, suc,
}
use go_grpc_starter.Errs.{GoError, other, err}
use go_grpc_starter.Store.{Action, query, constrained_query, with_tx, run}
use Table.{
  OutboxEvent, DeadLetter, Outbox, insert_outbox, mark_outbox_processed, mark_outbox_failed,
  insert_outbox_dead_letter, pending_outbox_batch,
}

-- An event with the JSON that `json.Marshal` makes of it (`none`: it fails), and the trimmed
-- `OutboxDedupeKey` of one that has a key.
pub record Event : Type 0 where
  pub event_type : String
  pub payload : Option String
  pub dedupe_key : Option String

abbrev pub outbox_max_retry : ℕ
outbox_max_retry = 10

-- `ErrOutboxDuplicate`
abbrev pub outbox_duplicate : GoError
outbox_duplicate = other "outbox: duplicate pending row with same (event_type, dedupe_key)"

module _ {R : Type 0} where
  unfoldable pub write_payload : ℕ → Event → Option String → Action R Outbox ℕ
  write_payload now evt none c = (err (other "outbox: marshal"), c)
  write_payload now evt (some payload) c =
      run
        (constrained_query outbox_duplicate
          (insert_outbox now evt.event_type payload evt.dedupe_key))
        c

  unfoldable pub write : ℕ → Event → Action R Outbox ℕ
  unfolding write_payload
  write now evt = write_payload now evt evt.payload

  unfoldable pub mark_processed : ℕ → ℕ → Action R Outbox (Unit {0})
  mark_processed now id = run (query (mark_outbox_processed now id))

  unfoldable pub mark_failed : ℕ → ℕ → String → Action R Outbox (Unit {0})
  mark_failed now id message = run (query (mark_outbox_failed now id message))

  unfoldable pub dead_letter : OutboxEvent → String → String → Action R Outbox (Unit {0})
  dead_letter row reason last_error = run (
      query (
        insert_outbox_dead_letter (record {
          source_id = row.id;
          event_type = row.event_type;
          payload = row.payload;
          failure_reason = reason;
          last_error = if str_eq last_error "" then none else some last_error;
        })))

  unfoldable pub pending_batch : ℕ → (ℕ → Bool) → ℕ → Action R Outbox (List OutboxEvent)
  pending_batch now locked limit =
      run (query (pending_outbox_batch now locked outbox_max_retry limit))
