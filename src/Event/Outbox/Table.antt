-- ===== src/Event/Outbox/Table.antt =====
-- The statements of internal/store/query/outbox.sql on events.outbox and events.outbox_dead_letter,
-- and the partial unique index of migrations/00015_create_events_outbox_table.up.sql.
use go_grpc_starter.Prelude.{
  ℕ, suc, ◌+◌, ◌*◌, String, Bool, true, false, ◌&&◌, ◌||◌, Option, none, some, is_some, List, [],
  ◌∷◌, ◌++◌, ltb, leb, ◌==◌, if◌then◌else◌, str_eq, not, filter, any, take,
}

pub record OutboxEvent : Type 0 where
  pub id : ℕ
  pub event_type : String
  pub payload : String
  pub dedupe_key : Option String
  pub created_at : ℕ
  pub processed_at : Option ℕ
  pub retry_count : ℕ
  pub last_error : Option String
  pub last_attempted_at : Option ℕ

pub record DeadLetter : Type 0 where
  pub source_id : ℕ
  pub event_type : String
  pub payload : String
  pub failure_reason : String
  pub last_error : Option String

-- The two tables and the sequence behind `BIGSERIAL`.
pub record Outbox : Type 0 where
  pub rows : List OutboxEvent
  pub dead_letters : List DeadLetter
  pub next_id : ℕ

abbrev same_key : Option String → Option String → Bool
same_key (some a) (some b) = str_eq a b
same_key _ _ = false

-- A row that `ux_outbox_pending_dedupe` sets against a new one.
unfoldable pub clashes : String → Option String → OutboxEvent → Bool
clashes event_type key row =
    not (is_some row.processed_at)
    && str_eq row.event_type event_type
    && same_key row.dedupe_key key

abbrev pub new_row : ℕ → String → String → Option String → ℕ → OutboxEvent
new_row now event_type payload key id = record {
  id = id;
  event_type = event_type;
  payload = payload;
  dedupe_key = key;
  created_at = now;
  processed_at = none;
  retry_count = 0;
  last_error = none;
  last_attempted_at = none;
}

unfoldable pub insert_outbox : ℕ → String → String → Option String → Outbox → Option (ℕ × Outbox)
insert_outbox now event_type payload key o =
    if any (clashes event_type key) o.rows
    then none
    else some (
      o.next_id,
      record o {
        rows = o.rows ++ new_row now event_type payload key o.next_id ∷ [];
        next_id = suc o.next_id;
      },
    )

-- `UPDATE … WHERE id = $1`
unfoldable pub update_row : ℕ → (OutboxEvent → OutboxEvent) → List OutboxEvent → List OutboxEvent
update_row id f [] = []
update_row id f (row ∷ rows) = (if row.id == id then f row else row) ∷ update_row id f rows

abbrev pub processed : ℕ → OutboxEvent → OutboxEvent
processed now row = record row { processed_at = some now }

abbrev pub failed : ℕ → String → OutboxEvent → OutboxEvent
failed now message row = record row {
  retry_count = suc row.retry_count;
  last_error = some message;
  last_attempted_at = some now;
}

unfoldable pub mark_outbox_processed : ℕ → ℕ → Outbox → Unit {0} × Outbox
mark_outbox_processed now id o = (tt, record o { rows = update_row id (processed now) o.rows })

unfoldable pub mark_outbox_failed : ℕ → ℕ → String → Outbox → Unit {0} × Outbox
mark_outbox_failed now id message o =
    (tt, record o { rows = update_row id (failed now message) o.rows })

unfoldable pub insert_outbox_dead_letter : DeadLetter → Outbox → Unit {0} × Outbox
insert_outbox_dead_letter letter o = (tt, record o { dead_letters = o.dead_letters ++ letter ∷ [] })

-- The wait before a row with this many failures is tried again, in seconds.
unfoldable pub backoff : ℕ → ℕ
backoff retries =
    if retries == 1
    then 30
    else if retries == 2
    then 2 * 60
    else if retries == 3
    then 10 * 60
    else if retries == 4
    then 30 * 60
    else 60 * 60

-- `last_attempted_at IS NULL OR …`; a row with no failure but an attempt matches no line.
abbrev pub rested : ℕ → ℕ → Option ℕ → Bool
rested now retries none = true
rested now retries (some at) = leb 1 retries && ltb (at + backoff retries) now

-- The `WHERE` of `PendingOutboxBatch`, with the rows that `SKIP LOCKED` passes over.
unfoldable pub is_pending : ℕ → (ℕ → Bool) → ℕ → OutboxEvent → Bool
unfolding backoff
is_pending now locked max_retry row =
    not (is_some row.processed_at)
    && ltb row.retry_count max_retry
    && rested now row.retry_count row.last_attempted_at
    && not (locked row.id)

-- `ORDER BY last_attempted_at NULLS FIRST, id ASC`
unfoldable pub attempt_le : Option ℕ → Option ℕ → ℕ → ℕ → Bool
attempt_le none none i j = leb i j
attempt_le none (some t) i j = true
attempt_le (some s) none i j = false
attempt_le (some s) (some t) i j = ltb s t || s == t && leb i j

unfoldable pub insert_row : OutboxEvent → List OutboxEvent → List OutboxEvent
unfolding attempt_le
insert_row row [] = row ∷ []
insert_row row (x ∷ xs) =
    let rest = insert_row row xs in
    if attempt_le row.last_attempted_at x.last_attempted_at row.id x.id
    then row ∷ x ∷ xs
    else x ∷ rest

unfoldable pub order_rows : List OutboxEvent → List OutboxEvent
unfolding insert_row
order_rows [] = []
order_rows (row ∷ rows) = insert_row row (order_rows rows)

unfoldable pub pending_outbox_batch : ℕ → (ℕ → Bool) → ℕ → ℕ → Outbox → List OutboxEvent × Outbox
unfolding is_pending order_rows filter take
pending_outbox_batch now locked max_retry limit o =
    (take limit (order_rows (filter (is_pending now locked max_retry) o.rows)), o)
