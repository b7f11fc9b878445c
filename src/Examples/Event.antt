-- ===== src/Examples/Event.antt =====
-- The bus, the outbox and the drain of internal/event on a small table.
use go_grpc_starter.Prelude.{
  ℕ, ◌<◌, ◌*◌, ◌≡◌, refl, String, Bool, true, false, none, some, List, [], ◌∷◌, All, arith, any,
}
use go_grpc_starter.Errs.{other, ok, err}
use go_grpc_starter.Store.{Conn, Action, opened, query, constrained_query, with_tx, run}
use go_grpc_starter.Event.Outbox.{Event, write, mark_failed, pending_batch}
use go_grpc_starter.Event.Outbox.Table.{
  Outbox, new_row, insert_outbox, clashes, update_row, mark_outbox_failed, pending_outbox_batch,
}
use go_grpc_starter.Event.Outbox.Pending.{total_left, attempts_left}
use go_grpc_starter.Event.Bus.{
  dispatch_one, run_sync, write_row, task_options, is_duplicate_enqueue, AsyncDispatcher, Bus,
  Subscription, offered, ran, unreachable, returned, panicked, enqueue_failed, dispatch, publish,
  max_retry, task_id, subscribers, deliver, publish_to, publish_direct,
}
use go_grpc_starter.Event.Bus.Dispatch.{dispatch_lem}
use go_grpc_starter.Event.Bus.Publish.{Unstamped, publish-Unstamped}
use go_grpc_starter.Event.Drain.{
  run_rows, process_rows, process_row, decode_row, publish_row, mark_published, batch, factory_for,
  Factory, breaker_allows, record_breaker, drain_batch, drain_once,
}
use go_grpc_starter.Event.Drain.Batch.{Drained, drain_batch_outcome}
use go_grpc_starter.Event.Drain.Finish.{drain_once_ends}
use go_grpc_starter.Event.Drain.Breaker.{
  Attempted, replay, streak, opened_by, allowed_at, breaker_refines,
}

abbrev welcome : Event
welcome = record { event_type = "user.registered"; payload = some "{}"; dedupe_key = none }

abbrev mailer : Subscription
mailer = record {
  name = "mailer";
  invoke = λ _ _. returned none;
  is_async = true;
  async_opts = max_retry 5 ∷ [];
  task_id_fn = some (λ e. e.event_type);
  critical = false;
}

abbrev auditor : Subscription
auditor = record {
  name = "auditor";
  invoke = λ _ _. panicked "nil map";
  is_async = false;
  async_opts = [];
  task_id_fn = none;
  critical = true;
}

abbrev queue_down : AsyncDispatcher
queue_down _ _ _ = some (unreachable "connection refused")

abbrev bus : Bus
bus = record {
  subs = ("user.registered", mailer ∷ auditor ∷ []) ∷ [];
  asynq = some queue_down;
  has_outbox = true;
  drain_kick = false;
  drain_batch_size = 1;
  drain_breaker_failures = 2;
  drain_breaker_opened_at = 0;
  log = [];
}

abbrev outbox : Outbox
outbox = record {
  rows = new_row 5 "user.registered" "{}" none 1 ∷ new_row 6 "user.forgotten" "{}" none 2 ∷ [];
  dead_letters = [];
  next_id = 3;
}

abbrev idle : Conn Bus Outbox
idle = record {
  db = outbox;
  outside = bus;
  in_tx = false;
  aborted = false;
  clock = 0;
  faults = λ _. false;
}

abbrev registry : List (String × Factory)
registry = ("user.registered", λ _. ok welcome) ∷ []

abbrev free : ℕ → Bool
free _ = false

-- `WithTx` around a write that is followed by an error.
abbrev failing : Action Bus Outbox (Unit {0})
failing c = (err (other "later step"), record c { db = record c.db { rows = [] } })

abbrev clearing : Action Bus Outbox (Unit {0})
clearing c = (ok tt, record c { db = record c.db { rows = [] } })

dispatch_lem_example : dispatch (some queue_down) [] welcome (mailer ∷ auditor ∷ []) ≡ (
  some enqueue_failed,
  offered "mailer" welcome (max_retry 5 ∷ task_id "user.registered" ∷ [])
      ∷ ran "auditor" welcome
      ∷ [],
)
unfolding task_options is_duplicate_enqueue
dispatch_lem_example = dispatch_lem (some queue_down) [] welcome (mailer ∷ auditor ∷ [])

abbrev busy : Conn Bus Outbox
busy = opened idle

publish_fails : (publish 7 false welcome idle).0 ≡ err enqueue_failed
unfolding publish publish_to publish_direct subscribers deliver dispatch any dispatch_one run_sync
    write_row write run constrained_query insert_outbox clashes
publish_fails = refl

publish-Unstamped_example : All (Unstamped 3) (publish 7 false welcome idle).1.db.rows
publish-Unstamped_example = publish-Unstamped 7 welcome idle refl (omega arith) publish_fails

-- The first row is claimed; its delivery fails, and the third failed batch opens the breaker.
drain_batch_run : (drain_batch 9 free registry idle).0 ≡ (1, false)
unfolding drain_batch with_tx run query batch pending_batch pending_outbox_batch run_rows
    process_rows process_row decode_row publish_row mark_published mark_failed mark_outbox_failed
    update_row publish publish_to subscribers deliver dispatch factory_for record_breaker
    dispatch_one run_sync
drain_batch_run = refl

drain_batch_outcome_example : Drained 9 free registry idle (drain_batch 9 free registry idle)
drain_batch_outcome_example = drain_batch_outcome 9 free registry idle refl

twenty_left : total_left 10 outbox.rows < 21
unfolding total_left attempts_left
twenty_left = omega arith

-- A minute for each call of the database, so that a failed row is due again in the next batch.
abbrev later : ℕ → ℕ
later calls = 60 * calls

drain_once_ends_example :
    (d : Conn Bus Outbox) × (drain_once 21 later (λ _. false) (λ _. free) registry idle ≡ some d)
drain_once_ends_example =
    drain_once_ends registry later (λ _. free) 21 (λ _. false) idle refl (omega arith) twenty_left

abbrev outage : List Attempted
outage =
    record { at = 70; attempts = 1; failures = 1 }
    ∷ record { at = 71; attempts = 1; failures = 1 }
    ∷ []

breaker_refines_example :
    breaker_allows 72 (replay outage (record bus { drain_breaker_failures = 0 }))
    ≡ allowed_at 72 (opened_by (streak outage))
breaker_refines_example = breaker_refines outage (record bus { drain_breaker_failures = 0 }) 72 refl
