-- ===== src/Event/Bus.antt =====
-- `Bus` of internal/event/bus.go: subscriptions, `Publish` and `dispatch`. What a handler or the
-- queue answers is a parameter, which may depend on all that was delivered before. Logging and
-- metrics are left out.
pub mod Dispatch
pub mod Publish
use go_grpc_starter.Prelude.{
  ℕ, String, Bool, true, false, ◌&&◌, not, Option, none, some, is_some, List, [], ◌∷◌, ◌++◌, leb,
  any, if◌then◌else◌, str_eq,
}
use go_grpc_starter.Errs.{GoError, other, Result, ok, err}
use go_grpc_starter.Store.{Conn, Action, pure, ◌>>=◌, ◌>>◌}
use go_grpc_starter.Event.Outbox.{Event, write, mark_processed, mark_failed}
use go_grpc_starter.Event.Outbox.Table.{Outbox}

-- `asynq.Option`, as internal/event/options.go makes them; a duration is in seconds.
pub data AsynqOption : Type 0 where
  queue task_id : String → AsynqOption
  unique max_retry timeout : ℕ → AsynqOption

-- What `Enqueue` returns besides nil.
pub data EnqueueError : Type 0 where
  duplicate_task task_id_conflict : EnqueueError
  unreachable : String → EnqueueError

-- A handler is run in this process, or a task for it is offered to the queue.
pub data Delivery : Type 0 where
  ran : String → Event → Delivery
  offered : String → Event → List AsynqOption → Delivery

-- How a handler ends: it returns an error or nil, or it panics.
pub data Outcome : Type 0 where
  returned : Option GoError → Outcome
  panicked : String → Outcome

abbrev pub AsyncDispatcher : Type 0
AsyncDispatcher = List Delivery → Event → List AsynqOption → Option EnqueueError

pub record Subscription : Type 0 where
  pub name : String
  pub invoke : List Delivery → Event → Outcome
  pub is_async : Bool
  pub async_opts : List AsynqOption
  pub task_id_fn : Option (Event → String)
  pub critical : Bool

-- `log` is what the bus has delivered, in order; the program keeps no such list.
pub record Bus : Type 0 where
  pub subs : List (String × List Subscription)
  pub asynq : Option AsyncDispatcher
  pub has_outbox : Bool
  pub drain_kick : Bool
  pub drain_batch_size : ℕ
  pub drain_breaker_failures : ℕ
  pub drain_breaker_opened_at : ℕ
  pub log : List Delivery

-- `b.subs[eventType]`
unfoldable pub subscribers : String → List (String × List Subscription) → List Subscription
subscribers event_type [] = []
subscribers event_type ((k, s) ∷ m) = if str_eq k event_type then s else subscribers event_type m

unfoldable pub add_to :
    String → Subscription → List (String × List Subscription) → List (String × List Subscription)
add_to event_type sub [] = (event_type, sub ∷ []) ∷ []
add_to event_type sub ((k, s) ∷ m) =
    let rest = add_to event_type sub m in
    if str_eq k event_type then (k, s ++ sub ∷ []) ∷ m else (k, s) ∷ rest

-- `add`
unfoldable pub add : Bus → String → Subscription → Bus
unfolding add_to
add b event_type sub = record b { subs = add_to event_type sub b.subs }

-- `HasSubscribers`
unfoldable pub has_subscribers : Bus → String → Bool
unfolding subscribers
has_subscribers b event_type = elim (subscribers event_type b.subs) [ [] ↦ false | _ ∷ _ ↦ true ]

abbrev pub kick_drain : Bus → Bus
kick_drain b = record b { drain_kick = true }

-- `ErrEnqueueFailed`; `errors.Is` is read as equality of messages.
abbrev pub enqueue_failed : GoError
enqueue_failed = other "one or more async event enqueues failed"

unfoldable pub is_enqueue_failed : GoError → Bool
is_enqueue_failed (other message) = str_eq message "one or more async event enqueues failed"
is_enqueue_failed _ = false

unfoldable pub is_duplicate_enqueue : EnqueueError → Bool
is_duplicate_enqueue (unreachable _) = false
is_duplicate_enqueue _ = true

-- The options that `dispatch` offers a task with.
unfoldable pub task_options : Subscription → Event → List AsynqOption
task_options s evt = elim s.task_id_fn [
  | none ↦ s.async_opts
  | some f ↦ s.async_opts ++ task_id (f evt) ∷ []
]

abbrev pub recover : Outcome → Option GoError
recover (returned e) = e
recover (panicked r) = some (other r)

-- `runSync`
unfoldable pub run_sync : List Delivery → Event → Subscription → Option GoError
run_sync log evt s = recover (s.invoke log evt)

-- The loop variables of `dispatch`, and the log.
pub record Progress : Type 0 where
  pub log : List Delivery
  pub all_enqueued : Bool
  pub first_crit_err : Option GoError

abbrev pub after_enqueue : Option EnqueueError → Progress → Progress
after_enqueue none p = p
after_enqueue (some e) p = if is_duplicate_enqueue e then p else record p { all_enqueued = false }

abbrev pub after_sync : Option GoError → Bool → Progress → Progress
after_sync none critical p = p
after_sync (some e) critical p =
    if critical && not (is_some p.first_crit_err) then record p { first_crit_err = some e } else p

unfoldable pub dispatch_async : Option AsyncDispatcher → Event → Subscription → Progress → Progress
unfolding is_duplicate_enqueue
dispatch_async none evt s p = record p { all_enqueued = false }
dispatch_async (some enqueue) evt s p =
    let opts = task_options s evt in
    after_enqueue (enqueue p.log evt opts)
      (record p { log = p.log ++ offered s.name evt opts ∷ [] })

unfoldable pub dispatch_one : Option AsyncDispatcher → Event → Subscription → Progress → Progress
unfolding dispatch_async
dispatch_one d evt s p =
    if s.is_async
    then dispatch_async d evt s p
    else after_sync (run_sync p.log evt s) s.critical
        (record p { log = p.log ++ ran s.name evt ∷ [] })

unfoldable pub dispatch_loop :
    Option AsyncDispatcher → Event → List Subscription → Progress → Progress
dispatch_loop d evt [] p = p
dispatch_loop d evt (s ∷ subs) p = dispatch_loop d evt subs (dispatch_one d evt s p)

abbrev pub verdict : Progress → Option GoError
verdict p = if p.all_enqueued then p.first_crit_err else some enqueue_failed

unfoldable pub dispatch :
    Option AsyncDispatcher
    → List Delivery
    → Event
    → List Subscription
    → Option GoError × List Delivery
unfolding dispatch_loop
dispatch d log evt subs =
    let p =
      dispatch_loop d evt subs (record { log = log; all_enqueued = true; first_crit_err = none }) in
    (verdict p, p.log)

abbrev pub to_result : Option GoError → Result (Unit {0})
to_result none = ok tt
to_result (some e) = err e

-- `b.dispatch` on the bus.
unfoldable pub deliver : Event → List Subscription → Action Bus Outbox (Unit {0})
deliver evt subs c =
    let (e, log) = dispatch c.outside.asynq c.outside.log evt subs in
    (to_result e, record c { outside = record c.outside { log = log } })

-- A call whose error the caller looks at itself.
abbrev pub attempt : {A : Type 0} → Action Bus Outbox A → Action Bus Outbox (Result A)
attempt m c = let (r, c') = m c in (ok r, c')

abbrev pub kick : Action Bus Outbox (Unit {0})
kick c = (ok tt, record c { outside = kick_drain c.outside })

abbrev pub or_zero : Result ℕ × Conn Bus Outbox → ℕ × Conn Bus Outbox
or_zero (ok id, c) = (id, c)
or_zero (err e, c) = (0, c)

abbrev pub failed_to_enqueue : Result (Unit {0}) → Bool
failed_to_enqueue (ok _) = false
failed_to_enqueue (err e) = is_enqueue_failed e

-- The row of a direct delivery; an error of `Write` is only logged.
unfoldable pub write_row : ℕ → Event → Bool → Conn Bus Outbox → ℕ × Conn Bus Outbox
write_row now evt wanted c = if wanted then or_zero (write now evt c) else (0, c)

-- The row is marked by the outcome of the delivery; an error of the mark is dropped.
unfoldable pub mark_row : ℕ → ℕ → Result (Unit {0}) → Conn Bus Outbox → Conn Bus Outbox
mark_row now id r c =
    if leb 1 id
    then (if failed_to_enqueue r
        then (let d = (mark_failed now id "one or more enqueues failed" c).1 in
            record d { outside = kick_drain d.outside })
        else (mark_processed now id c).1)
    else c

-- `Publish` outside a transaction.
unfoldable pub publish_direct : ℕ → Event → List Subscription → Action Bus Outbox (Unit {0})
publish_direct now evt subs c =
    let (id, c1) =
      write_row now evt (any (λ (s : Subscription). s.is_async) subs && c.outside.has_outbox) c in
    let (r, c2) = deliver evt subs c1 in (r, mark_row now id r c2)

unfoldable pub publish_to : ℕ → Bool → Event → List Subscription → Action Bus Outbox (Unit {0})
publish_to now from_drain evt [] c = (ok tt, c)
publish_to now from_drain evt (s ∷ subs) c =
    if from_drain
    then deliver evt (s ∷ subs) c
    else if c.in_tx && c.outside.has_outbox
    then (do write now evt; kick) c
    else publish_direct now evt (s ∷ subs) c

-- `Publish`; `from_drain` is the mark that the drain puts in the context.
unfoldable pub publish : ℕ → Bool → Event → Action Bus Outbox (Unit {0})
unfolding publish_to subscribers
publish now from_drain evt c =
    publish_to now from_drain evt (subscribers evt.event_type c.outside.subs) c
