-- ===== src/Event/Bus/Dispatch.antt =====
-- `dispatch` of internal/event/bus.go against a description with no loop variables.
use mathlib.Core.List.{append_assoc, append-nil}
use go_grpc_starter.Prelude.{
  ◌≡◌, refl, Bool, true, ◌&&◌, not, Option, none, some, List, [], ◌∷◌, ◌++◌, if◌then◌else◌, arith,
}
use go_grpc_starter.Errs.{GoError}
use go_grpc_starter.Event.Outbox.{Event}
use go_grpc_starter.Event.Bus.{
  AsyncDispatcher, Delivery, ran, offered, EnqueueError, Subscription, Progress, task_options,
  is_duplicate_enqueue, run_sync, enqueue_failed, dispatch_one, dispatch_loop, dispatch,
}

-- What one subscription is given, whatever it answers.
abbrev pub attempt_of : Option AsyncDispatcher → Event → Subscription → List Delivery
attempt_of none evt s = if s.is_async then [] else ran s.name evt ∷ []
attempt_of (some _) evt s =
    (if s.is_async then offered s.name evt (task_options s evt) else ran s.name evt) ∷ []

abbrev pub attempts : Option AsyncDispatcher → Event → List Subscription → List Delivery
attempts d evt [] = []
attempts d evt (s ∷ subs) = attempt_of d evt s ++ attempts d evt subs

-- The queue has the task, from this offer or from an earlier one.
abbrev pub is_held : Option EnqueueError → Bool
is_held none = true
is_held (some e) = is_duplicate_enqueue e

abbrev pub accepts : Option AsyncDispatcher → Event → Subscription → List Delivery → Bool
accepts none evt s log = not s.is_async
accepts (some enqueue) evt s log =
    if s.is_async then is_held (enqueue log evt (task_options s evt)) else true

abbrev pub all_accepted : Option AsyncDispatcher → Event → List Subscription → List Delivery → Bool
all_accepted d evt [] log = true
all_accepted d evt (s ∷ subs) log =
    accepts d evt s log && all_accepted d evt subs (log ++ attempt_of d evt s)

abbrev or_else : Option GoError → Option GoError → Option GoError
or_else none e = e
or_else (some e) _ = some e

-- The error of a critical handler that runs in this process.
abbrev critical_error : Event → Subscription → List Delivery → Option GoError
critical_error evt s log =
    if s.is_async then none else if s.critical then run_sync log evt s else none

abbrev pub first_critical :
    Option AsyncDispatcher → Event → List Subscription → List Delivery → Option GoError
first_critical d evt [] log = none
first_critical d evt (s ∷ subs) log =
    or_else (critical_error evt s log) (first_critical d evt subs (log ++ attempt_of d evt s))

dispatch_one_lem :
    (d : Option AsyncDispatcher) (evt : Event) (s : Subscription) (p : Progress)
    → dispatch_one d evt s p ≡ record {
      log = p.log ++ attempt_of d evt s;
      all_enqueued = p.all_enqueued && accepts d evt s p.log;
      first_crit_err = or_else p.first_crit_err (critical_error evt s p.log);
    }
unfolding dispatch_one
dispatch_one_lem none evt s p = ground (arith, append-nil p.log)
dispatch_one_lem (some enqueue) evt s p = ground arith

dispatch_loop_lem :
    (d : Option AsyncDispatcher) (evt : Event) (subs : List Subscription) (p : Progress)
    → dispatch_loop d evt subs p ≡ record {
      log = p.log ++ attempts d evt subs;
      all_enqueued = p.all_enqueued && all_accepted d evt subs p.log;
      first_crit_err = or_else p.first_crit_err (first_critical d evt subs p.log);
    }
unfolding dispatch_loop
dispatch_loop_lem d evt [] p = ground (arith, append-nil p.log)
dispatch_loop_lem d evt (s ∷ subs) p = rw (dispatch_loop_lem d evt subs (dispatch_one d evt s p)) (
    rw dispatch_one_lem
      (ground (arith, append_assoc p.log (attempt_of d evt s) (attempts d evt subs))))

-- With a queue, `dispatch` offers or runs every subscription once and in order, whatever the others answer;
-- without one it runs the synchronous subscriptions so, and leaves the asynchronous ones out. It returns
-- `ErrEnqueueFailed` if some asynchronous subscription was left out or its task is not held by the queue,
-- else the first error of a critical handler that runs in this process, if there is one.
pub dispatch_lem :
    (d : Option AsyncDispatcher) (log : List Delivery) (evt : Event) (subs : List Subscription)
    → dispatch d log evt subs ≡ (
      (if all_accepted d evt subs log then first_critical d evt subs log else some enqueue_failed),
      log ++ attempts d evt subs,
    )
unfolding dispatch
dispatch_lem d log evt subs = rw dispatch_loop_lem refl
