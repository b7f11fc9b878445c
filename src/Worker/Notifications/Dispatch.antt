-- ===== src/Worker/Notifications/Dispatch.antt =====
-- internal/worker/notifications/dispatcher.go: the queueing of notifications. Asynq and encoding/json are
-- collaborators; `IsAsynq` is what Asynq documents of the identifiers of tasks.
use go_grpc_starter.Prelude.{
  ℕ, String, ◌≡◌, refl, ap, ◌∙◌, Bool, true, false, ◌||◌, Option, none, some, if◌then◌else◌, arith,
  str_eq, str_append,
}
use go_grpc_starter.Errs.{other, Result, ok, err}

-- `Event`, with the fields that the queue reads; `content` is the rest.
pub record Queued (C : Type 0) : Type 0 where
  pub content : C
  pub priority : String
  pub scheduled_at : Option ℕ
  pub idempotency_key : String

-- `asynq.Task` with its options
pub record Task : Type 0 where
  pub kind : String
  pub payload : String
  pub queue : String
  pub max_retry : ℕ
  pub process_at : Option ℕ
  pub timeout : ℕ
  pub task_id : Option String

pub record EnqueueError : Type 0 where
  pub is_duplicate_task : Bool
  pub is_task_id_conflict : Bool

pub data Enqueued : Type 0 where
  accepted : Enqueued
  rejected : EnqueueError → Enqueued

pub record Asynq (W C : Type 0) : Type 0 where
  pub enqueue : Task → W → Enqueued × W
  pub marshal : Queued C → Result String
  pub retry_max : ℕ

abbrev priority_normal : String
priority_normal = "normal"

unfoldable pub queue_name : String → String
queue_name priority = str_append "notifications:" priority

unfoldable is_duplicate_enqueue : EnqueueError → Bool
is_duplicate_enqueue e = e.is_duplicate_task || e.is_task_id_conflict

abbrev id_option : String → Option String
id_option key = if str_eq key "" then none else some key

module _ {C : Type 0} where
  abbrev pub with_priority : Queued C → Queued C
  with_priority event =
      if str_eq event.priority "" then record event { priority = priority_normal } else event

  module _ {W : Type 0} (q : Asynq W C) where
    abbrev task_of : String → Option ℕ → Queued C → String → Task
    task_of kind at event payload = record {
      kind = kind;
      payload = payload;
      queue = queue_name event.priority;
      max_retry = q.retry_max;
      process_at = at;
      timeout = 30;
      task_id = id_option event.idempotency_key;
    }

    -- A task that is queued already is no error.
    abbrev settled : String → Enqueued → Result (Unit {0})
    settled text accepted = ok tt
    settled text (rejected e) = if is_duplicate_enqueue e then ok tt else err (other text)

    abbrev enqueue_encoded :
        String → String → Option ℕ → Queued C → Result String → W → Result (Unit {0}) × W
    enqueue_encoded kind text at event (err e) w = (err (other "failed to marshal event"), w)
    enqueue_encoded kind text at event (ok payload) w =
        let (r, w') = q.enqueue (task_of kind at event payload) w in (settled text r, w')

    unfoldable pub send : Queued C → W → Result (Unit {0}) × W
    unfolding queue_name is_duplicate_enqueue
    send event w =
        let e = with_priority event in
        enqueue_encoded "notification:send" "failed to enqueue notification" none e (q.marshal e) w

    unfoldable schedule : Queued C → ℕ → W → Result (Unit {0}) × W
    unfolding queue_name is_duplicate_enqueue
    schedule event at w =
        let e = record (with_priority event) { scheduled_at = some at } in
        enqueue_encoded "notification:scheduled" "failed to schedule notification" (some at) e
          (q.marshal e) w

-- Identifiers are unique in each queue: a task whose identifier its queue has is refused with a conflict, and
-- one that was accepted or refused so is in the queue. `Unique`, the option that the other refusal needs, is
-- not given.
pub record IsAsynq {W C : Type 0} (q : Asynq W C) : Type 0 where
  pub has : String → String → W → Bool
  pub is_up : W → Bool
  pub held :
      (t : Task) (key : String) (w : W)
      → t.task_id ≡ some key
      → has t.queue key w ≡ true
      → is_up w ≡ true
      → (e : EnqueueError) × (q.enqueue t w ≡ (rejected e, w)) × (e.is_task_id_conflict ≡ true)
  pub takes :
      (t : Task) (key : String) (w : W)
      → t.task_id ≡ some key
      → (q.enqueue t w).0 ≡ accepted
      → has t.queue key (q.enqueue t w).1 ≡ true
  pub conflicts :
      (t : Task) (key : String) (w : W) (e : EnqueueError)
      → t.task_id ≡ some key
      → (q.enqueue t w).0 ≡ rejected e
      → e.is_task_id_conflict ≡ true
      → has t.queue key (q.enqueue t w).1 ≡ true
  pub no_lock :
      (t : Task) (w : W) (e : EnqueueError)
      → (q.enqueue t w).0 ≡ rejected e
      → e.is_duplicate_task ≡ false

module _ {W C : Type 0} (q : Asynq W C) (h : IsAsynq q) where
  settled-has :
      (text key : String) (t : Task) (w : W) (r : Enqueued)
      → t.task_id ≡ some key
      → (q.enqueue t w).0 ≡ r
      → settled q text r ≡ ok tt
      → h.has t.queue key (q.enqueue t w).1 ≡ true
  unfolding is_duplicate_enqueue
  settled-has text key t w accepted named e fine = h.takes t key w named e
  settled-has text key t w (rejected x) named e fine =
      h.conflicts t key w x named e (ground (arith, fine, h.no_lock t w x e))

  encoded-has :
      (kind text key : String) (at : Option ℕ) (e : Queued C) (r : Result String) (w : W)
      → id_option e.idempotency_key ≡ some key
      → (enqueue_encoded q kind text at e r w).0 ≡ ok tt
      → h.has (queue_name e.priority) key (enqueue_encoded q kind text at e r w).1 ≡ true
  encoded-has kind text key at e (err x) w named fine = cc
  encoded-has kind text key at e (ok payload) w named fine =
      settled-has text key (task_of q kind at e payload) w _ named refl fine

  id_option_keyed :
      (event : Queued C)
      → str_eq event.idempotency_key "" ≡ false
      → id_option (with_priority event).idempotency_key ≡ some event.idempotency_key
  id_option_keyed event keyed = ground (arith, keyed)

  send-has :
      (event : Queued C) (w : W)
      → str_eq event.idempotency_key "" ≡ false
      → (send q event w).0 ≡ ok tt
      → h.has (queue_name (with_priority event).priority) event.idempotency_key (send q event w).1
        ≡ true
  unfolding send
  send-has event w keyed fine =
      encoded-has _ _ event.idempotency_key none (with_priority event)
        (q.marshal (with_priority event)) w (id_option_keyed event keyed) fine

  -- A notification is queued once under its key. Once `Send` of an event with an idempotency key has returned
  -- no error, `Send` of any event with that key and that priority, `normal` where none is given, returns no
  -- error and leaves the queue as it is, as long as the queue has not let go of the first task and can be
  -- reached; the second event can be encoded.
  pub send_once :
      (event again : Queued C) (payload : String) (w d : W)
      → str_eq event.idempotency_key "" ≡ false
      → (send q event w).0 ≡ ok tt
      → again.idempotency_key ≡ event.idempotency_key
      → (with_priority again).priority ≡ (with_priority event).priority
      → q.marshal (with_priority again) ≡ ok payload
      → h.has (queue_name (with_priority event).priority) event.idempotency_key d
        ≡ h.has (queue_name (with_priority event).priority) event.idempotency_key (send q event w).1
      → h.is_up d ≡ true
      → send q again d ≡ (ok tt, d)
  unfolding send is_duplicate_enqueue
  send_once event again payload w d keyed sent same_key same_priority encoded kept up =
      let there = kept ∙ send-has event w keyed sent in
      let e = with_priority again in
      let t = task_of q "notification:send" none e payload in
      let named : t.task_id ≡ some event.idempotency_key =
        id_option_keyed again (rw same_key keyed) ∙ ap some same_key in
      let there' : h.has t.queue event.idempotency_key d ≡ true = rw same_priority there in
      let (refusal, full, conflict) = h.held t event.idempotency_key d named there' up in
      let settles : settled q "failed to enqueue notification" (rejected refusal) ≡ ok tt =
        ground (arith, conflict) in
      rw (encoded, full, settles) refl
