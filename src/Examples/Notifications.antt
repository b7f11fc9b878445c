-- ===== src/Examples/Notifications.antt =====
-- Notifications on small tables: a user with two devices, and quiet hours from ten in the evening.
use go_grpc_starter.Prelude.{
  ℕ, suc, ◌*◌, ◌≡◌, refl, true, false, none, some, [], ◌∷◌, ltb, find, arith, String, Bool, Option,
  List, any, ◌&&◌, str_eq, eq_iff, if◌then◌else◌,
}
use go_grpc_starter.Errs.{ok}
use go_grpc_starter.Store.{Conn}
use go_grpc_starter.Store.Calm.{IsCalm}
use go_grpc_starter.Worker.Notifications.Bytes.{clock_text, interpolate, replace_from, time_of_day}
use go_grpc_starter.Worker.Notifications.Tables.{
  FcmToken, NotificationPreferences, NotifyDb, TemplateRow, active_tokens,
}
use go_grpc_starter.Worker.Notifications.Build.{Event}
use go_grpc_starter.Worker.Notifications.{
  delivered, Pushes, NotifyConfig, is_category_enabled, quiet_from, is_quiet_hours, is_between,
  process_notification,
}
use go_grpc_starter.Worker.Notifications.Dispatch.{
  Queued, Asynq, EnqueueError, Enqueued, accepted, rejected, IsAsynq, queue_name, send, send_once,
}
use go_grpc_starter.Worker.Notifications.Quiet.{clockwise, is_between_lem}
use go_grpc_starter.Worker.Notifications.Delivers.{with_its_words, process_notification-IsComplete}
use go_grpc_starter.Worker.Notifications.Deliver.{IsComplete, IsWhole, process_notification-IsWhole}
use go_grpc_starter.Worker.Notifications.Silent.{IsQuiet, quiet_hours_silent}

-- From 22:00 to 07:00, at 23:30
is_between_lem_example :
    is_between (clock_text (22 * 3600)) (clock_text (7 * 3600)) (clock_text 84600)
    ≡ ltb (clockwise (22 * 3600) 84600) (clockwise (22 * 3600) (7 * 3600))
is_between_lem_example =
    is_between_lem (22 * 3600) (7 * 3600) 84600 (omega arith) (omega arith) (omega arith)

-- `{a}` where `a` is `{b}` and `b` is `x`: the result depends on the order in which Go visits the map.
one_order :
    interpolate (123 ∷ 97 ∷ 125 ∷ []) ((97 ∷ [], 123 ∷ 98 ∷ 125 ∷ []) ∷ (98 ∷ [], 120 ∷ []) ∷ [])
    ≡ 120 ∷ []
unfolding interpolate replace_from
one_order = refl

other_order :
    interpolate (123 ∷ 97 ∷ 125 ∷ []) ((98 ∷ [], 120 ∷ []) ∷ (97 ∷ [], 123 ∷ 98 ∷ 125 ∷ []) ∷ [])
    ≡ 123 ∷ 98 ∷ 125 ∷ []
unfolding interpolate replace_from
other_order = refl

-- The outside world counts the messages; it is always 23:30.
abbrev firebase : Pushes ℕ
firebase = record {
  send = λ _ w. (delivered "m", suc w);
  clock_in = λ _ _. some (clock_text 84600);
  utc_clock = λ _. clock_text 84600;
  marshal_payload = λ _. ok "{}";
}

abbrev settings : NotifyConfig
settings = record {
  check_enabled = true;
  default_timezone = "UTC";
  links = record { event_links = λ _. none; templates = λ _. none; base_url = [] };
}

abbrev device : ℕ → FcmToken
device id = record {
  id = id;
  user_id = 1;
  device_id = "d";
  token = "t";
  platform = "ios";
  is_active = true;
  last_used_at = none;
}

abbrev asleep : NotificationPreferences
asleep = record {
  user_id = 1;
  push = true;
  email = true;
  marketing = true;
  quiet_hours_enabled = true;
  quiet_hours_start = some (22 * 3600 * 1000000);
  quiet_hours_end = some (7 * 3600 * 1000000);
  timezone = "Europe/Paris";
}

abbrev template : TemplateRow
template = record {
  id = 1;
  event_type = 97 ∷ [];
  sound = "";
  priority = "high";
  android_channel_id = none;
  action = none;
}

abbrev tables : Conn ℕ NotifyDb
tables = record {
  db = record {
    tokens = device 1 ∷ device 2 ∷ [];
    preferences = asleep ∷ [];
    templates = template ∷ [];
    translations = [];
    logs = [];
  };
  outside = 0;
  in_tx = false;
  aborted = false;
  clock = 0;
  faults = λ _. false;
}

abbrev news : ℕ → Event
news user_id = record {
  event_type = 97 ∷ [];
  user_id = user_id;
  event_data = [];
  priority = "normal";
}

process_notification-IsWhole_example :
    IsWhole firebase settings 9
      (news 1)
      (active_tokens 1 tables.db)
      0
      (process_notification firebase settings 9 (news 1) tables)
process_notification-IsWhole_example =
    process_notification-IsWhole firebase settings 9 (news 1) tables

calm : IsCalm tables
calm = record { no_faults = λ _. refl; sound = refl }

quiet : IsQuiet firebase settings 9 asleep 0
quiet = record {
  start = 22 * 3600 * 1000000;
  end_at = 7 * 3600 * 1000000;
  current = 84600;
  starts = refl;
  ends = refl;
  start_in_day = omega arith;
  end_in_day = omega arith;
  zoned = refl;
  clock = refl;
  current_in_day = omega arith;
  within = omega arith;
}

quiet_hours_silent_example :
    ((process_notification firebase settings 9 (news 1) tables).0 ≡ ok tt)
    × ((process_notification firebase settings 9 (news 1) tables).1.outside ≡ 0)
unfolding find
quiet_hours_silent_example =
    quiet_hours_silent firebase settings 9 (news 1) asleep tables calm refl refl refl quiet

abbrev awake : NotificationPreferences
awake = record asleep { quiet_hours_start = none }

abbrev daytime : Conn ℕ NotifyDb
daytime = record tables { db = record tables.db { preferences = awake ∷ [] } }

waking : is_quiet_hours firebase settings 9 awake 0 ≡ false
unfolding is_quiet_hours quiet_from time_of_day
waking = refl

process_notification-IsComplete_example :
    IsComplete firebase settings 9
      (news 1)
      (with_its_words template daytime.db)
      (active_tokens 1 daytime.db)
      0
      (process_notification firebase settings 9 (news 1) daytime)
unfolding find is_category_enabled
process_notification-IsComplete_example =
    process_notification-IsComplete firebase settings 9 (news 1) awake template daytime
      (record { no_faults = λ _. refl; sound = refl }) refl refl waking refl

-- The identifiers of the tasks, each with its queue
abbrev Tasks : Type 0
Tasks = List (String × String)

abbrev has_task : String → String → Tasks → Bool
has_task queue key w = any (λ (t : String × String). str_eq t.0 queue && str_eq t.1 key) w

abbrev add_task : String → Option String → Tasks → Enqueued × Tasks
add_task queue none w = (accepted, w)
add_task queue (some key) w =
    if has_task queue key w
    then (rejected (record { is_duplicate_task = false; is_task_id_conflict = true }), w)
    else (accepted, (queue, key) ∷ w)

abbrev tasks : Asynq Tasks ℕ
tasks = record {
  enqueue = λ t w. add_task t.queue t.task_id w;
  marshal = λ _. ok "{}";
  retry_max = 3;
}

str_eq_refl : (a : String) → str_eq a a ≡ true
str_eq_refl a = ground (arith, eq_iff a a)

add_task_held :
    (queue key : String) (id : Option String) (w : Tasks)
    → id ≡ some key
    → has_task queue key w ≡ true
    → (e : EnqueueError) × (add_task queue id w ≡ (rejected e, w)) × (e.is_task_id_conflict ≡ true)
add_task_held queue key id w named there =
    (record { is_duplicate_task = false; is_task_id_conflict = true }, rw (named, there) refl, refl)

add_task_has :
    (queue key : String) (id : Option String) (w : Tasks)
    → id ≡ some key
    → has_task queue key (add_task queue id w).1 ≡ true
unfolding any
add_task_has queue key id w named = rw named (ground (arith, str_eq_refl queue, str_eq_refl key))

add_task_lock :
    (queue : String) (id : Option String) (w : Tasks) (e : EnqueueError)
    → (add_task queue id w).0 ≡ rejected e
    → e.is_duplicate_task ≡ false
add_task_lock queue none w e h = cc
add_task_lock queue (some key) w e h = ground arith

tasks-IsAsynq : IsAsynq tasks
tasks-IsAsynq = record {
  has = has_task;
  is_up = λ _. true;
  held = λ t key w named there _. add_task_held t.queue key t.task_id w named there;
  takes = λ t key w named _. add_task_has t.queue key t.task_id w named;
  conflicts = λ t key w e named _ _. add_task_has t.queue key t.task_id w named;
  no_lock = λ t w e h. add_task_lock t.queue t.task_id w e h;
}

-- The second event names the priority that the first is given.
abbrev keyed : String → Queued ℕ
keyed priority = record {
  content = 0;
  priority = priority;
  scheduled_at = none;
  idempotency_key = "k";
}

send_once_example :
    send tasks (keyed "normal") (("other", "k") ∷ (send tasks (keyed "") []).1)
    ≡ (ok tt, ("other", "k") ∷ (send tasks (keyed "") []).1)
unfolding send queue_name any tasks-IsAsynq
send_once_example =
    send_once tasks tasks-IsAsynq (keyed "") (keyed "normal") "{}" []
      (("other", "k") ∷ (send tasks (keyed "") []).1) refl refl refl refl refl refl refl
