-- ===== src/Worker/Notifications/Tables.antt =====
-- internal/worker/notifications/repositories.go over the tables of notifications, with the statements of
-- internal/store/query/fcm_tokens.sql, notification_preferences.sql and notifications.sql.
use go_grpc_starter.Prelude.{
  ℕ, String, Bool, false, ◌&&◌, Option, none, some, List, [], ◌∷◌, ◌++◌, filter, find, ◌==◌, str_eq,
}
use go_grpc_starter.Errs.{GoError, domain, status, other, Result, ok, err}
use go_grpc_starter.Store.{Action, pure, raise, ◌>>=◌, query, run}
use go_grpc_starter.Auth.Tables.{update_where}
use go_grpc_starter.Auth.Users.{bytes_eq}
use go_grpc_starter.Worker.Notifications.Bytes.{Text}

pub record FcmToken : Type 0 where
  pub id : ℕ
  pub user_id : ℕ
  pub device_id : String
  pub token : String
  pub platform : String
  pub is_active : Bool
  pub last_used_at : Option ℕ

-- The bounds of the quiet hours are microseconds of the day, as in the table; `time_of_day` makes the
-- text that the worker compares.
pub record NotificationPreferences : Type 0 where
  pub user_id : ℕ
  pub push : Bool
  pub email : Bool
  pub marketing : Bool
  pub quiet_hours_enabled : Bool
  pub quiet_hours_start : Option ℕ
  pub quiet_hours_end : Option ℕ
  pub timezone : String

pub record Translation : Type 0 where
  pub template_id : ℕ
  pub language : String
  pub title : Text
  pub body : Text

-- A row of notification_templates
pub record TemplateRow : Type 0 where
  pub id : ℕ
  pub event_type : Text
  pub sound : String
  pub priority : String
  pub android_channel_id : Option String
  pub action : Option Text

-- `NotificationTemplate`
pub record NotificationTemplate : Type 0 where
  pub row : TemplateRow
  pub translations : List Translation

pub data Status : Type 0 where
  sent failed : Status

pub record NotificationLog : Type 0 where
  pub user_id : ℕ
  pub event_type : Text
  pub event_id : String
  pub fcm_token_id : ℕ
  pub status : Status
  pub error_code : Option String
  pub error_message : Option String
  pub payload : String

pub record NotifyDb : Type 0 where
  pub tokens : List FcmToken
  pub preferences : List NotificationPreferences
  pub templates : List TemplateRow
  pub translations : List Translation
  pub logs : List NotificationLog

-- `pgx.ErrNoRows`
abbrev err_no_rows : GoError
err_no_rows = other "no rows in result set"

unfoldable pub is_no_rows : GoError → Bool
is_no_rows (domain e) = false
is_no_rows (status code message) = false
is_no_rows (other message) = str_eq message "no rows in result set"

abbrev pub set_tokens : (FcmToken → Bool) → (FcmToken → FcmToken) → NotifyDb → NotifyDb
set_tokens p f o = record o { tokens = update_where p f o.tokens }

abbrev pub has_id : ℕ → FcmToken → Bool
has_id id t = t.id == id

abbrev pub switch_off : FcmToken → FcmToken
switch_off t = record t { is_active = false }

abbrev pub use_at : ℕ → FcmToken → FcmToken
use_at now t = record t { last_used_at = some now }

-- `ListActiveFCMTokensByUserID`
unfoldable pub active_tokens : ℕ → NotifyDb → List FcmToken
active_tokens user_id o = filter (λ (t : FcmToken). t.user_id == user_id && t.is_active) o.tokens

abbrev pub preferences_of : ℕ → NotifyDb → Option NotificationPreferences
preferences_of user_id o =
    find (λ (p : NotificationPreferences). p.user_id == user_id) o.preferences

module _ {W : Type 0} where
  abbrev or_no_rows : {A : Type 0} → Option A → Action W NotifyDb A
  or_no_rows none = raise err_no_rows
  or_no_rows (some a) = pure a

  -- A call whose error is logged and dropped.
  abbrev pub attempt : {A : Type 0} → Action W NotifyDb A → Action W NotifyDb (Unit {0})
  attempt m c = (ok tt, (m c).1)

  unfoldable pub find_active_by_user_id : ℕ → Action W NotifyDb (List FcmToken)
  find_active_by_user_id user_id = run (query (λ o. (active_tokens user_id o, o)))

  unfoldable pub deactivate_by_id : ℕ → Action W NotifyDb (Unit {0})
  deactivate_by_id id = run (query (λ o. (tt, set_tokens (has_id id) switch_off o)))

  unfoldable pub update_last_used : ℕ → ℕ → Action W NotifyDb (Unit {0})
  update_last_used now id = run (query (λ o. (tt, set_tokens (has_id id) (use_at now) o)))

  -- `FindByUserID` of the preferences
  unfoldable pub find_preferences : ℕ → Action W NotifyDb NotificationPreferences
  find_preferences user_id =
      run (do row ← query (λ o. (preferences_of user_id o, o)); or_no_rows row)

  abbrev with_translations : Option TemplateRow → Action W NotifyDb NotificationTemplate
  with_translations none = raise err_no_rows
  with_translations (some row) = do
    translations ←
        query (λ o. (filter (λ (t : Translation). t.template_id == row.id) o.translations, o))
    pure (record { row = row; translations = translations })

  unfoldable pub find_by_event_type : Text → Action W NotifyDb NotificationTemplate
  find_by_event_type event_type = run (do
    row ← query (λ o. (find (λ (t : TemplateRow). bytes_eq t.event_type event_type) o.templates, o))
    with_translations row)

  abbrev insert_log : NotificationLog → Result String → Action W NotifyDb (Unit {0})
  insert_log log (err e) = raise e
  insert_log log (ok payload) =
      query (λ o. (tt, record o { logs = o.logs ++ record log { payload = payload } ∷ [] }))

  -- `Create` of a log, whose payload is the JSON that the caller gives.
  unfoldable pub create_log : Result String → NotificationLog → Action W NotifyDb (Unit {0})
  create_log payload log = run (insert_log log payload)
