-- ===== src/Worker/Notifications.antt =====
-- internal/worker/notifications/processor.go: the push notifications of one event. The tables are those of
-- Tables.antt, the message that goes out is that of Build.antt; Firebase, the clock of a time zone and
-- encoding/json are collaborators.
pub mod Bytes
pub mod Tables
pub mod Build
pub mod Quiet
pub mod Deliver
pub mod Silent
pub mod Delivers
pub mod Dispatch
use go_grpc_starter.Prelude.{
  ℕ, String, Bool, true, false, ◌&&◌, ◌||◌, not, Option, none, some, List, [], ◌∷◌, if◌then◌else◌,
  str_eq,
}
use go_grpc_starter.Errs.{GoError, domain, status, other, Result, ok, err}
use go_grpc_starter.Store.{Action, pure, raise, ◌>>=◌, ◌>>◌}
use go_grpc_starter.Worker.Notifications.Bytes.{Text, text_lt, event_category, time_of_day}
use go_grpc_starter.Worker.Notifications.Tables.{
  FcmToken, NotificationPreferences, NotificationTemplate, NotificationLog, Status, sent, failed,
  NotifyDb, is_no_rows, find_active_by_user_id, deactivate_by_id, update_last_used,
  find_preferences, find_by_event_type, create_log, attempt,
}
use go_grpc_starter.Worker.Notifications.Build.{Event, Message, LinkConfig, build_fcm_message}

pub record FcmError : Type 0 where
  pub text : String
  pub is_unregistered : Bool
  pub is_invalid_argument : Bool

pub data Answer : Type 0 where
  delivered : String → Answer
  refused : FcmError → Answer

-- The world outside: Firebase, `time.Now` in a zone, and the JSON of a log's payload.
pub record Pushes (W : Type 0) : Type 0 where
  pub send : Message → W → Answer × W
  pub clock_in : String → W → Option Text
  pub utc_clock : W → Text
  pub marshal_payload : Event → Result String

-- `NotificationsConfig`
pub record NotifyConfig : Type 0 where
  pub check_enabled : Bool
  pub default_timezone : String
  pub links : LinkConfig

-- `SendResult`; its fields are empty where the other constructor has them.
pub record SendResult : Type 0 where
  pub success : Bool
  pub fcm_token_id : ℕ
  pub message_id : String
  pub error_code : String
  pub error_message : String

abbrev pub success_of : FcmToken → String → SendResult
success_of token id = record {
  success = true;
  fcm_token_id = token.id;
  message_id = id;
  error_code = "";
  error_message = "";
}

abbrev pub failure_of : FcmToken → FcmError → SendResult
failure_of token e = record {
  success = false;
  fcm_token_id = token.id;
  message_id = "";
  error_code = "FCM_ERROR";
  error_message = e.text;
}

unfoldable pub is_category_enabled : NotificationPreferences → Text → Bool
is_category_enabled prefs event_type =
    if event_category event_type then prefs.marketing else prefs.push

-- The two comparisons at the end of `isQuietHours`, of the clock's text.
unfoldable pub is_between : Text → Text → Text → Bool
is_between start end current =
    if text_lt end start
    then not (text_lt current start) || text_lt current end
    else not (text_lt current start) && text_lt current end

abbrev pub known_clock : Option Text → Text → Text
known_clock none utc = utc
known_clock (some t) utc = t

module _ {W : Type 0} (p : Pushes W) (cfg : NotifyConfig) (now : ℕ) where
  abbrev clock_of : String → W → Text
  clock_of tz w =
      known_clock (p.clock_in (if str_eq tz "" then cfg.default_timezone else tz) w) (p.utc_clock w)

  unfoldable pub quiet_from : Option Text → Option Text → String → W → Bool
  unfolding is_between
  quiet_from none end tz w = false
  quiet_from (some start) none tz w = false
  quiet_from (some start) (some end) tz w = is_between start end (clock_of tz w)

  unfoldable pub is_quiet_hours : NotificationPreferences → W → Bool
  is_quiet_hours prefs w =
      quiet_from (time_of_day prefs.quiet_hours_start) (time_of_day prefs.quiet_hours_end)
        prefs.timezone w

  unfoldable pub wants : Event → NotificationPreferences → W → Bool
  wants event prefs w =
      if not (is_category_enabled prefs event.event_type)
      then false
      else not (cfg.check_enabled && prefs.quiet_hours_enabled && is_quiet_hours prefs w)

  -- An error of the repository, that there are no preferences too, sends the notification.
  abbrev pub chosen : Event → Result NotificationPreferences → W → Bool
  chosen event (ok prefs) w = wants event prefs w
  chosen event (err _) w = true

  unfoldable pub should_send_notification : Event → Action W NotifyDb Bool
  should_send_notification event c =
      let (r, c') = find_preferences event.user_id c in (ok (chosen event r c'.outside), c')

  unfoldable pub log_notification : Event → FcmToken → SendResult → Action W NotifyDb (Unit {0})
  log_notification event token result = create_log (p.marshal_payload event) (record {
    user_id = event.user_id;
    event_type = event.event_type;
    event_id = result.message_id;
    fcm_token_id = token.id;
    status = if result.success then sent else failed;
    error_code = if result.success then none else some result.error_code;
    error_message = if result.success then none else some result.error_message;
    payload = "";
  })

  unfoldable pub after_send : FcmToken → Answer → Action W NotifyDb SendResult
  after_send token (delivered id) = do
    attempt (update_last_used now token.id)
    pure (success_of token id)
  after_send token (refused e) = do
    if e.is_unregistered || e.is_invalid_argument
        then attempt (deactivate_by_id token.id)
        else pure tt
    pure (failure_of token e)

  unfoldable pub send_to_token :
      Event → NotificationTemplate → FcmToken → Action W NotifyDb SendResult
  send_to_token event template token c =
      let (answer, w) = p.send (build_fcm_message cfg.links event template token.token) c.outside in
      after_send token answer (record c { outside = w })

  -- The loop over the tokens, with `lastErr`.
  unfoldable pub send_each :
      Event
      → NotificationTemplate
      → Option String
      → List FcmToken
      → Action W NotifyDb (Option String)
  send_each event template last [] = pure last
  send_each event template last (token ∷ tokens) = do
    result ← send_to_token event template token
    attempt (log_notification event token result)
    send_each event template (if result.success then last else some result.error_message) tokens

  abbrev pub as_error : Option String → Action W NotifyDb (Unit {0})
  as_error none = pure tt
  as_error (some text) = raise (other text)

  unfoldable pub send_all :
      Event → List FcmToken → NotificationTemplate → Action W NotifyDb (Unit {0})
  send_all event tokens template = do last ← send_each event template none tokens; as_error last

  abbrev pub with_template :
      Event → List FcmToken → Result NotificationTemplate → Action W NotifyDb (Unit {0})
  with_template event tokens (ok template) = send_all event tokens template
  with_template event tokens (err e) =
      if is_no_rows e then pure tt else raise (other "failed to get template")

  unfoldable pub send_to : Event → List FcmToken → Action W NotifyDb (Unit {0})
  send_to event [] c = (ok tt, c)
  send_to event (token ∷ tokens) c =
      let (r, c') = find_by_event_type event.event_type c in
      with_template event (token ∷ tokens) r c'

  abbrev pub with_tokens : Event → Result (List FcmToken) → Action W NotifyDb (Unit {0})
  with_tokens event (ok tokens) = send_to event tokens
  with_tokens event (err e) = raise (other "failed to get FCM tokens")

  unfoldable pub send_wanted : Event → Action W NotifyDb (Unit {0})
  send_wanted event c =
      let (r, c') = find_active_by_user_id event.user_id c in with_tokens event r c'

  unfoldable pub process_notification : Event → Action W NotifyDb (Unit {0})
  process_notification event = do
    send ← should_send_notification event
    if send then send_wanted event else pure tt
