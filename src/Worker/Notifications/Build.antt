-- ===== src/Worker/Notifications/Build.antt =====
-- The message for Firebase: `buildFCMMessage` of internal/worker/notifications/processor.go and
-- `buildDeepLink` of deeplink.go. The data of an event is a list of pairs, in the order in which Go visits the map.
use go_grpc_starter.Prelude.{
  ℕ, String, Option, none, some, List, [], ◌∷◌, ◌++◌, if◌then◌else◌, str_eq,
}
use go_grpc_starter.Auth.Users.{bytes_eq}
use go_grpc_starter.Worker.Notifications.Bytes.{Text, interpolate}
use go_grpc_starter.Worker.Notifications.Tables.{Translation, NotificationTemplate}

pub record Event : Type 0 where
  pub event_type : Text
  pub user_id : ℕ
  pub event_data : List (Text × Text)
  pub priority : String

-- `EventLinks` and `DeepLinks` of the configuration
pub record LinkConfig : Type 0 where
  pub event_links : Text → Option Text
  pub templates : Text → Option Text
  pub base_url : Text

-- `messaging.Message`, with the fields that the worker sets. Its map `Data` holds the keys `event_type` and
-- `click_action`, over them the data of the event, and over these the keys `deep_link` and `action`.
pub record Message : Type 0 where
  pub token : String
  pub title : Text
  pub body : Text
  pub event_type : Text
  pub click_action : String
  pub event_data : List (Text × Text)
  pub deep_link : Option Text
  pub action : Option Text
  pub priority : String
  pub sound : String
  pub channel_id : String
  pub apns_priority : String

abbrev link_of : LinkConfig → List (Text × Text) → Option Text → Text
link_of c pairs none = []
link_of c pairs (some path) = interpolate (c.base_url ++ path) pairs

abbrev template_of : LinkConfig → Option Text → Option Text
template_of c none = none
template_of c (some name) = c.templates name

unfoldable pub build_deep_link : LinkConfig → Text → List (Text × Text) → Text
build_deep_link c event_type pairs = link_of c pairs (template_of c (c.event_links event_type))

-- The title and the body of the first English translation
unfoldable pub words : List Translation → List (Text × Text) → Text × Text
words [] pairs = ([], [])
words (t ∷ ts) pairs =
    let rest = words ts pairs in
    if str_eq t.language "en" then (interpolate t.title pairs, interpolate t.body pairs) else rest

unfoldable pub get_channel_id : Option String → String
get_channel_id none = "default"
get_channel_id (some id) = id

unfoldable pub get_apns_priority : String → String
get_apns_priority priority = if str_eq priority "high" then "10" else "5"

abbrev priority_of : String → String → String
priority_of priority fallback = if str_eq priority "" then fallback else priority

-- `buildFCMMessage`
unfoldable pub build_fcm_message : LinkConfig → Event → NotificationTemplate → String → Message
unfolding build_deep_link words get_channel_id get_apns_priority
build_fcm_message c event template token =
    let (title, body) = words template.translations event.event_data in
    let link = build_deep_link c event.event_type event.event_data in
    let priority = priority_of template.row.priority event.priority in
    record {
      token = token;
      title = title;
      body = body;
      event_type = event.event_type;
      click_action = "FLUTTER_NOTIFICATION_CLICK";
      event_data = event.event_data;
      deep_link = if bytes_eq link [] then none else some link;
      action = template.row.action;
      priority = priority;
      sound = template.row.sound;
      channel_id = get_channel_id template.row.android_channel_id;
      apns_priority = get_apns_priority priority;
    }
