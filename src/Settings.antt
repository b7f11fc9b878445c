-- ===== src/Settings.antt =====
-- internal/settings: the preferences of an account, kept as the JSON of one row. `Codec` is encoding/json.
pub mod Roundtrip
use go_grpc_starter.Prelude.{
  ℕ, String, Bool, true, false, ◌||◌, not, Option, none, some, List, [], ◌∷◌, ◌++◌, find, any, ◌==◌,
  if◌then◌else◌,
}
use mathlib.Core.Option
use go_grpc_starter.Errs.{GoError, domain, absent, Result, ok, err}
use go_grpc_starter.Store.{Action, raise, ◌>>=◌, query, constrained_query, run}
use go_grpc_starter.Errs.{other}
use go_grpc_starter.Users.Entity.{User}
use go_grpc_starter.Auth.Tables.{AuthDb, update_where}
use go_grpc_starter.Auth.Repository.{done, seen}

-- `Theme`, which is a string.
abbrev theme_system : String
theme_system = "system"

pub record Settings : Type 0 where
  pub locale : String
  pub timezone : String
  pub theme : String
  pub email_notifications : Bool
  pub push_notifications : Bool
  pub marketing_emails : Bool

unfoldable pub default_settings : Settings
default_settings = record {
  locale = "en";
  timezone = "UTC";
  theme = theme_system;
  email_notifications = true;
  push_notifications = true;
  marketing_emails = false;
}

-- `json.Marshal` and `json.Unmarshal`, and the text that the JSONB column gives back for one that it was
-- given: PostgreSQL orders the keys and drops blanks.
pub record Codec : Type 0 where
  pub marshal : Settings → Result String
  pub jsonb : String → String
  pub unmarshal : String → Result Settings

abbrev pub err_settings_not_found : GoError
err_settings_not_found = domain (absent "SETTINGS_NOT_FOUND" "settings.not_found")

abbrev pub has_user : ℕ → ℕ × String → Bool
has_user user_id row = row.0 == user_id

-- `GetUserSettings`
unfoldable pub get_user_settings : ℕ → AuthDb → Option String
get_user_settings user_id o =
    Option.map (λ (row : ℕ × String). row.1) (find (has_user user_id) o.settings)

-- `CreateUserSettings`, of what the column keeps; `none` if the user has a row already, or is no user.
unfoldable pub create_user_settings : ℕ → String → AuthDb → Option (Unit {0} × AuthDb)
create_user_settings user_id json o =
    if any (has_user user_id) o.settings || not (any (λ (u : User). u.id == user_id) o.users)
    then none
    else some (tt, record o { settings = o.settings ++ (user_id, json) ∷ [] })

-- `UpdateUserSettings`, of what the column keeps; it does not say whether there was a row.
unfoldable pub update_user_settings : ℕ → String → AuthDb → AuthDb
unfolding update_where
update_user_settings user_id json o = record o {
  settings = update_where (has_user user_id) (λ (row : ℕ × String). (row.0, json)) o.settings;
}

module _ {W : Type 0} (json : Codec) where
  abbrev pub lifted : {A : Type 0} → Result A → Action W AuthDb A
  lifted r c = (r, c)

  abbrev decoded : Option String → Action W AuthDb Settings
  decoded none = raise err_settings_not_found
  decoded (some text) = lifted (json.unmarshal text)

  unfoldable pub get_by_user_id : ℕ → Action W AuthDb Settings
  get_by_user_id user_id = run (do row ← query (seen (get_user_settings user_id)); decoded row)

  unfoldable pub settings_create : ℕ → Settings → Action W AuthDb (Unit {0})
  settings_create user_id s = run (do
    text ← lifted (json.marshal s)
    constrained_query (other "create settings") (create_user_settings user_id (json.jsonb text)))

  unfoldable pub settings_update : ℕ → Settings → Action W AuthDb (Unit {0})
  settings_update user_id s = run (do
    text ← lifted (json.marshal s)
    query (done (update_user_settings user_id (json.jsonb text))))

  -- `Service.Get` and `Service.Update`
  unfoldable pub get : ℕ → Action W AuthDb Settings
  get = get_by_user_id

  unfoldable pub update : ℕ → Settings → Action W AuthDb (Unit {0})
  update = settings_update
