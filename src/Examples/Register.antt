-- ===== src/Examples/Register.antt =====
-- `Register`, `UploadAvatar` and the settings on the small table of Examples/Auth.
use go_grpc_starter.Prelude.{ℕ, suc, ◌≡◌, refl, true, none, some, [], ◌∷◌, find}
use go_grpc_starter.Errs.{ok}
use go_grpc_starter.Store.{Conn, run, constrained_query, with_tx}
use go_grpc_starter.Settings.{Settings, Codec, default_settings, get_user_settings, get, update}
use go_grpc_starter.Settings.Roundtrip.{get-update}
use go_grpc_starter.Auth.Tables.{AuthDb, get_user_by_id, update_where}
use go_grpc_starter.Auth.Users.{update_profile, update_user_profile}
use go_grpc_starter.Auth.Session.{Collaborators}
use go_grpc_starter.Auth.Register.{RegisterInput, register}
use go_grpc_starter.Auth.Register.Outcome.{Outcome, register_outcome}
use go_grpc_starter.Users.Service.{
  Storage, UserCollaborators, avatar_content_type, store_avatar, upload_typed, upload_with,
  upload_avatar,
}
use go_grpc_starter.Users.Service.Avatar.{Uploads, upload_avatar_ok}
use go_grpc_starter.Examples.Auth.{start, config, phone}
use go_grpc_starter.Examples.Account.{accounts, eight}

abbrev services : Collaborators ℕ Settings
services = record {
  generate_access = λ _ _ _ w. (ok "access", w);
  revoke_access = λ _ w. (ok tt, w);
  generate_refresh = λ w. (ok ("refresh", "refresh"), suc w);
  new_family = λ w. ("family", w);
  hash_token = λ t. t;
  cache_session = λ _ w. w;
  drop_session = λ _ w. w;
  settings_of = λ _ w. (none, w);
  publish = λ _ w. w;
}

abbrev codec : Codec
codec = record { marshal = λ _. ok "{}"; jsonb = λ t. t; unmarshal = λ _. ok default_settings }

abbrev grace : RegisterInput
grace = record {
  email = 103 ∷ [];
  password = eight;
  first_name = "Grace";
  last_name = "H";
  device = phone;
}

register_outcome_example :
    Outcome services accounts codec
      (λ _ _ _. true)
      config
      60
      grace
      start.db
      (register services accounts codec (λ _ _ _. true) config 60 grace start)
register_outcome_example =
    register_outcome services accounts codec (λ _ _ _. true) config 60 grace start refl

abbrev bucket : Storage ℕ
bucket = record { put = λ _ _ _ w. (ok tt, suc w); public_url = λ key. key }

abbrev users : UserCollaborators ℕ
users = record {
  storage = some bucket;
  new_uuid = λ w. ("u", w);
  decimal = λ _. "1";
  publish_account_deleted = λ _ _ w. (ok tt, w);
}

upload_avatar_ok_example :
    Uploads users
      (λ _. true)
      1
      "image/png"
      eight
      (upload_avatar users (λ _. true) 1 "image/png" eight start).1.db
      "avatars/1/u.png"
unfolding upload_avatar upload_with upload_typed store_avatar avatar_content_type update_profile
    update_user_profile get_user_by_id update_where run with_tx constrained_query find
upload_avatar_ok_example = upload_avatar_ok users (λ _. true) 1 "image/png" eight start refl refl

abbrev with_settings : Conn ℕ AuthDb
with_settings = record start { db = record start.db { settings = (1, "old") ∷ [] } }

get-update_example :
    (get codec 1 (update codec 1 default_settings with_settings).1).0 ≡ ok default_settings
unfolding get_user_settings find
get-update_example =
    get-update codec 1 default_settings "{}" "old" with_settings
      (record { no_faults = λ _. refl; sound = refl }) refl refl refl
