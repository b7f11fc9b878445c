-- ===== src/Users/Service.antt =====
-- internal/users/service.go, over the repository of Auth/Users.antt. The object store, the event bus and
-- the source of identifiers are collaborators.
pub mod Avatar
use go_grpc_starter.Prelude.{
  ℕ, ◌*◌, ◌^◌, String, Bool, ◌||◌, Option, none, some, List, length, ltb, ◌==◌, if◌then◌else◌,
  str_eq, str_append,
}
use go_grpc_starter.Errs.{GoError, domain, internal_error, bad_request, Result, ok, err}
use go_grpc_starter.Store.{Action, pure, raise, ◌>>=◌, ◌>>◌}
use go_grpc_starter.Users.Entity.{User, UserStatus, UserRole}
use go_grpc_starter.Auth.Tables.{AuthDb}
use go_grpc_starter.Auth.Users.{
  ProfileUpdate, find_by_id, update_profile, soft_delete_by_id, list, update_status, update_role,
}
use go_grpc_starter.Auth.Session.{
  Collaborators, AuthConfig, outside, ask, attempt, revoke_all_sessions,
}

abbrev pub max_avatar_bytes : ℕ
max_avatar_bytes = 5 * 2 ^ 20

-- `avatarContentTypes`
unfoldable pub avatar_content_type : String → Option String
avatar_content_type content_type =
    if str_eq content_type "image/jpeg"
    then some "jpg"
    else if str_eq content_type "image/png"
    then some "png"
    else if str_eq content_type "image/webp"
    then some "webp"
    else none

pub record Storage (W : Type 0) : Type 0 where
  pub put : String → List ℕ → String → W → Result (Unit {0}) × W
  pub public_url : String → String

pub record UserCollaborators (W : Type 0) : Type 0 where
  -- `none` where the program has no object store
  pub storage : Option (Storage W)
  pub new_uuid : W → String × W
  -- `%d`
  pub decimal : ℕ → String
  pub publish_account_deleted : ℕ → ℕ → W → Result (Unit {0}) × W

abbrev pub err_storage_unavailable : GoError
err_storage_unavailable = domain (internal_error "STORAGE_UNAVAILABLE" "storage.unavailable")

abbrev pub err_avatar_invalid_type : GoError
err_avatar_invalid_type = domain (bad_request "AVATAR_INVALID_TYPE" "user.avatar_invalid_type")

abbrev pub err_avatar_too_large : GoError
err_avatar_too_large = domain (bad_request "AVATAR_TOO_LARGE" "user.avatar_too_large")

abbrev pub err_upload_failed : GoError
err_upload_failed = domain (internal_error "UPLOAD_FAILED" "storage.upload_failed")

-- The error of `Put` is logged, and another is returned.
abbrev pub as_upload_failed : Result (Unit {0}) → Result (Unit {0})
as_upload_failed (ok _) = ok tt
as_upload_failed (err _) = err err_upload_failed

module _ {W : Type 0} (u : UserCollaborators W) (fits : User → Bool) where
  -- The object's key.
  abbrev pub avatar_key : ℕ → String → String → String
  avatar_key user_id uuid ext =
      str_append "avatars/"
        (str_append (u.decimal user_id) (str_append "/" (str_append uuid (str_append "." ext))))

  unfoldable pub store_avatar :
      Storage W → ℕ → String → List ℕ → String → String → Action W AuthDb String
  store_avatar s user_id content_type bytes ext uuid = do
    outside (λ w.
        let (r, w') = s.put (avatar_key user_id uuid ext) bytes content_type w in
        (as_upload_failed r, w'))
    update_profile fits user_id (record {
      first_name = none;
      last_name = none;
      bio = none;
      avatar = some (s.public_url (avatar_key user_id uuid ext));
    })
    pure (s.public_url (avatar_key user_id uuid ext))

  unfoldable pub upload_typed :
      Storage W → ℕ → String → List ℕ → Option String → Action W AuthDb String
  upload_typed s user_id content_type bytes none = raise err_avatar_invalid_type
  upload_typed s user_id content_type bytes (some ext) =
      if length bytes == 0 || ltb max_avatar_bytes (length bytes)
      then raise err_avatar_too_large
      else (do uuid ← ask u.new_uuid; store_avatar s user_id content_type bytes ext uuid)

  unfoldable pub upload_with : Option (Storage W) → ℕ → String → List ℕ → Action W AuthDb String
  unfolding avatar_content_type
  upload_with none user_id content_type bytes = raise err_storage_unavailable
  upload_with (some s) user_id content_type bytes =
      upload_typed s user_id content_type bytes (avatar_content_type content_type)

  unfoldable pub upload_avatar : ℕ → String → List ℕ → Action W AuthDb String
  upload_avatar user_id content_type bytes = upload_with u.storage user_id content_type bytes

module _ {W Settings : Type 0} (k : Collaborators W Settings) (u : UserCollaborators W)
    (cfg : AuthConfig) (now : ℕ) where
  -- `DeleteAccount`; an error of the session service or of the bus is logged.
  unfoldable pub delete_account : ℕ → Action W AuthDb (Unit {0})
  delete_account id = do
    soft_delete_by_id now id
    attempt (revoke_all_sessions k cfg now id "account_deleted")
    attempt (outside (u.publish_account_deleted id now))

-- The other methods, which call the repository.
module _ {W : Type 0} where
  unfoldable pub get : ℕ → Action W AuthDb User
  get = find_by_id

  unfoldable pub set_profile : (User → Bool) → ℕ → ProfileUpdate → Action W AuthDb User
  set_profile = update_profile

  unfoldable pub list_users : ℕ → ℕ → Action W AuthDb (List User × ℕ)
  list_users = list

  unfoldable pub set_status : ℕ → UserStatus → Action W AuthDb (Unit {0})
  set_status = update_status

  unfoldable pub set_role : ℕ → UserRole → Action W AuthDb (Unit {0})
  set_role = update_role
