-- ===== src/Auth/Tables.antt =====
-- The statements of internal/store/query/device_sessions.sql, refresh_tokens.sql and users.sql that the
-- service runs, and the unique index of migrations/00008_create_device_sessions_table.up.sql.
use go_grpc_starter.Prelude.{
  ℕ, suc, ◌+◌, String, Bool, ◌&&◌, not, Option, none, some, is_some, List, [], ◌∷◌, ◌++◌, ltb, leb,
  ◌==◌, if◌then◌else◌, str_eq, filter, any, find,
}
use go_grpc_starter.Users.Entity.{User}
use go_grpc_starter.Auth.Entity.{DeviceSession, RefreshToken, DeviceInfo, to_session}

-- A row of auth.user_settings is the JSON of one user's settings.
pub record AuthDb : Type 0 where
  pub users : List User
  pub sessions : List DeviceSession
  pub tokens : List RefreshToken
  pub settings : List (ℕ × String)
  pub next_session : ℕ
  pub next_user : ℕ

-- `UPDATE … WHERE p`
unfoldable pub update_where {ℓ} : {A : Type ℓ} → (A → Bool) → (A → A) → List A → List A
update_where p f [] = []
update_where p f (x ∷ xs) = (if p x then f x else x) ∷ update_where p f xs

abbrev pub is_open : DeviceSession → Bool
is_open s = not (is_some s.revoked_at)

abbrev pub is_live : RefreshToken → Bool
is_live t = not (is_some t.revoked_at)

abbrev pub revoke_session : ℕ → String → DeviceSession → DeviceSession
revoke_session now reason s = record s { revoked_at = some now; revoked_reason = reason }

abbrev pub revoke_token : ℕ → String → RefreshToken → RefreshToken
revoke_token now reason t = record t { revoked_at = some now; revoked_reason = reason }

unfoldable pub revoke_sessions_where : ℕ → String → (DeviceSession → Bool) → AuthDb → AuthDb
unfolding update_where
revoke_sessions_where now reason p o = record o {
  sessions =
      update_where (λ (s : DeviceSession). p s && is_open s) (revoke_session now reason) o.sessions;
}

unfoldable pub revoke_tokens_where : ℕ → String → (RefreshToken → Bool) → AuthDb → AuthDb
unfolding update_where
revoke_tokens_where now reason p o = record o {
  tokens = update_where (λ (t : RefreshToken). p t && is_live t) (revoke_token now reason) o.tokens;
}

-- `CreateDeviceSession`; `none` if `idx_unique_active_device_id` refuses the row.
unfoldable pub create_device_session : ℕ → ℕ → DeviceInfo → AuthDb → Option (DeviceSession × AuthDb)
create_device_session now user_id d o =
    if any (λ (s : DeviceSession). str_eq s.device_id d.device_id && is_open s) o.sessions
    then none
    else (let s = to_session o.next_session now user_id d in
        some (s, record o { sessions = o.sessions ++ s ∷ []; next_session = suc o.next_session }))

-- `GetActiveDeviceSessionByUserAndDevice`
unfoldable pub get_active_by_user_and_device : ℕ → String → AuthDb → Option DeviceSession × AuthDb
get_active_by_user_and_device user_id device_id o = (
  find (λ (s : DeviceSession). s.user_id == user_id && str_eq s.device_id device_id && is_open s)
      o.sessions,
  o,
)

-- `RevokeDeviceSession`: the row that was revoked, if one was.
unfoldable pub revoke_device_session : ℕ → String → ℕ → AuthDb → Option DeviceSession × AuthDb
unfolding revoke_sessions_where
revoke_device_session now reason id o = (
  find (λ (s : DeviceSession). s.id == id && is_open s) o.sessions,
  revoke_sessions_where now reason (λ (s : DeviceSession). s.id == id) o,
)

-- The `WHERE` of `ListActiveDevicesByUser`; the threshold `now - timeout` is moved to the other side.
unfoldable pub is_active_device : ℕ → ℕ → ℕ → DeviceSession → Bool
is_active_device now timeout user_id s =
    s.user_id == user_id && is_open s && ltb now (s.last_activity + timeout)

-- `ORDER BY last_activity DESC`; rows of one time keep the table's order.
unfoldable pub insert_latest : DeviceSession → List DeviceSession → List DeviceSession
insert_latest s [] = s ∷ []
insert_latest s (x ∷ xs) =
    let rest = insert_latest s xs in
    if leb x.last_activity s.last_activity then s ∷ x ∷ xs else x ∷ rest

unfoldable pub latest_first : List DeviceSession → List DeviceSession
unfolding insert_latest
latest_first [] = []
latest_first (s ∷ xs) = insert_latest s (latest_first xs)

unfoldable pub list_active_devices : ℕ → ℕ → ℕ → AuthDb → List DeviceSession × AuthDb
list_active_devices now timeout user_id o =
    (latest_first (filter (is_active_device now timeout user_id) o.sessions), o)

-- `GetUserByID`
unfoldable pub get_user_by_id : ℕ → AuthDb → Option User
get_user_by_id id o = find (λ (u : User). u.id == id && not (is_some u.deleted_at)) o.users

unfoldable pub get_device_session_by_id : ℕ → AuthDb → Option DeviceSession
get_device_session_by_id id o = find (λ (s : DeviceSession). s.id == id) o.sessions

-- `CreateRefreshToken`; `none` if the hash is in use.
unfoldable pub create_refresh_token : RefreshToken → AuthDb → Option (Unit {0} × AuthDb)
create_refresh_token t o =
    if any (λ (x : RefreshToken). str_eq x.token_hash t.token_hash) o.tokens
    then none
    else some (tt, record o { tokens = o.tokens ++ t ∷ [] })

-- `ListRefreshTokensByPrefix`, up to the comparison of the whole hash that follows it.
unfoldable pub token_by_hash : String → AuthDb → Option RefreshToken
token_by_hash hash o = find (λ (t : RefreshToken). str_eq t.token_hash hash) o.tokens
