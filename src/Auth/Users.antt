-- ===== src/Auth/Users.antt =====
-- The statements of internal/store/query/users.sql that the service runs, and the calls of
-- internal/users/repository.go over them.
use go_grpc_starter.Prelude.{
  ℕ, suc, String, Bool, ◌&&◌, ◌||◌, not, Option, none, some, is_some, List, [], ◌∷◌, ◌++◌, find,
  any, filter, length, map, take, drop, leb, ◌+◌, ◌==◌, true, false, if◌then◌else◌,
}
use mathlib.Core.Option
use mathlib.Core.List.{reverse}
use go_grpc_starter.Errs.{GoError, domain, absent, other, Result, ok, err}
use go_grpc_starter.Store.{Action, pure, ◌>>=◌, query, constrained_query, run}
use go_grpc_starter.Users.Entity.{User, UserStatus, active, UserRole, user}
use go_grpc_starter.Auth.Tables.{AuthDb, update_where, get_user_by_id}
use go_grpc_starter.Auth.Repository.{or_missing, done, seen}

abbrev pub err_user_not_found : GoError
err_user_not_found = domain (absent "USER_NOT_FOUND" "user.not_found")

-- Equality of two strings of bytes.
abbrev pub bytes_eq : List ℕ → List ℕ → Bool
bytes_eq [] [] = true
bytes_eq [] (_ ∷ _) = false
bytes_eq (_ ∷ _) [] = false
bytes_eq (x ∷ xs) (y ∷ ys) = x == y && bytes_eq xs ys

abbrev pub to_lower : ℕ → ℕ
to_lower c = if leb 65 c && leb c 90 then c + 32 else c

-- Equality in the column `email`, whose type is `citext`. Letters beyond ASCII are compared byte by byte;
-- the database folds those that its locale folds.
abbrev pub citext_eq : List ℕ → List ℕ → Bool
citext_eq x y = bytes_eq (map to_lower x) (map to_lower y)

abbrev pub is_live_at : List ℕ → User → Bool
is_live_at email u = citext_eq u.email email && not (is_some u.deleted_at)

-- `GetUserByEmail`
unfoldable pub get_user_by_email : List ℕ → AuthDb → Option User
get_user_by_email email o = find (is_live_at email) o.users

-- `ExistsUserByEmail`
unfoldable pub exists_user_by_email : List ℕ → AuthDb → Bool
exists_user_by_email email o = any (is_live_at email) o.users

-- `CreateUser`; `none` if the row fails the checks of the table (`accepts`: the form of the address and the
-- lengths of the names) or the unique index on the addresses of live accounts.
abbrev pub new_user : ℕ → List ℕ → String → String → String → User
new_user id email password_hash first_name last_name = record {
  id = id;
  email = email;
  password_hash = password_hash;
  first_name = first_name;
  last_name = last_name;
  avatar = "";
  bio = "";
  status = active;
  role = user;
  email_verified_at = none;
  last_login_at = none;
  deleted_at = none;
}

unfoldable pub create_user :
    (List ℕ → String → String → Bool)
    → List ℕ
    → String
    → String
    → String
    → AuthDb
    → Option (User × AuthDb)
unfolding exists_user_by_email
create_user accepts email password_hash first_name last_name o =
    if not (accepts email first_name last_name) || exists_user_by_email email o
    then none
    else (let u = new_user o.next_user email password_hash first_name last_name in
        some (u, record o { users = o.users ++ u ∷ []; next_user = suc o.next_user }))

-- `ProfileUpdate`; a field that is `none` is left as it is.
pub record ProfileUpdate : Type 0 where
  pub first_name : Option String
  pub last_name : Option String
  pub bio : Option String
  pub avatar : Option String

abbrev pub coalesce {ℓ} : {A : Type ℓ} → Option A → A → A
coalesce none a = a
coalesce (some b) a = b

-- The row that `UPDATE … SET … = COALESCE(…)` leaves.
abbrev pub with_profile : ProfileUpdate → User → User
with_profile upd u = record u {
  first_name = coalesce upd.first_name u.first_name;
  last_name = coalesce upd.last_name u.last_name;
  bio = coalesce upd.bio u.bio;
  avatar = coalesce upd.avatar u.avatar;
}

abbrev pub has_live_id : ℕ → User → Bool
has_live_id id u = u.id == id && not (is_some u.deleted_at)

abbrev pub fits_row : (User → Bool) → Option User → Bool
fits_row fits none = true
fits_row fits (some u) = fits u

-- `UpdateUserProfile`; `none` if `fits`, the lengths of its columns, refuses a row. It returns the row, if
-- there is one.
unfoldable pub update_user_profile :
    (User → Bool) → ℕ → ProfileUpdate → AuthDb → Option (Option User × AuthDb)
unfolding update_where get_user_by_id
update_user_profile fits id upd o =
    let row = Option.map (with_profile upd) (get_user_by_id id o) in
    if fits_row fits row
    then some (row, record o { users = update_where (has_live_id id) (with_profile upd) o.users })
    else none

-- `CountUsers` and `ListUsers`; the rows are kept in the order of their creation.
unfoldable pub count_users : AuthDb → ℕ
count_users o = length (filter (λ (u : User). not (is_some u.deleted_at)) o.users)

unfoldable pub list_users : ℕ → ℕ → AuthDb → List User
list_users offset limit o =
    take limit (drop offset (reverse (filter (λ (u : User). not (is_some u.deleted_at)) o.users)))

unfoldable pub update_users : ℕ → (User → User) → AuthDb → AuthDb
unfolding update_where
update_users id f o = record o { users = update_where (λ (u : User). u.id == id) f o.users }

-- `UpdateUserPasswordHash`, `UpdateUserLastLogin` and `MarkUserEmailVerified`
unfoldable pub set_password_hash : ℕ → String → AuthDb → AuthDb
unfolding update_users
set_password_hash id hash = update_users id (λ u. record u { password_hash = hash })

unfoldable pub set_last_login : ℕ → ℕ → AuthDb → AuthDb
unfolding update_users
set_last_login now id = update_users id (λ u. record u { last_login_at = some now })

unfoldable pub set_email_verified : ℕ → ℕ → AuthDb → AuthDb
unfolding update_users
set_email_verified now id = update_users id (λ u. record u { email_verified_at = some now })

-- `UpdateUserStatus`, `UpdateUserRole` and `SoftDeleteUser`
unfoldable pub set_status : ℕ → UserStatus → AuthDb → AuthDb
unfolding update_users
set_status id status = update_users id (λ u. record u { status = status })

unfoldable pub set_role : ℕ → UserRole → AuthDb → AuthDb
unfolding update_users
set_role id role = update_users id (λ u. record u { role = role })

unfoldable pub soft_delete_user : ℕ → ℕ → AuthDb → AuthDb
unfolding update_where
soft_delete_user now id o = record o {
  users =
      update_where (λ (u : User). u.id == id && not (is_some u.deleted_at))
        (λ u. record u { deleted_at = some now }) o.users;
}

abbrev told : Result Bool → Bool
told (ok b) = b
told (err _) = false

module _ {W : Type 0} where
  unfoldable pub update_status : ℕ → UserStatus → Action W AuthDb (Unit {0})
  update_status id status = run (query (done (set_status id status)))

  unfoldable pub update_role : ℕ → UserRole → Action W AuthDb (Unit {0})
  update_role id role = run (query (done (set_role id role)))

  unfoldable pub soft_delete_by_id : ℕ → ℕ → Action W AuthDb (Unit {0})
  soft_delete_by_id now id = run (query (done (soft_delete_user now id)))

  unfoldable pub user_create :
      (List ℕ → String → String → Bool) → List ℕ → String → String → String → Action W AuthDb User
  user_create accepts email password_hash first_name last_name = run (
      constrained_query (other "create user")
        (create_user accepts email password_hash first_name last_name))

  -- `ExistsByEmail`, which drops an error and then answers no.
  unfoldable pub exists_by_email : List ℕ → Action W AuthDb Bool
  exists_by_email email c =
      let (r, c') = run (query (seen (exists_user_by_email email))) c in (ok (told r), c')

  unfoldable pub update_profile : (User → Bool) → ℕ → ProfileUpdate → Action W AuthDb User
  update_profile fits id upd = run (do
    u ← constrained_query (other "update profile") (update_user_profile fits id upd)
    or_missing err_user_not_found u)

  unfoldable pub list : ℕ → ℕ → Action W AuthDb (List User × ℕ)
  list offset limit = run (do
    total ← query (seen count_users)
    users ← query (seen (list_users offset limit))
    pure (users, total))

  unfoldable pub find_by_id : ℕ → Action W AuthDb User
  find_by_id id = run (do u ← query (seen (get_user_by_id id)); or_missing err_user_not_found u)

  unfoldable pub find_by_email : List ℕ → Action W AuthDb User
  find_by_email email =
      run (do u ← query (seen (get_user_by_email email)); or_missing err_user_not_found u)

  unfoldable pub update_password_hash : ℕ → String → Action W AuthDb (Unit {0})
  update_password_hash id hash = run (query (done (set_password_hash id hash)))

  unfoldable pub update_last_login : ℕ → ℕ → Action W AuthDb (Unit {0})
  update_last_login now id = run (query (done (set_last_login now id)))

  unfoldable pub mark_email_verified : ℕ → ℕ → Action W AuthDb (Unit {0})
  mark_email_verified now id = run (query (done (set_email_verified now id)))
