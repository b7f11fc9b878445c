-- ===== src/Suspension.antt =====
-- internal/suspension: suspensions of an account, over internal/store/query/account_suspensions.sql.
pub mod Lift
use go_grpc_starter.Prelude.{
  ℕ, suc, String, Bool, true, false, not, ◌&&◌, ◌||◌, Option, none, some, is_some, List, [], ◌∷◌,
  ◌++◌, any, filter, ltb, str_eq, ◌==◌, if◌then◌else◌,
}
use go_grpc_starter.Errs.{GoError, domain, absent, bad_request, other, Result, ok, err}
use go_grpc_starter.Store.{Conn, Action, pure, raise, ◌>>=◌, query, constrained_query, run}
use go_grpc_starter.Auth.Tables.{update_where}

pub data SuspensionReason : Type 0 where
  terms_violation fraudulent_activity harassment spam : SuspensionReason
  security_breach legal_request other_reason : SuspensionReason

-- `created_at` and `suspended_at` are both the time of the insertion.
pub record AccountSuspension : Type 0 where
  pub id : ℕ
  pub user_id : ℕ
  pub reason : SuspensionReason
  pub details : String
  pub suspended_at : ℕ
  pub suspended_until : Option ℕ
  pub is_permanent : Bool

abbrev pub is_after : ℕ → Option ℕ → Bool
is_after now none = false
is_after now (some until) = ltb now until

-- `IsActive`, and the `WHERE` of the statements
unfoldable pub is_active : ℕ → AccountSuspension → Bool
is_active now s = s.is_permanent || is_after now s.suspended_until

-- `user_ids` are the identifiers of auth.users, deleted accounts included.
pub record SuspensionDb : Type 0 where
  pub suspensions : List AccountSuspension
  pub user_ids : List ℕ
  pub next_suspension : ℕ

-- `ORDER BY created_at DESC LIMIT 1`
abbrev later_of : AccountSuspension → Option AccountSuspension → AccountSuspension
later_of x none = x
later_of x (some y) = if ltb y.suspended_at x.suspended_at then x else y

unfoldable pub latest : List AccountSuspension → Option AccountSuspension
latest [] = none
latest (x ∷ xs) = some (later_of x (latest xs))

-- `GetActiveSuspensionByUserID`
unfoldable pub get_active_suspension :
    ℕ → ℕ → SuspensionDb → Option AccountSuspension × SuspensionDb
get_active_suspension now user_id o = (
  latest
      (filter (λ (s : AccountSuspension). s.user_id == user_id && is_active now s) o.suspensions),
  o,
)

pub record SuspendInput : Type 0 where
  pub user_id : ℕ
  pub reason : SuspensionReason
  pub details : String
  pub until : Option ℕ
  pub permanent : Bool

abbrev pub suspension_row : ℕ → ℕ → SuspendInput → AccountSuspension
suspension_row id now i = record {
  id = id;
  user_id = i.user_id;
  reason = i.reason;
  details = i.details;
  suspended_at = now;
  suspended_until = i.until;
  is_permanent = i.permanent;
}

-- `CreateSuspension`; `none` if the user is not in auth.users, which the foreign key asks for.
unfoldable pub create_suspension :
    ℕ → SuspendInput → SuspensionDb → Option (AccountSuspension × SuspensionDb)
create_suspension now i o =
    let s = suspension_row o.next_suspension now i in
    if any (λ id. id == i.user_id) o.user_ids
    then some (
      s,
      record o { suspensions = o.suspensions ++ s ∷ []; next_suspension = suc o.next_suspension },
    )
    else none

abbrev pub lifted : ℕ → AccountSuspension → AccountSuspension
lifted now s = record s { is_permanent = false; suspended_until = some now }

-- `DeactivateActiveSuspensions`
unfoldable pub deactivate_suspensions : ℕ → ℕ → SuspensionDb → Unit {0} × SuspensionDb
unfolding update_where
deactivate_suspensions now user_id o = (
  tt,
  record o {
    suspensions =
        update_where (λ (s : AccountSuspension). s.user_id == user_id && is_active now s)
          (lifted now) o.suspensions;
  },
)

abbrev pub err_until_required : GoError
err_until_required = domain (bad_request "INVALID_PARAM" "suspension.until_required")

abbrev pub err_not_suspended : GoError
err_not_suspended = domain (absent "SUSPENSION_NOT_FOUND" "user.suspension.not_suspended")

-- `errors.Is(err, ErrNotSuspended)`, by the code that this error alone carries.
abbrev pub is_not_suspended : GoError → Bool
is_not_suspended (domain e) = str_eq e.app_code "SUSPENSION_NOT_FOUND"
is_not_suspended _ = false

abbrev pub none_if_missing : Result AccountSuspension → Result (Option AccountSuspension)
none_if_missing (ok s) = ok (some s)
none_if_missing (err e) = if is_not_suspended e then ok none else err e

module _ {W : Type 0} where
  abbrev or_not_suspended : Option AccountSuspension → Action W SuspensionDb AccountSuspension
  or_not_suspended none = raise err_not_suspended
  or_not_suspended (some s) = pure s

  -- `GetActiveByUserID`
  unfoldable pub get_active_by_user_id : ℕ → ℕ → Action W SuspensionDb AccountSuspension
  get_active_by_user_id now user_id =
      run (do r ← query (get_active_suspension now user_id); or_not_suspended r)

  unfoldable pub get_active : ℕ → ℕ → Action W SuspensionDb (Option AccountSuspension)
  get_active now user_id c =
      let (r, c') = get_active_by_user_id now user_id c in (none_if_missing r, c')

  unfoldable pub suspend : ℕ → SuspendInput → Action W SuspensionDb AccountSuspension
  suspend now i =
      if not i.permanent && not (is_some i.until)
      then raise err_until_required
      else run (constrained_query (other "create suspension") (create_suspension now i))

  unfoldable pub unsuspend : ℕ → ℕ → Action W SuspensionDb (Unit {0})
  unsuspend now user_id = run (query (deactivate_suspensions now user_id))
