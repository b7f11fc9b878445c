-- ===== src/Interceptor/Shut.antt =====
-- Access tokens of an account that is not active any more: internal/interceptor/interceptors.go and
-- internal/users/repository.go on the same tables.
use go_grpc_starter.Prelude.{
  ℕ, String, ◌≡◌, ◌≢◌, refl, sym, subst, ap, ◌∙◌, Bool, true, false, not, ◌&&◌, some, is_some, List,
  [], ◌∷◌, All, find, find-All, ◌==◌, Bool-cases, inl, inr, arith,
}
use go_grpc_starter.Errs.{Result, ok}
use go_grpc_starter.Store.{Conn, Action, ◌>>◌, run, query, with_tx}
use go_grpc_starter.Store.Inversion.{bind_ok}
use go_grpc_starter.Store.Keeps.{Keeps, bind-Keeps}
use go_grpc_starter.Users.Entity.{User, UserStatus, active, inactive, suspended, is_active}
use go_grpc_starter.Auth.Entity.{DeviceSession}
use go_grpc_starter.Auth.Tables.{AuthDb, get_user_by_id, update_where}
use go_grpc_starter.Auth.Repository.{done}
use go_grpc_starter.Auth.Users.{
  update_users, set_status, update_status, soft_delete_user, soft_delete_by_id,
}
use go_grpc_starter.Auth.Session.{Collaborators, AuthConfig, outside, attempt, revoke_all_sessions}
use go_grpc_starter.Auth.Accounts.{
  accounts, outside-Keeps, attempt-Keeps, revoke_all_sessions-Keeps,
}
use go_grpc_starter.Users.Service.{UserCollaborators, delete_account}
use go_grpc_starter.Interceptor.{Context, Set}
use go_grpc_starter.Interceptor.Unary.{authenticate}
use go_grpc_starter.Interceptor.Guard.{authenticate_ok}

-- The account has no row that a call could authenticate by.
IsShut : ℕ → User → Type 0
IsShut id u = (u.id == id && not (is_some u.deleted_at)) ≡ true → is_active u ≡ false

written :
    {W : Type 0} (f : AuthDb → AuthDb) (c : Conn W AuthDb)
    → (run (query (done f)) c).0 ≡ ok tt
    → (run (query (done f)) c).1.db ≡ f c.db
unfolding run query with_tx
written f c e = ground (arith, e)

off_lem :
    (u : User) (status : UserStatus)
    → status ≢ active
    → is_active (record u { status = status }) ≡ false
unfolding is_active
off_lem u active off = absurd (off refl)
off_lem u inactive off = refl
off_lem u suspended off = refl

find-holds : (p : User → Bool) (xs : List User) {a : User} → find p xs ≡ some a → p a ≡ true
unfolding find
find-holds p [] h = cc
find-holds p (x ∷ xs) {a} h = elim (Bool-cases (p x)) [
  | inl e ↦ let same : x ≡ a = ground (arith, h, e) in subst (λ z. p z ≡ true) same e
  | inr e ↦ find-holds p xs (ground (arith, h, e))
]

set_status-IsShut :
    (id : ℕ) (status : UserStatus) (users : List User)
    → status ≢ active
    → All
        (IsShut id)
        (update_where (λ (u : User). u.id == id) (λ u. record u { status = status }) users)
unfolding IsShut update_where is_active
set_status-IsShut id status [] off = tt
set_status-IsShut id status (u ∷ users) off = (
  elim (Bool-cases (u.id == id)) [
    | inl e ↦ rw e (λ _. off_lem u status off)
    | inr e ↦ rw e (λ h. cc)
  ],
  set_status-IsShut id status users off,
)

soft_delete-IsShut :
    (now id : ℕ) (users : List User)
    → All (IsShut id) (
        update_where
          (λ (u : User). u.id == id && not (is_some u.deleted_at))
          (λ u. record u { deleted_at = some now })
          users)
unfolding IsShut update_where
soft_delete-IsShut now id [] = tt
soft_delete-IsShut now id (u ∷ users) = (
  elim (Bool-cases (u.id == id && not (is_some u.deleted_at))) [
    | inl e ↦ rw e (λ h. ground (arith, h))
    | inr e ↦ rw e (λ h. cc)
  ],
  soft_delete-IsShut now id users,
)

module _ {R Req : Type 0} (i : Set R Req) where
  shut_lem :
      (later id : ℕ) (d : Conn R AuthDb) (ctx : Context) {s : DeviceSession} {u : User}
      → All (IsShut id) d.db.users
      → (authenticate i later ctx d).0 ≡ ok (s, u)
      → s.user_id ≢ id
  unfolding IsShut get_user_by_id
  shut_lem later id d ctx {s} {u} shut entered is_his =
      let auth = authenticate_ok i later ctx d entered in
      let pick = λ (x : User). x.id == s.user_id && not (is_some x.deleted_at) in
      let off = find-All (IsShut id) pick d.db.users auth.in_users shut in
      let picked = find-holds pick d.db.users auth.in_users in
      let his : (u.id == id && not (is_some u.deleted_at)) ≡ true =
        subst (λ n. (u.id == n && not (is_some u.deleted_at)) ≡ true) is_his picked in
      ground (arith, off his, auth.active)

  -- An account that is set to another status than active is shut out at once and for good. After an
  -- `UpdateStatus` of it that succeeded, no call on those tables authenticates as it, with whatever token, at
  -- whatever later time, whatever fails in the call, and whether or not its sessions are still open.
  pub status_shuts :
      (later id : ℕ) (status : UserStatus) (c d : Conn R AuthDb) (ctx : Context) {s : DeviceSession}
      {u : User}
      → status ≢ active
      → (update_status id status c).0 ≡ ok tt
      → d.db ≡ (update_status id status c).1.db
      → (authenticate i later ctx d).0 ≡ ok (s, u)
      → s.user_id ≢ id
  unfolding update_status set_status update_users
  status_shuts later id status c d ctx off fine same entered =
      let users = ap (λ (o : AuthDb). o.users) (same ∙ written (set_status id status) c fine) in
      shut_lem later id d ctx
        (subst (All (IsShut id)) (sym users) (set_status-IsShut id status c.db.users off)) entered

  -- An account that is deleted is shut out at once, before its sessions are revoked. After a `SoftDeleteByID`
  -- of it that succeeded, no call on those tables authenticates as it, with whatever token, at whatever later
  -- time, whatever fails in the call.
  pub soft_delete_shuts :
      (now later id : ℕ) (c d : Conn R AuthDb) (ctx : Context) {s : DeviceSession} {u : User}
      → (soft_delete_by_id now id c).0 ≡ ok tt
      → d.db ≡ (soft_delete_by_id now id c).1.db
      → (authenticate i later ctx d).0 ≡ ok (s, u)
      → s.user_id ≢ id
  unfolding soft_delete_by_id soft_delete_user
  soft_delete_shuts now later id c d ctx fine same entered =
      let users = ap (λ (o : AuthDb). o.users) (same ∙ written (soft_delete_user now id) c fine) in
      shut_lem later id d ctx
        (subst (All (IsShut id)) (sym users) (soft_delete-IsShut now id c.db.users)) entered

  module _ {Settings : Type 0} (k : Collaborators R Settings) (w : UserCollaborators R)
      (cfg : AuthConfig) (now id : ℕ) where
    -- `DeleteAccount`, after the account is marked.
    abbrev rest_of_delete : Action R AuthDb (Unit {0})
    rest_of_delete = do
      attempt (revoke_all_sessions k cfg now id "account_deleted")
      attempt (outside (w.publish_account_deleted id now))

    rest_of_delete-Keeps : Keeps accounts rest_of_delete
    rest_of_delete-Keeps =
        bind-Keeps accounts _
          (λ _. attempt-Keeps _ (outside-Keeps (w.publish_account_deleted id now))) _
          (attempt-Keeps _ (revoke_all_sessions-Keeps k cfg now id "account_deleted"))

    -- An account that is deleted is shut out at once. After a `DeleteAccount` of it that succeeded, whether
    -- or not its sessions could be revoked and the event published, no call on those tables authenticates as
    -- it, with whatever token, at whatever later time, whatever fails in the call.
    pub delete_account_shuts :
        (later : ℕ) (c d : Conn R AuthDb) (ctx : Context) {s : DeviceSession} {u : User}
        → (delete_account k w cfg now id c).0 ≡ ok tt
        → d.db ≡ (delete_account k w cfg now id c).1.db
        → (authenticate i later ctx d).0 ≡ ok (s, u)
        → s.user_id ≢ id
    unfolding delete_account soft_delete_by_id soft_delete_user
    delete_account_shuts later c d ctx h same entered =
        let (_, fine, _, e) = bind_ok (λ _. rest_of_delete) (soft_delete_by_id now id) c h in
        let kept = rest_of_delete-Keeps.at (soft_delete_by_id now id c).1 in
        let users : d.db.users ≡ (soft_delete_user now id c.db).users =
          ap (λ (o : AuthDb). o.users)
            (same ∙ ap (λ (x : Result (Unit {0}) × Conn R AuthDb). x.1.db) e)
          ∙ ap (λ (v : List User × List (ℕ × String) × ℕ). v.0) kept
          ∙ ap (λ (o : AuthDb). o.users) (written (soft_delete_user now id) c fine) in
        shut_lem later id d ctx
          (subst (All (IsShut id)) (sym users) (soft_delete-IsShut now id c.db.users)) entered
