-- ===== src/Auth/Reset.antt =====
-- The account and its sessions after `ResetPassword` of internal/auth/service.go.
use go_grpc_starter.Prelude.{
  ℕ, String, ◌≡◌, refl, sym, ap, ◌∙◌, ◌≤◌, Bool, true, false, Option, none, some, List, All, ◌==◌,
  length, arith,
}
use go_grpc_starter.Errs.{GoError, Result, ok, err}
use go_grpc_starter.Store.{Conn, Action, run, query, ◌>>◌}
use go_grpc_starter.Store.Inversion.{bind_ok}
use go_grpc_starter.Store.Calm.{IsCalm, run-query-Does}
use go_grpc_starter.Auth.Entity.{DeviceSession}
use go_grpc_starter.Auth.Tables.{AuthDb, is_open, revoke_sessions_where}
use go_grpc_starter.Auth.Repository.{revoke_all_by_user_id, done}
use go_grpc_starter.Auth.Users.{set_password_hash, update_password_hash}
use go_grpc_starter.Auth.Session.{Collaborators, AuthConfig, outside, attempt}
use go_grpc_starter.Auth.Login.{Accounts}
use go_grpc_starter.Auth.Password.{
  validate_password, owner_of, err_invalid_reset_token, take_reset_code, reset_account,
  reset_with_code, reset_password,
}
use go_grpc_starter.Auth.Calm.{revoke_sessions_closes}

pub owner_of_ok :
    (e : GoError) (r : Result (Option ℕ)) {id : ℕ} → owner_of e r ≡ ok id → r ≡ ok (some id)
owner_of_ok e (ok (some id)) h = cc
owner_of_ok e (ok none) h = cc
owner_of_ok e (err e') h = cc

module _ {W Settings : Type 0} (k : Collaborators W Settings) (a : Accounts W) (cfg : AuthConfig)
    (now : ℕ) where
  abbrev State : Type 0
  State = Conn W AuthDb

  abbrev of_user : ℕ → DeviceSession → Bool
  of_user id s = s.user_id == id

  -- The tables after the password of an account has been reset.
  abbrev pub reset_to : ℕ → String → AuthDb → AuthDb
  reset_to id hash o =
      revoke_sessions_where now "password_reset" (of_user id) (set_password_hash id hash o)

  store_calm :
      (id : ℕ) (hash : String) (c : State)
      → IsCalm c
      → (revoke_all_by_user_id now id "password_reset" (update_password_hash id hash c).1).1.db
        ≡ reset_to id hash c.db
  unfolding revoke_all_by_user_id update_password_hash
  store_calm id hash c calm =
      let first = run-query-Does c calm (done (set_password_hash id hash)) in
      let d = (run (query (done (set_password_hash id hash))) c).1 in
      let second =
        run-query-Does d first.calm
          (done (revoke_sessions_where now "password_reset" (of_user id))) in
      second.same_db ∙ ap (revoke_sessions_where now "password_reset" (of_user id)) first.same_db

  reset_account_calm :
      (new_password : List ℕ) (id : ℕ) (c : State)
      → IsCalm c
      → (reset_account k a cfg now new_password id c).0 ≡ ok tt
      → (hash : String) × ((reset_account k a cfg now new_password id c).1.db
          ≡ reset_to id hash c.db)
  unfolding reset_account
  reset_account_calm new_password id c calm h =
      let hashed = outside (a.hash_password new_password) in
      let drop : Action W AuthDb (Unit {0}) =
        attempt (revoke_all_by_user_id now id "password_reset") in
      let (hash, _, e1, e) = bind_ok (λ hash. update_password_hash id hash >> drop) hashed c h in
      let d = (hashed c).1 in
      let (_, _, _, e') = bind_ok (λ _. drop) (update_password_hash id hash) d e1 in
      let sound : IsCalm d = record { no_faults = calm.no_faults; sound = calm.sound } in
      (hash, ap (λ (x : Result (Unit {0}) × State). x.1.db) (e ∙ e') ∙ store_calm id hash d sound)

  -- What a reset that succeeds has consumed, and what it leaves.
  pub record Reset (code : String) (new_password : List ℕ) (before after : State) : Type 0 where
    pub long_enough : 8 ≤ length new_password
    pub account : ℕ
    pub code_taken : (a.take_reset code before.outside).0 ≡ ok (some account)
    pub new_hash : String
    pub password_set : after.db.users ≡ (set_password_hash account new_hash before.db).users
    pub sessions_ended :
        All (λ (s : DeviceSession). of_user account s ≡ true → is_open s ≡ false) after.db.sessions

  pub validate_ok :
      (plain : List ℕ) (c : State)
      → (validate_password plain c).0 ≡ ok tt
      → (8 ≤ length plain) × ((validate_password plain c).1 ≡ c)
  unfolding validate_password
  validate_ok plain c h = ground arith

  reset_to-users :
      (id : ℕ) (hash : String) (o : AuthDb)
      → (reset_to id hash o).users ≡ (set_password_hash id hash o).users
  unfolding revoke_sessions_where
  reset_to-users id hash o = refl

  reset_with_code_ok :
      (code : String) (new_password : List ℕ) (c : State)
      → IsCalm c
      → 8 ≤ length new_password
      → (reset_with_code k a cfg now code new_password c).0 ≡ ok tt
      → Reset code new_password c (reset_with_code k a cfg now code new_password c).1
  unfolding reset_with_code take_reset_code
  reset_with_code_ok code new_password c calm long h =
      let take = take_reset_code k a cfg now code in
      let (id, e0, e1, e) = bind_ok (reset_account k a cfg now new_password) take c h in
      let sound : IsCalm (take c).1 = record { no_faults = calm.no_faults; sound = calm.sound } in
      let (hash, db) = reset_account_calm new_password id (take c).1 sound e1 in
      let same : (reset_with_code k a cfg now code new_password c).1.db ≡ reset_to id hash c.db =
        ap (λ (x : Result (Unit {0}) × State). x.1.db) e ∙ db in
      record {
        long_enough = long;
        account = id;
        code_taken = owner_of_ok err_invalid_reset_token (a.take_reset code c.outside).0 e0;
        new_hash = hash;
        password_set = ap (λ (o : AuthDb). o.users) same ∙ reset_to-users id hash c.db;
        sessions_ended = rw same (
            revoke_sessions_closes now "password_reset" (of_user id)
              (set_password_hash id hash c.db));
      }

  -- While no call of the database fails, a call of `ResetPassword` that succeeds was given at least eight
  -- bytes of password and a code that `GetDel` found. It sets the password of the account of that code,
  -- and no session of the account is open after it.
  pub reset_password_ok :
      (code : String) (new_password : List ℕ) (c : State)
      → IsCalm c
      → (reset_password k a cfg now code new_password c).0 ≡ ok tt
      → Reset code new_password c (reset_password k a cfg now code new_password c).1
  unfolding reset_password
  reset_password_ok code new_password c calm h =
      let rest = reset_with_code k a cfg now code new_password in
      let (_, e0, e1, e) = bind_ok (λ _. rest) (validate_password new_password) c h in
      let (long, same) = validate_ok new_password c e0 in
      let e' : reset_password k a cfg now code new_password c ≡ rest c = e ∙ ap rest same in
      rw e' (
        reset_with_code_ok code new_password c calm long
          (sym (ap (λ (x : Result (Unit {0}) × State). x.0) e') ∙ h))
