-- ===== src/Interceptor/Ended.antt =====
-- Access tokens after a reset of the password: internal/interceptor/interceptors.go and
-- internal/auth/service.go on the same tables.
use go_grpc_starter.Prelude.{
  ℕ, String, ◌≡◌, ◌≢◌, sym, ap, ◌∙◌, true, false, some, List, All, find-All, ◌==◌, arith,
}
use go_grpc_starter.Errs.{ok}
use go_grpc_starter.Store.{Conn}
use go_grpc_starter.Store.Calm.{IsCalm}
use go_grpc_starter.Users.Entity.{User}
use go_grpc_starter.Auth.Entity.{DeviceSession, is_revoked}
use go_grpc_starter.Auth.Tables.{AuthDb, is_open, get_device_session_by_id}
use go_grpc_starter.Auth.Session.{Collaborators, AuthConfig}
use go_grpc_starter.Auth.Login.{Accounts}
use go_grpc_starter.Auth.Password.{reset_password}
use go_grpc_starter.Auth.Reset.{reset_password_ok}
use go_grpc_starter.Auth.Ended.{IsStamped}
use go_grpc_starter.Interceptor.{Context, Set}
use go_grpc_starter.Interceptor.Unary.{authenticate}
use go_grpc_starter.Interceptor.Guard.{authenticate_ok}

closed-revoked : (s : DeviceSession) → IsStamped s → is_open s ≡ false → is_revoked s ≢ false
unfolding is_revoked
closed-revoked s stamped shut live = ground arith

module _ {R Req Settings : Type 0} (k : Collaborators R Settings) (a : Accounts R)
    (cfg : AuthConfig) (i : Set R Req) where
  -- A reset of the password ends every access of the account at once. After a call of `ResetPassword` that
  -- succeeded while no call of the database failed, no call on those tables authenticates as the account that
  -- the code named, with whatever token, then or later, whatever fails in it and whatever the token manager
  -- still accepts; sessions are stamped with real times.
  pub reset_password_shuts :
      (now later id : ℕ) (code : String) (new_password : List ℕ) (c d : Conn R AuthDb)
      (ctx : Context) {s : DeviceSession} {u : User}
      → IsCalm c
      → (reset_password k a cfg now code new_password c).0 ≡ ok tt
      → (a.take_reset code c.outside).0 ≡ ok (some id)
      → d.db ≡ (reset_password k a cfg now code new_password c).1.db
      → All IsStamped d.db.sessions
      → (authenticate i later ctx d).0 ≡ ok (s, u)
      → s.user_id ≢ id
  unfolding get_device_session_by_id
  reset_password_shuts now later id code new_password c d ctx {s} {u} calm done owner same stamped
        entered is_his =
      let r = reset_password_ok k a cfg now code new_password c calm done in
      let auth = authenticate_ok i later ctx d entered in
      let sessions = ap (λ (o : AuthDb). o.sessions) same in
      let account : ok (some r.account) ≡ ok (some id) = sym r.code_taken ∙ owner in
      let ended : All (λ (x : DeviceSession). (x.user_id == r.account) ≡ true → is_open x ≡ false)
          d.db.sessions =
        rw sessions r.sessions_ended in
      let pick = λ (x : DeviceSession). x.id == auth.claims.session_id in
      let shut = find-All _ pick d.db.sessions auth.in_sessions ended in
      closed-revoked s (find-All IsStamped pick d.db.sessions auth.in_sessions stamped)
        (shut (ground (arith, account, is_his))) auth.not_revoked
