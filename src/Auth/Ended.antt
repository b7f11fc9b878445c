-- ===== src/Auth/Ended.antt =====
-- Refresh tokens of a session that has been revoked, across internal/auth/service.go and tokens.go.
use go_grpc_starter.Prelude.{
  ℕ, String, ◌≡◌, ◌≢◌, sym, ap, ◌∙◌, true, false, Option, none, some, List, All, find-All, ◌==◌,
  arith,
}
use go_grpc_starter.Errs.{ok}
use go_grpc_starter.Store.{Conn}
use go_grpc_starter.Store.Calm.{IsCalm}
use go_grpc_starter.Auth.Entity.{DeviceSession, RefreshToken, TokenPair, is_revoked, is_valid}
use go_grpc_starter.Auth.Tables.{AuthDb, is_open, token_by_hash, get_device_session_by_id}
use go_grpc_starter.Auth.Session.{Collaborators, AuthConfig}
use go_grpc_starter.Auth.Tokens.{refresh_tokens}
use go_grpc_starter.Auth.Rotation.{refresh_tokens_ok}
use go_grpc_starter.Auth.Login.{Accounts}
use go_grpc_starter.Auth.Password.{reset_password}
use go_grpc_starter.Auth.Reset.{reset_password_ok}

-- A session is stamped with a time, or not at all.
abbrev pub IsStamped : DeviceSession → Type 0
IsStamped s = s.revoked_at ≢ some 0

closed-invalid :
    (now timeout : ℕ) (s : DeviceSession)
    → IsStamped s
    → is_open s ≡ false
    → is_valid now timeout s ≡ false
unfolding is_valid is_revoked
closed-invalid now timeout s stamped h = ground arith

module _ {W Settings : Type 0} (k : Collaborators W Settings) (cfg : AuthConfig) where
  refresh_tokens_closed :
      (now : ℕ) (token : String) (t : RefreshToken) (s : DeviceSession) (c : Conn W AuthDb)
      {p : TokenPair Settings}
      → c.in_tx ≡ false
      → token_by_hash (k.hash_token token) c.db ≡ some t
      → get_device_session_by_id t.session_id c.db ≡ some s
      → IsStamped s
      → is_open s ≡ false
      → (refresh_tokens k cfg now token c).0 ≢ ok p
  refresh_tokens_closed now token t s c idle ht hs stamped shut h =
      let r = refresh_tokens_ok k cfg now token c idle h in
      let same_token : some r.found.token ≡ some t = sym r.in_table ∙ ht in
      let same_session : some r.found.session ≡ some s =
        sym r.in_sessions
        ∙ ap
            (λ (o : Option RefreshToken). elim o [
              | none ↦ none
              | some x ↦ get_device_session_by_id x.session_id c.db
            ])
            same_token
        ∙ hs in
      let valid = r.session_valid in
      let invalid = closed-invalid now cfg.max_inactivity_timeout s stamped shut in
      ground (arith, same_session, valid, invalid)

  module _ (a : Accounts W) where
    -- A reset of the password cuts off every device of the account. After a call of `ResetPassword`
    -- that succeeded while no call of the database failed, a refresh token of a session of the account
    -- that the code named yields no pair on those tables, then or later, whatever fails in that call;
    -- sessions are stamped with real times, and the refresh does not run inside a transaction.
    pub reset_password_ends :
        (now later : ℕ) (code : String) (new_password : List ℕ) (c d : Conn W AuthDb)
        (token : String) (t : RefreshToken) (s : DeviceSession) {p : TokenPair Settings}
        → IsCalm c
        → (reset_password k a cfg now code new_password c).0 ≡ ok tt
        → d.db ≡ (reset_password k a cfg now code new_password c).1.db
        → d.in_tx ≡ false
        → All IsStamped d.db.sessions
        → token_by_hash (k.hash_token token) d.db ≡ some t
        → get_device_session_by_id t.session_id d.db ≡ some s
        → (a.take_reset code c.outside).0 ≡ ok (some s.user_id)
        → (refresh_tokens k cfg later token d).0 ≢ ok p
    unfolding get_device_session_by_id
    reset_password_ends now later code new_password c d token t s calm done same idle stamped ht hs
          owner =
        let r = reset_password_ok k a cfg now code new_password c calm done in
        let sessions = ap (λ (o : AuthDb). o.sessions) same in
        let id : ok (some r.account) ≡ ok (some s.user_id) = sym r.code_taken ∙ owner in
        let ended : All (λ (x : DeviceSession). (x.user_id == r.account) ≡ true → is_open x ≡ false)
            d.db.sessions =
          rw sessions r.sessions_ended in
        let pick = λ (x : DeviceSession). x.id == t.session_id in
        let shut = find-All _ pick d.db.sessions hs ended in
        refresh_tokens_closed later token t s d idle ht hs
          (find-All IsStamped pick d.db.sessions hs stamped) (shut (ground (arith, id)))
