-- ===== src/Auth/Reuse.antt =====
-- Reuse detection of `RefreshTokens` in internal/auth/tokens.go.
use go_grpc_starter.Prelude.{
  ℕ, String, ◌≡◌, refl, ap, ◌∙◌, Bool, true, false, some, All, ◌==◌, str_eq, arith,
}
use go_grpc_starter.Errs.{Result, ok, err}
use go_grpc_starter.Store.{Conn, run, query}
use go_grpc_starter.Store.Calm.{IsCalm, Does, run-query-Does}
use go_grpc_starter.Users.Entity.{User}
use go_grpc_starter.Auth.Entity.{
  DeviceSession, RefreshToken, Found, TokenPair, is_token_revoked, err_token_revoked,
}
use go_grpc_starter.Auth.Tables.{
  AuthDb, is_open, is_live, revoke_sessions_where, revoke_tokens_where, token_by_hash,
  get_device_session_by_id, get_user_by_id,
}
use go_grpc_starter.Auth.Repository.{revoke_by_token_family, find_by_token_hash, done}
use go_grpc_starter.Auth.Session.{Collaborators, AuthConfig}
use go_grpc_starter.Auth.Tokens.{
  punish_reuse, record_attempt, refresh_found, refresh_lookup, refresh_tokens,
}
use go_grpc_starter.Auth.Reads.{find_by_token_hash-reads}
use go_grpc_starter.Auth.Calm.{
  find_by_token_hash_calm, session_revoke-Does, revoke_sessions_closes, revoke_tokens_kills,
}

module _ {W Settings : Type 0} (k : Collaborators W Settings) (cfg : AuthConfig) (now : ℕ) where
  abbrev of_family : String → RefreshToken → Bool
  of_family family t = str_eq t.token_family family

  abbrev of_id : ℕ → DeviceSession → Bool
  of_id id s = s.id == id

  -- The tables after a reuse has been met.
  abbrev pub punished : Found → AuthDb → AuthDb
  punished found o =
      revoke_sessions_where now "token_reuse" (of_id found.session.id)
        (revoke_tokens_where now "token_reuse" (of_family found.token.token_family) o)

  punish_reuse_calm :
      (found : Found) (c : Conn W AuthDb)
      → IsCalm c
      → c.in_tx ≡ false
      → (punish_reuse k cfg now found c).1.db ≡ punished found c.db
  unfolding punish_reuse revoke_by_token_family record_attempt
  punish_reuse_calm found c calm idle =
      let q = done (revoke_tokens_where now "token_reuse" (of_family found.token.token_family)) in
      let d = (run (query q) c).1 in
      let first : Does c d (q c.db).1 = run-query-Does c calm q in
      let second =
        session_revoke-Does d first.calm (first.same_tx ∙ idle) now "token_reuse"
          found.session.id in
      second.same_db
      ∙ ap (revoke_sessions_where now "token_reuse" (of_id found.session.id)) first.same_db

  refresh_found_punishes :
      (hash : String) (found : Found) (c : Conn W AuthDb)
      → is_token_revoked found.token ≡ true
      → refresh_found k cfg now hash found c ≡ punish_reuse k cfg now found c
  unfolding refresh_found
  refresh_found_punishes hash found c h = ground arith

  refresh_tokens_punishes :
      (token : String) (found : Found) (c : Conn W AuthDb)
      → (find_by_token_hash (k.hash_token token) c).0 ≡ ok found
      → is_token_revoked found.token ≡ true
      → refresh_tokens k cfg now token c
        ≡ punish_reuse k cfg now found (find_by_token_hash (k.hash_token token) c).1
  unfolding refresh_tokens refresh_lookup
  refresh_tokens_punishes token found c e0 revoked =
      rw e0 (refresh_found_punishes (k.hash_token token) found _ revoked)

  punish_reuse-err :
      (found : Found) (c : Conn W AuthDb)
      → (punish_reuse k cfg now found c).0 ≡ err err_token_revoked
  unfolding punish_reuse record_attempt
  punish_reuse-err found c = refl

  punished-tokens :
      (found : Found) (o : AuthDb)
      → All
          (λ (x : RefreshToken). of_family found.token.token_family x ≡ true → is_live x ≡ false)
          (punished found o).tokens
  unfolding revoke_sessions_where
  punished-tokens found o =
      revoke_tokens_kills now "token_reuse" (of_family found.token.token_family) o

  -- While no call of the database fails and outside a transaction, a token that comes back after its
  -- revocation is answered by `ErrTokenRevoked`, if its session exists and the account of that session
  -- exists and is not deleted; no token of its family is live after that, and its session is not open.
  pub refresh_tokens_reuse :
      (token : String) (t : RefreshToken) (s : DeviceSession) (u : User) (c : Conn W AuthDb)
      → IsCalm c
      → c.in_tx ≡ false
      → token_by_hash (k.hash_token token) c.db ≡ some t
      → get_device_session_by_id t.session_id c.db ≡ some s
      → get_user_by_id s.user_id c.db ≡ some u
      → is_token_revoked t ≡ true
      → ((refresh_tokens k cfg now token c).0 ≡ err err_token_revoked)
        × All
            (λ (x : RefreshToken). of_family t.token_family x ≡ true → is_live x ≡ false)
            (refresh_tokens k cfg now token c).1.db.tokens
        × All
            (λ (x : DeviceSession). of_id s.id x ≡ true → is_open x ≡ false)
            (refresh_tokens k cfg now token c).1.db.sessions
  refresh_tokens_reuse token t s u c calm idle ht hs hu revoked =
      let found : Found = record { token = t; session = s; owner = u } in
      let hash = k.hash_token token in
      let d = (find_by_token_hash hash c).1 in
      let (e0, sound) = find_by_token_hash_calm c calm idle hash t s u ht hs hu in
      let (same, _, tx, faults) = find_by_token_hash-reads c hash in
      let e = refresh_tokens_punishes token found c e0 revoked in
      let calm' : IsCalm d = record {
        no_faults = λ n. rw faults (calm.no_faults n);
        sound = sound;
      } in
      let db : (refresh_tokens k cfg now token c).1.db ≡ punished found d.db =
        ap (λ (x : Result (TokenPair Settings) × Conn W AuthDb). x.1.db) e
        ∙ punish_reuse_calm found d calm' (tx ∙ idle) in
      (
        ap (λ (x : Result (TokenPair Settings) × Conn W AuthDb). x.0) e ∙ punish_reuse-err found d,
        rw db (punished-tokens found d.db),
        rw db (revoke_sessions_closes now "token_reuse" (of_id s.id) _),
      )
