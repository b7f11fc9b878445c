-- ===== src/Auth/Rotation.antt =====
-- The rotation of a refresh token in `RefreshTokens` of internal/auth/tokens.go.
use go_grpc_starter.Prelude.{
  ℕ, String, ◌≡◌, refl, ap, subst, ◌∙◌, true, false, ◌&&◌, some, List, [], ◌∷◌, ◌++◌, str_eq, arith,
}
use go_grpc_starter.Errs.{Result, ok, err}
use go_grpc_starter.Store.{Conn, opened, query, constrained_query, with_tx, run}
use go_grpc_starter.Store.Inversion.{bind_ok}
use go_grpc_starter.Store.Atomic.{with_tx_commit}
use go_grpc_starter.Auth.Entity.{
  DeviceSession, RefreshToken, Found, TokenPair, is_token_revoked, is_expired, is_valid,
  err_token_revoked,
}
use go_grpc_starter.Auth.Tables.{
  AuthDb, update_where, revoke_token, is_live, revoke_tokens_where, create_refresh_token,
  token_by_hash, get_device_session_by_id,
}
use go_grpc_starter.Auth.Repository.{find_by_token_hash, revoke_by_token_hash, token_create}
use go_grpc_starter.Auth.Session.{Collaborators, AuthConfig}
use go_grpc_starter.Auth.Tokens.{
  Issued, new_token, issue_token_pair, punish_reuse, record_attempt, swap_tokens, answer,
  rotate_with, rotate, refresh_found, refresh_lookup, refresh_tokens,
}
use go_grpc_starter.Auth.Reads.{find_by_token_hash-reads, find_by_token_hash_found}

module _ {W Settings : Type 0} (k : Collaborators W Settings) (cfg : AuthConfig) (now : ℕ) where
  abbrev State : Type 0
  State = Conn W AuthDb

  abbrev pub rotated : String → List RefreshToken → List RefreshToken
  rotated hash =
      update_where (λ (t : RefreshToken). str_eq t.token_hash hash && is_live t)
        (revoke_token now "rotated")

  swap_tokens_ok :
      (hash : String) (found : Found) (issued : Issued) (d : State)
      → d.in_tx ≡ true
      → (swap_tokens k cfg now hash found issued d).0 ≡ ok tt
      → ((swap_tokens k cfg now hash found issued d).1.db ≡ record d.db {
        tokens =
            rotated hash d.db.tokens
            ++ new_token k cfg now found.session.id issued.token_hash found.token.token_family ∷ [];
      })
  unfolding swap_tokens revoke_by_token_hash token_create run query constrained_query
      create_refresh_token revoke_tokens_where
  swap_tokens_ok hash found issued d joined h = ground arith

  issue-keeps :
      (s : DeviceSession) (c : State)
      → ((issue_token_pair k cfg now s c).1.db ≡ c.db)
        × ((issue_token_pair k cfg now s c).1.in_tx ≡ c.in_tx)
  unfolding issue_token_pair
  issue-keeps s c = ground arith

  -- What a rotation that succeeds leaves in the tables.
  record Rotated (hash : String) (found : Found) (before after : AuthDb) : Type 0 where
    issued_hash : String
    same_db : after ≡ record before {
      tokens =
          rotated hash before.tokens
          ++ new_token k cfg now found.session.id issued_hash found.token.token_family ∷ [];
    }

  answer-db : (found : Found) (i : Issued) (c : State) → (answer k cfg now found i c).1.db ≡ c.db
  unfolding answer
  answer-db found i c = refl

  rotate_with_ok :
      (hash : String) (found : Found) (i : Issued) (c : State) {p : TokenPair Settings}
      → c.in_tx ≡ false
      → (rotate_with k cfg now hash found i c).0 ≡ ok p
      → Rotated hash found c.db (rotate_with k cfg now hash found i c).1.db
  unfolding rotate_with
  rotate_with_ok hash found i c idle h =
      let swap = swap_tokens k cfg now hash found i in
      let (u, e0, _, e) = bind_ok (λ _. answer k cfg now found i) (with_tx swap) c h in
      let t = with_tx_commit swap c idle e0 in
      let s = swap_tokens_ok hash found i (opened c) refl t.0 in
      rw e (record {
        issued_hash = i.token_hash;
        same_db = answer-db found i (with_tx swap c).1 ∙ t.2 ∙ s;
      })

  rotate_ok :
      (hash : String) (found : Found) (c : State) {p : TokenPair Settings}
      → c.in_tx ≡ false
      → (rotate k cfg now hash found c).0 ≡ ok p
      → Rotated hash found c.db (rotate k cfg now hash found c).1.db
  unfolding rotate
  rotate_ok hash found c idle h =
      let issue = issue_token_pair k cfg now found.session in
      let (i, _, e1, e) = bind_ok (rotate_with k cfg now hash found) issue c h in
      let (same, tx) = issue-keeps found.session c in
      rw e (
        subst (λ o. Rotated hash found o (rotate_with k cfg now hash found i (issue c).1).1.db) same
          (rotate_with_ok hash found i (issue c).1 (tx ∙ idle) e1))

  punish_reuse-err :
      (found : Found) (c : State) → (punish_reuse k cfg now found c).0 ≡ err err_token_revoked
  unfolding punish_reuse record_attempt
  punish_reuse-err found c = refl

  refresh_found_ok :
      (hash : String) (found : Found) (c : State) {p : TokenPair Settings}
      → c.in_tx ≡ false
      → (refresh_found k cfg now hash found c).0 ≡ ok p
      → (is_token_revoked found.token ≡ false)
        × (is_expired now found.token ≡ false)
        × (is_valid now cfg.max_inactivity_timeout found.session ≡ true)
        × (refresh_found k cfg now hash found c ≡ rotate k cfg now hash found c)
  unfolding refresh_found record_attempt
  refresh_found_ok hash found c idle h = ground (arith, punish_reuse-err found c)

  -- What a call that returns tokens has found, and what it leaves.
  pub record Refreshed (hash : String) (before after : AuthDb) : Type 0 where
    pub found : Found
    pub in_table : token_by_hash hash before ≡ some found.token
    pub in_sessions : get_device_session_by_id found.token.session_id before ≡ some found.session
    pub not_revoked : is_token_revoked found.token ≡ false
    pub not_expired : is_expired now found.token ≡ false
    pub session_valid : is_valid now cfg.max_inactivity_timeout found.session ≡ true
    pub new_hash : String
    pub same_db : after ≡ record before {
      tokens =
          rotated hash before.tokens
          ++ new_token k cfg now found.session.id new_hash found.token.token_family ∷ [];
    }

  refresh_lookup_ok :
      (r : Result Found) (hash : String) (c : State) {p : TokenPair Settings}
      → (refresh_lookup k cfg now r hash c).0 ≡ ok p
      → (found : Found) × (r ≡ ok found)
        × ((refresh_found k cfg now hash found c).0 ≡ ok p)
        × (refresh_lookup k cfg now r hash c ≡ refresh_found k cfg now hash found c)
  unfolding refresh_lookup record_attempt
  refresh_lookup_ok (ok found) hash c h = (found, refl, h, refl)
  refresh_lookup_ok (err e) hash c h = cc

  -- A call of `RefreshTokens`, outside a transaction, that returns a pair has found the token in the
  -- table, neither revoked nor expired, and its session, which is valid. It has revoked the rows of that
  -- hash, added one token of the same session and family, and changed nothing else in the tables.
  pub refresh_tokens_ok :
      (token : String) (c : State) {p : TokenPair Settings}
      → c.in_tx ≡ false
      → (refresh_tokens k cfg now token c).0 ≡ ok p
      → Refreshed (k.hash_token token) c.db (refresh_tokens k cfg now token c).1.db
  unfolding refresh_tokens
  refresh_tokens_ok token c {p} idle h =
      let hash = k.hash_token token in
      let d = (find_by_token_hash hash c).1 in
      let (same, _, tx, _) = find_by_token_hash-reads c hash in
      let (found, e0, e1, e) = refresh_lookup_ok (find_by_token_hash hash c).0 hash d h in
      let (live, fresh, valid, e2) = refresh_found_ok hash found d (tx ∙ idle) e1 in
      let done = rotate_ok hash found d (tx ∙ idle) (subst (λ x. x.0 ≡ ok p) e2 e1) in
      record {
        found = found;
        in_table = (find_by_token_hash_found c hash e0).0;
        in_sessions = (find_by_token_hash_found c hash e0).1;
        not_revoked = live;
        not_expired = fresh;
        session_valid = valid;
        new_hash = done.issued_hash;
        same_db =
            ap (λ (x : Result (TokenPair Settings) × State). x.1.db) (e ∙ e2)
            ∙ done.same_db
            ∙ ap
                (λ (o : AuthDb). record o {
                  tokens =
                      rotated hash o.tokens
                      ++ new_token k cfg now found.session.id done.issued_hash
                          found.token.token_family
                        ∷ [];
                })
                same;
      }
