-- ===== src/Auth/Once.antt =====
-- Two calls of `RefreshTokens` of internal/auth/tokens.go with one token.
use go_grpc_starter.Prelude.{
  ℕ, String, ◌≡◌, ◌≢◌, sym, subst, ◌∙◌, Bool, false, ◌&&◌, some, List, [], ◌∷◌, ◌++◌, find, All,
  str_eq, arith,
}
use go_grpc_starter.Errs.{ok}
use go_grpc_starter.Store.{Conn}
use go_grpc_starter.Auth.Entity.{RefreshToken, TokenPair, is_token_revoked}
use go_grpc_starter.Auth.Tables.{AuthDb, update_where, revoke_token, is_live, token_by_hash}
use go_grpc_starter.Auth.Session.{Collaborators, AuthConfig}
use go_grpc_starter.Auth.Tokens.{refresh_tokens}
use go_grpc_starter.Auth.Rotation.{Refreshed, refresh_tokens_ok}

-- A row is stamped with a time, or not at all.
abbrev pub IsDated : RefreshToken → Type 0
IsDated t = t.revoked_at ≢ some 0

module _ (now : ℕ) (hash : String) where
  abbrev of_hash : RefreshToken → Bool
  of_hash t = str_eq t.token_hash hash

  abbrev revoke_of_hash : List RefreshToken → List RefreshToken
  revoke_of_hash =
      update_where (λ (t : RefreshToken). of_hash t && is_live t) (revoke_token now "rotated")

  -- The first row of the hash was live, so it is the one that the rotation revokes.
  find-revoke_of_hash :
      (rows rest : List RefreshToken) (t : RefreshToken)
      → find of_hash rows ≡ some t
      → is_token_revoked t ≡ false
      → All IsDated rows
      → find of_hash (revoke_of_hash rows ++ rest) ≡ some (revoke_token now "rotated" t)
  unfolding find update_where is_token_revoked
  find-revoke_of_hash [] rest t found live dated = cc
  find-revoke_of_hash (x ∷ xs) rest t found live dated =
      ground (arith, dated.0, find-revoke_of_hash xs rest t)

module _ {W Settings : Type 0} (k : Collaborators W Settings) (cfg : AuthConfig) where
  spent :
      (now later : ℕ) (token : String) (before after : AuthDb)
      → now ≢ 0
      → All IsDated before.tokens
      → Refreshed k cfg now (k.hash_token token) before after
      → {last : AuthDb} → Refreshed k cfg later (k.hash_token token) after last
      → ⊥
  unfolding token_by_hash
  spent now later token before after dated_now dated r {last} r' =
      let hash = k.hash_token token in
      let e =
        find-revoke_of_hash now hash before.tokens _ r.found.token r.in_table r.not_revoked dated in
      let same : token_by_hash hash after ≡ some (revoke_token now "rotated" r.found.token) =
        rw r.same_db e in
      let found : some r'.found.token ≡ some (revoke_token now "rotated" r.found.token) =
        sym r'.in_table ∙ same in
      unfold is_token_revoked in ground (arith, r'.not_revoked, found)

  -- A refresh token works once. After a call of `RefreshTokens` that returned a pair, no later call
  -- with the same token on those tables returns one, whatever fails in either; rows are stamped with
  -- real times, and neither call runs inside a transaction.
  pub refresh_tokens_once :
      (now later : ℕ) (token : String) (c d : Conn W AuthDb) {p q : TokenPair Settings}
      → now ≢ 0
      → c.in_tx ≡ false
      → d.in_tx ≡ false
      → All IsDated c.db.tokens
      → (refresh_tokens k cfg now token c).0 ≡ ok p
      → d.db ≡ (refresh_tokens k cfg now token c).1.db
      → (refresh_tokens k cfg later token d).0 ≢ ok q
  refresh_tokens_once now later token c d {p} {q} real idle idle' dated first same second =
      spent now later token c.db (refresh_tokens k cfg now token c).1.db real dated
        (refresh_tokens_ok k cfg now token c idle first)
        (subst
          (λ o.
            Refreshed k cfg later (k.hash_token token) o (refresh_tokens k cfg later token d).1.db)
          same (refresh_tokens_ok k cfg later token d idle' second))
