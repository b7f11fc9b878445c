-- ===== src/Token/Life.antt =====
-- The life of an access token of pkg/token/access_token.go.
use go_grpc_starter.Prelude.{
  ℕ, str_append, String, ◌≡◌, ◌≢◌, ◌<◌, refl, sym, ap, ◌∙◌, Option, none, some, Bool, true, false,
  arith, leb, if◌then◌else◌,
}
use go_grpc_starter.Errs.{Result, ok, err}
use go_grpc_starter.Redis.{Redis, Command, IsRedis, text, text_of, aged, expiry}
use go_grpc_starter.Redis.Reach.{Reach, Reach-IsGone}
use go_grpc_starter.Cache.{Codec, and_then}
use go_grpc_starter.Cache.Tags.{and_then_ok}
use go_grpc_starter.Token.{
  AccessTokenClaims, err_token_not_found, redis_key, revoke, read_claims, validate, store_token,
  generate,
}

text_aged :
    (v : String) (ttl n : ℕ)
    → 0 < ttl
    → text_of (aged n (some (record { value = text v; ttl = expiry ttl })))
      ≡ (if leb ttl n then none else some v)
text_aged v ttl n h = ground arith

module _ {R : Type 0} (s : Redis R) (h : IsRedis s) (sha256_hex : String → String)
    (json : Codec AccessTokenClaims) where
  abbrev key : String → String
  key = redis_key s sha256_hex

  store_token-view :
      (ttl : ℕ) (claims : AccessTokenClaims) (raw token : String) (r : R)
      → (store_token s sha256_hex json ttl claims raw r).0 ≡ ok token
      → (payload : String) × (json.marshal claims ≡ ok payload)
        × (h.view (store_token s sha256_hex json ttl claims raw r).1 (key token)
            ≡ some (record { value = text payload; ttl = expiry ttl }))
  unfolding store_token
  store_token-view ttl claims raw token r e =
      let put : String → Command R String =
        λ payload r'. and_then (s.set (key raw) payload ttl r') (λ _ r''. (ok raw, r'')) in
      let (payload, e0, e1, same) = and_then_ok (json.marshal claims, r) put e in
      let (_, e2, e3, same') =
        and_then_ok (s.set (key raw) payload ttl r) (λ _ r''. (ok raw, r'')) e1 in
      let named : raw ≡ token = cc in
      (payload, e0, rw (same, same', sym named) (h.set_ok (key raw) payload ttl r e2))

  read_stored :
      (b : Bool) (payload : String) {claims : AccessTokenClaims}
      → json.unmarshal payload ≡ ok claims
      → read_claims s sha256_hex json (ok (if b then none else some payload))
        ≡ (if b then err err_token_not_found else ok claims)
  read_stored true payload e = refl
  read_stored false payload e = e

  -- A token that `Generate` returned is valid until its lifetime has passed, and from then on it is not
  -- found: where Redis answers, after any number of seconds in which no other client has written its key,
  -- `Validate` returns the claims it was generated with, or `ErrTokenNotFound` if the lifetime is over.
  -- JSON gives these claims back, and the lifetime is not zero.
  pub generated_valid :
      (random_base64 : Command R String) (ttl now session_id user_id : ℕ) (device_id token : String)
      (r r' : R) (n : ℕ) {v : Option String}
      → 0 < ttl
      → ((t : String)
          → json.marshal (record {
            session_id = session_id;
            user_id = user_id;
            device_id = device_id;
            issued_at = now;
          })
            ≡ ok t
          → json.unmarshal t
            ≡ ok (record {
              session_id = session_id;
              user_id = user_id;
              device_id = device_id;
              issued_at = now;
            }))
      → (generate s sha256_hex json random_base64 ttl now session_id user_id device_id r).0
        ≡ ok token
      → h.view r' (key token)
        ≡ aged n (
            h.view
              (generate s sha256_hex json random_base64 ttl now session_id user_id device_id r).1
              (key token))
      → (s.get (key token) r').0 ≡ ok v
      → (validate s sha256_hex json token r').0 ≡ (
          if leb ttl n
          then err err_token_not_found
          else ok (record {
            session_id = session_id;
            user_id = user_id;
            device_id = device_id;
            issued_at = now;
          }))
  unfolding generate validate
  generated_valid random_base64 ttl now session_id user_id device_id token r r' n {v} long back made
        kept answered =
      let claims : AccessTokenClaims = record {
        session_id = session_id;
        user_id = user_id;
        device_id = device_id;
        issued_at = now;
      } in
      let (random, _, e1, same) =
        and_then_ok (random_base64 r)
          (λ random. store_token s sha256_hex json ttl claims (str_append "at_" random)) made in
      let (payload, e2, view) = store_token-view ttl claims (str_append "at_" random) token _ e1 in
      let held : h.view
            (generate s sha256_hex json random_base64 ttl now session_id user_id device_id r).1
            (key token)
          ≡ some (record { value = text payload; ttl = expiry ttl }) =
        rw same view in
      let seen : v ≡ (if leb ttl n then none else some payload) =
        h.get_ok (key token) r' answered
        ∙ ap text_of (kept ∙ ap (aged n) held)
        ∙ text_aged payload ttl n long in
      ap (read_claims s sha256_hex json) (answered ∙ ap ok seen)
      ∙ read_stored (leb ttl n) payload (back payload e2)

  -- `Revoke` is final. After one that succeeded, no `Validate` of the token succeeds, whatever all clients
  -- do in between, in any order, and whatever fails, until the token's key is written again.
  pub revoke_final :
      (token : String) (r r' : R) {claims : AccessTokenClaims}
      → (revoke s sha256_hex token r).0 ≡ ok tt
      → Reach s h (key token) (revoke s sha256_hex token r).1 r'
      → (validate s sha256_hex json token r').0 ≢ ok claims
  unfolding revoke validate
  revoke_final token r r' done run valid =
      let gone = Reach-IsGone s h (key token) run (h.del_ok (key token) r done) in
      refuse (s.get (key token) r').0 (λ t. h.get_ok (key token) r' {v = t}) gone valid
    where
      refuse :
          (v : Result (Option String)) {claims : AccessTokenClaims}
          → ((t : Option String) → v ≡ ok t → t ≡ text_of (h.view r' (key token)))
          → h.view r' (key token) ≡ none
          → read_claims s sha256_hex json v ≢ ok claims
      refuse (err e) read gone valid = cc
      refuse (ok none) read gone valid = cc
      refuse (ok (some t)) read gone valid = let e = read (some t) refl ∙ ap text_of gone in cc
