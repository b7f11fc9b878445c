-- ===== src/Token.antt =====
-- `redisAccessTokenManager` of pkg/token/access_token.go over Redis. The random bytes as base64url text,
-- the hexadecimal SHA-256, `json` and the clock are not the program's.
pub mod Life
use go_grpc_starter.Prelude.{ℕ, String, Option, none, some, str_append}
use go_grpc_starter.Errs.{GoError, other, Result, ok, err}
use go_grpc_starter.Redis.{Redis, Command}
use go_grpc_starter.Cache.{Codec, and_then}

-- `ErrTokenNotFound`
abbrev pub err_token_not_found : GoError
err_token_not_found = other "access token not found or expired"

pub record AccessTokenClaims : Type 0 where
  pub session_id : ℕ
  pub user_id : ℕ
  pub device_id : String
  pub issued_at : ℕ

module _ {R : Type 0} (s : Redis R) (sha256_hex : String → String) where
  unfoldable pub redis_key : String → String
  redis_key raw_token = str_append "at:" (sha256_hex raw_token)

  unfoldable pub revoke : String → Command R (Unit {0})
  revoke raw_token = s.del (redis_key raw_token)

  module _ (json : Codec AccessTokenClaims) where
    abbrev pub read_claims : Result (Option String) → Result AccessTokenClaims
    read_claims (err e) = err e
    read_claims (ok none) = err err_token_not_found
    read_claims (ok (some text)) = json.unmarshal text

    unfoldable pub validate : String → Command R AccessTokenClaims
    validate raw_token r = let (v, r') = s.get (redis_key raw_token) r in (read_claims v, r')

    unfoldable pub store_token : ℕ → AccessTokenClaims → String → Command R String
    store_token ttl claims raw_token r =
        and_then (json.marshal claims, r)
          (λ payload r'.
            and_then (s.set (redis_key raw_token) payload ttl r') (λ _ r''. (ok raw_token, r'')))

    unfoldable pub generate : Command R String → ℕ → ℕ → ℕ → ℕ → String → Command R String
    generate random_base64 ttl now session_id user_id device_id r =
        and_then (random_base64 r) (λ random.
          store_token ttl
            (record {
              session_id = session_id;
              user_id = user_id;
              device_id = device_id;
              issued_at = now;
            })
            (str_append "at_" random))
