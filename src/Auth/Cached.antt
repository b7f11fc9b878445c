-- ===== src/Auth/Cached.antt =====
-- The collaborators of internal/auth/service.go and lockout.go that are calls of the cache manager. The
-- server's state is (part of) the outside world; the other collaborators are `base`'s.
use go_grpc_starter.Prelude.{ℕ, String, List, []}
use go_grpc_starter.Redis.{Redis}
use go_grpc_starter.Cache.{
  Codec, verification_token_key, password_reset_key, rate_limit_key, set, get_del, delete, counter,
  increment_with_ttl,
}
use go_grpc_starter.Auth.Login.{Accounts}

-- `RateLimitKey("login", email)`; an e-mail address is text of these bytes.
unfoldable pub login_key : (List ℕ → String) → List ℕ → String
unfolding rate_limit_key
login_key bytes_text email = rate_limit_key "login" (bytes_text email)

module _ {R : Type 0} (s : Redis R) (prefix : String) (token_data : Codec ℕ)
    (bytes_text : List ℕ → String) where
  unfoldable pub cached : Accounts R → Accounts R
  unfolding login_key
  cached base = record base {
    counter = λ email. counter s prefix (login_key bytes_text email);
    increment =
        λ email window r. (increment_with_ttl s prefix (login_key bytes_text email) window r).1;
    reset_counter = λ email r. (delete s prefix (login_key bytes_text email) r).1;
    put_verification = λ code id.
        set s prefix token_data (verification_token_key code) id
          (record { ttl = 86400; tags = [] });
    take_verification = λ code. get_del s prefix token_data (verification_token_key code);
    put_reset = λ code id.
        set s prefix token_data (password_reset_key code) id (record { ttl = 3600; tags = [] });
    take_reset = λ code. get_del s prefix token_data (password_reset_key code);
  }
