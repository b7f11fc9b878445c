-- ===== src/Examples/Cache.antt =====
-- The cache manager of internal/platform/cache on the server of Examples/Server.
use go_grpc_starter.Prelude.{ℕ, String, ◌≡◌, ◌≢◌, refl, some, [], ◌∷◌, arith, eq_iff}
use go_grpc_starter.Errs.{ok}
use go_grpc_starter.Redis.{text}
use go_grpc_starter.Cache.{
  Codec, CacheOptions, build_key, build_tag_key, then_send, add_tags, set_text, set, get_del,
  del_all, invalidate_members, invalidate_by_tag,
}
use go_grpc_starter.Cache.Expiry.{tag_lost}
use go_grpc_starter.Examples.Server.{Server, server, works, empty, written, unary}
use Prim.Native.String.{count}

abbrev pub numbers : Codec ℕ
numbers = record { marshal = λ n. ok (unary n); unmarshal = λ t. ok (count t) }

abbrev stored : Server
stored = (set server "app" numbers "code" 7 (record { ttl = 60; tags = [] }) empty).1

taken : (get_del server "app" numbers "code" stored).0 ≡ ok (some 7)
unfolding get_del set set_text add_tags then_send build_key written unary
taken = refl

abbrev day : CacheOptions
day = record { ttl = 86400; tags = "user:1" ∷ [] }

abbrev tagged : Server
tagged = (set_text server "app" "profile" "Ada" day empty).1

abbrev minute : CacheOptions
minute = record { ttl = 60; tags = "user:1" ∷ [] }

abbrev tagged_twice : Server
tagged_twice = (set_text server "app" "session" "open" minute tagged).1

apart : ◌≢◌ {A = String} "session" "profile"
apart = ground (arith, eq_iff "session" "profile")

-- Two hours later
tag_lost_example :
    (invalidate_by_tag server "app" "user:1" (works.wait 7200 tagged_twice)).1 "app:cache:profile"
    ≡ some (record { value = text "Ada"; ttl = some 79200 })
unfolding set_text add_tags then_send build_key build_tag_key written invalidate_by_tag
    invalidate_members del_all
tag_lost_example =
    tag_lost server works "app" "profile" "session" "Ada" "open" "user:1" 86400 60 7200 empty apart
      (omega arith) (omega arith) refl refl refl
