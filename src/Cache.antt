-- ===== src/Cache.antt =====
-- `CacheManager` of internal/platform/cache (manager.go, tags.go, cachekey.go) over Redis.
pub mod Keys
pub mod Once
pub mod Tags
pub mod Expiry
use go_grpc_starter.Prelude.{
  ℕ, ◌+◌, String, Option, none, some, List, [], ◌∷◌, ◌++◌, map, str_append, str_eq, any,
  if◌then◌else◌,
}
use go_grpc_starter.Errs.{other, Result, ok, err}
use go_grpc_starter.Redis.{Redis, Command}

-- `json.Marshal` and `json.Unmarshal` at the type of the value
pub record Codec (A : Type 0) : Type 0 where
  pub marshal : A → Result String
  pub unmarshal : String → Result A

pub record CacheOptions : Type 0 where
  pub ttl : ℕ
  pub tags : List String

abbrev pub cache_long : CacheOptions
cache_long = record { ttl = 86400; tags = [] }

-- cachekey.go
unfoldable pub verification_token_key : String → String
verification_token_key token = str_append "auth:verify:" token

unfoldable pub password_reset_key : String → String
password_reset_key token = str_append "auth:reset:" token

unfoldable pub rate_limit_key : String → String → String
rate_limit_key limit_type identifier =
    str_append "rate:" (str_append limit_type (str_append ":" identifier))

-- `buildKey` and `buildTagKey`
unfoldable pub build_key : String → String → String
build_key prefix key = str_append prefix (str_append ":cache:" key)

unfoldable pub build_tag_key : String → String → String
build_tag_key prefix tag = str_append prefix (str_append ":tag:" tag)

module _ {R : Type 0} where
  abbrev pub and_then : {A B : Type 0} → Result A × R → (A → R → Result B × R) → Result B × R
  and_then (ok a, r) f = f a r
  and_then (err e, r) f = (err e, r)

  -- A pipeline sends every command, whatever the earlier ones answer; `Exec` returns the first error.
  abbrev pub both : Result (Unit {0}) → Result (Unit {0}) × R → Result (Unit {0}) × R
  both (ok _) x = x
  both (err e) (_, r) = (err e, r)

  unfoldable pub then_send : Command R (Unit {0}) → Command R (Unit {0}) → Command R (Unit {0})
  then_send a b r = let (x, r') = a r in both x (b r')

  abbrev pub sent : Command R (Unit {0})
  sent r = (ok tt, r)

-- A value of the cache, as it is stored and as it is read.
module _ {A : Type 0} (c : Codec A) where
  abbrev pub decoded : Result (Option String) → Result (Option A)
  decoded (err e) = err e
  decoded (ok none) = ok none
  decoded (ok (some text)) = elim (c.unmarshal text) [ ok a ↦ ok (some a) | err e ↦ err e ]

abbrev pub first_error : Result ℕ → Result (Unit {0}) → Result ℕ
first_error (err e) u = err e
first_error (ok n) (err e) = err e
first_error (ok n) (ok _) = ok n

abbrev pub int_or_error : Option ℕ → Result ℕ
int_or_error none = err (other "strconv.ParseInt: invalid syntax")
int_or_error (some n) = ok n

-- `redis.Nil` is a counter of 0.
abbrev pub read_count : (String → Option ℕ) → Result (Option String) → Result ℕ
read_count parse (err e) = err e
read_count parse (ok none) = ok 0
read_count parse (ok (some text)) = int_or_error (parse text)

-- The map `allKeys`
unfoldable pub with_keys : List String → List String → List String
unfolding any
with_keys [] keys = keys
with_keys (m ∷ ms) keys =
    let rest = with_keys ms in if any (str_eq m) keys then rest keys else rest (keys ++ m ∷ [])

module _ {R : Type 0} (s : Redis R) (prefix : String) where
  -- `SADD` and `EXPIRE` for each tag of `Set`.
  unfoldable pub add_tags : String → ℕ → List String → Command R (Unit {0})
  add_tags full_key ttl [] = sent
  add_tags full_key ttl (tag ∷ tags) =
      then_send (s.sadd (build_tag_key prefix tag) full_key)
        (then_send (s.expire (build_tag_key prefix tag) (ttl + 3600)) (add_tags full_key ttl tags))

  -- `Set`, once the value is marshalled.
  unfoldable pub set_text : String → String → CacheOptions → Command R (Unit {0})
  set_text key text opts =
      then_send (s.set (build_key prefix key) text opts.ttl)
        (add_tags (build_key prefix key) opts.ttl opts.tags)

  unfoldable pub delete : String → Command R (Unit {0})
  delete key = s.del (build_key prefix key)

  -- `IncrementWithTTL`: a pipeline of `INCR` and `EXPIRE NX`.
  unfoldable pub increment_with_ttl : String → ℕ → Command R ℕ
  increment_with_ttl key ttl r =
      let (n, r') = s.incr (build_key prefix key) r in
      let (u, r'') = s.expire_nx (build_key prefix key) ttl r' in (first_error n u, r'')

  unfoldable pub counter : String → Command R ℕ
  counter key r = let (v, r') = s.get (build_key prefix key) r in (read_count s.parse_int v, r')

  unfoldable pub del_all : List String → Command R (Unit {0})
  del_all [] = sent
  del_all (key ∷ keys) = then_send (s.del key) (del_all keys)

  unfoldable pub invalidate_members : String → List String → Command R (Unit {0})
  invalidate_members tag [] = sent
  invalidate_members tag (key ∷ keys) =
      then_send (del_all (key ∷ keys)) (s.del (build_tag_key prefix tag))

  unfoldable pub invalidate_by_tag : String → Command R (Unit {0})
  invalidate_by_tag tag r =
      and_then (s.smembers (build_tag_key prefix tag) r) (invalidate_members tag)

  -- `InvalidateByTags`: the keys of all the tags are read first, each once. Their order, which a Go map does not
  -- fix, is that of the reading.
  unfoldable pub gather : List String → List String → Command R (List String)
  unfolding with_keys
  gather [] keys r = (ok keys, r)
  gather (tag ∷ tags) keys r =
      and_then (s.smembers (build_tag_key prefix tag) r)
        (λ members. gather tags (with_keys members keys))

  unfoldable pub invalidate_by_tags : List String → Command R (Unit {0})
  invalidate_by_tags [] r = (ok tt, r)
  invalidate_by_tags (tag ∷ tags) r =
      and_then (gather (tag ∷ tags) [] r)
        (λ keys. then_send (del_all keys) (del_all (map (build_tag_key prefix) (tag ∷ tags))))

  module _ {A : Type 0} (c : Codec A) where
    unfoldable pub set : String → A → CacheOptions → Command R (Unit {0})
    set key value opts r = and_then (c.marshal value, r) (λ text. set_text key text opts)

    unfoldable pub get : String → Command R (Option A)
    get key r = let (v, r') = s.get (build_key prefix key) r in (decoded c v, r')

    -- One command, so two callers cannot both find the value.
    unfoldable pub get_del : String → Command R (Option A)
    get_del key r = let (v, r') = s.get_del (build_key prefix key) r in (decoded c v, r')
