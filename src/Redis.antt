-- ===== src/Redis.antt =====
-- What the program asks of Redis (github.com/redis/go-redis), which is not part of it: the commands, as
-- functions of the server's state, and what their documentation says that they do.
pub mod Reach
use go_grpc_starter.Prelude.{
  ℕ, suc, String, ◌≡◌, ◌≢◌, Bool, Option, none, some, List, [], Has, ◌-◌, leb, ◌==◌, if◌then◌else◌,
}
use go_grpc_starter.Errs.{Result, ok}

-- A string, or a set of strings.
pub data Value : Type 0 where
  text : String → Value
  set_of : List String → Value

-- A key's value, and the seconds that it has left, if it expires.
pub record Entry : Type 0 where
  pub value : Value
  pub ttl : Option ℕ

abbrev pub text_of : Option Entry → Option String
text_of none = none
text_of (some e) = elim (e.value) [ text s ↦ some s | set_of _ ↦ none ]

abbrev pub members_of : Option Entry → List String
members_of none = []
members_of (some e) = elim (e.value) [ text _ ↦ [] | set_of xs ↦ xs ]

abbrev pub ttl_of : Option Entry → Option ℕ
ttl_of none = none
ttl_of (some e) = e.ttl

-- `EXPIRE key t`, and `EXPIRE key t NX`, which leaves an expiry that is there.
abbrev pub with_ttl : ℕ → Option Entry → Option Entry
with_ttl t none = none
with_ttl t (some e) = some (record e { ttl = some t })

abbrev pub ttl_or : ℕ → Option ℕ → Option ℕ
ttl_or t none = some t
ttl_or t (some s) = some s

abbrev pub with_ttl_nx : ℕ → Option Entry → Option Entry
with_ttl_nx t none = none
with_ttl_nx t (some e) = some (record e { ttl = ttl_or t e.ttl })

-- What is left of an entry after some seconds.
abbrev pub aged : ℕ → Option Entry → Option Entry
aged n none = none
aged n (some e) = elim (e.ttl) [
  | none ↦ some e
  | some t ↦ if leb t n then none else some (record e { ttl = some (t - n) })
]

-- go-redis sends no expiry for a duration of zero.
abbrev pub expiry : ℕ → Option ℕ
expiry t = if t == 0 then none else some t

module _ (R : Type 0) where
  abbrev pub Command : Type 0 → Type 0
  Command A = R → Result A × R

  -- `redis.Nil` is `ok none`; every other error, of the server or of the network, is an `err`.
  pub record Redis : Type 0 where
    pub set : String → String → ℕ → Command (Unit {0})
    pub get : String → Command (Option String)
    pub get_del : String → Command (Option String)
    pub del : String → Command (Unit {0})
    pub incr : String → Command ℕ
    pub expire : String → ℕ → Command (Unit {0})
    pub expire_nx : String → ℕ → Command (Unit {0})
    pub sadd : String → String → Command (Unit {0})
    pub smembers : String → Command (List String)
    -- `strconv`, by which the server writes a counter and go-redis reads it
    pub format_int : ℕ → String
    pub parse_int : String → Option ℕ

-- The number under a key, 0 for a key that is missing.
abbrev pub number_of : (String → Option ℕ) → Option Entry → Option ℕ
number_of parse none = some 0
number_of parse (some e) = elim (e.value) [ text s ↦ parse s | set_of _ ↦ none ]

-- A command that succeeds has its documented effect on its key. One that fails may have had it or not.
-- Either way every other key is as it was.
pub record IsRedis {R : Type 0} (s : Redis R) : Type 0 where
  pub view : R → String → Option Entry
  pub set_ok :
      (k v : String) (t : ℕ) (r : R)
      → (s.set k v t r).0 ≡ ok tt
      → view (s.set k v t r).1 k ≡ some (record { value = text v; ttl = expiry t })
  pub set_other :
      (k v : String) (t : ℕ) (r : R) (j : String) → k ≢ j → view (s.set k v t r).1 j ≡ view r j
  pub get_ok :
      (k : String) (r : R) {v : Option String} → (s.get k r).0 ≡ ok v → v ≡ text_of (view r k)
  pub get_view : (k : String) (r : R) (j : String) → view (s.get k r).1 j ≡ view r j
  pub get_del_ok :
      (k : String) (r : R) {v : Option String}
      → (s.get_del k r).0 ≡ ok v
      → (v ≡ text_of (view r k)) × (view (s.get_del k r).1 k ≡ none)
  pub get_del_other :
      (k : String) (r : R) (j : String) → k ≢ j → view (s.get_del k r).1 j ≡ view r j
  pub get_del_gone :
      (k : String) (r : R) (j : String) → view r j ≡ none → view (s.get_del k r).1 j ≡ none
  pub del_ok : (k : String) (r : R) → (s.del k r).0 ≡ ok tt → view (s.del k r).1 k ≡ none
  pub del_other : (k : String) (r : R) (j : String) → k ≢ j → view (s.del k r).1 j ≡ view r j
  pub incr_ok :
      (k : String) (r : R) {n : ℕ}
      → (s.incr k r).0 ≡ ok n
      → (m : ℕ) × (number_of s.parse_int (view r k) ≡ some m)
        × (n ≡ suc m)
        × (view (s.incr k r).1 k
            ≡ some (record { value = text (s.format_int n); ttl = ttl_of (view r k) }))
  pub incr_other : (k : String) (r : R) (j : String) → k ≢ j → view (s.incr k r).1 j ≡ view r j
  pub expire_ok :
      (k : String) (t : ℕ) (r : R)
      → (s.expire k t r).0 ≡ ok tt
      → view (s.expire k t r).1 k ≡ with_ttl t (view r k)
  pub expire_other :
      (k : String) (t : ℕ) (r : R) (j : String) → k ≢ j → view (s.expire k t r).1 j ≡ view r j
  pub expire_nx_ok :
      (k : String) (t : ℕ) (r : R)
      → (s.expire_nx k t r).0 ≡ ok tt
      → view (s.expire_nx k t r).1 k ≡ with_ttl_nx t (view r k)
  pub expire_nx_other :
      (k : String) (t : ℕ) (r : R) (j : String) → k ≢ j → view (s.expire_nx k t r).1 j ≡ view r j
  pub sadd_ok :
      (k m : String) (r : R)
      → (s.sadd k m r).0 ≡ ok tt
      → Has m (members_of (view (s.sadd k m r).1 k))
        × (ttl_of (view (s.sadd k m r).1 k) ≡ ttl_of (view r k))
  pub sadd_keeps :
      (k m : String) (r : R) (x : String)
      → Has x (members_of (view r k))
      → Has x (members_of (view (s.sadd k m r).1 k))
  pub sadd_other : (k m : String) (r : R) (j : String) → k ≢ j → view (s.sadd k m r).1 j ≡ view r j
  pub smembers_ok :
      (k : String) (r : R) {xs : List String}
      → (s.smembers k r).0 ≡ ok xs
      → (x : String) → Has x (members_of (view r k))
      → Has x xs
  pub smembers_only :
      (k : String) (r : R) {xs : List String}
      → (s.smembers k r).0 ≡ ok xs
      → (x : String) → Has x xs
      → Has x (members_of (view r k))
  pub smembers_view : (k : String) (r : R) (j : String) → view (s.smembers k r).1 j ≡ view r j
  -- The passing of time
  pub wait : ℕ → R → R
  pub wait_view : (n : ℕ) (r : R) (k : String) → view (wait n r) k ≡ aged n (view r k)
  pub parse_format : (n : ℕ) → s.parse_int (s.format_int n) ≡ some n
