-- ===== src/Auth/Lockout/Count.antt =====
-- The counter of failed logins on the server, where Redis answers.
use go_grpc_starter.Prelude.{ℕ, suc, String, ◌≡◌, refl, ap, ◌∙◌, Option, none, some, arith}
use go_grpc_starter.Errs.{ok}
use go_grpc_starter.Redis.{
  Redis, IsRedis, Entry, Value, text, set_of, number_of, text_of, ttl_of, with_ttl_nx,
}
use go_grpc_starter.Cache.{build_key, counter, read_count, increment_with_ttl}

-- No command fails but for an `INCR` of what is no number.
pub record IsUp {R : Type 0} (s : Redis R) (h : IsRedis s) : Type 0 where
  pub get_up : (k : String) (r : R) → (v : Option String) × ((s.get k r).0 ≡ ok v)
  pub incr_up :
      (k : String) (r : R) (m : ℕ)
      → number_of s.parse_int (h.view r k) ≡ some m
      → (n : ℕ) × ((s.incr k r).0 ≡ ok n)
  pub expire_nx_up : (k : String) (t : ℕ) (r : R) → (s.expire_nx k t r).0 ≡ ok tt

read_count-number :
    (parse : String → Option ℕ) (e : Option Entry) (m : ℕ)
    → number_of parse e ≡ some m
    → read_count parse (ok (text_of e)) ≡ ok m
read_count-number parse none m h = ground arith
read_count-number parse (some e) m h = value_read parse e.value m h
  where
    value_read :
        (parse : String → Option ℕ) (v : Value) (m : ℕ)
        → (elim v as (λ _. Option ℕ) [ text s ↦ parse s | set_of _ ↦ none ]) ≡ some m
        → read_count parse
            (ok (elim v as (λ _. Option String) [ text s ↦ some s | set_of _ ↦ none ]))
          ≡ ok m
    value_read parse (text s) m h = rw h refl
    value_read parse (set_of xs) m h = cc

number_after :
    (parse : String → Option ℕ) (v : String) (n t : ℕ) (o : Option ℕ)
    → parse v ≡ some n
    → number_of parse (with_ttl_nx t (some (record { value = text v; ttl = o }))) ≡ some n
number_after parse v n t o h = h

module _ {R : Type 0} (s : Redis R) (h : IsRedis s) (prefix : String) where
  abbrev pub number : String → R → Option ℕ
  number key r = number_of s.parse_int (h.view r (build_key prefix key))

  pub counter-number :
      (up : IsUp s h) (key : String) (r : R) (m : ℕ)
      → number key r ≡ some m
      → ((counter s prefix key r).0 ≡ ok m) × (number key (counter s prefix key r).1 ≡ some m)
  unfolding counter
  counter-number up key r m e =
      let full = build_key prefix key in
      let (v, answered) = up.get_up full r in
      let read = h.get_ok full r answered in
      (
        rw (answered, read) (read_count-number s.parse_int (h.view r full) m e),
        ap (number_of s.parse_int) (h.get_view full r full) ∙ e,
      )

  pub increment-number :
      (up : IsUp s h) (key : String) (ttl : ℕ) (r : R) (m : ℕ)
      → number key r ≡ some m
      → number key (increment_with_ttl s prefix key ttl r).1 ≡ some (suc m)
  unfolding increment_with_ttl
  increment-number up key ttl r m e =
      let full = build_key prefix key in
      let (n, answered) = up.incr_up full r m e in
      let (m', was, next, set) = h.incr_ok full r answered in
      let r' = (s.incr full r).1 in
      let expired = h.expire_nx_ok full ttl r' (up.expire_nx_up full ttl r') in
      let same : suc m' ≡ suc m = ground (arith, was, e) in
      ap (number_of s.parse_int) (expired ∙ ap (with_ttl_nx ttl) set)
      ∙ number_after s.parse_int (s.format_int n) n ttl (ttl_of (h.view r full)) (h.parse_format n)
      ∙ ap some (next ∙ same)
