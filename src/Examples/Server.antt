-- ===== src/Examples/Server.antt =====
-- A Redis server as a function from its keys, with counters in unary.
use go_grpc_starter.Prelude.{
  ℕ, zero, suc, String, ◌≡◌, ◌≢◌, refl, sym, ap, ◌∙◌, Option, none, some, [], ◌∷◌, Has, arith,
  str_eq, eq_iff, str_append, inl, inr, subst, if◌then◌else◌,
}
use Prim.Native.String.{count}
use package.text.Mathlib.TextLemmas.{length-append}
use go_grpc_starter.Errs.{Result, ok, err, other}
use go_grpc_starter.Redis.{
  Value, text, set_of, Entry, Redis, IsRedis, text_of, members_of, ttl_of, with_ttl, with_ttl_nx,
  aged, expiry, number_of,
}

abbrev pub Server : Type 0
Server = String → Option Entry

abbrev pub empty : Server
empty _ = none

unfoldable pub written : String → Option Entry → Server → Server
written k e r j = if str_eq k j then e else r j

unfoldable pub unary : ℕ → String
unary zero = ""
unary (suc n) = str_append "1" (unary n)

pub count_unary : (n : ℕ) → count (unary n) ≡ n
unfolding unary
count_unary zero = refl
count_unary (suc n) = length-append "1" (unary n) ∙ omega (arith, count_unary n)

pub written_same : (k : String) (e : Option Entry) (r : Server) → written k e r k ≡ e
unfolding written
written_same k e r = ground (arith, eq_iff k k)

pub written_other :
    (k : String) (e : Option Entry) (r : Server) (j : String) → k ≢ j → written k e r j ≡ r j
unfolding written
written_other k e r j d = ground (arith, eq_iff k j)

pub written_gone : (k : String) (r : Server) (j : String) → r j ≡ none → written k none r j ≡ none
unfolding written
written_gone k r j e = ground (arith, eq_iff k j)

-- `INCR` and `SADD` refuse a key of the wrong type.
abbrev pub incremented : String → Server → Option ℕ → Result ℕ × Server
incremented k r none = (err (other "ERR value is not an integer"), r)
incremented k r (some m) =
    (ok (suc m), written k (some (record { value = text (unary (suc m)); ttl = ttl_of (r k) })) r)

abbrev added_to : String → String → Server → Option ℕ → Value → Result (Unit {0}) × Server
added_to k m r t (text _) = (err (other "WRONGTYPE"), r)
added_to k m r t (set_of xs) =
    (ok tt, written k (some (record { value = set_of (m ∷ xs); ttl = t })) r)

abbrev added : String → String → Server → Option Entry → Result (Unit {0}) × Server
added k m r none = (ok tt, written k (some (record { value = set_of (m ∷ []); ttl = none })) r)
added k m r (some e) = added_to k m r (e.ttl) (e.value)

abbrev parse : String → Option ℕ
parse t = some (count t)

abbrev pub server : Redis Server
server = record {
  set = λ k v t r. (ok tt, written k (some (record { value = text v; ttl = expiry t })) r);
  get = λ k r. (ok (text_of (r k)), r);
  get_del = λ k r. (ok (text_of (r k)), written k none r);
  del = λ k r. (ok tt, written k none r);
  incr = λ k r. incremented k r (number_of parse (r k));
  expire = λ k t r. (ok tt, written k (with_ttl t (r k)) r);
  expire_nx = λ k t r. (ok tt, written k (with_ttl_nx t (r k)) r);
  sadd = λ k m r. added k m r (r k);
  smembers = λ k r. (ok (members_of (r k)), r);
  format_int = unary;
  parse_int = parse;
}

pub ok_inj : {A : Type 0} {a b : A} → Path (Result A) (ok a) (ok b) → a ≡ b
ok_inj e = cc

pub incremented_ok :
    (k : String) (r : Server) (o : Option ℕ) {n : ℕ}
    → (incremented k r o).0 ≡ ok n
    → (m : ℕ) × (o ≡ some m)
      × (n ≡ suc m)
      × ((incremented k r o).1 k ≡ some (record { value = text (unary n); ttl = ttl_of (r k) }))
incremented_ok k r none e = cc
incremented_ok k r (some m) {n} e =
    let same : suc m ≡ n = ok_inj e in
    (
      m,
      refl,
      sym same,
      written_same k _ r
          ∙ ap (λ x. some (record { value = text (unary x); ttl = ttl_of (r k) })) same,
    )

pub incremented_other :
    (k : String) (r : Server) (o : Option ℕ) (j : String) → k ≢ j → (incremented k r o).1 j ≡ r j
incremented_other k r none j d = refl
incremented_other k r (some m) j d = written_other k _ r j d

pub added_ok :
    (k m : String) (r : Server) (o : Option Entry)
    → r k ≡ o
    → (added k m r o).0 ≡ ok tt
    → Has m (members_of ((added k m r o).1 k)) × (ttl_of ((added k m r o).1 k) ≡ ttl_of (r k))
added_ok k m r none e fine =
    rw (written_same k (some (record { value = set_of (m ∷ []); ttl = none })) r, e)
      (inl refl, refl)
added_ok k m r (some x) e fine = to (x.value) (x.ttl) (ap ttl_of e) fine
  where
    to :
        (v : Value) (t : Option ℕ)
        → ttl_of (r k) ≡ t
        → (added_to k m r t v).0 ≡ ok tt
        → Has m (members_of ((added_to k m r t v).1 k))
          × (ttl_of ((added_to k m r t v).1 k) ≡ ttl_of (r k))
    to (text _) t e fine = cc
    to (set_of xs) t e fine =
        rw (written_same k (some (record { value = set_of (m ∷ xs); ttl = t })) r, e)
          (inl refl, refl)

pub added_keeps :
    (k m : String) (r : Server) (o : Option Entry) (x : String)
    → r k ≡ o
    → Has x (members_of (r k))
    → Has x (members_of ((added k m r o).1 k))
added_keeps k m r none x e has = absurd (subst (λ o. Has x (members_of o)) e has)
added_keeps k m r (some y) x e has = to (y.value) (y.ttl) (subst (λ o. Has x (members_of o)) e has)
  where
    to :
        (v : Value) (t : Option ℕ)
        → Has x (members_of (some (record { value = v; ttl = t })))
        → Has x (members_of ((added_to k m r t v).1 k))
    to (text _) t old = absurd old
    to (set_of xs) t old =
        rw (written_same k (some (record { value = set_of (m ∷ xs); ttl = t })) r) (inr old)

pub added_other :
    (k m : String) (r : Server) (o : Option Entry) (j : String) → k ≢ j → (added k m r o).1 j ≡ r j
added_other k m r none j d = written_other k _ r j d
added_other k m r (some x) j d = to (x.value) (x.ttl)
  where
    to : (v : Value) (t : Option ℕ) → (added_to k m r t v).1 j ≡ r j
    to (text _) t = refl
    to (set_of xs) t = written_other k _ r j d

abbrev pub works : IsRedis server
works = record {
  view = λ r k. r k;
  set_ok = λ k v t r _. written_same k _ r;
  set_other = λ k v t r j d. written_other k _ r j d;
  get_ok = λ k r e. sym (ok_inj e);
  get_view = λ k r j. refl;
  get_del_ok = λ k r e. (sym (ok_inj e), written_same k none r);
  get_del_other = λ k r j d. written_other k none r j d;
  get_del_gone = λ k r j e. written_gone k r j e;
  del_ok = λ k r _. written_same k none r;
  del_other = λ k r j d. written_other k none r j d;
  incr_ok = λ k r e. incremented_ok k r (number_of parse (r k)) e;
  incr_other = λ k r j d. incremented_other k r (number_of parse (r k)) j d;
  expire_ok = λ k t r _. written_same k _ r;
  expire_other = λ k t r j d. written_other k _ r j d;
  expire_nx_ok = λ k t r _. written_same k _ r;
  expire_nx_other = λ k t r j d. written_other k _ r j d;
  sadd_ok = λ k m r e. added_ok k m r (r k) refl e;
  sadd_keeps = λ k m r x has. added_keeps k m r (r k) x refl has;
  sadd_other = λ k m r j d. added_other k m r (r k) j d;
  smembers_ok = λ k r e x has. subst (Has x) (ok_inj e) has;
  smembers_only = λ k r e x has. subst (Has x) (sym (ok_inj e)) has;
  smembers_view = λ k r j. refl;
  wait = λ n r k. aged n (r k);
  wait_view = λ n r k. refl;
  parse_format = λ n. ap some (count_unary n);
}
