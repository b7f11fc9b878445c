-- ===== src/Store/Joined.antt =====
-- Actions inside a transaction that leave it open: one rule for each way to build an action.
use go_grpc_starter.Prelude.{◌≡◌, ◌∙◌, ap, Bool, true, false, Option, some, if◌then◌else◌, arith}
use go_grpc_starter.Errs.{GoError, Result, ok, err}
use go_grpc_starter.Store.{
  Conn, Action, pure, raise, continue, ◌>>=◌, query, constrained_query, with_tx, run,
}
use go_grpc_starter.Store.Atomic.{with_tx_join}

pub record IsJoined {ℓ} {R S A : Type ℓ} (m : Action R S A) : Type ℓ where
  pub at : (c : Conn R S) → c.in_tx ≡ true → (m c).1.in_tx ≡ true

module _ {ℓ} {R S A : Type ℓ} where
  pub pure-IsJoined : (a : A) → IsJoined {R = R} {S = S} (pure a)
  pure-IsJoined a = record { at = λ c h. h }

  pub raise-IsJoined : (e : GoError) → IsJoined {R = R} {S = S} {A = A} (raise e)
  raise-IsJoined e = record { at = λ c h. h }

  pub query-IsJoined : (q : S → A × S) → IsJoined {R = R} (query q)
  unfolding query
  query-IsJoined q = record { at = λ c h. ground arith }

  pub constrained-IsJoined :
      (e : GoError) (q : S → Option (A × S)) → IsJoined {R = R} (constrained_query e q)
  unfolding constrained_query
  constrained-IsJoined e q = record { at = λ c h. ground arith }

  pub run-IsJoined : (fn : Action R S A) → IsJoined fn → IsJoined (run fn)
  run-IsJoined fn k = record {
    at = λ c h. ap (λ (x : Result A × Conn R S). x.1.in_tx) (with_tx_join fn c h).1 ∙ k.at c h;
  }

  pub with_tx-IsJoined : (fn : Action R S A) → IsJoined fn → IsJoined (with_tx fn)
  with_tx-IsJoined fn k = record {
    at = λ c h. ap (λ (x : Result A × Conn R S). x.1.in_tx) (with_tx_join fn c h).0 ∙ k.at c h;
  }

  pub if-IsJoined :
      (b : Bool) (m n : Action R S A) → IsJoined m → IsJoined n → IsJoined (if b then m else n)
  if-IsJoined true m n km kn = km
  if-IsJoined false m n km kn = kn

  -- A query that a constraint can refuse and that returned a row.
  pub constrained_ok :
      (e : GoError) (q : S → Option (A × S)) (c : Conn R S) {a : A}
      → (constrained_query e q c).0 ≡ ok a
      → q c.db ≡ some (a, (constrained_query e q c).1.db)
  unfolding constrained_query
  constrained_ok e q c h = ground (arith, h)

  pub run-constrained_ok :
      (e : GoError) (q : S → Option (A × S)) (c : Conn R S) {a : A}
      → c.in_tx ≡ true
      → (run (constrained_query e q) c).0 ≡ ok a
      → q c.db ≡ some (a, (run (constrained_query e q) c).1.db)
  unfolding run constrained_query
  run-constrained_ok e q c joined h = ground (arith, joined, h)

module _ {ℓ} {R S A B : Type ℓ} (f : A → Action R S B) (kf : (a : A) → IsJoined (f a)) where
  continue-joined : (r : Result A) (c : Conn R S) → c.in_tx ≡ true → (continue r f c).1.in_tx ≡ true
  continue-joined (ok a) c h = (kf a).at c h
  continue-joined (err e) c h = h

  pub bind-IsJoined : (m : Action R S A) → IsJoined m → IsJoined (m >>= f)
  bind-IsJoined m km = record { at = λ c h. let (r, d) = m c in continue-joined r d (km.at c h) }
