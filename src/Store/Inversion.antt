-- ===== src/Store/Inversion.antt =====
-- Successful actions taken apart: what a step did that returned a value, inside a transaction.
use go_grpc_starter.Prelude.{◌≡◌, refl, true, arith, ◌⊎◌, Option, none, some}
use go_grpc_starter.Errs.{GoError, Result, ok, err}
use go_grpc_starter.Store.{
  Conn, Action, tick, continue, ◌>>=◌, query, constrained_query, run, with_tx,
}

module _ {ℓ} {R S A B : Type ℓ} (f : A → Action R S B) where
  continue_ok :
      (r : Result A) (c : Conn R S) {b : B}
      → (continue r f c).0 ≡ ok b
      → (a : A) × (r ≡ ok a) × ((f a c).0 ≡ ok b) × (continue r f c ≡ f a c)
  continue_ok (ok a) c h = (a, refl, h, refl)
  continue_ok (err e) c h = cc

  pub bind_ok :
      (m : Action R S A) (c : Conn R S) {b : B}
      → ((m >>= f) c).0 ≡ ok b
      → (a : A) × ((m c).0 ≡ ok a) × ((f a (m c).1).0 ≡ ok b) × ((m >>= f) c ≡ f a (m c).1)
  bind_ok m c h = let (r, c') = m c in continue_ok r c' h

module _ {ℓ} {R S A : Type ℓ} (c : Conn R S) (joined : c.in_tx ≡ true) where
  pub run-query_ok :
      (q : S → A × S) {a : A}
      → (run (query q) c).0 ≡ ok a
      → ((q c.db).0 ≡ a) × ((run (query q) c).1 ≡ record (tick c) { db = (q c.db).1 })
  unfolding run query
  run-query_ok q h = ground arith

-- Whatever fails, the tables are as they were or as the statement leaves them.
module _ {ℓ} {R S A : Type ℓ} (c : Conn R S) where
  pub run-query-db :
      (q : S → A × S) → ((run (query q) c).1.db ≡ c.db) ⊎ ((run (query q) c).1.db ≡ (q c.db).1)
  unfolding run query with_tx
  run-query-db q = ground arith

  pub run-query-outside : (q : S → A × S) → (run (query q) c).1.outside ≡ c.outside
  unfolding run query with_tx
  run-query-outside q = ground arith

  pub run-constrained_query-refused :
      (e : GoError) (q : S → Option (A × S))
      → q c.db ≡ none
      → (run (constrained_query e q) c).1.db ≡ c.db
  unfolding run constrained_query with_tx
  run-constrained_query-refused e q h = ground arith

  pub run-constrained_query-db :
      (e : GoError) (q : S → Option (A × S)) (a : A) (s : S)
      → q c.db ≡ some (a, s)
      → ((run (constrained_query e q) c).1.db ≡ c.db) ⊎ ((run (constrained_query e q) c).1.db ≡ s)
  unfolding run constrained_query with_tx
  run-constrained_query-db e q a s h = ground arith

  pub run-constrained_query-outside :
      (e : GoError) (q : S → Option (A × S)) → (run (constrained_query e q) c).1.outside ≡ c.outside
  unfolding run constrained_query with_tx
  run-constrained_query-outside e q = ground arith
