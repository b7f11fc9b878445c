-- ===== src/Store/Calm.antt =====
-- Database work while no call of the database fails.
use go_grpc_starter.Prelude.{ℕ, suc, ◌≡◌, false, Option, some, arith}
use go_grpc_starter.Errs.{GoError, ok}
use go_grpc_starter.Store.{Conn, query, constrained_query, with_tx, run}

pub record IsCalm {ℓ} {R S : Type ℓ} (c : Conn R S) : Type ℓ where
  pub no_faults : (n : ℕ) → c.faults n ≡ false
  pub sound : c.aborted ≡ false

-- The state after calm work on the tables.
pub record Does {ℓ} {R S : Type ℓ} (c d : Conn R S) (db : S) : Type ℓ where
  pub same_db : d.db ≡ db
  pub same_outside : d.outside ≡ c.outside
  pub same_tx : d.in_tx ≡ c.in_tx
  pub calm : IsCalm d

module _ {ℓ} {R S A : Type ℓ} (c : Conn R S) (h : IsCalm c) where
  pub run-query_calm :
      (q : S → A × S)
      → ((run (query q) c).0 ≡ ok (q c.db).0)
        × ((run (query q) c).1.db ≡ (q c.db).1)
        × ((run (query q) c).1.outside ≡ c.outside)
        × ((run (query q) c).1.in_tx ≡ c.in_tx)
        × ((run (query q) c).1.aborted ≡ false)
        × ((run (query q) c).1.faults ≡ c.faults)
  unfolding run query with_tx
  run-query_calm q = ground (
    arith,
    h.sound,
    h.no_faults c.clock,
    h.no_faults (suc c.clock),
    h.no_faults (suc (suc c.clock)),
    h.no_faults (suc (suc (suc c.clock))),
  )

  pub run-query-Does : (q : S → A × S) → Does c (run (query q) c).1 (q c.db).1
  run-query-Does q =
      let (_, db, out, tx, sound, faults) = run-query_calm q in
      record {
        same_db = db;
        same_outside = out;
        same_tx = tx;
        calm = record { no_faults = λ n. rw faults (h.no_faults n); sound = sound };
      }

  pub run-constrained_calm :
      (e : GoError) (q : S → Option (A × S)) {a : A} {db : S}
      → q c.db ≡ some (a, db)
      → ((run (constrained_query e q) c).0 ≡ ok a) × ((run (constrained_query e q) c).1.db ≡ db)
  unfolding run constrained_query with_tx
  run-constrained_calm e q accepted = ground (
    arith,
    accepted,
    h.sound,
    h.no_faults c.clock,
    h.no_faults (suc c.clock),
    h.no_faults (suc (suc c.clock)),
    h.no_faults (suc (suc (suc c.clock))),
  )
