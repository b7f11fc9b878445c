-- ===== src/Store.antt =====
-- internal/store/store.go: how the program runs database work. A call of the database that the
-- program cannot foresee (a query, the opening or the commit of a transaction) fails when `faults`
-- says so at its number, so a statement over every `faults` is one over every pattern of outages.
pub mod Atomic
pub mod Inversion
pub mod Calm
pub mod Idle
pub mod Keeps
pub mod Joined
use go_grpc_starter.Prelude.{ℕ, suc, Bool, true, false, ◌||◌, Option, none, some, if◌then◌else◌}
use go_grpc_starter.Errs.{GoError, other, Result, ok, err}

-- `db` is what the connection sees of the database, `outside` all that no rollback takes back.
-- PostgreSQL refuses every statement of a transaction, its commit too, once one has failed in it.
pub record Conn {ℓ} (R S : Type ℓ) : Type ℓ where
  pub db : S
  pub outside : R
  pub in_tx : Bool
  pub aborted : Bool
  pub clock : ℕ
  pub faults : ℕ → Bool

abbrev pub Action {ℓ} : Type ℓ → Type ℓ → Type ℓ → Type ℓ
Action R S A = Conn R S → Result A × Conn R S

abbrev pub tick {ℓ} : {R S : Type ℓ} → Conn R S → Conn R S
tick c = record c { clock = suc c.clock }

module _ {ℓ} {R S A : Type ℓ} where
  abbrev pub pure : A → Action R S A
  pure a c = (ok a, c)

  abbrev pub raise : GoError → Action R S A
  raise e c = (err e, c)

module _ {ℓ} {R S A B : Type ℓ} where
  abbrev pub continue : Result A → (A → Action R S B) → Action R S B
  continue (ok a) f c = f a c
  continue (err e) f c = (err e, c)

  infixl 10 ◌>>=◌ ◌>>◌
  abbrev pub ◌>>=◌ : Action R S A → (A → Action R S B) → Action R S B
  ◌>>=◌ m f c = let (r, c') = m c in continue r f c'

  abbrev pub ◌>>◌ : Action R S A → Action R S B → Action R S B
  m >> n = m >>= λ _. n

module _ {ℓ} {R S : Type ℓ} where
  -- After `pool.Begin` and `applyRLS`, a call of the database each.
  abbrev pub opened : Conn R S → Conn R S
  opened c = record (tick (tick c)) { in_tx = true; aborted = false }

  -- `defer tx.Rollback`: the tables are as they were at `Begin`.
  abbrev pub rolled_back : Conn R S → Conn R S → Conn R S
  rolled_back before c = record c { db = before.db; in_tx = false; aborted = false }

module _ {ℓ} {R S A : Type ℓ} where
  -- One query of `q *db.Queries`: it reads and writes the tables, or fails and poisons the
  -- transaction.
  unfoldable pub query : (S → A × S) → Action R S A
  query q c =
      if c.aborted || c.faults c.clock
      then (err (other "query failed"), record (tick c) { aborted = true })
      else (let (a, db') = q c.db in (ok a, record (tick c) { db = db' }))

  abbrev checked : GoError → Option (A × S) → Conn R S → Result A × Conn R S
  checked e none c = (err e, record c { aborted = true })
  checked e (some (a, db')) c = (ok a, record c { db = db' })

  -- A query that a constraint can refuse (`none`), with the error that it then returns.
  unfoldable pub constrained_query : GoError → (S → Option (A × S)) → Action R S A
  constrained_query e q c =
      if c.aborted || c.faults c.clock
      then (err (other "query failed"), record (tick c) { aborted = true })
      else checked e (q c.db) (tick c)

  -- The end of `WithTx`: an error of `fn` rolls back, and so does a commit that fails. A commit whose
  -- acknowledgement is lost, of which the server keeps the writes, is not modelled.
  abbrev pub settle : Conn R S → Result A × Conn R S → Result A × Conn R S
  settle before (err e, c) = (err e, rolled_back before c)
  settle before (ok a, c) =
      if c.aborted || c.faults c.clock
      then (err (other "commit failed"), rolled_back before (tick c))
      else (ok a, record (tick c) { in_tx = false })

  -- `WithTx`; inside a transaction it joins.
  unfoldable pub with_tx : Action R S A → Action R S A
  with_tx fn c =
      if c.in_tx
      then fn c
      else if c.faults c.clock
      then (err (other "begin failed"), tick c)
      else if c.faults (suc c.clock)
      then (err (other "set_config failed"), tick (tick c))
      else settle c (fn (opened c))

  -- `Run`
  unfoldable pub run : Action R S A → Action R S A
  unfolding with_tx
  run fn c = if c.in_tx then fn c else with_tx fn c
