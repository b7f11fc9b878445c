-- ===== src/Store/Atomic.antt =====
-- What `WithTx` of internal/store/store.go promises the services that compose writes in it.
use go_grpc_starter.Prelude.{◌≡◌, true, false, arith}
use go_grpc_starter.Errs.{GoError, ok, err}
use go_grpc_starter.Store.{Conn, Action, opened, with_tx, run}

module _ {ℓ} {R S A : Type ℓ} (fn : Action R S A) (c : Conn R S) where
  -- Inside a transaction, both run their argument as it is: its writes join the transaction.
  pub with_tx_join : c.in_tx ≡ true → (with_tx fn c ≡ fn c) × (run fn c ≡ fn c)
  unfolding with_tx run
  with_tx_join h = (ground arith, ground arith)

  -- Outside a transaction, `Run` is `WithTx`.
  pub run-with_tx : run fn c ≡ with_tx fn c
  unfolding with_tx run
  run-with_tx = ground arith

  -- A call of `WithTx` outside a transaction that returns an error, whoever failed, leaves the
  -- tables as they were, and no transaction open.
  pub with_tx_rollback :
      {e : GoError}
      → c.in_tx ≡ false
      → (with_tx fn c).0 ≡ err e
      → ((with_tx fn c).1.db ≡ c.db) × ((with_tx fn c).1.in_tx ≡ false)
  unfolding with_tx
  with_tx_rollback h e = ground arith

  -- One that returns a value has run its argument to that value in a transaction in which no
  -- statement failed, and the tables are those that it left.
  pub with_tx_commit :
      {a : A}
      → c.in_tx ≡ false
      → (with_tx fn c).0 ≡ ok a
      → ((fn (opened c)).0 ≡ ok a)
        × ((fn (opened c)).1.aborted ≡ false)
        × ((with_tx fn c).1.db ≡ (fn (opened c)).1.db)
        × ((with_tx fn c).1.outside ≡ (fn (opened c)).1.outside)
        × ((with_tx fn c).1.in_tx ≡ false)
  unfolding with_tx
  with_tx_commit h e = ground arith

  -- Whatever comes of it, no transaction is left open.
  pub with_tx_idle : c.in_tx ≡ false → (with_tx fn c).1.in_tx ≡ false
  unfolding with_tx
  with_tx_idle h = ground arith
