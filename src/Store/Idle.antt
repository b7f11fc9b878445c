-- ===== src/Store/Idle.antt =====
-- Actions that leave no transaction open behind them: one rule for each way to build an action.
use go_grpc_starter.Prelude.{◌≡◌, ◌∙◌, ap, Bool, true, false, if◌then◌else◌}
use go_grpc_starter.Errs.{GoError, Result, ok, err}
use go_grpc_starter.Store.{Conn, Action, pure, raise, continue, ◌>>=◌, with_tx, run}
use go_grpc_starter.Store.Atomic.{with_tx_idle, run-with_tx}

pub record IsIdle {ℓ} {R S A : Type ℓ} (m : Action R S A) : Type ℓ where
  pub at : (c : Conn R S) → c.in_tx ≡ false → (m c).1.in_tx ≡ false

module _ {ℓ} {R S A : Type ℓ} where
  pub pure-IsIdle : (a : A) → IsIdle {R = R} {S = S} (pure a)
  pure-IsIdle a = record { at = λ c h. h }

  pub raise-IsIdle : (e : GoError) → IsIdle {R = R} {S = S} {A = A} (raise e)
  raise-IsIdle e = record { at = λ c h. h }

  pub with_tx-IsIdle : (fn : Action R S A) → IsIdle (with_tx fn)
  with_tx-IsIdle fn = record { at = with_tx_idle fn }

  pub run-IsIdle : (fn : Action R S A) → IsIdle (run fn)
  run-IsIdle fn = record {
    at =
        λ c h. ap (λ (x : Result A × Conn R S). x.1.in_tx) (run-with_tx fn c) ∙ with_tx_idle fn c h;
  }

  pub if-IsIdle :
      (b : Bool) (m n : Action R S A) → IsIdle m → IsIdle n → IsIdle (if b then m else n)
  if-IsIdle true m n km kn = km
  if-IsIdle false m n km kn = kn

module _ {ℓ} {R S A B : Type ℓ} (f : A → Action R S B) (kf : (a : A) → IsIdle (f a)) where
  continue-idle : (r : Result A) (c : Conn R S) → c.in_tx ≡ false → (continue r f c).1.in_tx ≡ false
  continue-idle (ok a) c h = (kf a).at c h
  continue-idle (err e) c h = h

  pub bind-IsIdle : (m : Action R S A) → IsIdle m → IsIdle (m >>= f)
  bind-IsIdle m km = record { at = λ c h. let (r, d) = m c in continue-idle r d (km.at c h) }
