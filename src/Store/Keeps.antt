-- ===== src/Store/Keeps.antt =====
-- Actions that leave one view of the tables as it is, whatever fails: one rule for each way to build an action.
use go_grpc_starter.Prelude.{
  ◌≡◌, refl, ap, ◌∙◌, Bool, true, false, ◌||◌, suc, Option, none, some, if◌then◌else◌, Bool-cases,
  inl, inr,
}
use go_grpc_starter.Errs.{GoError, Result, ok, err}
use go_grpc_starter.Store.{
  Conn, Action, tick, opened, settle, checked, pure, raise, continue, ◌>>=◌, query,
  constrained_query, with_tx, run,
}
use go_grpc_starter.Store.Atomic.{run-with_tx, with_tx_join}

pub record Keeps {ℓ} {R S A V : Type ℓ} (view : S → V) (m : Action R S A) : Type ℓ where
  pub at : (c : Conn R S) → view (m c).1.db ≡ view c.db

module _ {ℓ} {R S V : Type ℓ} (view : S → V) where
  module _ {A : Type ℓ} where
    pub pure-Keeps : (a : A) → Keeps {R = R} view (pure a)
    pure-Keeps a = record { at = λ c. refl }

    pub raise-Keeps : (e : GoError) → Keeps {R = R} {A = A} view (raise e)
    raise-Keeps e = record { at = λ c. refl }

    -- A query whose statement keeps the view
    pub query-Keeps :
        (q : S → A × S) → ((o : S) → view (q o).1 ≡ view o) → Keeps {R = R} view (query q)
    unfolding query
    query-Keeps q h = record {
      at = λ c. elim (Bool-cases (c.aborted || c.faults c.clock)) [
        | inl e ↦ rw e refl
        | inr e ↦ rw e (h c.db)
      ];
    }

    checked-Keeps :
        (e : GoError) (q : S → Option (A × S)) (r : Option (A × S)) (c : Conn R S)
        → ((p : A × S) → r ≡ some p → view p.1 ≡ view c.db)
        → view (checked e r c).1.db ≡ view c.db
    checked-Keeps e q none c h = refl
    checked-Keeps e q (some p) c h = h p refl

    pub constrained-Keeps :
        (e : GoError) (q : S → Option (A × S))
        → ((o : S) (p : A × S) → q o ≡ some p → view p.1 ≡ view o)
        → Keeps {R = R} view (constrained_query e q)
    unfolding constrained_query
    constrained-Keeps x q h = record {
      at = λ c. elim (Bool-cases (c.aborted || c.faults c.clock)) [
        | inl e ↦ rw e refl
        | inr e ↦ rw e (checked-Keeps x q (q c.db) (tick c) (h c.db))
      ];
    }

    settle-Keeps :
        (c : Conn R S) (x : Result A × Conn R S)
        → view x.1.db ≡ view c.db
        → view (settle c x).1.db ≡ view c.db
    settle-Keeps c (err e, d) h = refl
    settle-Keeps c (ok a, d) h = elim (Bool-cases (d.aborted || d.faults d.clock)) [
      | inl e ↦ rw e refl
      | inr e ↦ rw e h
    ]

    begun-Keeps :
        (fn : Action R S A)
        → Keeps view fn
        → (c : Conn R S) → c.in_tx ≡ false
        → view (with_tx fn c).1.db ≡ view c.db
    unfolding with_tx
    begun-Keeps fn k c idle = elim (Bool-cases (c.faults c.clock)) [
      | inl e ↦ rw (idle, e) refl
      | inr e ↦ elim (Bool-cases (c.faults (suc c.clock))) [
        | inl e' ↦ rw (idle, e, e') refl
        | inr e' ↦ rw (idle, e, e') (settle-Keeps c (fn (opened c)) (k.at (opened c)))
      ]
    ]

    pub with_tx-Keeps : (fn : Action R S A) → Keeps view fn → Keeps view (with_tx fn)
    with_tx-Keeps fn k = record {
      at = λ c. elim (Bool-cases c.in_tx) [
        | inl e ↦ ap (λ (x : Result A × Conn R S). view x.1.db) (with_tx_join fn c e).0 ∙ k.at c
        | inr e ↦ begun-Keeps fn k c e
      ];
    }

    pub run-Keeps : (fn : Action R S A) → Keeps view fn → Keeps view (run fn)
    run-Keeps fn k = record {
      at = λ c.
          ap (λ (x : Result A × Conn R S). view x.1.db) (run-with_tx fn c)
          ∙ (with_tx-Keeps fn k).at c;
    }

    pub if-Keeps :
        (b : Bool) (m n : Action R S A)
        → Keeps view m
        → Keeps view n
        → Keeps view (if b then m else n)
    if-Keeps true m n km kn = km
    if-Keeps false m n km kn = kn

  module _ {A B : Type ℓ} (f : A → Action R S B) (kf : (a : A) → Keeps view (f a)) where
    continue-Keeps : (r : Result A) (c : Conn R S) → view (continue r f c).1.db ≡ view c.db
    continue-Keeps (ok a) c = (kf a).at c
    continue-Keeps (err e) c = refl

    pub bind-Keeps : (m : Action R S A) → Keeps view m → Keeps view (m >>= f)
    bind-Keeps m km = record { at = λ c. let (r, d) = m c in continue-Keeps r d ∙ km.at c }
