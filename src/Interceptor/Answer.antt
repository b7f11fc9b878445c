-- ===== src/Interceptor/Answer.antt =====
-- What the chain of internal/interceptor answers, and what it records of a call.
use go_grpc_starter.Prelude.{
  ℕ, suc, ◌-◌, ◌≡◌, ◌≢◌, refl, ap, ◌∙◌, String, not, ◌&&◌, Option, none, some, List, ◌∷◌, ◌⊎◌, inl,
  inr, Bool-cases, arith,
}
use go_grpc_starter.Errs.{internal, GoError, Result, ok, err}
use go_grpc_starter.Users.Entity.{User, is_admin}
use go_grpc_starter.Auth.Entity.{DeviceSession}
use go_grpc_starter.Interceptor.{
  Context, Status, Outcome, returned, panicked, Server, Verdict, valid, violations, rule_failed,
  Set, code_of, is_internal, is_public, is_admin_method, is_health_method,
}
use go_grpc_starter.Interceptor.Chain.{
  Handler, some_value, incoming_request_id, request_id_for, counted, logged, mapped, on_error,
  recovered, map_error, recovery_unary, metrics_unary, request_id_unary, logging_unary,
  locale_unary, error_unary,
}
use go_grpc_starter.Interceptor.Unary.{
  called, authenticate, let_in, passed, verdict, auth_unary, validation_unary, inner, unary,
}

module _ {R Req : Type 0} (i : Set R Req) where
  abbrev SameMetrics : Server R → Server R → Type 0
  SameMetrics s t = (s.in_flight ≡ t.in_flight) × (s.requests ≡ t.requests)

  mapped-metrics :
      (m : String) (ctx : Context) (e : Option GoError) (s : Server R)
      → SameMetrics (mapped i m ctx e s).1 s
  mapped-metrics m ctx none s = (refl, refl)
  mapped-metrics m ctx (some e) s =
      elim (Bool-cases (is_internal (code_of (map_error i.locale ctx.language e)))) [
        | inl e' ↦ rw e' (refl, refl)
        | inr e' ↦ rw e' (refl, refl)
      ]

  logged-metrics :
      (m : String) (ctx : Context) (e : Option Status) (s : Server R)
      → SameMetrics (logged m ctx e s).1 s
  logged-metrics m ctx e s = elim (Bool-cases (is_health_method m)) [
    | inl e' ↦ rw e' (refl, refl)
    | inr e' ↦ rw e' (refl, refl)
  ]

module _ {R Req Resp : Type 0} (i : Set R Req) (now : ℕ) where
  abbrev pub answer :
      String → Context → Outcome Resp GoError × Server R → Outcome Resp Status × Server R
  answer m ctx x =
      recovered {Req = Req} i m
        (on_error i (counted m) (on_error i (logged m ctx) (on_error i (mapped i m ctx) x)))

  pub unary-answer :
      (m : String) (ctx : Context) (q : Req) (s : Server R) (h : Handler R Req Resp GoError)
      → unary i now m h ctx q s
        ≡ answer m
            (called i now ctx s).0
            (inner i now m h (called i now ctx s).0 q (called i now ctx s).1)
  unfolding unary recovery_unary metrics_unary request_id_unary logging_unary locale_unary
      error_unary
  unary-answer m ctx q s h = refl

  -- A handler that leaves the metrics of the interceptors alone
  abbrev pub IsPlain : Handler R Req Resp GoError → Type 0
  IsPlain h =
      (ctx : Context) (q : Req) (s : Server R)
      → ((h ctx q s).1.in_flight ≡ s.in_flight) × ((h ctx q s).1.requests ≡ s.requests)

  validation_unary-metrics :
      (h : Handler R Req Resp GoError) → IsPlain h → IsPlain (validation_unary i now h)
  unfolding validation_unary
  validation_unary-metrics h plain ctx q s = go (verdict i now i.validator q)
    where
      go :
          (v : Verdict)
          → ((passed i now h ctx q s v).1.in_flight ≡ s.in_flight)
            × ((passed i now h ctx q s v).1.requests ≡ s.requests)
      go valid = plain ctx q s
      go (violations vs) = (refl, refl)
      go rule_failed = (refl, refl)

  inner-metrics :
      (m : String) (h : Handler R Req Resp GoError) → IsPlain h → IsPlain (inner i now m h)
  unfolding inner auth_unary
  inner-metrics m h plain ctx q s = elim (Bool-cases (is_public m)) [
    | inl public ↦ rw public (passing ctx q s)
    | inr private_ ↦
        let (v, c) = authenticate i now ctx s.conn in
        rw private_ (let_in-metrics v (record s { conn = c }))
  ]
    where
      passing : IsPlain (validation_unary i now h)
      passing = validation_unary-metrics h plain

      let_in-metrics :
          (v : Result (DeviceSession × User)) (s : Server R)
          → ((let_in i now m (validation_unary i now h) ctx q s v).1.in_flight ≡ s.in_flight)
            × ((let_in i now m (validation_unary i now h) ctx q s v).1.requests ≡ s.requests)
      let_in-metrics (err e) s = (refl, refl)
      let_in-metrics (ok (ds, u)) s = elim (Bool-cases (is_admin_method m && not (is_admin u))) [
        | inl refused ↦ rw refused (refl, refl)
        | inr fine ↦ rw fine (passing _ q s)
      ]

  -- The chain's answer, and what the metrics say of the call.
  abbrev pub Counted : String → Server R → Outcome Resp Status × Server R → Type 0
  Counted m s x =
      (r : Option Resp) × (e : Option Status) × (x.0 ≡ returned r e)
      × (x.1.in_flight ≡ s.in_flight)
      × (x.1.requests ≡ (m, code_of e) ∷ s.requests)

  abbrev pub Leaked : Server R → Outcome Resp Status × Server R → Type 0
  Leaked s x =
      (e : Status) × (x.0 ≡ returned none (some e))
      × (e.code ≡ internal)
      × (x.1.in_flight ≡ suc s.in_flight)
      × (x.1.requests ≡ s.requests)

  answer-counts :
      (m : String) (ctx : Context) (s : Server R) (o : Outcome Resp GoError) (s' : Server R)
      → s'.in_flight ≡ suc s.in_flight
      → s'.requests ≡ s.requests
      → ((o ≢ panicked) × Counted m s (answer m ctx (o, s')))
        ⊎ ((o ≡ panicked) × Leaked s (answer m ctx (o, s')))
  answer-counts m ctx s panicked s' gauge total = inr (refl, (_, refl, refl, gauge, total))
  answer-counts m ctx s (returned r e) s' gauge total =
      let (st, s1) = mapped i m ctx e s' in
      let (g1, t1) = mapped-metrics i m ctx e s' in
      let (g2, t2) = logged-metrics i m ctx st s1 in
      let down : (logged m ctx st s1).1.in_flight - 1 ≡ s.in_flight =
        ground (arith, g1, g2, gauge) in
      inl ((λ p. cc), (r, st, refl, down, ap (λ l. (m, code_of st) ∷ l) (t2 ∙ t1 ∙ total)))

  -- Each call that its handler answers is counted once, and each that panics never. For a handler that leaves
  -- the metrics alone: if what stands inside the mapping of errors returns, the chain answers, the gauge of
  -- the calls in flight is as it was, and the call has been counted once, under the code of the answer; if it
  -- panics, the answer is an error `Internal`, the call is not counted at all, and the gauge stays one too high.
  pub unary_counts :
      (m : String) (ctx : Context) (q : Req) (s : Server R) (h : Handler R Req Resp GoError)
      → IsPlain h
      → (((inner i now m h (called i now ctx s).0 q (called i now ctx s).1).0 ≢ panicked)
          × Counted m s (unary i now m h ctx q s))
        ⊎ (((inner i now m h (called i now ctx s).0 q (called i now ctx s).1).0 ≡ panicked)
            × Leaked s (unary i now m h ctx q s))
  unary_counts m ctx q s h plain =
      let (ctx', s') = called i now ctx s in
      let (o, s'') = inner i now m h ctx' q s' in
      let (g0, t0) = called-metrics ctx s in
      let (g1, t1) = inner-metrics m h plain ctx' q s' in
      rw (unary-answer m ctx q s h) (answer-counts m ctx' s o s'' (g1 ∙ g0) (t1 ∙ t0))
    where
      called-metrics :
          (ctx : Context) (s : Server R)
          → ((called i now ctx s).1.in_flight ≡ suc s.in_flight)
            × ((called i now ctx s).1.requests ≡ s.requests)
      called-metrics ctx s = go (some_value (incoming_request_id ctx.metadata))
        where
          go :
              (v : Option (List ℕ))
              → ((request_id_for i v (record s { in_flight = suc s.in_flight })).1.in_flight
                  ≡ suc s.in_flight)
                × ((request_id_for i v (record s { in_flight = suc s.in_flight })).1.requests
                    ≡ s.requests)
          go none = (refl, refl)
          go (some x) = (refl, refl)
