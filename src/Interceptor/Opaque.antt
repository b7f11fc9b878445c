-- ===== src/Interceptor/Opaque.antt =====
-- What the chain of internal/interceptor tells a client of an error that is not the program's own.
use go_grpc_starter.Prelude.{
  ℕ, ◌≡◌, refl, sym, ap, ◌∙◌, String, not, ◌&&◌, none, some, List, inl, inr, Bool-cases,
}
use go_grpc_starter.Errs.{GrpcCode, GoError, domain, status, other, Result, ok, err}
use go_grpc_starter.Users.Entity.{User, is_admin}
use go_grpc_starter.Auth.Entity.{DeviceSession}
use go_grpc_starter.Interceptor.{
  Context, Status, Outcome, returned, panicked, Server, Verdict, valid, violations, rule_failed,
  Set, is_public, is_admin_method, is_health_method,
}
use go_grpc_starter.Interceptor.Chain.{Handler, map_error}
use go_grpc_starter.Interceptor.Unary.{
  called, authenticate, let_in, passed, verdict, auth_unary, validation_unary, inner, unary,
}
use go_grpc_starter.Interceptor.Answer.{answer, unary-answer}

module _ {R Req Resp : Type 0} (i : Set R Req) (now : ℕ) where
  -- An outcome without the text of an error that is neither the program's own nor a status
  abbrev pub erased : Outcome Resp GoError → Outcome Resp GoError
  erased (returned r (some (other _))) = returned r (some (other ""))
  erased o = o

  abbrev pub seen :
      Outcome Resp Status × Server R → Outcome Resp Status × (ℕ × List (String × GrpcCode))
  seen (o, s) = (o, (s.in_flight, s.requests))

  answer-seen :
      (m : String) (ctx : Context) (o : Outcome Resp GoError) (s : Server R)
      → seen (answer i now m ctx (o, s)) ≡ seen (answer i now m ctx (erased o, s))
  unfolding map_error
  answer-seen m ctx panicked s = refl
  answer-seen m ctx (returned r none) s = refl
  answer-seen m ctx (returned r (some (domain e))) s = refl
  answer-seen m ctx (returned r (some (status c x))) s = refl
  answer-seen m ctx (returned r (some (other x))) s = elim (Bool-cases (is_health_method m)) [
    | inl e' ↦ rw e' refl
    | inr e' ↦ rw e' refl
  ]

  abbrev pub Agrees : Outcome Resp GoError × Server R → Outcome Resp GoError × Server R → Type 0
  Agrees x y = (erased x.0 ≡ erased y.0) × (x.1 ≡ y.1)

  -- Two handlers that differ at most in the text of such errors
  abbrev pub AreAlike : Handler R Req Resp GoError → Handler R Req Resp GoError → Type 0
  AreAlike g h = (ctx : Context) (q : Req) (s : Server R) → Agrees (g ctx q s) (h ctx q s)

  module _ (g h : Handler R Req Resp GoError) (alike : AreAlike g h) where
    validation_unary-alike : AreAlike (validation_unary i now g) (validation_unary i now h)
    unfolding validation_unary
    validation_unary-alike ctx q s = go (verdict i now i.validator q)
      where
        go : (v : Verdict) → Agrees (passed i now g ctx q s v) (passed i now h ctx q s v)
        go valid = alike ctx q s
        go (violations vs) = (refl, refl)
        go rule_failed = (refl, refl)

    inner-alike : (m : String) → AreAlike (inner i now m g) (inner i now m h)
    unfolding inner auth_unary
    inner-alike m ctx q s = elim (Bool-cases (is_public m)) [
      | inl public ↦ rw public (validation_unary-alike ctx q s)
      | inr private_ ↦
          let (v, c) = authenticate i now ctx s.conn in
          rw private_ (let_in-alike v (record s { conn = c }))
    ]
      where
        let_in-alike :
            (v : Result (DeviceSession × User)) (s : Server R)
            → Agrees
                (let_in i now m (validation_unary i now g) ctx q s v)
                (let_in i now m (validation_unary i now h) ctx q s v)
        let_in-alike (err e) s = (refl, refl)
        let_in-alike (ok (ds, u)) s = elim (Bool-cases (is_admin_method m && not (is_admin u))) [
          | inl refused ↦ rw refused (refl, refl)
          | inr fine ↦ rw fine (validation_unary-alike _ q s)
        ]

    -- The text of an unforeseen error does not reach the client. If two handlers return the same and change the
    -- state in the same way, but for the text of errors that are neither domain errors nor statuses, then the
    -- chain answers both calls with the same response and the same status, its message and details included,
    -- and the metrics are the same.
    pub unary_opaque :
        (m : String) (ctx : Context) (q : Req) (s : Server R)
        → seen (unary i now m g ctx q s) ≡ seen (unary i now m h ctx q s)
    unary_opaque m ctx q s =
        let (ctx', s') = called i now ctx s in
        let (o, t) = inner-alike m ctx' q s' in
        let x = inner i now m g ctx' q s' in
        let y = inner i now m h ctx' q s' in
        rw (unary-answer i now m ctx q s g, unary-answer i now m ctx q s h)
          (answer-seen m ctx' x.0 x.1
            ∙ ap (λ z. seen (answer i now m ctx' (z, x.1))) o
            ∙ ap (λ z. seen (answer i now m ctx' (erased y.0, z))) t
            ∙ sym (answer-seen m ctx' y.0 y.1))
