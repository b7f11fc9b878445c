-- ===== src/Interceptor/Stream.antt =====
-- The stream interceptors of internal/interceptor/stream.go. What a handler of a stream does to it beyond its
-- answer is part of the outside world; it is given the function that receives the next message.
use go_grpc_starter.Prelude.{
  ℕ, suc, ◌≡◌, refl, ap, ◌∙◌, Bool-cases, inl, inr, String, false, not, ◌&&◌, Option, none, some,
  ◌∷◌, if◌then◌else◌,
}
use go_grpc_starter.Errs.{
  permission_denied, GoError, domain, status, Result, ok, err, validation, internal_error,
}
use go_grpc_starter.Users.Entity.{User, is_admin}
use go_grpc_starter.Auth.Entity.{DeviceSession}
use go_grpc_starter.Interceptor.{
  Context, Status, Outcome, returned, panicked, error_level, info_level, served, Server, Verdict,
  valid, violations, rule_failed, Set, code_of, is_server_failure, is_health_method, is_public,
  is_admin_method,
}
use go_grpc_starter.Interceptor.Chain.{
  Handler, some_value, incoming_request_id, request_id_for, resolved, language_value, counted,
  logged, mapped, on_error, recovered, map_error, recovery_unary, metrics_unary, request_id_unary,
  logging_unary, locale_unary, error_unary,
}
use go_grpc_starter.Interceptor.Unary.{
  called, authenticate, subject_of, let_in, verdict, auth_unary, validation_unary, inner, unary,
}

-- `RecvMsg`
abbrev pub Receive : Type 0 → Type 0 → Type 0
Receive R Msg = Server R → Result Msg × Server R

-- A handler of a stream answers with an error or none.
abbrev StreamHandler : Type 0 → Type 0 → Type 0 → Type 0
StreamHandler R Msg E = Handler R (Receive R Msg) (Unit {0}) E

module _ {R Msg : Type 0} (i : Set R Msg) (now : ℕ) where
  unfoldable pub recovery_stream : String → StreamHandler R Msg Status → StreamHandler R Msg Status
  recovery_stream m h c q s = recovered {Req = Msg} i m (h c q s)

  unfoldable pub metrics_stream : String → StreamHandler R Msg Status → StreamHandler R Msg Status
  metrics_stream m h c q s =
      on_error i (counted m) (h c q (record s { in_flight = suc s.in_flight }))

  unfoldable pub request_id_stream : StreamHandler R Msg Status → StreamHandler R Msg Status
  request_id_stream h c q s =
      let (id, s') = request_id_for i (some_value (incoming_request_id c.metadata)) s in
      h (record c { request_id = id }) q s'

  -- Unlike `loggingUnary`, it logs the health methods.
  abbrev stream_logged : String → Context → Option Status → Server R → Option Status × Server R
  stream_logged m c e s = (
    e,
    record s {
      log =
          served (if is_server_failure (code_of e) then error_level else info_level) m (code_of e)
            c.request_id
          ∷ s.log;
    },
  )

  unfoldable pub logging_stream : String → StreamHandler R Msg Status → StreamHandler R Msg Status
  logging_stream m h c q s = on_error i (stream_logged m c) (h c q s)

  unfoldable pub locale_stream : StreamHandler R Msg Status → StreamHandler R Msg Status
  locale_stream h c q s = h (record c { language = resolved i (language_value c.metadata) }) q s

  unfoldable pub error_stream : String → StreamHandler R Msg GoError → StreamHandler R Msg Status
  unfolding map_error
  error_stream m h c q s = on_error i (mapped i m c) (h c q s)

  abbrev stream_let_in :
      String
      → StreamHandler R Msg GoError
      → Context
      → Receive R Msg
      → Server R
      → Result (DeviceSession × User)
      → Outcome (Unit {0}) GoError × Server R
  stream_let_in m h ctx q s (err e) = (returned none (some e), s)
  stream_let_in m h ctx q s (ok (ds, u)) =
      if is_admin_method m && not (is_admin u)
      then (returned none (some (status permission_denied "auth.admin_required")), s)
      else h (record ctx { subject = some (subject_of i now ds u) }) q s

  abbrev stream_guarded : String → StreamHandler R Msg GoError → StreamHandler R Msg GoError
  stream_guarded m h ctx q s =
      let (v, c) = authenticate i now ctx s.conn in
      stream_let_in m h ctx q (record s { conn = c }) v

  unfoldable pub auth_stream : String → StreamHandler R Msg GoError → StreamHandler R Msg GoError
  unfolding authenticate is_public is_admin_method is_admin
  auth_stream m h ctx q s = (if is_public m then h else stream_guarded m h) ctx q s

  abbrev judged : Msg → Verdict → Result Msg
  judged msg valid = ok msg
  judged msg (violations vs) =
      err (domain (validation "VALIDATION_ERROR" "common.validation_error" vs))
  judged msg rule_failed = err (domain (internal_error "INTERNAL_ERROR" "common.internal_error"))

  abbrev checked_msg : Result Msg → Result Msg
  checked_msg (err e) = err e
  checked_msg (ok msg) = judged msg (verdict i now i.validator msg)

  -- `RecvMsg` of `validatingStream`
  unfoldable pub validating : Receive R Msg → Receive R Msg
  validating recv s = let (v, s') = recv s in (checked_msg v, s')

  unfoldable pub validation_stream : StreamHandler R Msg GoError → StreamHandler R Msg GoError
  unfolding validating
  validation_stream h c q s = h c (validating q) s

  unfoldable pub stream : String → StreamHandler R Msg GoError → StreamHandler R Msg Status
  unfolding recovery_stream metrics_stream request_id_stream logging_stream locale_stream
      error_stream auth_stream validation_stream
  stream m h = recovery_stream m (
      metrics_stream m (
        request_id_stream (
          logging_stream m (locale_stream (error_stream m (auth_stream m (validation_stream h)))))))

  -- The same set without a validator, over what a stream receives
  abbrev pub unvalidated : Set R (Receive R Msg)
  unvalidated = record {
    validate_token = i.validate_token;
    max_inactivity_timeout = i.max_inactivity_timeout;
    locale = i.locale;
    validator = none;
    new_uuid = i.new_uuid;
    bytes_text = i.bytes_text;
  }

  let_in-stream :
      (m : String) (h : StreamHandler R Msg GoError) (ctx : Context) (q : Receive R Msg)
      (s : Server R) (v : Result (DeviceSession × User))
      → stream_let_in m h ctx q s v ≡ let_in unvalidated now m h ctx q s v
  let_in-stream m h ctx q s (err e) = refl
  let_in-stream m h ctx q s (ok (ds, u)) = refl

  auth_stream-unary :
      (m : String) (h : StreamHandler R Msg GoError) (ctx : Context) (q : Receive R Msg)
      (s : Server R)
      → auth_stream m h ctx q s ≡ auth_unary unvalidated now m h ctx q s
  unfolding auth_stream auth_unary
  auth_stream-unary m h ctx q s = elim (Bool-cases (is_public m)) [
    | inl public ↦ rw public refl
    | inr private_ ↦
        let (v, c) = authenticate i now ctx s.conn in
        rw private_ (let_in-stream m h ctx q (record s { conn = c }) v)
  ]

  answered-alike :
      (m : String) (ctx : Context) (x : Outcome (Unit {0}) Status × Server R)
      → is_health_method m ≡ false
      → on_error i (stream_logged m ctx) x ≡ on_error unvalidated (logged m ctx) x
  answered-alike m ctx (panicked, s) e = refl
  answered-alike m ctx (returned r x, s) e = rw e refl

  abbrev finish :
      String → Outcome (Unit {0}) Status × Server R → Outcome (Unit {0}) Status × Server R
  finish m x = recovered {Req = Msg} i m (on_error i (counted m) x)

  -- The stream interceptors mirror the unary ones. For a method that is no health check, a call of a stream is
  -- answered as the unary chain without a validator answers it, with the same state after it, if the handler's
  -- function that receives a message validates it.
  pub stream_mirrors :
      (m : String) (h : StreamHandler R Msg GoError) (ctx : Context) (q : Receive R Msg)
      (s : Server R)
      → is_health_method m ≡ false
      → stream m h ctx q s ≡ unary unvalidated now m (λ c recv. h c (validating recv)) ctx q s
  unfolding stream unary recovery_stream metrics_stream request_id_stream logging_stream
      locale_stream error_stream validation_stream recovery_unary metrics_unary request_id_unary
      logging_unary locale_unary error_unary inner validation_unary
  stream_mirrors m h ctx q s e =
      let (ctx', s') = called unvalidated now ctx s in
      let same = auth_stream-unary m (validation_stream h) ctx' q s' in
      ap (λ x. finish m (on_error i (stream_logged m ctx') (on_error i (mapped i m ctx') x))) same
      ∙ ap (finish m) (
          answered-alike m ctx'
            (on_error i (mapped i m ctx')
              (auth_unary unvalidated now m (validation_stream h) ctx' q s'))
            e)
