-- ===== src/Interceptor/Unary.antt =====
-- `authenticate`, `authUnary` and `validationUnary` of internal/interceptor, and the whole chain, `Unary`.
use go_grpc_starter.Prelude.{ℕ, suc, String, not, ◌&&◌, Option, none, some, List, if◌then◌else◌}
use go_grpc_starter.Errs.{
  unauthenticated, permission_denied, GoError, domain, status, Result, ok, err, validation,
  internal_error,
}
use go_grpc_starter.Store.{Action, pure, raise, ◌>>=◌}
use go_grpc_starter.Users.Entity.{User, is_active, is_admin}
use go_grpc_starter.Auth.Entity.{DeviceSession, is_revoked, is_inactive}
use go_grpc_starter.Auth.Tables.{AuthDb}
use go_grpc_starter.Auth.Repository.{session_find_by_id}
use go_grpc_starter.Token.{AccessTokenClaims}
use go_grpc_starter.Interceptor.{
  Subject, Context, Status, Outcome, returned, Server, Verdict, valid, violations, rule_failed, Set,
  is_public, is_admin_method,
}
use go_grpc_starter.Interceptor.Header.{bearer_token}
use go_grpc_starter.Interceptor.Chain.{
  Handler, some_value, incoming_request_id, request_id_for, resolved, language_value,
  recovery_unary, metrics_unary, request_id_unary, logging_unary, locale_unary, error_unary,
}

module _ {R Req : Type 0} (i : Set R Req) (now : ℕ) where
  abbrev pub claimed : Result AccessTokenClaims → Action R AuthDb AccessTokenClaims
  claimed (ok claims) = pure claims
  claimed (err _) = raise (status unauthenticated "auth.invalid_token")

  abbrev pub token_claims : String → Action R AuthDb AccessTokenClaims
  token_claims token c =
      let (v, r) = i.validate_token token c.outside in claimed v (record c { outside = r })

  abbrev pub admitted : Result (DeviceSession × User) → Action R AuthDb (DeviceSession × User)
  admitted (err _) = raise (status unauthenticated "auth.session_invalid")
  admitted (ok (s, u)) =
      if is_revoked s
      then raise (status unauthenticated "auth.session_invalid")
      else if is_inactive now i.max_inactivity_timeout s
      then raise (status unauthenticated "auth.session_expired")
      else if not (is_active u)
      then raise (status permission_denied "auth.account_inactive")
      else pure (s, u)

  abbrev pub checked_session : AccessTokenClaims → Action R AuthDb (DeviceSession × User)
  checked_session claims c = let (v, c') = session_find_by_id claims.session_id c in admitted v c'

  abbrev pub with_bearer : Result (List ℕ) → Action R AuthDb (DeviceSession × User)
  with_bearer (err e) = raise e
  with_bearer (ok token) = do claims ← token_claims (i.bytes_text token); checked_session claims

  unfoldable pub authenticate : Context → Action R AuthDb (DeviceSession × User)
  unfolding session_find_by_id bearer_token is_revoked is_inactive is_active
  authenticate ctx = with_bearer (bearer_token ctx.metadata)

  abbrev pub subject_of : DeviceSession → User → Subject
  subject_of s u = record {
    user_id = u.id;
    role = u.role;
    session_id = s.id;
    device_id = s.device_id;
    is_admin = is_admin u;
  }

  abbrev pub verdict : Option (Req → Verdict) → Req → Verdict
  verdict none q = valid
  verdict (some v) q = v q

  module _ {Resp : Type 0} where
    abbrev pub refused : GoError → Server R → Outcome Resp GoError × Server R
    refused e s = (returned none (some e), s)

    abbrev pub let_in :
        String
        → Handler R Req Resp GoError
        → Context
        → Req
        → Server R
        → Result (DeviceSession × User)
        → Outcome Resp GoError × Server R
    let_in m h ctx q s (err e) = refused e s
    let_in m h ctx q s (ok (ds, u)) =
        if is_admin_method m && not (is_admin u)
        then refused (status permission_denied "auth.admin_required") s
        else h (record ctx { subject = some (subject_of ds u) }) q s

    abbrev pub guarded : String → Handler R Req Resp GoError → Handler R Req Resp GoError
    guarded m h ctx q s =
        let (v, c) = authenticate ctx s.conn in let_in m h ctx q (record s { conn = c }) v

    unfoldable pub auth_unary : String → Handler R Req Resp GoError → Handler R Req Resp GoError
    unfolding authenticate is_public is_admin_method is_admin
    auth_unary m h ctx q s = (if is_public m then h else guarded m h) ctx q s

    abbrev pub passed :
        Handler R Req Resp GoError
        → Context
        → Req
        → Server R
        → Verdict
        → Outcome Resp GoError × Server R
    passed h ctx q s valid = h ctx q s
    passed h ctx q s (violations vs) =
        refused (domain (validation "VALIDATION_ERROR" "common.validation_error" vs)) s
    passed h ctx q s rule_failed =
        refused (domain (internal_error "INTERNAL_ERROR" "common.internal_error")) s

    unfoldable pub validation_unary : Handler R Req Resp GoError → Handler R Req Resp GoError
    validation_unary h ctx q s = passed h ctx q s (verdict i.validator q)

    -- From authentication on: what stands inside the mapping of errors
    unfoldable pub inner : String → Handler R Req Resp GoError → Handler R Req Resp GoError
    unfolding auth_unary validation_unary
    inner m h = auth_unary m (validation_unary h)

    unfoldable pub unary : String → Handler R Req Resp GoError → Handler R Req Resp Status
    unfolding recovery_unary metrics_unary request_id_unary logging_unary locale_unary error_unary
        inner
    unary m h = recovery_unary i m (
        metrics_unary i m
          (request_id_unary i (logging_unary i m (locale_unary i (error_unary i m (inner m h))))))

  -- The context and the state in which authentication starts
  abbrev pub called : Context → Server R → Context × Server R
  called ctx s =
      let (id, s') =
        request_id_for i (some_value (incoming_request_id ctx.metadata))
          (record s { in_flight = suc s.in_flight }) in
      (record ctx { request_id = id; language = resolved i (language_value ctx.metadata) }, s')
