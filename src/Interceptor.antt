-- ===== src/Interceptor.antt =====
-- The chain of unary interceptors of internal/interceptor (interceptors.go, errors.go, validate.go), with
-- the values of internal/reqctx that it puts into a call's context.
pub mod Header
pub mod Chain
pub mod Unary
pub mod Bearer
pub mod Guard
pub mod Ended
pub mod Shut
pub mod Stream
pub mod Answer
pub mod Opaque
use go_grpc_starter.Prelude.{
  ℕ, suc, ◌-◌, String, Bool, true, false, not, ◌&&◌, ◌||◌, Option, none, some, List, [], ◌∷◌, any,
  str_eq, ◌==◌, if◌then◌else◌,
}
use package.text.Mathlib.Text.{starts_with}
use go_grpc_starter.Errs.{
  GrpcCode, ok_code, unknown, internal, unavailable, data_loss, unauthenticated, permission_denied,
  FieldViolation, Error, GoError, domain, status, other, Result, ok, err, validation,
  internal_error,
}
use go_grpc_starter.Store.{Conn, Action, pure, raise, ◌>>=◌}
use go_grpc_starter.Users.Entity.{User, UserRole, is_active, is_admin}
use go_grpc_starter.Auth.Entity.{DeviceSession, is_revoked, is_inactive}
use go_grpc_starter.Auth.Tables.{AuthDb}
use go_grpc_starter.Auth.Repository.{session_find_by_id}
use go_grpc_starter.Token.{AccessTokenClaims}
use go_grpc_starter.Interceptor.Header.{Metadata, parse_accept_language, bearer_token}

-- internal/reqctx
pub record Subject : Type 0 where
  pub user_id : ℕ
  pub role : UserRole
  pub session_id : ℕ
  pub device_id : String
  pub is_admin : Bool

-- A call's context: an identifier or a language that is not set is empty.
pub record Context : Type 0 where
  pub metadata : Option Metadata
  pub request_id : String
  pub language : String
  pub subject : Option Subject

-- The status that a client is answered with, and its details.
pub data Detail : Type 0 where
  error_info : String → Detail
  localized_message : String → String → Detail
  invalid_fields : List FieldViolation → Detail

pub record Status : Type 0 where
  pub code : GrpcCode
  pub message : String
  pub details : List Detail

-- What a handler does: it returns, or it panics.
pub data Outcome (Resp E : Type 0) : Type 0 where
  returned : Option Resp → Option E → Outcome Resp E
  panicked : Outcome Resp E

pub data Level : Type 0 where
  error_level info_level : Level

pub data Line : Type 0 where
  panic_in_handler : String → Line
  unhandled : String → GoError → String → Line
  served : Level → String → GrpcCode → String → Line

-- The server's state: database and outside world, the metrics, and the log, latest first.
pub record Server (R : Type 0) : Type 0 where
  pub conn : Conn R AuthDb
  pub in_flight : ℕ
  pub requests : List (String × GrpcCode)
  pub log : List Line

-- `locale.Bundle`, behind the interface of errors.go
pub record Translator : Type 0 where
  pub text : String → String → List (String × String) → String
  pub default_language : String

-- `protovalidate.Validate`
pub data Verdict : Type 0 where
  valid : Verdict
  violations : List FieldViolation → Verdict
  rule_failed : Verdict

-- `Set`; every request is a `proto.Message`.
pub record Set (R Req : Type 0) : Type 0 where
  pub validate_token : String → R → Result AccessTokenClaims × R
  pub max_inactivity_timeout : ℕ
  pub locale : Option Translator
  pub validator : Option (Req → Verdict)
  pub new_uuid : R → String × R
  -- The text of these bytes
  pub bytes_text : List ℕ → String

abbrev pub default_language : Option Translator → String
default_language none = "en"
default_language (some t) = t.default_language

abbrev pub code_of : Option Status → GrpcCode
code_of none = ok_code
code_of (some s) = s.code

abbrev pub is_internal : GrpcCode → Bool
is_internal internal = true
is_internal _ = false

-- `isServerFailure`
abbrev pub is_server_failure : GrpcCode → Bool
is_server_failure internal = true
is_server_failure unknown = true
is_server_failure data_loss = true
is_server_failure unavailable = true
is_server_failure _ = false

-- `isHealthMethod`
abbrev pub is_health_method : String → Bool
is_health_method m =
    starts_with m "/grpc.health.v1.Health/" || starts_with m "/health.v1.HealthService/"

abbrev public_methods : List String
public_methods =
    "/health.v1.HealthService/Check" ∷ "/health.v1.HealthService/Ready"
    ∷ "/grpc.health.v1.Health/Check" ∷ "/grpc.health.v1.Health/Watch"
    ∷ "/grpc.reflection.v1.ServerReflection/ServerReflectionInfo"
    ∷ "/grpc.reflection.v1alpha.ServerReflection/ServerReflectionInfo"
    ∷ "/auth.v1.AuthService/Register" ∷ "/auth.v1.AuthService/Login"
    ∷ "/auth.v1.AuthService/RefreshToken" ∷ "/auth.v1.AuthService/VerifyEmail"
    ∷ "/auth.v1.AuthService/RequestPasswordReset" ∷ "/auth.v1.AuthService/ResetPassword" ∷ []

unfoldable pub is_public : String → Bool
unfolding any
is_public m = any (str_eq m) public_methods

unfoldable pub is_admin_method : String → Bool
is_admin_method m = starts_with m "/admin.v1.AdminService/"
