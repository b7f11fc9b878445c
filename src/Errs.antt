-- ===== src/Errs.antt =====
-- internal/errs/errs.go: the domain error, and Go's `error` as the program builds it.
use go_grpc_starter.Prelude.{String, List, []}

-- The gRPC codes that the program names.
pub data GrpcCode : Type 0 where
  ok_code unknown invalid_argument not_found already_exists permission_denied : GrpcCode
  resource_exhausted failed_precondition internal unavailable data_loss unauthenticated : GrpcCode

pub record FieldViolation : Type 0 where
  pub field : String
  pub description : String

-- `Error`; an application code is its wire text.
pub record Error : Type 0 where
  pub grpc_code : GrpcCode
  pub app_code : String
  pub message_key : String
  pub fields : List FieldViolation
  pub data_map : List (String × String)

-- A domain error, an error that is a gRPC status already, or any other.
pub data GoError : Type 0 where
  domain : Error → GoError
  status : GrpcCode → String → GoError
  other : String → GoError

pub data Result {ℓ} (A : Type ℓ) : Type ℓ where
  ok : A → Result A
  err : GoError → Result A

unfoldable pub new_error : GrpcCode → String → String → Error
new_error grpc code message_key = record {
  grpc_code = grpc;
  app_code = code;
  message_key = message_key;
  fields = [];
  data_map = [];
}

unfoldable pub unauthorized : String → String → Error
unfolding new_error
unauthorized = new_error unauthenticated

unfoldable pub bad_request : String → String → Error
unfolding new_error
bad_request = new_error invalid_argument

-- `NotFound`
unfoldable pub absent : String → String → Error
unfolding new_error
absent = new_error not_found

unfoldable pub forbidden : String → String → Error
unfolding new_error
forbidden = new_error permission_denied

unfoldable pub conflict : String → String → Error
unfolding new_error
conflict = new_error already_exists

unfoldable pub too_many_requests : String → String → Error
unfolding new_error
too_many_requests = new_error resource_exhausted

unfoldable pub internal_error : String → String → Error
unfolding new_error
internal_error = new_error internal

unfoldable pub validation : String → String → List FieldViolation → Error
unfolding new_error
validation code message_key fields = record (new_error invalid_argument code message_key) {
  fields = fields;
}
