-- ===== src/Interceptor/Chain.antt =====
-- The interceptors of internal/interceptor (interceptors.go, errors.go, validate.go) and their order. The
-- duration of a call and its peer's address, which are only logged or measured, are left out.
use go_grpc_starter.Prelude.{
  ℕ, suc, ◌-◌, String, Option, none, some, List, [], ◌∷◌, str_eq, if◌then◌else◌,
}
use go_grpc_starter.Errs.{
  GrpcCode, ok_code, internal, FieldViolation, Error, GoError, domain, status, other,
}
use go_grpc_starter.Interceptor.{
  Context, Detail, error_info, localized_message, invalid_fields, Status, Outcome, returned,
  panicked, error_level, info_level, panic_in_handler, unhandled, served, Server, Translator, Set,
  default_language, code_of, is_internal, is_server_failure, is_health_method,
}
use go_grpc_starter.Interceptor.Header.{Metadata, parse_accept_language}

abbrev field_details : List FieldViolation → List Detail
field_details [] = []
field_details (v ∷ vs) = invalid_fields (v ∷ vs) ∷ []

-- `WithDetails` refuses the code OK, and `Err` of a status with that code is `nil`.
abbrev enriched : GrpcCode → String → List Detail → Option Status
enriched ok_code message details = none
enriched code message details = some (record { code = code; message = message; details = details })

abbrev lang_of : Option Translator → String → String
lang_of none lang = lang
lang_of (some t) lang = if str_eq lang "" then t.default_language else lang

abbrev message_of : Option Translator → String → Error → String
message_of none lang e = e.message_key
message_of (some t) lang e = t.text lang e.message_key e.data_map

-- `mapError`
unfoldable pub map_error : Option Translator → String → GoError → Option Status
map_error tr language (domain e) =
    let lang = lang_of tr language in
    let message = message_of tr lang e in
    enriched e.grpc_code message
      (error_info e.app_code ∷ localized_message lang message ∷ field_details e.fields)
map_error tr language (status code message) =
    some (record { code = code; message = message; details = [] })
map_error tr language (other _) =
    some (record { code = internal; message = "internal error"; details = [] })

abbrev pub some_value : List (List ℕ) → Option (List ℕ)
some_value [] = none
some_value ([] ∷ _) = none
some_value ((c ∷ cs) ∷ _) = some (c ∷ cs)

abbrev pub first_of : Option (List ℕ) → Option (List ℕ) → Option (List ℕ)
first_of none b = b
first_of (some a) b = some a

abbrev pub language_value : Option Metadata → Option (List ℕ)
language_value none = none
language_value (some md) = first_of (some_value (md "accept-language")) (some_value (md "lang"))

abbrev pub Handler : Type 0 → Type 0 → Type 0 → Type 0 → Type 0
Handler R Req Resp E = Context → Req → Server R → Outcome Resp E × Server R

abbrev pub incoming_request_id : Option Metadata → List (List ℕ)
incoming_request_id none = []
incoming_request_id (some md) = md "x-request-id"

module _ {R Req : Type 0} (i : Set R Req) where
  abbrev pub with_uuid : Server R → String × Server R
  with_uuid s =
      let (id, r) = i.new_uuid s.conn.outside in
      (id, record s { conn = record s.conn { outside = r } })

  abbrev pub request_id_for : Option (List ℕ) → Server R → String × Server R
  request_id_for none s = with_uuid s
  request_id_for (some v) s = (i.bytes_text v, s)

  abbrev pub resolved : Option (List ℕ) → String
  resolved none = default_language i.locale
  resolved (some v) = i.bytes_text (parse_accept_language v)

  abbrev pub mapped : String → Context → Option GoError → Server R → Option Status × Server R
  mapped m c none s = (none, s)
  mapped m c (some e) s =
      let st = map_error i.locale c.language e in
      (
        st,
        if is_internal (code_of st)
            then record s { log = unhandled m e c.request_id ∷ s.log }
            else s,
      )

module _ {R : Type 0} where
  abbrev pub counted : String → Option Status → Server R → Option Status × Server R
  counted m e s =
      (e, record s { in_flight = s.in_flight - 1; requests = (m, code_of e) ∷ s.requests })

  abbrev pub logged : String → Context → Option Status → Server R → Option Status × Server R
  logged m c e s = (
    e,
    if is_health_method m then s else record s {
      log =
          served (if is_server_failure (code_of e) then error_level else info_level) m (code_of e)
            c.request_id
          ∷ s.log;
    },
  )

module _ {R Req Resp : Type 0} (i : Set R Req) where
  abbrev pub on_error :
      {E F : Type 0}
      → (Option E → Server R → Option F × Server R)
      → Outcome Resp E × Server R
      → Outcome Resp F × Server R
  on_error f (panicked, s) = (panicked, s)
  on_error f (returned r e, s) = let (e', s') = f e s in (returned r e', s')

  abbrev pub recovered : String → Outcome Resp Status × Server R → Outcome Resp Status × Server R
  recovered m (returned r e, s) = (returned r e, s)
  recovered m (panicked, s) = (
    returned none (some (record { code = internal; message = "internal error"; details = [] })),
    record s { log = panic_in_handler m ∷ s.log },
  )

  unfoldable pub recovery_unary : String → Handler R Req Resp Status → Handler R Req Resp Status
  recovery_unary m h c q s = recovered m (h c q s)

  unfoldable pub metrics_unary : String → Handler R Req Resp Status → Handler R Req Resp Status
  metrics_unary m h c q s = on_error (counted m) (h c q (record s { in_flight = suc s.in_flight }))

  unfoldable pub request_id_unary : {E : Type 0} → Handler R Req Resp E → Handler R Req Resp E
  request_id_unary h c q s =
      let (id, s') = request_id_for i (some_value (incoming_request_id c.metadata)) s in
      h (record c { request_id = id }) q s'

  unfoldable pub logging_unary : String → Handler R Req Resp Status → Handler R Req Resp Status
  logging_unary m h c q s = on_error (logged m c) (h c q s)

  unfoldable pub locale_unary : {E : Type 0} → Handler R Req Resp E → Handler R Req Resp E
  locale_unary h c q s = h (record c { language = resolved i (language_value c.metadata) }) q s

  unfoldable pub error_unary : String → Handler R Req Resp GoError → Handler R Req Resp Status
  unfolding map_error
  error_unary m h c q s = on_error (mapped i m c) (h c q s)
