-- ===== src/Interceptor/Header.antt =====
-- What internal/interceptor/interceptors.go reads from the metadata of a call. A value is its bytes, which
-- gRPC allows to be printable ASCII only.
use go_grpc_starter.Prelude.{
  ℕ, String, Bool, Option, none, some, List, [], ◌∷◌, map, ◌==◌, if◌then◌else◌,
}
use go_grpc_starter.Errs.{status, unauthenticated, Result, ok, err}
use go_grpc_starter.Auth.Users.{bytes_eq, to_lower}

-- `md.Get`
abbrev pub Metadata : Type 0
Metadata = String → List (List ℕ)

-- The bytes before the first separator, and those after it if there is one: `strings.Cut`, and
-- `strings.SplitN` into at most two parts.
unfoldable pub cut : ℕ → List ℕ → List ℕ × Option (List ℕ)
cut sep [] = ([], none)
cut sep (c ∷ cs) =
    let (before, after) = cut sep cs in if c == sep then ([], some cs) else (c ∷ before, after)

abbrev trim_left : List ℕ → List ℕ
trim_left [] = []
trim_left (c ∷ cs) = let rest = trim_left cs in if c == 32 then rest else c ∷ cs

abbrev cons_trimmed : ℕ → List ℕ → List ℕ
cons_trimmed c [] = if c == 32 then [] else c ∷ []
cons_trimmed c (d ∷ ds) = c ∷ d ∷ ds

abbrev trim_right : List ℕ → List ℕ
trim_right [] = []
trim_right (c ∷ cs) = cons_trimmed c (trim_right cs)

-- `parseAcceptLanguage`
unfoldable pub parse_accept_language : List ℕ → List ℕ
unfolding cut
parse_accept_language v =
    let first = (cut 44 v).0 in
    let tag = (cut 59 first).0 in map to_lower (cut 45 (trim_right (trim_left tag))).0

-- `strings.EqualFold(s, "bearer")`: none of its letters has a fold beyond ASCII.
abbrev pub is_bearer : List ℕ → Bool
is_bearer s = bytes_eq (map to_lower s) (98 ∷ 101 ∷ 97 ∷ 114 ∷ 101 ∷ 114 ∷ [])

abbrev pub bearer_parts : List ℕ × Option (List ℕ) → Result (List ℕ)
bearer_parts (scheme, none) = err (status unauthenticated "auth.invalid_token_format")
bearer_parts (scheme, some token) =
    if is_bearer scheme then ok token else err (status unauthenticated "auth.invalid_token_format")

abbrev pub bearer_value : List (List ℕ) → Result (List ℕ)
bearer_value [] = err (status unauthenticated "auth.missing_token")
bearer_value (v ∷ _) = bearer_parts (cut 32 v)

-- `BearerToken`
unfoldable pub bearer_token : Option Metadata → Result (List ℕ)
unfolding cut
bearer_token none = err (status unauthenticated "auth.missing_metadata")
bearer_token (some md) = bearer_value (md "authorization")
