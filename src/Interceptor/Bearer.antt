-- ===== src/Interceptor/Bearer.antt =====
-- `BearerToken` of internal/interceptor/interceptors.go and the header that it accepts.
use go_grpc_starter.Prelude.{
  ℕ, ◌≡◌, ◌≢◌, refl, sym, ap, ◌↔◌, Bool, true, false, Option, none, some, List, [], ◌∷◌, ◌++◌, map,
  All, arith, ◌==◌, if◌then◌else◌, Bool-cases, inl, inr,
}
use go_grpc_starter.Errs.{ok}
use go_grpc_starter.Auth.Users.{bytes_eq, to_lower}
use go_grpc_starter.Interceptor.Header.{
  Metadata, cut, is_bearer, bearer_parts, bearer_value, bearer_token,
}

cut-append :
    (sep : ℕ) (xs after : List ℕ)
    → All (λ x. x ≢ sep) xs
    → cut sep (xs ++ sep ∷ after) ≡ (xs, some after)
unfolding cut
cut-append sep [] after h = ground arith
cut-append sep (x ∷ xs) after h = ground (arith, h.0, cut-append sep xs after h.1)

abbrev glued : Bool → ℕ → List ℕ → List ℕ × Option (List ℕ) → List ℕ × Option (List ℕ)
glued b c cs rest = if b then ([], some cs) else (c ∷ rest.0, rest.1)

cut-some :
    (sep : ℕ) (v before after : List ℕ)
    → cut sep v ≡ (before, some after)
    → v ≡ before ++ sep ∷ after
unfolding cut
cut-some sep [] before after e = cc
cut-some sep (c ∷ cs) before after e = by_first (c == sep) (cut sep cs) refl e (cut-some sep cs)
  where
    by_first :
        (b : Bool) (rest : List ℕ × Option (List ℕ))
        → (c == sep) ≡ b
        → glued b c cs rest ≡ (before, some after)
        → ((x y : List ℕ) → rest ≡ (x, some y) → cs ≡ x ++ sep ∷ y)
        → c ∷ cs ≡ before ++ sep ∷ after
    by_first true rest t e ih =
        let same : c ≡ sep = ground (arith, t) in
        let none_before : [] ≡ before = cc in
        let all_after : cs ≡ after = cc in rw (same, sym none_before, all_after) refl
    by_first false (x, none) t e ih = cc
    by_first false (x, some y) t e ih =
        let cons_before : c ∷ x ≡ before = cc in
        let same_after : y ≡ after = cc in
        rw (sym cons_before, sym same_after) (ap (λ zs. c ∷ zs) (ih x y refl))

-- A scheme that is `bearer` in any case has no space.
no_space :
    (s t : List ℕ) → All (λ x. x ≢ 32) t → bytes_eq (map to_lower s) t ≡ true → All (λ x. x ≢ 32) s
no_space [] t h e = tt
no_space (c ∷ cs) [] h e = cc
no_space (c ∷ cs) (x ∷ xs) h e =
    let (first, rest) = h in (ground (arith, e, first), no_space cs xs rest (ground (arith, e)))

module _ (md : Metadata) (token : List ℕ) where
  abbrev pub Carries : Type 0
  Carries =
      (scheme : List ℕ) × (more : List (List ℕ)) × (md "authorization"
        ≡ (scheme ++ 32 ∷ token) ∷ more)
      × (is_bearer scheme ≡ true)

  parts_ok :
      (v : List ℕ) (more : List (List ℕ)) (parts : List ℕ × Option (List ℕ))
      → md "authorization" ≡ v ∷ more
      → cut 32 v ≡ parts
      → bearer_parts parts ≡ ok token
      → Carries
  parts_ok v more (scheme, none) e split h = cc
  parts_ok v more (scheme, some t) e split h = elim (Bool-cases (is_bearer scheme)) [
    | inl fits ↦
        let same : t ≡ token = ground (arith, h, fits) in
        (scheme, more, rw (e, cut-some 32 v scheme t split, same) refl, fits)
    | inr not_fits ↦ ground (arith, h, not_fits)
  ]

  value_ok : (vs : List (List ℕ)) → md "authorization" ≡ vs → bearer_value vs ≡ ok token → Carries
  value_ok [] e h = cc
  value_ok (v ∷ more) e h = parts_ok v more (cut 32 v) e refl h

  -- `BearerToken` returns exactly the token of a header `Bearer <token>`: it succeeds with a token, which may
  -- be empty or hold spaces, if and only if the first value of `authorization` is a word that is `bearer` in
  -- upper or lower case, one space, and that token.
  pub bearer_token_iff : (bearer_token (some md) ≡ ok token) ↔ Carries
  unfolding bearer_token
  bearer_token_iff = (value_ok (md "authorization") refl, carried)
    where
      carried : Carries → bearer_value (md "authorization") ≡ ok token
      carried (scheme, more, e, fits) =
          let apart =
            no_space scheme _
              (
                omega arith,
                (omega arith, (omega arith, (omega arith, (omega arith, (omega arith, tt))))),
              )
              fits in
          rw (e, cut-append 32 scheme token apart, fits) refl
