-- ===== src/Cache/Keys.antt =====
-- The keys of internal/platform/cache name different things.
use Prim.Native.String.{◌++◌, slice}
use text.Mathlib.TextLemmas.{append_assoc}
use text.Mathlib.TextPositions.{slice-append_left}
use go_grpc_starter.Prelude.{String, str_eq, true, false, ◌≡◌, ◌≢◌, sym, ap, ◌∙◌, str_cancel_left}
use go_grpc_starter.Cache.{build_key, build_tag_key}

false-ne-true : false ≢ true
false-ne-true e = cc

differ : ◌≢◌ {A = String} ":t" ":c"
differ e = let b : false ≡ true = ap (λ u. str_eq u ":c") e in false-ne-true b

module _ (prefix : String) where
  pub build_key-inj : (k j : String) → build_key prefix k ≡ build_key prefix j → k ≡ j
  unfolding build_key
  build_key-inj k j e = str_cancel_left ":cache:" k j (str_cancel_left prefix _ _ e)

  pub build_tag_key-inj : (t u : String) → build_tag_key prefix t ≡ build_tag_key prefix u → t ≡ u
  unfolding build_tag_key
  build_tag_key-inj t u e = str_cancel_left ":tag:" t u (str_cancel_left prefix _ _ e)

  pub build_key-ne-tag : (k t : String) → build_tag_key prefix t ≢ build_key prefix k
  unfolding build_key build_tag_key
  build_key-ne-tag k t e =
      let h = str_cancel_left prefix _ _ e in
      let tag : slice (":tag:" ++ t) 0 2 ≡ ":t" =
        ap (λ u. slice u 0 2) (append_assoc ":t" "ag:" t) ∙ slice-append_left ":t" ("ag:" ++ t) in
      let cache : slice (":cache:" ++ k) 0 2 ≡ ":c" =
        ap (λ u. slice u 0 2) (append_assoc ":c" "ache:" k)
        ∙ slice-append_left ":c" ("ache:" ++ k) in
      differ (sym tag ∙ ap (λ u. slice u 0 2) h ∙ cache)
