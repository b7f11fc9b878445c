-- ===== src/Worker/Notifications/Bytes.antt =====
-- The strings of the notification worker as bytes: their order, `strings.HasPrefix` and `ReplaceAll`, and
-- `TimeOfDayStr` of internal/store/convert.go.
use go_grpc_starter.Prelude.{
  ℕ, zero, suc, ◌+◌, ◌-◌, ◌/◌, ◌%◌, Bool, true, false, ◌&&◌, Option, List, [], ◌∷◌, ◌++◌, length,
  ltb, ◌==◌, if◌then◌else◌,
}
use mathlib.Core.Option

abbrev pub Text : Type 0
Text = List ℕ

-- `<` on strings
abbrev pub text_lt : Text → Text → Bool
text_lt [] [] = false
text_lt [] (y ∷ ys) = true
text_lt (x ∷ xs) [] = false
text_lt (x ∷ xs) (y ∷ ys) = let rest = text_lt xs ys in if ltb x y then true else (x == y) && rest

abbrev pub has_prefix : Text → Text → Bool
has_prefix [] s = true
has_prefix (x ∷ xs) [] = false
has_prefix (x ∷ xs) (y ∷ ys) = (x == y) && has_prefix xs ys

-- `ReplaceAll`, of an old text that is not empty; the number counts the bytes of a match still to skip.
unfoldable pub replace_from : Text → Text → ℕ → Text → Text
replace_from old new skip [] = []
replace_from old new zero (x ∷ s) =
    let matched = new ++ replace_from old new (length old - 1) s in
    let rest = x ∷ replace_from old new zero s in if has_prefix old (x ∷ s) then matched else rest
replace_from old new (suc skip) (x ∷ s) = replace_from old new skip s

abbrev pub replace_all : Text → Text → Text → Text
replace_all s old new = replace_from old new 0 s

-- `interpolate`; the pairs stand in the order in which Go visits the map. The model visits it in one order
-- for all texts of an event, where Go chooses one afresh for each call; they differ only where a value holds
-- a placeholder.
unfoldable pub interpolate : Text → List (Text × Text) → Text
interpolate s [] = s
interpolate s ((key, value) ∷ more) = interpolate (replace_all s (123 ∷ key ++ 125 ∷ []) value) more

-- `EventCategory`: whether the type starts with `marketing.`
abbrev pub event_category : Text → Bool
event_category = has_prefix (109 ∷ 97 ∷ 114 ∷ 107 ∷ 101 ∷ 116 ∷ 105 ∷ 110 ∷ 103 ∷ 46 ∷ [])

-- `%02d`, of a number below 100
abbrev pub two_digits : ℕ → Text → Text
two_digits n rest = (48 + n / 10) ∷ (48 + n % 10) ∷ rest

-- A number of seconds as `%02d:%02d:%02d`
unfoldable pub clock_text : ℕ → Text
clock_text total =
    two_digits (total / 3600)
      (58 ∷ two_digits (total % 3600 / 60) (58 ∷ two_digits (total % 60) []))

-- `TimeOfDayStr`, of a number of microseconds
unfoldable pub time_of_day : Option ℕ → Option Text
unfolding clock_text
time_of_day microseconds = Option.map (λ m. clock_text (m / 1000000)) microseconds
