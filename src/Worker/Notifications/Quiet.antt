-- ===== src/Worker/Notifications/Quiet.antt =====
-- Quiet hours as a stretch of the clock's circle: `isQuietHours` of
-- internal/worker/notifications/processor.go, on the texts of `TimeOfDayStr`.
use go_grpc_starter.Prelude.{
  ℕ, ◌+◌, ◌-◌, ◌/◌, ◌%◌, ◌<◌, ◌≡◌, ap, ◌∙◌, Bool, true, ◌&&◌, [], ◌∷◌, ltb, ◌==◌, if◌then◌else◌,
  arith,
}
use go_grpc_starter.Worker.Notifications.Bytes.{Text, text_lt, two_digits, clock_text}
use go_grpc_starter.Worker.Notifications.{is_between}

-- The order of two numbers of two digits, before the rest of the text.
two_digits_lt :
    (m n : ℕ) (x y : Text)
    → text_lt (two_digits m x) (two_digits n y)
      ≡ (if ltb m n then true else (m == n) && text_lt x y)
two_digits_lt m n x y = ground arith

-- The order of two triples of numbers.
abbrev triple_lt : ℕ → ℕ → ℕ → ℕ → ℕ → ℕ → Bool
triple_lt h m s h' m' s' =
    if ltb h h' then true else (h == h') && (if ltb m m' then true else (m == m') && ltb s s')

seconds_lt : (m n : ℕ) → text_lt (two_digits m []) (two_digits n []) ≡ ltb m n
seconds_lt m n = ground arith

clock-triple :
    (s t : ℕ)
    → text_lt (clock_text s) (clock_text t)
      ≡ triple_lt (s / 3600) (s % 3600 / 60) (s % 60) (t / 3600) (t % 3600 / 60) (t % 60)
unfolding clock_text
clock-triple s t =
    two_digits_lt (s / 3600) (t / 3600)
      (58 ∷ two_digits (s % 3600 / 60) (58 ∷ two_digits (s % 60) []))
      (58 ∷ two_digits (t % 3600 / 60) (58 ∷ two_digits (t % 60) []))
    ∙ ap (λ b. if ltb (s / 3600) (t / 3600) then true else (s / 3600 == t / 3600) && b)
        (two_digits_lt (s % 3600 / 60) (t % 3600 / 60) (58 ∷ two_digits (s % 60) [])
            (58 ∷ two_digits (t % 60) [])
          ∙ ap
              (λ b.
                if ltb (s % 3600 / 60) (t % 3600 / 60)
                then true
                else (s % 3600 / 60 == t % 3600 / 60) && b)
              (seconds_lt (s % 60) (t % 60)))

triple-seconds :
    (s t : ℕ)
    → triple_lt (s / 3600) (s % 3600 / 60) (s % 60) (t / 3600) (t % 3600 / 60) (t % 60) ≡ ltb s t
triple-seconds s t = ground arith

-- The texts of two times are in the order of the times.
clock_lt : (s t : ℕ) → text_lt (clock_text s) (clock_text t) ≡ ltb s t
clock_lt s t = clock-triple s t ∙ triple-seconds s t

-- The seconds from one time of the day to the next time that the clock shows another.
abbrev pub clockwise : ℕ → ℕ → ℕ
clockwise from to = (to + 86400 - from) % 86400

-- For times of the day, the texts are between each other exactly when the clock, turning from the start of
-- the quiet hours, shows the current time before it shows their end; the hours may go over midnight, and
-- hours that end when they start are none.
pub is_between_lem :
    (start end current : ℕ)
    → start < 86400
    → end < 86400
    → current < 86400
    → is_between (clock_text start) (clock_text end) (clock_text current)
      ≡ ltb (clockwise start current) (clockwise start end)
unfolding is_between
is_between_lem start end current hs he hc =
    rw (clock_lt end start, clock_lt current start, clock_lt current end) (ground arith)
