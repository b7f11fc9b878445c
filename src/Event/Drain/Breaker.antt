-- ===== src/Event/Drain/Breaker.antt =====
-- The circuit breaker of the drain in internal/event/bus.go (`breakerAllows`, `recordBreaker`).
use go_grpc_starter.Prelude.{
  ℕ, suc, ◌+◌, ◌≤◌, ◌<◌, ◌≡◌, ◌≢◌, refl, ◌∙◌, Bool, true, Option, none, some, List, [], ◌∷◌, length,
  arith, leb, ◌==◌, if◌then◌else◌,
}
use go_grpc_starter.Event.Bus.{Bus}
use go_grpc_starter.Event.Drain.{
  breaker_allows, record_breaker, drain_breaker_threshold, drain_breaker_cooldown,
}

-- A batch, at its time: how many deliveries it tried, and how many of them failed.
pub record Attempted : Type 0 where
  pub at : ℕ
  pub attempts : ℕ
  pub failures : ℕ

abbrev pub record_all : List Attempted → Bus → Bus
record_all [] b = b
record_all (x ∷ xs) b = record_all xs (record_breaker x.at x.attempts x.failures b)

abbrev pub AllFailed : List Attempted → Type 0
AllFailed [] = Unit {0}
AllFailed (x ∷ xs) = (x.attempts ≢ 0) × (x.failures ≡ x.attempts) × AllFailed xs

abbrev pub IsOpen : Bus → Type 0
IsOpen b = drain_breaker_threshold ≤ b.drain_breaker_failures

-- The third batch in a row of which every delivery failed opens the breaker: from then on it lets a
-- batch through exactly when the cooldown has passed since that batch.
pub third_failure_opens :
    (b : Bus) (now attempts later : ℕ)
    → suc b.drain_breaker_failures ≡ drain_breaker_threshold
    → attempts ≢ 0
    → now ≤ later
    → breaker_allows later (record_breaker now attempts attempts b)
      ≡ leb (now + drain_breaker_cooldown) later
unfolding breaker_allows record_breaker
third_failure_opens b now attempts later h nonzero order = ground arith

-- A batch with one delivery that succeeded closes the breaker, whatever its state was.
pub success_closes :
    (b : Bus) (now attempts failures later : ℕ)
    → attempts ≢ 0
    → failures < attempts
    → breaker_allows later (record_breaker now attempts failures b) ≡ true
unfolding breaker_allows record_breaker
success_closes b now attempts failures later nonzero fewer = ground arith

record_breaker-IsOpen :
    (b : Bus) (x : Attempted)
    → IsOpen b
    → x.attempts ≢ 0
    → x.failures ≡ x.attempts
    → IsOpen (record_breaker x.at x.attempts x.failures b)
      × ((record_breaker x.at x.attempts x.failures b).drain_breaker_opened_at
          ≡ b.drain_breaker_opened_at)
unfolding record_breaker
record_breaker-IsOpen b x o nonzero e = ground arith

record_all-IsOpen :
    (xs : List Attempted) (b : Bus)
    → IsOpen b
    → AllFailed xs
    → IsOpen (record_all xs b)
      × ((record_all xs b).drain_breaker_opened_at ≡ b.drain_breaker_opened_at)
record_all-IsOpen [] b o h = (o, refl)
record_all-IsOpen (x ∷ xs) b o h =
    let (o', e) = record_breaker-IsOpen b x o h.0 h.1 in
    let (o'', e') = record_all-IsOpen xs (record_breaker x.at x.attempts x.failures b) o' h.2 in
    (o'', e' ∙ e)

breaker_allows-IsOpen :
    (b : Bus) (later : ℕ)
    → IsOpen b
    → b.drain_breaker_opened_at + drain_breaker_cooldown ≤ later
    → breaker_allows later b ≡ true
unfolding breaker_allows
breaker_allows-IsOpen b later o h = ground arith

-- An open breaker is not armed again. Once its cooldown has passed, it lets every later batch
-- through, however many batches fail whole after that and at whatever times.
pub breaker_never_rearms :
    (xs : List Attempted) (b : Bus) (later : ℕ)
    → IsOpen b
    → AllFailed xs
    → b.drain_breaker_opened_at + drain_breaker_cooldown ≤ later
    → breaker_allows later (record_all xs b) ≡ true
breaker_never_rearms xs b later o h past =
    let (o', e) = record_all-IsOpen xs b o h in
    breaker_allows-IsOpen (record_all xs b) later o' (omega (arith, e))

-- The breaker as the history of its batches tells it, the latest first.
abbrev pub replay : List Attempted → Bus → Bus
replay [] b = b
replay (x ∷ earlier) b = record_breaker x.at x.attempts x.failures (replay earlier b)

-- The times of the batches that failed whole since the last delivery that succeeded. A batch that tried
-- nothing does not count.
unfoldable pub streak : List Attempted → List ℕ
streak [] = []
streak (x ∷ earlier) =
    let before = streak earlier in
    if x.attempts == 0 then before else if x.failures == x.attempts then x.at ∷ before else []

-- The time of the third of them, from the start of the streak.
unfoldable pub opened_by : List ℕ → Option ℕ
opened_by [] = none
opened_by (t ∷ before) =
    let earlier = opened_by before in if length before == 2 then some t else earlier

-- What the breaker promises of a history.
unfoldable pub allowed_at : ℕ → Option ℕ → Bool
allowed_at later none = true
allowed_at later (some t) = leb (t + drain_breaker_cooldown) later

-- The bus stands for a streak.
record StandsFor (ts : List ℕ) (b : Bus) : Type 0 where
  counted : b.drain_breaker_failures ≡ length ts
  closed : length ts < drain_breaker_threshold → opened_by ts ≡ none
  opened : drain_breaker_threshold ≤ length ts → opened_by ts ≡ some b.drain_breaker_opened_at

record_breaker-StandsFor :
    (x : Attempted) (earlier : List Attempted) (b : Bus)
    → StandsFor (streak earlier) b
    → StandsFor (streak (x ∷ earlier)) (record_breaker x.at x.attempts x.failures b)
unfolding streak opened_by record_breaker
record_breaker-StandsFor x earlier b r = record {
  counted = ground (arith, r.counted);
  closed = λ h. ground (arith, r.counted, r.closed);
  opened = λ h. ground (arith, r.counted, r.closed, r.opened);
}

replay-StandsFor :
    (history : List Attempted) (b : Bus)
    → b.drain_breaker_failures ≡ 0
    → StandsFor (streak history) (replay history b)
unfolding streak opened_by
replay-StandsFor [] b fresh = record {
  counted = fresh;
  closed = λ _. refl;
  opened = λ h. ground arith;
}
replay-StandsFor (x ∷ earlier) b fresh =
    record_breaker-StandsFor x earlier (replay earlier b) (replay-StandsFor earlier b fresh)

allowed_at-StandsFor :
    (ts : List ℕ) (b : Bus) (later : ℕ)
    → StandsFor ts b
    → breaker_allows later b ≡ allowed_at later (opened_by ts)
unfolding breaker_allows allowed_at
allowed_at-StandsFor ts b later r = ground (arith, r.counted, r.closed, r.opened)

-- The counter and the time that the bus keeps implement what the history of its batches says. From a
-- bus that counts no failure, it lets a batch through exactly when fewer than three batches in a row
-- failed whole, or when the cooldown has passed since the third of them; a batch that tried nothing
-- does not count, and the fourth and later failures do not start the cooldown again.
pub breaker_refines :
    (history : List Attempted) (b : Bus) (later : ℕ)
    → b.drain_breaker_failures ≡ 0
    → breaker_allows later (replay history b) ≡ allowed_at later (opened_by (streak history))
breaker_refines history b later fresh =
    allowed_at-StandsFor (streak history) (replay history b) later
      (replay-StandsFor history b fresh)
