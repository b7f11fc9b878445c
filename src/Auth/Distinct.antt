-- ===== src/Auth/Distinct.antt =====
-- The rows of a table with distinct identifiers, through the filter and the order of internal/store/query/device_sessions.sql.
use mathlib.Core.List.{reverse, reverse-cons}
use go_grpc_starter.Prelude.{◌≢◌, sym, Bool, List, [], ◌∷◌, ◌++◌, filter, All, All-append, arith}
use go_grpc_starter.Auth.Entity.{DeviceSession}
use go_grpc_starter.Auth.Tables.{insert_latest, latest_first}

-- No two rows have one identifier.
abbrev pub IsDistinct : List DeviceSession → Type 0
IsDistinct [] = Unit {0}
IsDistinct (x ∷ xs) = All (λ (y : DeviceSession). x.id ≢ y.id) xs × IsDistinct xs

module _ (P : DeviceSession → Type 0) where
  insert_latest-All :
      (s : DeviceSession) (xs : List DeviceSession) → P s → All P xs → All P (insert_latest s xs)
  unfolding insert_latest
  insert_latest-All s [] p h = (p, tt)
  insert_latest-All s (x ∷ xs) p h = ground (arith, insert_latest-All s xs p h.1)

  pub latest_first-All : (xs : List DeviceSession) → All P xs → All P (latest_first xs)
  unfolding latest_first
  latest_first-All [] h = tt
  latest_first-All (x ∷ xs) h = insert_latest-All x (latest_first xs) h.0 (latest_first-All xs h.1)

  filter-All : (p : DeviceSession → Bool) (xs : List DeviceSession) → All P xs → All P (filter p xs)
  unfolding filter
  filter-All p [] h = tt
  filter-All p (x ∷ xs) h = ground (arith, filter-All p xs h.1)

  pub reverse-All : (xs : List DeviceSession) → All P xs → All P (reverse xs)
  reverse-All [] h = tt
  reverse-All (x ∷ xs) h =
      rw (reverse-cons x xs) (All-append P (reverse xs) (x ∷ []) (reverse-All xs h.1) (h.0, tt))

insert_latest-IsDistinct :
    (s : DeviceSession) (xs : List DeviceSession)
    → All (λ (y : DeviceSession). s.id ≢ y.id) xs
    → IsDistinct xs
    → IsDistinct (insert_latest s xs)
unfolding insert_latest
insert_latest-IsDistinct s [] h d = (tt, tt)
insert_latest-IsDistinct s (x ∷ xs) h d = ground (
  arith,
  insert_latest-IsDistinct s xs h.1 d.1,
  insert_latest-All (λ (y : DeviceSession). x.id ≢ y.id) s xs (λ e. h.0 (sym e)) d.0,
)

pub latest_first-IsDistinct :
    (xs : List DeviceSession) → IsDistinct xs → IsDistinct (latest_first xs)
unfolding latest_first
latest_first-IsDistinct [] d = tt
latest_first-IsDistinct (x ∷ xs) d =
    insert_latest-IsDistinct x (latest_first xs) (latest_first-All _ xs d.0)
      (latest_first-IsDistinct xs d.1)

pub filter-IsDistinct :
    (p : DeviceSession → Bool) (xs : List DeviceSession) → IsDistinct xs → IsDistinct (filter p xs)
unfolding filter
filter-IsDistinct p [] d = tt
filter-IsDistinct p (x ∷ xs) d =
    ground
      (arith, filter-IsDistinct p xs d.1, filter-All (λ (y : DeviceSession). x.id ≢ y.id) p xs d.0)

snoc-IsDistinct :
    (x : DeviceSession) (xs : List DeviceSession)
    → All (λ (y : DeviceSession). x.id ≢ y.id) xs
    → IsDistinct xs
    → IsDistinct (xs ++ x ∷ [])
snoc-IsDistinct x [] h d = (tt, tt)
snoc-IsDistinct x (y ∷ ys) h d = (
  All-append (λ (z : DeviceSession). y.id ≢ z.id) ys (x ∷ []) d.0 ((λ e. h.0 (sym e)), tt),
  snoc-IsDistinct x ys h.1 d.1,
)

pub reverse-IsDistinct : (xs : List DeviceSession) → IsDistinct xs → IsDistinct (reverse xs)
reverse-IsDistinct [] d = tt
reverse-IsDistinct (x ∷ xs) d =
    rw (reverse-cons x xs)
      (snoc-IsDistinct x (reverse xs) (reverse-All _ xs d.0) (reverse-IsDistinct xs d.1))
