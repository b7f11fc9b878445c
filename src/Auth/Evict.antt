-- ===== src/Auth/Evict.antt =====
-- The rows that `evictOldestIfOverLimit` of internal/auth/session.go lists, and what a revocation does to them.
use mathlib.Core.List.{reverse, reverse-cons}
use go_grpc_starter.Prelude.{
  ℕ, suc, ◌≤◌, ◌<◌, String, ◌≡◌, ◌≢◌, refl, ap, ◌∙◌, Bool, true, ◌&&◌, none, List, [], ◌∷◌, filter,
  find, All, All-weaken, Has, length, length-append, ◌==◌, arith, Bool-cases, inl, inr,
}
use go_grpc_starter.Auth.Entity.{DeviceSession}
use go_grpc_starter.Auth.Tables.{
  is_open, update_where, revoke_session, is_active_device, insert_latest, latest_first,
}
use go_grpc_starter.Auth.Distinct.{
  IsDistinct, latest_first-IsDistinct, latest_first-All, filter-IsDistinct, reverse-IsDistinct,
  reverse-All,
}

module _ (now timeout user_id : ℕ) where
  abbrev pub active : DeviceSession → Bool
  active = is_active_device now timeout user_id

  -- The active sessions of the user.
  unfoldable pub active_count : List DeviceSession → ℕ
  active_count xs = length (filter active xs)

  module _ (reason : String) (id : ℕ) where
    abbrev pub closed : List DeviceSession → List DeviceSession
    closed =
        update_where (λ (s : DeviceSession). s.id == id && is_open s) (revoke_session now reason)

    active_count-closed-le : (xs : List DeviceSession) → active_count (closed xs) ≤ active_count xs
    unfolding active_count filter update_where is_active_device
    active_count-closed-le [] = omega arith
    active_count-closed-le (x ∷ xs) = ground (arith, active_count-closed-le xs)

    active_count-closed-lt :
        (r : DeviceSession) (xs : List DeviceSession)
        → r.id ≡ id
        → active r ≡ true
        → Has r xs
        → active_count (closed xs) < active_count xs
    unfolding active_count filter update_where is_active_device
    active_count-closed-lt r [] e a h = elim h [ ]
    active_count-closed-lt r (x ∷ xs) e a (inl h) =
        ground (arith, active_count-closed-le xs, ap (λ (s : DeviceSession). s.id) h, ap active h)
    active_count-closed-lt r (x ∷ xs) e a (inr h) =
        ground (arith, active_count-closed-lt r xs e a h)

    Has-closed :
        (r : DeviceSession) (xs : List DeviceSession) → id ≢ r.id → Has r xs → Has r (closed xs)
    unfolding update_where
    Has-closed r [] d h = elim h [ ]
    Has-closed r (x ∷ xs) d (inl h) = inl (ground (arith, ap (λ (s : DeviceSession). s.id) h))
    Has-closed r (x ∷ xs) d (inr h) = inr (Has-closed r xs d h)

  -- The update finds a row that is there and active.
  pub find-active :
      (r : DeviceSession) (xs : List DeviceSession)
      → active r ≡ true
      → Has r xs
      → find (λ (s : DeviceSession). s.id == r.id && is_open s) xs ≢ none
  unfolding find is_active_device
  find-active r [] a h = elim h [ ]
  find-active r (x ∷ xs) a (inl h) =
      ground (arith, ap (λ (s : DeviceSession). s.id) h, ap active h, ap is_open h)
  find-active r (x ∷ xs) a (inr h) = ground (arith, find-active r xs a h)

  filter-Has :
      (xs : List DeviceSession) → All (λ r. Has r xs × (active r ≡ true)) (filter active xs)
  unfolding filter
  filter-Has [] = tt
  filter-Has (x ∷ xs) =
      let rest =
        All-weaken (λ r. Has r xs × (active r ≡ true)) (λ r. Has r (x ∷ xs) × (active r ≡ true))
          (λ r h. (inr h.0, h.1)) (filter active xs) (filter-Has xs) in
      elim (Bool-cases (active x)) [ inl e ↦ rw e ((inl refl, e), rest) | inr e ↦ rw e rest ]

  -- The rows that are left to evict, in the table of now.
  pub record Listed (rows : List DeviceSession) (xs : List DeviceSession) : Type 0 where
    pub distinct : IsDistinct rows
    pub present : All (λ (r : DeviceSession). Has r xs × (active r ≡ true)) rows
    pub counted : active_count xs ≤ length rows

  present-closed :
      (reason : String) (id : ℕ) (rows xs : List DeviceSession)
      → All (λ (y : DeviceSession). id ≢ y.id) rows
      → All (λ (r : DeviceSession). Has r xs × (active r ≡ true)) rows
      → All (λ (r : DeviceSession). Has r (closed reason id xs) × (active r ≡ true)) rows
  present-closed reason id [] xs d h = tt
  present-closed reason id (r ∷ rows) xs (d, ds) ((has, is_active), h) =
      ((Has-closed reason id r xs d has, is_active), present-closed reason id rows xs ds h)

  pub Listed-closed :
      (reason : String) (r : DeviceSession) (rows xs : List DeviceSession)
      → Listed (r ∷ rows) xs
      → Listed rows (closed reason r.id xs)
  Listed-closed reason r rows xs h =
      let fewer = active_count-closed-lt reason r.id r xs refl h.present.0.1 h.present.0.0 in
      let counted = h.counted in
      record {
        distinct = h.distinct.1;
        present = present-closed reason r.id rows xs h.distinct.0 h.present.1;
        counted = omega arith;
      }

insert_latest-length :
    (s : DeviceSession) (xs : List DeviceSession) → length (insert_latest s xs) ≡ suc (length xs)
unfolding insert_latest
insert_latest-length s [] = refl
insert_latest-length s (x ∷ xs) = ground (arith, insert_latest-length s xs)

latest_first-length : (xs : List DeviceSession) → length (latest_first xs) ≡ length xs
unfolding latest_first
latest_first-length [] = refl
latest_first-length (x ∷ xs) =
    insert_latest-length x (latest_first xs) ∙ ap suc (latest_first-length xs)

reverse-length : (xs : List DeviceSession) → length (reverse xs) ≡ length xs
reverse-length [] = refl
reverse-length (x ∷ xs) =
    let counted = length-append (reverse xs) (x ∷ []) in
    let rest = reverse-length xs in rw (reverse-cons x xs, counted, rest) (omega arith)

module _ (now timeout user_id : ℕ) where
  pub listed :
      (xs : List DeviceSession)
      → IsDistinct xs
      → Listed now timeout user_id
          (reverse (latest_first (filter (is_active_device now timeout user_id) xs)))
          xs
  unfolding active_count
  listed xs d =
      let picked = filter (is_active_device now timeout user_id) xs in
      record {
        distinct = reverse-IsDistinct (latest_first picked) (
            latest_first-IsDistinct picked
              (filter-IsDistinct (is_active_device now timeout user_id) xs d));
        present =
            reverse-All _ (latest_first picked)
              (latest_first-All _ picked (filter-Has now timeout user_id xs));
        counted =
            rw (reverse-length (latest_first picked), latest_first-length picked) (omega arith);
      }
