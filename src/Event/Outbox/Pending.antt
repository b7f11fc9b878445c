-- ===== src/Event/Outbox/Pending.antt =====
-- What the `WHERE`, the order and the limit of `PendingOutboxBatch` make of the table, and the attempts that
-- its rows have left.
use go_grpc_starter.Prelude.{
  ℕ, suc, ◌+◌, ◌-◌, is_some, Bool-cases, ◌≤◌, ◌<◌, ◌≡◌, refl, inl, inr, Bool, true, ap, List, [],
  ◌∷◌, length, filter, All, All-take, All-weaken, Has, length-take-le, if◌then◌else◌, arith, String,
}
use go_grpc_starter.Event.Outbox.Table.{
  OutboxEvent, Outbox, update_row, processed, failed, is_pending, insert_row, order_rows,
  pending_outbox_batch,
}

module _ (P : OutboxEvent → Type 0) where
  insert_row-All :
      (r : OutboxEvent) (xs : List OutboxEvent) → P r → All P xs → All P (insert_row r xs)
  unfolding insert_row
  insert_row-All r [] p h = (p, tt)
  insert_row-All r (x ∷ xs) p h = ground (arith, insert_row-All r xs p h.1)

  order_rows-All : (xs : List OutboxEvent) → All P xs → All P (order_rows xs)
  unfolding order_rows
  order_rows-All [] h = tt
  order_rows-All (x ∷ xs) h = insert_row-All x (order_rows xs) h.0 (order_rows-All xs h.1)

length-insert_row :
    (r : OutboxEvent) (xs : List OutboxEvent) → length (insert_row r xs) ≡ suc (length xs)
unfolding insert_row
length-insert_row r [] = refl
length-insert_row r (x ∷ xs) = ground (arith, length-insert_row r xs)

length-order_rows : (xs : List OutboxEvent) → length (order_rows xs) ≡ length xs
unfolding order_rows
length-order_rows [] = refl
length-order_rows (x ∷ xs) =
    omega (arith, length-insert_row x (order_rows xs), length-order_rows xs)

module _ (p : OutboxEvent → Bool) where
  abbrev Chosen : List OutboxEvent → OutboxEvent → Type 0
  Chosen xs r = Has r xs × (p r ≡ true)

  filter-Chosen : (xs : List OutboxEvent) → All (Chosen xs) (filter p xs)
  unfolding filter
  filter-Chosen [] = tt
  filter-Chosen (x ∷ xs) =
      let rest =
        All-weaken (Chosen xs) (Chosen (x ∷ xs)) (λ r h. (inr h.0, h.1)) (filter p xs)
          (filter-Chosen xs) in
      ground (arith, rest)

module _ (now : ℕ) (locked : ℕ → Bool) (max_retry limit : ℕ) (o : Outbox) where
  -- A batch holds rows of the table alone, each of them pending: unprocessed, not locked, with
  -- failures below the limit and its wait over. It is no longer than the limit, and the query writes
  -- nothing.
  pub pending_outbox_batch_sound :
      All
        (λ r. Has r o.rows × (is_pending now locked max_retry r ≡ true))
        (pending_outbox_batch now locked max_retry limit o).0
      × (length (pending_outbox_batch now locked max_retry limit o).0 ≤ limit)
      × ((pending_outbox_batch now locked max_retry limit o).1 ≡ o)
  unfolding pending_outbox_batch
  pending_outbox_batch_sound = (
    All-take _ limit _
        (order_rows-All _ _ (filter-Chosen (is_pending now locked max_retry) o.rows)),
    length-take-le limit _,
    refl,
  )

module _ (max_retry : ℕ) where
  -- The attempts that are left to a row, and to the rows of a table.
  unfoldable pub attempts_left : OutboxEvent → ℕ
  attempts_left row = if is_some row.processed_at then 0 else max_retry - row.retry_count

  unfoldable pub total_left : List OutboxEvent → ℕ
  total_left [] = 0
  total_left (row ∷ rows) = attempts_left row + total_left rows

  -- An update gives a row no attempts, and takes one from a row that has some.
  abbrev pub Spends : (OutboxEvent → OutboxEvent) → Type 0
  Spends f =
      (row : OutboxEvent)
      → (attempts_left (f row) ≤ attempts_left row)
        × (0 < attempts_left row → attempts_left (f row) < attempts_left row)

  pub processed-Spends : (now : ℕ) → Spends (processed now)
  unfolding attempts_left
  processed-Spends now row = (omega arith, λ h. h)

  pub failed-Spends : (now : ℕ) (message : String) → Spends (failed now message)
  unfolding attempts_left
  failed-Spends now message row = elim (Bool-cases (is_some row.processed_at)) [
    | inl e ↦ rw e (omega arith, λ h. h)
    | inr e ↦ rw e (omega arith, λ h. omega arith)
  ]

  pub is_pending-left :
      (now : ℕ) (locked : ℕ → Bool) (row : OutboxEvent)
      → is_pending now locked max_retry row ≡ true
      → 0 < attempts_left row
  unfolding is_pending attempts_left
  is_pending-left now locked row h = ground arith

  module _ (id : ℕ) (f : OutboxEvent → OutboxEvent) (spends : Spends f) where
    pub total_left-update_row-le :
        (rows : List OutboxEvent) → total_left (update_row id f rows) ≤ total_left rows
    unfolding total_left update_row
    total_left-update_row-le [] = omega arith
    total_left-update_row-le (row ∷ rows) =
        ground (arith, (spends row).0, total_left-update_row-le rows)

    pub total_left-update_row-lt :
        (r : OutboxEvent) (rows : List OutboxEvent)
        → r.id ≡ id
        → 0 < attempts_left r
        → Has r rows
        → total_left (update_row id f rows) < total_left rows
    unfolding total_left update_row
    total_left-update_row-lt r [] e p h = elim h [ ]
    total_left-update_row-lt r (row ∷ rows) e p (inl h) = ground (
      arith,
      (spends r).1 p,
      ap (λ (x : OutboxEvent). x.id) h,
      ap attempts_left h,
      ap (λ x. attempts_left (f x)) h,
      total_left-update_row-le rows,
    )
    total_left-update_row-lt r (row ∷ rows) e p (inr h) =
        ground (arith, (spends row).0, total_left-update_row-lt r rows e p h)
