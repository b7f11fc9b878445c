-- ===== src/Event/Drain/Finish.antt =====
-- The loop of `drainOnce` in internal/event/bus.go.
use go_grpc_starter.Prelude.{
  ℕ, zero, suc, ◌≤◌, ◌<◌, ◌≡◌, refl, Bool, true, false, List, [], ◌∷◌, inl, inr, length, ltb, not,
  ◌||◌, arith, All, Has, String, some, Bool-cases,
}
use go_grpc_starter.Event.Outbox.{outbox_max_retry}
use go_grpc_starter.Event.Outbox.Table.{OutboxEvent, is_pending, update_row}
use go_grpc_starter.Event.Outbox.Pending.{
  total_left, Spends, processed-Spends, failed-Spends, is_pending-left, total_left-update_row-le,
  total_left-update_row-lt, pending_outbox_batch_sound,
}
use go_grpc_starter.Event.Drain.{Factory, drain_batch, drain_once, breaker_allows}
use go_grpc_starter.Event.Drain.Settle.{State, Fate, settled, retried, apply_fate}
use go_grpc_starter.Event.Drain.Batch.{
  apply_fates, claimed, aborts, commits, drain_batch_outcome, drain_batch_idle,
}

-- The attempts that the rows of the outbox have left.
abbrev pub chances : List OutboxEvent → ℕ
chances = total_left outbox_max_retry

fate-Spends : (now : ℕ) (fate : Fate) → Spends outbox_max_retry (apply_fate now fate)
fate-Spends now settled = processed-Spends outbox_max_retry now
fate-Spends now (retried m) = failed-Spends outbox_max_retry now m

apply_fates-le :
    (now : ℕ) (rows : List OutboxEvent) (fates : List Fate) (table : List OutboxEvent)
    → chances (apply_fates now rows fates table) ≤ chances table
apply_fates-le now [] fates table = omega arith
apply_fates-le now (row ∷ rows) [] table = omega arith
apply_fates-le now (row ∷ rows) (fate ∷ fates) table = omega (
  arith,
  apply_fates-le now rows fates (update_row row.id (apply_fate now fate) table),
  total_left-update_row-le outbox_max_retry row.id (apply_fate now fate) (fate-Spends now fate)
      table,
)

-- A batch that is not empty spends an attempt.
apply_fates-lt :
    (now : ℕ) (locked : ℕ → Bool) (rows : List OutboxEvent) (fates : List Fate)
    (table : List OutboxEvent)
    → All (λ r. Has r table × (is_pending now locked outbox_max_retry r ≡ true)) rows
    → length fates ≡ length rows
    → 0 < length rows
    → chances (apply_fates now rows fates table) < chances table
apply_fates-lt now locked [] fates table h e pos = absurd (omega arith)
apply_fates-lt now locked (row ∷ rows) [] table h e pos = absurd (omega arith)
apply_fates-lt now locked (row ∷ rows) (fate ∷ fates) table h e pos = omega (
  arith,
  apply_fates-le now rows fates (update_row row.id (apply_fate now fate) table),
  total_left-update_row-lt outbox_max_retry row.id (apply_fate now fate) (fate-Spends now fate) row
      table refl (is_pending-left outbox_max_retry now locked row h.0.1) h.0.0,
)

goes_on : (ok short stop : Bool) → (not ok || short || stop) ≡ false → ok ≡ true
goes_on ok short stop h = ground arith

goes_full : (ok short stop : Bool) → (not ok || short || stop) ≡ false → short ≡ false
goes_full ok short stop h = ground arith

module _ (registry : List (String × Factory)) where
  -- A turn of the loop that goes on has claimed a row and spent an attempt of it.
  turn-lt :
      (now : ℕ) (locked : ℕ → Bool) (c : State)
      → c.in_tx ≡ false
      → 0 < c.outside.drain_batch_size
      → (drain_batch now locked registry c).0.1 ≡ true
      → ltb
          (drain_batch now locked registry c).0.0
          (drain_batch now locked registry c).1.outside.drain_batch_size
        ≡ false
      → (chances (drain_batch now locked registry c).1.db.rows < chances c.db.rows)
        × (0 < (drain_batch now locked registry c).1.outside.drain_batch_size)
  turn-lt now locked c idle pos go_on full = elim (drain_batch_outcome now locked registry c idle) [
    | aborts e _ ↦ cc (e, go_on)
    | commits e all ↦
        let size = c.outside.drain_batch_size in
        let sound = pending_outbox_batch_sound now locked outbox_max_retry size c.db in
        let more : 0 < length (claimed now locked registry size c.db) =
          ground (arith, all.size_kept) in
        (
          rw all.same_rows (
              apply_fates-lt now locked (claimed now locked registry size c.db) all.fates c.db.rows
                sound.0 all.one_each more),
          omega (arith, all.size_kept),
        )
  ]

  -- With more fuel than the rows of the outbox have attempts left, `drainOnce`, started outside a
  -- transaction with a positive batch size, comes to an end, at whatever times its batches run, whatever
  -- rows other replicas hold, and whatever the database, the queue and the handlers do: a batch that is
  -- not the last spends an attempt. Between the batches nothing else writes the outbox.
  pub drain_once_ends :
      (now : ℕ → ℕ) (locked : ℕ → ℕ → Bool) (fuel : ℕ) (cancelled : ℕ → Bool) (c : State)
      → c.in_tx ≡ false
      → 0 < c.outside.drain_batch_size
      → chances c.db.rows < fuel
      → (d : State) × (drain_once fuel now cancelled locked registry c ≡ some d)
  unfolding drain_once
  drain_once_ends now locked zero cancelled c idle pos h = absurd (omega arith)
  drain_once_ends now locked (suc fuel) cancelled c idle pos h =
      let (r, d) = drain_batch (now c.clock) (locked c.clock) registry c in
      elim (Bool-cases (not (breaker_allows (now c.clock) c.outside))) [
        | inl held ↦ (c, rw held)
        | inr allowed ↦
            elim (Bool-cases (not r.1 || ltb r.0 d.outside.drain_batch_size || cancelled d.clock)) [
              | inl last ↦ (d, rw (allowed, last))
              | inr more ↦
                  let (less, pos') =
                    turn-lt (now c.clock) (locked c.clock) c idle pos (goes_on r.1 _ _ more)
                      (goes_full r.1 _ _ more) in
                  rw (allowed, more)
                    (drain_once_ends now locked fuel cancelled d
                      (drain_batch_idle (now c.clock) (locked c.clock) registry c idle) pos'
                      (omega arith))
            ]
      ]
