-- ===== src/Event/Bus/Publish.antt =====
-- `Publish` of internal/event/bus.go: the outbox inside a transaction, and outside one.
use go_grpc_starter.Prelude.{
  ℕ, ◌<◌, ◌≡◌, refl, sym, subst, String, Bool, true, false, ◌&&◌, inl, inr, Option, none, some,
  List, [], ◌∷◌, ◌++◌, All, All-append, All-weaken, any, leb, arith, Option-cases, Bool-cases,
}
use go_grpc_starter.Errs.{Result, ok, err}
use go_grpc_starter.Store.{Conn}
use go_grpc_starter.Store.Inversion.{
  run-query-db, run-constrained_query-db, run-constrained_query-refused,
}
use go_grpc_starter.Event.Outbox.{Event, write, write_payload, mark_failed, outbox_duplicate}
use go_grpc_starter.Event.Outbox.Table.{
  OutboxEvent, Outbox, new_row, insert_outbox, update_row, failed, mark_outbox_failed,
}
use go_grpc_starter.Event.Bus.{
  Bus, Subscription, subscribers, enqueue_failed, is_enqueue_failed, deliver, mark_row, or_zero,
  write_row, publish_direct, publish_to, publish,
}

abbrev State : Type 0
State = Conn Bus Outbox

module _ (now : ℕ) (evt : Event) (c : State) (joined : c.in_tx ≡ true)
    (outbox : c.outside.has_outbox ≡ true) where
  abbrev row_of : String → OutboxEvent
  row_of payload = new_row now evt.event_type payload evt.dedupe_key c.db.next_id

-- The row of a delivery that is under way is not stamped as processed.
abbrev pub Unstamped : ℕ → OutboxEvent → Type 0
Unstamped id row = row.id ≡ id → row.processed_at ≡ none

failed-Unstamped :
    (now id n : ℕ) (message : String) (rows : List OutboxEvent)
    → All (Unstamped n) rows
    → All (Unstamped n) (update_row id (failed now message) rows)
unfolding update_row
failed-Unstamped now id n message [] h = tt
failed-Unstamped now id n message (row ∷ rows) h =
    (λ e. ground (arith, h.0), failed-Unstamped now id n message rows h.1)

mark_failed-Unstamped :
    (now id n : ℕ) (message : String) (c : State)
    → All (Unstamped n) c.db.rows
    → All (Unstamped n) (mark_failed now id message c).1.db.rows
unfolding mark_failed mark_outbox_failed
mark_failed-Unstamped now id n message c h =
    elim (run-query-db c (mark_outbox_failed now id message)) [
      | inl e ↦ subst (λ o. All (Unstamped n) o.rows) (sym e) h
      | inr e ↦
          subst (λ o. All (Unstamped n) o.rows) (sym e)
            (failed-Unstamped now id n message c.db.rows h)
    ]

insert_outbox-Unstamped :
    (now : ℕ) (event_type payload : String) (key : Option String) (o : Outbox) (id : ℕ)
    (o' : Outbox)
    → insert_outbox now event_type payload key o ≡ some (id, o')
    → All (λ row. row.id < o.next_id) o.rows
    → All (Unstamped o.next_id) o'.rows
unfolding insert_outbox
insert_outbox-Unstamped now event_type payload key o id o' h below =
    let e : o'.rows ≡ o.rows ++ new_row now event_type payload key o.next_id ∷ [] = ground arith in
    rw e (
      All-append (Unstamped o.next_id) o.rows _
        (All-weaken _ (Unstamped o.next_id) (λ row lt same. absurd (omega arith)) o.rows below)
        ((λ _. refl), tt))

write-Unstamped :
    (now : ℕ) (evt : Event) (c : State)
    → All (λ row. row.id < c.db.next_id) c.db.rows
    → All (Unstamped c.db.next_id) (write now evt c).1.db.rows
unfolding write
write-Unstamped now evt c below = go evt.payload
  where
    same : {o : Outbox} → o ≡ c.db → All (Unstamped c.db.next_id) o.rows
    same e =
        subst (λ o. All (Unstamped c.db.next_id) o.rows) (sym e)
          (All-weaken _ (Unstamped c.db.next_id) (λ row lt i. absurd (omega arith)) c.db.rows below)

    go : (p : Option String) → All (Unstamped c.db.next_id) (write_payload now evt p c).1.db.rows
    go none = same refl
    go (some p) = elim (Option-cases (insert_outbox now evt.event_type p evt.dedupe_key c.db)) [
      | inl refused ↦ same (run-constrained_query-refused c outbox_duplicate _ refused)
      | inr ((id, o), done) ↦ elim (run-constrained_query-db c outbox_duplicate _ id o done) [
        | inl e ↦ same e
        | inr e ↦
            subst (λ x. All (Unstamped c.db.next_id) x.rows) (sym e)
              (insert_outbox-Unstamped now evt.event_type p evt.dedupe_key c.db id o done below)
      ]
    ]

mark_row-Unstamped :
    (now id n : ℕ) (c : State)
    → All (Unstamped n) c.db.rows
    → All (Unstamped n) (mark_row now id (err enqueue_failed) c).db.rows
unfolding mark_row is_enqueue_failed
mark_row-Unstamped now id n c h = elim (Bool-cases (leb 1 id)) [
  | inl e ↦ rw e (mark_failed-Unstamped now id n "one or more enqueues failed" c h)
  | inr e ↦ rw e h
]

write_row-Unstamped :
    (now : ℕ) (evt : Event) (wanted : Bool) (c : State)
    → All (λ row. row.id < c.db.next_id) c.db.rows
    → All (Unstamped c.db.next_id) (write_row now evt wanted c).1.db.rows
unfolding write_row
write_row-Unstamped now evt true c below =
    subst (λ o. All (Unstamped c.db.next_id) o.rows) (sym (same_db (write now evt c)))
      (write-Unstamped now evt c below)
  where
    same_db : (p : Result ℕ × State) → (or_zero p).1.db ≡ p.1.db
    same_db (ok id, d) = refl
    same_db (err e, d) = refl
write_row-Unstamped now evt false c below =
    All-weaken _ (Unstamped c.db.next_id) (λ row lt i. absurd (omega arith)) c.db.rows below

publish_direct-Unstamped :
    (now : ℕ) (evt : Event) (subs : List Subscription) (c : State)
    → All (λ row. row.id < c.db.next_id) c.db.rows
    → (publish_direct now evt subs c).0 ≡ err enqueue_failed
    → All (Unstamped c.db.next_id) (publish_direct now evt subs c).1.db.rows
unfolding publish_direct deliver
publish_direct-Unstamped now evt subs c below h =
    let wanted = any (λ (s : Subscription). s.is_async) subs && c.outside.has_outbox in
    let d = (write_row now evt wanted c).1 in
    rw h (
      mark_row-Unstamped now (write_row now evt wanted c).0 c.db.next_id (deliver evt subs d).1
        (write_row-Unstamped now evt wanted c below))

publish_to_outside :
    (now : ℕ) (evt : Event) (s : Subscription) (subs : List Subscription) (c : State)
    → c.in_tx ≡ false
    → publish_to now false evt (s ∷ subs) c ≡ publish_direct now evt (s ∷ subs) c
unfolding publish_to
publish_to_outside now evt s subs c idle = ground arith

-- Outside a transaction, a call that returns `ErrEnqueueFailed` has left the row that it wrote for the
-- event unstamped, so that the drain takes it up again, even where the mark of the failure failed too.
pub publish-Unstamped :
    (now : ℕ) (evt : Event) (c : State)
    → c.in_tx ≡ false
    → All (λ row. row.id < c.db.next_id) c.db.rows
    → (publish now false evt c).0 ≡ err enqueue_failed
    → All (Unstamped c.db.next_id) (publish now false evt c).1.db.rows
unfolding publish
publish-Unstamped now evt c idle below = go (subscribers evt.event_type c.outside.subs)
  where
    go :
        (subs : List Subscription)
        → (publish_to now false evt subs c).0 ≡ err enqueue_failed
        → All (Unstamped c.db.next_id) (publish_to now false evt subs c).1.db.rows
    go [] h = cc
    go (s ∷ subs) h = rw (publish_to_outside now evt s subs c idle) (
        publish_direct-Unstamped now evt (s ∷ subs) c below
          (rw (publish_to_outside now evt s subs c idle) at h))
