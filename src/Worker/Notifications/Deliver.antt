-- ===== src/Worker/Notifications/Deliver.antt =====
-- What a notification sends, whatever the database does meanwhile: internal/worker/notifications/processor.go
-- against a description of its sends alone.
use go_grpc_starter.Prelude.{
  ℕ, String, ◌≡◌, refl, ap, ◌∙◌, subst, ◌⊎◌, inl, inr, ◌||◌, Bool-cases, if◌then◌else◌, Option,
  none, some, Option-cases, List, [], ◌∷◌, find, arith,
}
use go_grpc_starter.Errs.{other, Result, ok, err}
use go_grpc_starter.Store.{Conn, query, run, with_tx}
use go_grpc_starter.Store.Inversion.{run-query-outside}
use go_grpc_starter.Auth.Users.{bytes_eq}
use go_grpc_starter.Worker.Notifications.Bytes.{Text}
use go_grpc_starter.Worker.Notifications.Tables.{
  FcmToken, NotificationTemplate, NotificationLog, NotifyDb, TemplateRow, active_tokens,
  preferences_of, find_active_by_user_id, deactivate_by_id, update_last_used, find_preferences,
  find_by_event_type, create_log,
}
use go_grpc_starter.Worker.Notifications.Build.{Event, build_fcm_message}
use go_grpc_starter.Worker.Notifications.{
  Answer, delivered, refused, Pushes, NotifyConfig, SendResult, failure_of,
  should_send_notification, log_notification, after_send, send_to_token, with_template, with_tokens,
  chosen, as_error, send_each, send_all, send_to, send_wanted, process_notification,
}

module _ {W : Type 0} (p : Pushes W) (cfg : NotifyConfig) (now : ℕ) where
  abbrev State : Type 0
  State = Conn W NotifyDb

  -- The messages of the tokens, sent in turn, and the answers.
  unfoldable pub pushed : Event → NotificationTemplate → List FcmToken → W → List Answer × W
  pushed event template [] w = ([], w)
  pushed event template (t ∷ tokens) w =
      let (answer, w') = p.send (build_fcm_message cfg.links event template t.token) w in
      let (answers, w'') = pushed event template tokens w' in (answer ∷ answers, w'')

  abbrev next_failure : Option String → Answer → Option String
  next_failure last (delivered _) = last
  next_failure last (refused e) = some e.text

  -- The text of the last answer that is an error.
  abbrev pub last_failure : Option String → List Answer → Option String
  last_failure last [] = last
  last_failure last (answer ∷ answers) = last_failure (next_failure last answer) answers

  abbrev pub returned : Option String → Result (Unit {0})
  returned none = ok tt
  returned (some text) = err (other text)

  update_last_used-outside :
      (id : ℕ) (c : State) → (update_last_used now id c).1.outside ≡ c.outside
  unfolding update_last_used
  update_last_used-outside id c = run-query-outside c _

  deactivate_by_id-outside : (id : ℕ) (c : State) → (deactivate_by_id id c).1.outside ≡ c.outside
  unfolding deactivate_by_id
  deactivate_by_id-outside id c = run-query-outside c _

  create_log-outside :
      (payload : Result String) (log : NotificationLog) (c : State)
      → (create_log payload log c).1.outside ≡ c.outside
  unfolding create_log run with_tx query
  create_log-outside (err e) log c = ground arith
  create_log-outside (ok text) log c = ground arith

  log_notification-outside :
      (event : Event) (t : FcmToken) (r : SendResult) (c : State)
      → (log_notification p cfg now event t r c).1.outside ≡ c.outside
  unfolding log_notification
  log_notification-outside event t r c = create_log-outside (p.marshal_payload event) _ c

  -- One answer, and what the loop makes of it.
  Settled : Answer → Option String → FcmToken → State → Type 0
  Settled answer last t c =
      (r : SendResult) × ((after_send p cfg now t answer c).0 ≡ ok r)
      × ((after_send p cfg now t answer c).1.outside ≡ c.outside)
      × ((if r.success then last else some r.error_message) ≡ next_failure last answer)

  after_send-Settled :
      (answer : Answer) (last : Option String) (t : FcmToken) (c : State) → Settled answer last t c
  unfolding Settled after_send
  after_send-Settled (delivered id) last t c = (_, refl, update_last_used-outside t.id c, refl)
  after_send-Settled (refused e) last t c =
      elim (Bool-cases (e.is_unregistered || e.is_invalid_argument)) [
        | inl bad ↦ (failure_of t e, rw bad refl, rw bad (deactivate_by_id-outside t.id c), refl)
        | inr fine ↦ (failure_of t e, rw fine refl, rw fine refl, refl)
      ]

  send_each_lem :
      (event : Event) (template : NotificationTemplate) (last : Option String)
      (tokens : List FcmToken) (c : State)
      → ((send_each p cfg now event template last tokens c).0
          ≡ ok (last_failure last (pushed event template tokens c.outside).0))
        × ((send_each p cfg now event template last tokens c).1.outside
            ≡ (pushed event template tokens c.outside).1)
  unfolding send_each pushed send_to_token Settled
  send_each_lem event template last [] c = (refl, refl)
  send_each_lem event template last (t ∷ tokens) c =
      let (answer, w) = p.send (build_fcm_message cfg.links event template t.token) c.outside in
      let (r, e, out, next) = after_send-Settled answer last t (record c { outside = w }) in
      let d = (after_send p cfg now t answer (record c { outside = w })).1 in
      let d' = (log_notification p cfg now event t r d).1 in
      let ih = send_each_lem event template (next_failure last answer) tokens d' in
      let same = log_notification-outside event t r d ∙ out in
      rw (e, next)
        (
          ih.0
              ∙ ap
                  (λ v.
                    ok (last_failure (next_failure last answer) (pushed event template tokens v).0))
                  same,
          ih.1 ∙ ap (λ v. (pushed event template tokens v).1) same,
        )

  find_preferences-reads :
      (id : ℕ) (c : State)
      → ((find_preferences id c).1.outside ≡ c.outside) × ((find_preferences id c).1.db ≡ c.db)
  unfolding find_preferences run with_tx query
  find_preferences-reads id c = elim (Option-cases (preferences_of id c.db)) [
    | inl missing ↦ (ground (arith, missing), ground (arith, missing))
    | inr (row, there) ↦ (ground (arith, there), ground (arith, there))
  ]

  find_active-reads :
      (id : ℕ) (c : State)
      → ((find_active_by_user_id id c).1.outside ≡ c.outside)
        × ((tokens : List FcmToken)
            → (find_active_by_user_id id c).0 ≡ ok tokens
            → tokens ≡ active_tokens id c.db)
  unfolding find_active_by_user_id run with_tx query
  find_active-reads id c =
      (run-query-outside c (λ o. (active_tokens id o, o)), λ tokens h. ground (arith, h))

  find_by_event_type-outside :
      (event_type : Text) (c : State) → (find_by_event_type event_type c).1.outside ≡ c.outside
  unfolding find_by_event_type run with_tx query
  find_by_event_type-outside event_type c =
      elim (Option-cases
        (find (λ (t : TemplateRow). bytes_eq t.event_type event_type) c.db.templates)) [
          | inl missing ↦ ground (arith, missing)
          | inr (row, there) ↦ ground (arith, there)
        ]

  -- Every one of the tokens was tried, and the last failure is the result.
  unfoldable pub IsComplete :
      Event → NotificationTemplate → List FcmToken → W → Result (Unit {0}) × State → Type 0
  IsComplete event template tokens w x =
      (x.0 ≡ returned (last_failure none (pushed event template tokens w).0))
      × (x.1.outside ≡ (pushed event template tokens w).1)

  -- Either nothing was sent, or every one of the tokens was tried.
  pub IsWhole : Event → List FcmToken → W → Result (Unit {0}) × State → Type 0
  IsWhole event tokens w x =
      (x.1.outside ≡ w) ⊎ ((t : NotificationTemplate) × IsComplete event t tokens w x)

  as_error-returned :
      (last : Option String) (c : State)
      → ((as_error p cfg now last c).0 ≡ returned last)
        × ((as_error p cfg now last c).1.outside ≡ c.outside)
  as_error-returned none c = (refl, refl)
  as_error-returned (some text) c = (refl, refl)

  pub send_all-IsComplete :
      (event : Event) (template : NotificationTemplate) (tokens : List FcmToken) (c : State)
      → IsComplete event template tokens c.outside (send_all p cfg now event tokens template c)
  unfolding send_all IsComplete
  send_all-IsComplete event template tokens c =
      let (answered, out) = send_each_lem event template none tokens c in
      let d = (send_each p cfg now event template none tokens c).1 in
      let (result, same) =
        as_error-returned (last_failure none (pushed event template tokens c.outside).0) d in
      rw answered (result, same ∙ out)

  with_template-IsWhole :
      (event : Event) (tokens : List FcmToken) (r : Result NotificationTemplate) (c : State)
      → IsWhole event tokens c.outside (with_template p cfg now event tokens r c)
  unfolding IsWhole
  with_template-IsWhole event tokens (ok template) c =
      inr (template, send_all-IsComplete event template tokens c)
  with_template-IsWhole event tokens (err e) c = inl (ground arith)

  send_to-IsWhole :
      (event : Event) (tokens : List FcmToken) (c : State)
      → IsWhole event tokens c.outside (send_to p cfg now event tokens c)
  unfolding send_to IsWhole
  send_to-IsWhole event [] c = inl refl
  send_to-IsWhole event (t ∷ tokens) c =
      let (r, d) = find_by_event_type event.event_type c in
      subst (λ w. IsWhole event (t ∷ tokens) w (with_template p cfg now event (t ∷ tokens) r d))
        (find_by_event_type-outside event.event_type c)
        (with_template-IsWhole event (t ∷ tokens) r d)

  with_tokens-IsWhole :
      (event : Event) (all : List FcmToken) (r : Result (List FcmToken)) (c : State)
      → ((tokens : List FcmToken) → r ≡ ok tokens → tokens ≡ all)
      → IsWhole event all c.outside (with_tokens p cfg now event r c)
  unfolding IsWhole
  with_tokens-IsWhole event all (ok tokens) c h =
      subst (λ x. IsWhole event x c.outside (send_to p cfg now event tokens c)) (h tokens refl)
        (send_to-IsWhole event tokens c)
  with_tokens-IsWhole event all (err e) c h = inl refl

  send_wanted-IsWhole :
      (event : Event) (c : State)
      → IsWhole event (active_tokens event.user_id c.db) c.outside (send_wanted p cfg now event c)
  unfolding send_wanted
  send_wanted-IsWhole event c =
      let (out, all) = find_active-reads event.user_id c in
      let (r, d) = find_active_by_user_id event.user_id c in
      subst
        (λ w. IsWhole event (active_tokens event.user_id c.db) w (with_tokens p cfg now event r d))
        out (with_tokens-IsWhole event (active_tokens event.user_id c.db) r d all)

  -- A notification is sent to all of the user's devices or to none. `processNotification` either sends
  -- nothing, or it sends the message of one template once to each active token of the user, in their
  -- order, whatever Firebase answers and whatever the database does meanwhile, and then returns the last
  -- error of Firebase, if there was one.
  pub process_notification-IsWhole :
      (event : Event) (c : State)
      → IsWhole event
          (active_tokens event.user_id c.db)
          c.outside
          (process_notification p cfg now event c)
  unfolding process_notification should_send_notification IsWhole
  process_notification-IsWhole event c =
      let (out, same) = find_preferences-reads event.user_id c in
      let (r, d) = find_preferences event.user_id c in
      elim (Bool-cases (chosen p cfg now event r d.outside)) [
        | inl wanted ↦ rw wanted (
            subst
              (λ w.
                IsWhole event (active_tokens event.user_id c.db) w (send_wanted p cfg now event d))
              out
              (subst
                (λ o.
                  IsWhole event (active_tokens event.user_id o) d.outside
                    (send_wanted p cfg now event d))
                same (send_wanted-IsWhole event d)))
        | inr unwanted ↦ rw unwanted (inl out)
      ]
