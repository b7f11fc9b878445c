-- ===== src/Worker/Notifications/Delivers.antt =====
-- Who is sent a notification: `processNotification` of internal/worker/notifications/processor.go while no call
-- of the database fails.
use go_grpc_starter.Prelude.{
  ℕ, suc, ◌≡◌, refl, ap, ◌∙◌, subst, true, false, Option, some, List, [], ◌∷◌, find, filter, ◌==◌,
  arith,
}
use go_grpc_starter.Errs.{ok}
use go_grpc_starter.Store.{Conn, query, run, with_tx}
use go_grpc_starter.Store.Calm.{IsCalm, run-query_calm, Does, run-query-Does}
use go_grpc_starter.Auth.Users.{bytes_eq}
use go_grpc_starter.Worker.Notifications.Tables.{
  FcmToken, NotificationPreferences, NotificationTemplate, TemplateRow, Translation, NotifyDb,
  preferences_of, active_tokens, find_preferences, find_active_by_user_id, find_by_event_type,
}
use go_grpc_starter.Worker.Notifications.Build.{Event}
use go_grpc_starter.Worker.Notifications.{
  Pushes, NotifyConfig, is_category_enabled, is_quiet_hours, wants, chosen,
  should_send_notification, send_to, send_all, send_wanted, process_notification,
}
use go_grpc_starter.Worker.Notifications.Deliver.{IsComplete, pushed, send_all-IsComplete}

module _ {W : Type 0} where
  find_preferences_runs :
      (id : ℕ) (prefs : NotificationPreferences) (c : Conn W NotifyDb)
      → IsCalm c
      → preferences_of id c.db ≡ some prefs
      → ((find_preferences id c).0 ≡ ok prefs)
        × ((find_preferences id c).1.db ≡ c.db)
        × ((find_preferences id c).1.outside ≡ c.outside)
        × ((find_preferences id c).1.in_tx ≡ c.in_tx)
        × ((find_preferences id c).1.aborted ≡ false)
        × ((find_preferences id c).1.faults ≡ c.faults)
  unfolding find_preferences run with_tx query
  find_preferences_runs id prefs c calm there = ground (
    arith,
    there,
    calm.sound,
    calm.no_faults c.clock,
    calm.no_faults (suc c.clock),
    calm.no_faults (suc (suc c.clock)),
    calm.no_faults (suc (suc (suc c.clock))),
  )

  find_preferences-Does :
      (id : ℕ) (prefs : NotificationPreferences) (c : Conn W NotifyDb)
      → IsCalm c
      → preferences_of id c.db ≡ some prefs
      → Does c (find_preferences id c).1 c.db
  find_preferences-Does id prefs c calm there =
      let (_, db, out, tx, sound, faults) = find_preferences_runs id prefs c calm there in
      record {
        same_db = db;
        same_outside = out;
        same_tx = tx;
        calm = record { no_faults = λ n. rw faults (calm.no_faults n); sound = sound };
      }

  find_by_event_type_calm :
      (event_type : List ℕ) (row : TemplateRow) (c : Conn W NotifyDb)
      → IsCalm c
      → find (λ (t : TemplateRow). bytes_eq t.event_type event_type) c.db.templates ≡ some row
      → ((find_by_event_type event_type c).0
          ≡ ok (record {
            row = row;
            translations = filter (λ (t : Translation). t.template_id == row.id) c.db.translations;
          }))
        × ((find_by_event_type event_type c).1.outside ≡ c.outside)
  unfolding find_by_event_type run with_tx query
  find_by_event_type_calm event_type row c calm there = ground (
    arith,
    there,
    calm.sound,
    calm.no_faults c.clock,
    calm.no_faults (suc c.clock),
    calm.no_faults (suc (suc c.clock)),
    calm.no_faults (suc (suc (suc c.clock))),
    calm.no_faults (suc (suc (suc (suc c.clock)))),
  )

abbrev pub with_its_words : TemplateRow → NotifyDb → NotificationTemplate
with_its_words row o = record {
  row = row;
  translations = filter (λ (t : Translation). t.template_id == row.id) o.translations;
}

abbrev pub template_for : Event → NotifyDb → Option TemplateRow
template_for event o =
    find (λ (t : TemplateRow). bytes_eq t.event_type event.event_type) o.templates

module _ {W : Type 0} (p : Pushes W) (cfg : NotifyConfig) (now : ℕ) where
  send_to_calm :
      (event : Event) (row : TemplateRow) (tokens : List FcmToken) (c : Conn W NotifyDb)
      → IsCalm c
      → template_for event c.db ≡ some row
      → IsComplete p cfg now event
          (with_its_words row c.db)
          tokens
          c.outside
          (send_to p cfg now event tokens c)
  unfolding send_to IsComplete pushed
  send_to_calm event row [] c calm there = (refl, refl)
  send_to_calm event row (t ∷ tokens) c calm there =
      let (found, out) = find_by_event_type_calm event.event_type row c calm there in
      let d = (find_by_event_type event.event_type c).1 in
      let whole = send_all-IsComplete p cfg now event (with_its_words row c.db) (t ∷ tokens) d in
      rw found (
        subst
          (λ w.
            IsComplete p cfg now event (with_its_words row c.db) (t ∷ tokens) w
              (send_all p cfg now event (t ∷ tokens) (with_its_words row c.db) d))
          out whole)

  send_wanted_calm :
      (event : Event) (row : TemplateRow) (c : Conn W NotifyDb)
      → IsCalm c
      → template_for event c.db ≡ some row
      → IsComplete p cfg now event
          (with_its_words row c.db)
          (active_tokens event.user_id c.db)
          c.outside
          (send_wanted p cfg now event c)
  unfolding send_wanted find_active_by_user_id
  send_wanted_calm event row c calm there =
      let q : NotifyDb → List FcmToken × NotifyDb = λ o. (active_tokens event.user_id o, o) in
      let (found, _, _, _, _, _) = run-query_calm c calm q in
      let d = run-query-Does c calm q in
      let whole =
        send_to_calm event row (active_tokens event.user_id c.db) (run (query q) c).1 d.calm
          (ap (template_for event) d.same_db ∙ there) in
      let c' = (run (query q) c).1 in
      let tokens = active_tokens event.user_id c.db in
      rw found (
        subst
          (λ w.
            IsComplete p cfg now event (with_its_words row c.db) tokens w
              (send_to p cfg now event tokens c'))
          d.same_outside
          (subst
            (λ o.
              IsComplete p cfg now event (with_its_words row o) tokens c'.outside
                (send_to p cfg now event tokens c'))
            d.same_db whole))

  -- A notification that is wanted reaches every device. While no call of the database fails, if there is a
  -- template for the event, the user has preferences, these let the event's category through, and it is not
  -- a quiet hour, then `processNotification` sends the message of that template once to each active token
  -- of the user, in their order, whatever Firebase answers, and returns the last error of Firebase, if there
  -- was one.
  pub process_notification-IsComplete :
      (event : Event) (prefs : NotificationPreferences) (row : TemplateRow) (c : Conn W NotifyDb)
      → IsCalm c
      → preferences_of event.user_id c.db ≡ some prefs
      → is_category_enabled prefs event.event_type ≡ true
      → is_quiet_hours p cfg now prefs c.outside ≡ false
      → template_for event c.db ≡ some row
      → IsComplete p cfg now event
          (with_its_words row c.db)
          (active_tokens event.user_id c.db)
          c.outside
          (process_notification p cfg now event c)
  unfolding process_notification should_send_notification wants
  process_notification-IsComplete event prefs row c calm has open_to waking there =
      let (read, _, _, _, _, _) = find_preferences_runs event.user_id prefs c calm has in
      let d = find_preferences-Does event.user_id prefs c calm has in
      let c' = (find_preferences event.user_id c).1 in
      let wanted : wants p cfg now event prefs c.outside ≡ true = ground (arith, open_to, waking) in
      let sends : chosen p cfg now event (find_preferences event.user_id c).0 c'.outside ≡ true =
        rw (read, d.same_outside) wanted in
      let whole =
        send_wanted_calm event row c' d.calm (ap (template_for event) d.same_db ∙ there) in
      rw sends (
        subst
          (λ w.
            IsComplete p cfg now event (with_its_words row c.db) (active_tokens event.user_id c.db)
              w (send_wanted p cfg now event c'))
          d.same_outside
          (subst
            (λ o.
              IsComplete p cfg now event (with_its_words row o) (active_tokens event.user_id o)
                c'.outside (send_wanted p cfg now event c'))
            d.same_db whole))
