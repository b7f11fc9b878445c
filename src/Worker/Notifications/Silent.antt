-- ===== src/Worker/Notifications/Silent.antt =====
-- Who is not sent a notification, and who is: `shouldSendNotification` of
-- internal/worker/notifications/processor.go.
use go_grpc_starter.Prelude.{
  ℕ, suc, ◌/◌, ◌<◌, ◌≡◌, refl, ◌∙◌, true, false, some, ltb, str_eq, arith,
}
use go_grpc_starter.Errs.{ok}
use go_grpc_starter.Store.{Conn, query, run, with_tx}
use go_grpc_starter.Store.Calm.{IsCalm}
use go_grpc_starter.Worker.Notifications.Bytes.{clock_text, time_of_day}
use go_grpc_starter.Worker.Notifications.Tables.{
  NotificationPreferences, NotifyDb, preferences_of, find_preferences,
}
use go_grpc_starter.Worker.Notifications.Build.{Event}
use go_grpc_starter.Worker.Notifications.{
  Pushes, NotifyConfig, is_quiet_hours, quiet_from, chosen, wants, should_send_notification,
  process_notification,
}
use go_grpc_starter.Worker.Notifications.Quiet.{clockwise, is_between_lem}

module _ {W : Type 0} (p : Pushes W) (cfg : NotifyConfig) (now : ℕ) where
  find_preferences_calm :
      (id : ℕ) (prefs : NotificationPreferences) (c : Conn W NotifyDb)
      → IsCalm c
      → preferences_of id c.db ≡ some prefs
      → ((find_preferences id c).0 ≡ ok prefs) × ((find_preferences id c).1.outside ≡ c.outside)
  unfolding find_preferences run with_tx query
  find_preferences_calm id prefs c calm there = ground (
    arith,
    there,
    calm.sound,
    calm.no_faults c.clock,
    calm.no_faults (suc c.clock),
    calm.no_faults (suc (suc c.clock)),
    calm.no_faults (suc (suc (suc c.clock))),
  )

  -- A notification that the preferences do not want, while no call of the database fails.
  unwanted_silent :
      (event : Event) (prefs : NotificationPreferences) (c : Conn W NotifyDb)
      → IsCalm c
      → preferences_of event.user_id c.db ≡ some prefs
      → wants p cfg now event prefs c.outside ≡ false
      → ((process_notification p cfg now event c).0 ≡ ok tt)
        × ((process_notification p cfg now event c).1.outside ≡ c.outside)
  unfolding process_notification should_send_notification
  unwanted_silent event prefs c calm there off =
      let (read, out) = find_preferences_calm event.user_id prefs c calm there in
      let refuses : chosen p cfg now event (find_preferences event.user_id c).0
            (find_preferences event.user_id c).1.outside
          ≡ false =
        rw (read, out) off in
      rw refuses (refl, out)

  -- The quiet hours of a user, by the clock of the user's zone.
  pub record IsQuiet (prefs : NotificationPreferences) (w : W) : Type 0 where
    pub start : ℕ
    pub end_at : ℕ
    pub current : ℕ
    pub starts : prefs.quiet_hours_start ≡ some start
    pub ends : prefs.quiet_hours_end ≡ some end_at
    pub start_in_day : start / 1000000 < 86400
    pub end_in_day : end_at / 1000000 < 86400
    pub zoned : str_eq prefs.timezone "" ≡ false
    pub clock : p.clock_in prefs.timezone w ≡ some (clock_text current)
    pub current_in_day : current < 86400
    pub within :
        clockwise (start / 1000000) current < clockwise (start / 1000000) (end_at / 1000000)

  is_quiet_hours_lem :
      (prefs : NotificationPreferences) (w : W)
      → IsQuiet prefs w
      → is_quiet_hours p cfg now prefs w ≡ true
  unfolding is_quiet_hours quiet_from time_of_day
  is_quiet_hours_lem prefs w q =
      let first : ltb (clockwise (q.start / 1000000) q.current)
            (clockwise (q.start / 1000000) (q.end_at / 1000000))
          ≡ true =
        ground (arith, q.within) in
      let between =
        is_between_lem (q.start / 1000000) (q.end_at / 1000000) q.current q.start_in_day
          q.end_in_day q.current_in_day in
      rw (q.starts, q.ends, q.zoned, q.clock) (between ∙ first)

  wants-IsQuiet :
      (event : Event) (prefs : NotificationPreferences) (w : W)
      → cfg.check_enabled ≡ true
      → prefs.quiet_hours_enabled ≡ true
      → IsQuiet prefs w
      → wants p cfg now event prefs w ≡ false
  unfolding wants
  wants-IsQuiet event prefs w checks on q =
      let quiet = is_quiet_hours_lem prefs w q in ground (arith, checks, on, quiet)

  -- Nothing is sent in a user's quiet hours. While no call of the database fails, and the configuration
  -- checks quiet hours, a notification for a user who has switched them on, at a time that lies between
  -- their start and their end by the clock of the user's own zone, also over midnight, returns no error and
  -- sends nothing.
  pub quiet_hours_silent :
      (event : Event) (prefs : NotificationPreferences) (c : Conn W NotifyDb)
      → IsCalm c
      → preferences_of event.user_id c.db ≡ some prefs
      → cfg.check_enabled ≡ true
      → prefs.quiet_hours_enabled ≡ true
      → IsQuiet prefs c.outside
      → ((process_notification p cfg now event c).0 ≡ ok tt)
        × ((process_notification p cfg now event c).1.outside ≡ c.outside)
  quiet_hours_silent event prefs c calm there checks on q =
      unwanted_silent event prefs c calm there (wants-IsQuiet event prefs c.outside checks on q)
