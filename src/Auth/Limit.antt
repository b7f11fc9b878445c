-- ===== src/Auth/Limit.antt =====
-- The device limit of internal/auth/session.go (`evictOldestIfOverLimit`).
use mathlib.Core.List.{reverse}
use go_grpc_starter.Prelude.{
  ℕ, ◌<◌, String, ◌≡◌, refl, ap, ◌∙◌, true, false, ◌&&◌, List, [], ◌∷◌, filter, find, Has, length,
  leb, ◌==◌, arith, Bool-cases, Option-cases, inl, inr,
}
use go_grpc_starter.Errs.{Result, ok}
use go_grpc_starter.Store.{Conn, run, query}
use go_grpc_starter.Store.Calm.{IsCalm, run-query-Does, run-query_calm}
use go_grpc_starter.Auth.Entity.{DeviceSession, RefreshToken}
use go_grpc_starter.Auth.Tables.{
  AuthDb, is_open, revoke_sessions_where, revoke_tokens_where, is_active_device, latest_first,
  list_active_devices,
}
use go_grpc_starter.Auth.Repository.{
  session_revoke, revoke_by_session_id, find_active_devices_by_user, done,
}
use go_grpc_starter.Auth.Session.{
  Collaborators, AuthConfig, drop_tokens, revoke_session_and_tokens, evict_loop, evict_rows,
  evict_listed, evict_oldest_if_over_limit,
}
use go_grpc_starter.Auth.Calm.{session_revoke_there, session_revoke-Does}
use go_grpc_starter.Auth.Distinct.{IsDistinct}
use go_grpc_starter.Auth.Evict.{
  active, active_count, closed, find-active, Listed, Listed-closed, listed,
}

module _ (now : ℕ) (user_id : ℕ) where
  module _ {W Settings : Type 0} (k : Collaborators W Settings) (cfg : AuthConfig) where
    abbrev timeout : ℕ
    timeout = cfg.max_inactivity_timeout

    abbrev State : Type 0
    State = Conn W AuthDb

    -- A calm action outside a transaction that succeeds, and what it leaves of the table of sessions.
    record Leaves (r : Result (Unit {0}) × State) (xs : List DeviceSession) : Type 0 where
      fine : r.0 ≡ ok tt
      calm : IsCalm r.1
      idle : r.1.in_tx ≡ false
      sessions : r.1.db.sessions ≡ xs

    drop_tokens-Leaves :
        (id : ℕ) (reason : String) (c : State)
        → IsCalm c
        → c.in_tx ≡ false
        → Leaves (drop_tokens k cfg now id reason c) c.db.sessions
    unfolding drop_tokens revoke_by_session_id revoke_tokens_where
    drop_tokens-Leaves id reason c calm idle =
        let does =
          run-query-Does c calm
            (done (revoke_tokens_where now reason (λ (t : RefreshToken). t.session_id == id))) in
        record {
          fine = refl;
          calm = record { no_faults = does.calm.no_faults; sound = does.calm.sound };
          idle = does.same_tx ∙ idle;
          sessions = ap (λ (o : AuthDb). o.sessions) does.same_db;
        }

    after_revoke :
        (reason : String) (r s : DeviceSession) (c : State)
        → (session_revoke now reason r.id c).0 ≡ ok s
        → revoke_session_and_tokens k cfg now r reason c
          ≡ drop_tokens k cfg now r.id reason (session_revoke now reason r.id c).1
    unfolding revoke_session_and_tokens
    after_revoke reason r s c h = rw h refl

    closed-sessions :
        (reason : String) (id : ℕ) (o : AuthDb)
        → (revoke_sessions_where now reason (λ (s : DeviceSession). s.id == id) o).sessions
          ≡ closed now timeout user_id reason id o.sessions
    unfolding revoke_sessions_where
    closed-sessions reason id o = refl

    revoke-Leaves :
        (reason : String) (r : DeviceSession) (c : State)
        → IsCalm c
        → c.in_tx ≡ false
        → active now timeout user_id r ≡ true
        → Has r c.db.sessions
        → Leaves
            (revoke_session_and_tokens k cfg now r reason c)
            (closed now timeout user_id reason r.id c.db.sessions)
    revoke-Leaves reason r c calm idle is_active has =
        elim (Option-cases
          (find (λ (s : DeviceSession). s.id == r.id && is_open s) c.db.sessions)) [
            | inl missing ↦
                elim (find-active now timeout user_id r c.db.sessions is_active has missing) [ ]
            | inr (s, there) ↦
                let does = session_revoke-Does c calm idle now reason r.id in
                let d = (session_revoke now reason r.id c).1 in
                let rest = drop_tokens-Leaves r.id reason d does.calm (does.same_tx ∙ idle) in
                let e =
                  after_revoke reason r s c
                    (session_revoke_there c calm idle now reason r.id s there) in
                rw e (record {
                  fine = rest.fine;
                  calm = rest.calm;
                  idle = rest.idle;
                  sessions =
                      rest.sessions
                      ∙ ap (λ (o : AuthDb). o.sessions) does.same_db
                      ∙ closed-sessions reason r.id c.db;
                })
          ]

    evict_one :
        (r : DeviceSession) (rows : List DeviceSession) (c : State)
        → leb cfg.max_devices_per_user (length (r ∷ rows)) ≡ true
        → (revoke_session_and_tokens k cfg now r "device_limit" c).0 ≡ ok tt
        → evict_loop k cfg now (r ∷ rows) c
          ≡ evict_loop k cfg now rows (revoke_session_and_tokens k cfg now r "device_limit" c).1
    unfolding evict_loop
    evict_one r rows c over fine = rw (over, fine) refl

    evict_none :
        (r : DeviceSession) (rows : List DeviceSession) (c : State)
        → leb cfg.max_devices_per_user (length (r ∷ rows)) ≡ false
        → evict_loop k cfg now (r ∷ rows) c ≡ (ok tt, c)
    unfolding evict_loop
    evict_none r rows c under = rw under refl

    evict_loop-below :
        (rows : List DeviceSession) (c : State)
        → IsCalm c
        → c.in_tx ≡ false
        → 0 < cfg.max_devices_per_user
        → Listed now timeout user_id rows c.db.sessions
        → active_count now timeout user_id (evict_loop k cfg now rows c).1.db.sessions
          < cfg.max_devices_per_user
    unfolding evict_loop
    evict_loop-below [] c calm idle limited h = let counted = h.counted in omega arith
    evict_loop-below (r ∷ rows) c calm idle limited h =
        elim (Bool-cases (leb cfg.max_devices_per_user (length (r ∷ rows)))) [
          | inl over ↦
              let left = revoke-Leaves "device_limit" r c calm idle h.present.0.1 h.present.0.0 in
              rw (evict_one r rows c over left.fine) (
                evict_loop-below rows (revoke_session_and_tokens k cfg now r "device_limit" c).1
                  left.calm left.idle limited
                  (rw left.sessions
                    (Listed-closed now timeout user_id "device_limit" r rows c.db.sessions h)))
          | inr under ↦
              let counted = h.counted in
              rw (evict_none r rows c under) (ground (arith, under, counted))
        ]

    evict_listed-below :
        (c : State)
        → IsCalm c
        → c.in_tx ≡ false
        → 0 < cfg.max_devices_per_user
        → IsDistinct c.db.sessions
        → active_count now timeout user_id (evict_listed k cfg now user_id c).1.db.sessions
          < cfg.max_devices_per_user
    unfolding evict_listed evict_rows find_active_devices_by_user list_active_devices
    evict_listed-below c calm idle limited d =
        let q = list_active_devices now timeout user_id in
        let does = run-query-Does c calm q in
        let found = (run-query_calm c calm q).0 in
        let kept = ap (λ (o : AuthDb). o.sessions) does.same_db in
        rw found (
          evict_loop-below
            (reverse (latest_first (filter (is_active_device now timeout user_id) c.db.sessions)))
            (run (query q) c).1 does.calm (does.same_tx ∙ idle) limited
            (rw kept (listed now timeout user_id c.db.sessions d)))

    -- While no call of the database fails, and outside a transaction, `evictOldestIfOverLimit` with a
    -- positive limit leaves the user fewer active sessions than the limit, so there is room for the
    -- session that is about to open; the identifiers of the sessions are distinct.
    pub evict_oldest_below :
        (c : State)
        → IsCalm c
        → c.in_tx ≡ false
        → 0 < cfg.max_devices_per_user
        → IsDistinct c.db.sessions
        → active_count now cfg.max_inactivity_timeout user_id
            (evict_oldest_if_over_limit k cfg now user_id c).1.db.sessions
          < cfg.max_devices_per_user
    unfolding evict_oldest_if_over_limit
    evict_oldest_below c calm idle limited d = elim (Bool-cases (cfg.max_devices_per_user == 0)) [
      | inl off ↦ ground (arith, off, limited)
      | inr on ↦ rw on (evict_listed-below c calm idle limited d)
    ]
