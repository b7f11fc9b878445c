-- ===== src/Auth/Eviction.antt =====
-- `evictOldestIfOverLimit` of internal/auth/session.go and the connection it runs on.
use go_grpc_starter.Prelude.{
  ℕ, String, ◌≡◌, true, false, Option, none, some, List, [], ◌∷◌, length, leb, ◌==◌, Bool-cases,
  inl, inr,
}
use go_grpc_starter.Errs.{GoError}
use go_grpc_starter.Store.{Conn, ◌>>◌}
use go_grpc_starter.Store.Joined.{
  IsJoined, pure-IsJoined, raise-IsJoined, query-IsJoined, run-IsJoined, bind-IsJoined,
}
use mathlib.Core.List.{reverse}
use go_grpc_starter.Store.Idle.{IsIdle, bind-IsIdle, run-IsIdle}
use go_grpc_starter.Auth.Entity.{DeviceSession, err_session_not_found}
use go_grpc_starter.Auth.Tables.{AuthDb}
use go_grpc_starter.Auth.Repository.{
  or_missing, find_active_devices_by_user, session_revoke, revoke_by_session_id,
}
use go_grpc_starter.Auth.Session.{
  drop_tokens, evict_listed, evict_rows, Collaborators, AuthConfig, evict_loop,
  revoke_session_and_tokens, evict_oldest_if_over_limit,
}

module _ {W Settings : Type 0} (k : Collaborators W Settings) (cfg : AuthConfig) (now : ℕ) where
  abbrev State : Type 0
  State = Conn W AuthDb

  session_revoke-IsIdle : (reason : String) (id : ℕ) → IsIdle {R = W} (session_revoke now reason id)
  unfolding session_revoke
  session_revoke-IsIdle reason id = run-IsIdle _

  revoke_by_session_id-IsIdle :
      (id : ℕ) (reason : String) → IsIdle {R = W} (revoke_by_session_id now id reason)
  unfolding revoke_by_session_id
  revoke_by_session_id-IsIdle id reason = run-IsIdle _

  drop_tokens-IsIdle : (id : ℕ) (reason : String) → IsIdle (drop_tokens k cfg now id reason)
  unfolding drop_tokens
  drop_tokens-IsIdle id reason = record {
    at = λ c h. (revoke_by_session_id-IsIdle id reason).at c h;
  }

  revoke_session_and_tokens-IsIdle :
      (s : DeviceSession) (reason : String) → IsIdle (revoke_session_and_tokens k cfg now s reason)
  unfolding revoke_session_and_tokens
  revoke_session_and_tokens-IsIdle s reason =
      bind-IsIdle (λ _. drop_tokens k cfg now s.id reason) (λ _. drop_tokens-IsIdle s.id reason)
        (session_revoke now reason s.id) (session_revoke-IsIdle reason s.id)

  evict_loop-IsIdle : (sessions : List DeviceSession) → IsIdle (evict_loop k cfg now sessions)
  unfolding evict_loop
  evict_loop-IsIdle [] = record { at = λ c h. h }
  evict_loop-IsIdle (s ∷ rest) = record {
    at = λ c h.
        let more =
          bind-IsIdle (λ _. evict_loop k cfg now rest) (λ _. evict_loop-IsIdle rest)
            (revoke_session_and_tokens k cfg now s "device_limit")
            (revoke_session_and_tokens-IsIdle s "device_limit") in
        elim (Bool-cases (leb cfg.max_devices_per_user (length (s ∷ rest)))) [
          | inl over ↦ rw over (more.at c h)
          | inr under ↦ rw under h
        ];
  }

  evict_listed-IsIdle : (user_id : ℕ) → IsIdle (evict_listed k cfg now user_id)
  unfolding evict_listed find_active_devices_by_user
  evict_listed-IsIdle user_id =
      bind-IsIdle (evict_rows k cfg now)
        (λ rows. unfold evict_rows in evict_loop-IsIdle (reverse rows))
        (find_active_devices_by_user now user_id cfg.max_inactivity_timeout) (run-IsIdle _)

  pub evict-idle :
      (user_id : ℕ) (c : State)
      → c.in_tx ≡ false
      → (evict_oldest_if_over_limit k cfg now user_id c).1.in_tx ≡ false
  unfolding evict_oldest_if_over_limit
  evict-idle user_id c h = elim (Bool-cases (cfg.max_devices_per_user == 0)) [
    | inl off ↦ rw off h
    | inr limited ↦ rw limited ((evict_listed-IsIdle user_id).at c h)
  ]

  or_missing-IsJoined :
      {A : Type 0} (e : GoError) (o : Option A) → IsJoined {R = W} (or_missing {W = W} e o)
  or_missing-IsJoined e none = raise-IsJoined e
  or_missing-IsJoined e (some a) = pure-IsJoined a

  session_revoke-IsJoined :
      (reason : String) (id : ℕ) → IsJoined {R = W} (session_revoke now reason id)
  unfolding session_revoke
  session_revoke-IsJoined reason id =
      run-IsJoined _
        (bind-IsJoined _ (or_missing-IsJoined err_session_not_found) _ (query-IsJoined _))

  drop_tokens-IsJoined : (id : ℕ) (reason : String) → IsJoined (drop_tokens k cfg now id reason)
  unfolding drop_tokens revoke_by_session_id
  drop_tokens-IsJoined id reason = record {
    at = λ c h. (run-IsJoined {R = W} _ (query-IsJoined _)).at c h;
  }

  revoke_session_and_tokens-IsJoined :
      (s : DeviceSession) (reason : String)
      → IsJoined (revoke_session_and_tokens k cfg now s reason)
  unfolding revoke_session_and_tokens
  revoke_session_and_tokens-IsJoined s reason =
      bind-IsJoined _ (λ _. drop_tokens-IsJoined s.id reason) _
        (session_revoke-IsJoined reason s.id)

  more-IsJoined :
      (s : DeviceSession) (rest : List DeviceSession)
      → IsJoined (evict_loop k cfg now rest)
      → IsJoined
          (do revoke_session_and_tokens k cfg now s "device_limit"; evict_loop k cfg now rest)
  more-IsJoined s rest h =
      bind-IsJoined _ (λ _. h) _ (revoke_session_and_tokens-IsJoined s "device_limit")

  evict_loop-IsJoined : (sessions : List DeviceSession) → IsJoined (evict_loop k cfg now sessions)
  unfolding evict_loop
  evict_loop-IsJoined [] = record { at = λ c h. h }
  evict_loop-IsJoined (s ∷ rest) = record {
    at = λ c h. elim (Bool-cases (leb cfg.max_devices_per_user (length (s ∷ rest)))) [
      | inl over ↦ rw over ((more-IsJoined s rest (evict_loop-IsJoined rest)).at c h)
      | inr under ↦ rw under h
    ];
  }

  evict_listed-IsJoined : (user_id : ℕ) → IsJoined (evict_listed k cfg now user_id)
  unfolding evict_listed evict_rows find_active_devices_by_user
  evict_listed-IsJoined user_id =
      bind-IsJoined _ (λ rows. evict_loop-IsJoined (reverse rows)) _
        (run-IsJoined _ (query-IsJoined _))

  pub evict-joined :
      (user_id : ℕ) (c : State)
      → c.in_tx ≡ true
      → (evict_oldest_if_over_limit k cfg now user_id c).1.in_tx ≡ true
  unfolding evict_oldest_if_over_limit
  evict-joined user_id c h = elim (Bool-cases (cfg.max_devices_per_user == 0)) [
    | inl off ↦ rw off h
    | inr limited ↦ rw limited ((evict_listed-IsJoined user_id).at c h)
  ]
