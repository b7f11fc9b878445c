-- ===== src/Auth/Create.antt =====
-- The open sessions of a device after `createSessionAndTokens` of internal/auth/session.go.
use go_grpc_starter.Prelude.{
  ℕ, String, ◌≡◌, refl, subst, ap, ◌∙◌, Bool, true, false, ◌&&◌, Option, List, [], ◌∷◌, ◌++◌,
  filter, any, str_eq, eq_iff, arith,
}
use go_grpc_starter.Errs.{ok}
use go_grpc_starter.Store.{Conn, opened, pure, query, constrained_query, with_tx, run}
use go_grpc_starter.Store.Inversion.{bind_ok}
use go_grpc_starter.Store.Atomic.{with_tx_commit, with_tx_join}
use go_grpc_starter.Users.Entity.{User}
use go_grpc_starter.Auth.Entity.{DeviceSession, RefreshToken, DeviceInfo, TokenPair, to_session}
use go_grpc_starter.Auth.Tables.{AuthDb, is_open, create_device_session, create_refresh_token}
use go_grpc_starter.Auth.Repository.{session_create, token_create, revoke_active_by_device_id}
use go_grpc_starter.Auth.Session.{Collaborators, AuthConfig, evict_oldest_if_over_limit}
use go_grpc_starter.Auth.Tokens.{
  issue_token_pair, generate_token_pair, first_tokens, start_session, clear_device, open_session,
  finish_session, create_evicted, create_session_and_tokens,
}
use go_grpc_starter.Auth.Eviction.{evict-idle, evict-joined}

-- The open sessions of a device.
abbrev pub on_device : String → DeviceSession → Bool
on_device device s = str_eq s.device_id device && is_open s

module _ {ℓ} {A : Type ℓ} (p : A → Bool) (x : A) where
  filter_only : (xs : List A) → any p xs ≡ false → p x ≡ true → filter p (xs ++ x ∷ []) ≡ x ∷ []
  unfolding filter any
  filter_only [] h e = ground arith
  filter_only (y ∷ ys) h e = ground (arith, filter_only ys)

module _ {W Settings : Type 0} (k : Collaborators W Settings) (cfg : AuthConfig) (now : ℕ) where
  abbrev State : Type 0
  State = Conn W AuthDb

  -- What is left of the opening of a session that succeeded.
  pub record Opens (user : User) (device : DeviceInfo) (s : DeviceSession) (o : AuthDb)
      : Type 0 where
    pub owned : s.user_id ≡ user.id
    pub same_device : s.device_id ≡ device.device_id
    pub only : filter (on_device device.device_id) o.sessions ≡ s ∷ []

  session_create-Opens :
      (user : User) (device : DeviceInfo) (c : State) {s : DeviceSession}
      → c.in_tx ≡ true
      → (session_create now user.id device c).0 ≡ ok s
      → Opens user device s (session_create now user.id device c).1.db
  unfolding session_create run constrained_query create_device_session to_session
  session_create-Opens user device c {s} joined h =
      let clash : any (on_device device.device_id) c.db.sessions ≡ false = ground arith in
      let rows : (session_create now user.id device c).1.db.sessions ≡ c.db.sessions ++ s ∷ [] =
        ground arith in
      record {
        owned = ground arith;
        same_device = ground arith;
        only =
            ap (filter (on_device device.device_id)) rows
            ∙ filter_only (on_device device.device_id) s c.db.sessions clash
                (ground (arith, eq_iff device.device_id device.device_id));
      }

  token_create-sessions :
      (t : RefreshToken) (c : State)
      → c.in_tx ≡ true
      → ((token_create t c).1.db.sessions ≡ c.db.sessions)
  unfolding token_create run constrained_query create_refresh_token
  token_create-sessions t c joined = ground arith

  generate_token_pair-sessions :
      (user : User) (s : DeviceSession) (settings : Option Settings) (c : State)
      → c.in_tx ≡ true
      → (generate_token_pair k cfg now user s settings c).1.db.sessions ≡ c.db.sessions
  unfolding generate_token_pair issue_token_pair token_create run constrained_query
      create_refresh_token
  generate_token_pair-sessions user s settings c joined = ground arith

  first_tokens-Opens :
      (user : User) (device : DeviceInfo) (settings : Option Settings) (s : DeviceSession)
      (c : State) {r : DeviceSession × TokenPair Settings}
      → c.in_tx ≡ true
      → Opens user device s c.db
      → (first_tokens k cfg now user settings s c).0 ≡ ok r
      → Opens user device r.0 (first_tokens k cfg now user settings s c).1.db
  unfolding first_tokens
  first_tokens-Opens user device settings s c {r} joined o h =
      let same = generate_token_pair-sessions user s settings c joined in
      let (_, _, e1, e) =
        bind_ok (λ tokens. pure (s, tokens)) (generate_token_pair k cfg now user s settings) c h in
      let kept : Opens user device s (generate_token_pair k cfg now user s settings c).1.db =
        record {
          owned = o.owned;
          same_device = o.same_device;
          only = ap (filter (on_device device.device_id)) same ∙ o.only;
        } in
      let first : s ≡ r.0 = ground (arith, e1) in
      rw e (
        subst (λ x. Opens user device x (generate_token_pair k cfg now user s settings c).1.db)
          first kept)

  session_create-tx :
      (user : User) (device : DeviceInfo) (c : State)
      → c.in_tx ≡ true
      → (session_create now user.id device c).1.in_tx ≡ true
  unfolding session_create run constrained_query create_device_session
  session_create-tx user device c joined = ground arith

  clear_device-tx :
      (device : DeviceInfo) (c : State)
      → c.in_tx ≡ true
      → (clear_device k cfg now device c).1.in_tx ≡ true
  unfolding clear_device revoke_active_by_device_id run query
  clear_device-tx device c joined = ground arith

  start_session-Opens :
      (user : User) (device : DeviceInfo) (settings : Option Settings) (c : State)
      {r : DeviceSession × TokenPair Settings}
      → c.in_tx ≡ true
      → (start_session k cfg now user device settings c).0 ≡ ok r
      → Opens user device r.0 (start_session k cfg now user device settings c).1.db
  unfolding start_session
  start_session-Opens user device settings c joined h =
      let create = session_create now user.id device in
      let (s, e0, e1, e) = bind_ok (first_tokens k cfg now user settings) create c h in
      rw e (
        first_tokens-Opens user device settings s (create c).1
          (session_create-tx user device c joined) (session_create-Opens user device c joined e0)
          e1)

  open_session-Opens :
      (user : User) (device : DeviceInfo) (settings : Option Settings) (c : State)
      {r : DeviceSession × TokenPair Settings}
      → c.in_tx ≡ true
      → (open_session k cfg now user device settings c).0 ≡ ok r
      → Opens user device r.0 (open_session k cfg now user device settings c).1.db
  unfolding open_session
  open_session-Opens user device settings c joined h =
      let clear = clear_device k cfg now device in
      let (_, e0, e1, e) = bind_ok (λ _. start_session k cfg now user device settings) clear c h in
      rw e
        (start_session-Opens user device settings (clear c).1 (clear_device-tx device c joined) e1)

  create_evicted-Opens :
      (user : User) (device : DeviceInfo) (settings : Option Settings) (c : State)
      {p : TokenPair Settings}
      → c.in_tx ≡ false
      → (create_evicted k cfg now user device settings c).0 ≡ ok p
      → (s : DeviceSession) × Opens user device s
          (create_evicted k cfg now user device settings c).1.db
  unfolding create_evicted finish_session
  create_evicted-Opens user device settings c idle h =
      let open_it = open_session k cfg now user device settings in
      let (r, e0, _, e) = bind_ok (finish_session k cfg now) (with_tx open_it) c h in
      let t = with_tx_commit open_it c idle e0 in
      (r.0, rw (e, t.2) (open_session-Opens user device settings (opened c) refl t.0))

  -- A call of `createSessionAndTokens` outside a transaction that returns tokens leaves exactly one open
  -- session on the device, whoever had one before, and it is the user's.
  pub create_session-Opens :
      (user : User) (device : DeviceInfo) (settings : Option Settings) (c : State)
      {p : TokenPair Settings}
      → c.in_tx ≡ false
      → (create_session_and_tokens k cfg now user device settings c).0 ≡ ok p
      → (s : DeviceSession) × Opens user device s
          (create_session_and_tokens k cfg now user device settings c).1.db
  unfolding create_session_and_tokens
  create_session-Opens user device settings c idle h =
      let (_, _, e1, e) =
        bind_ok (λ _. create_evicted k cfg now user device settings)
          (evict_oldest_if_over_limit k cfg now user.id) c h in
      rw e (create_evicted-Opens user device settings _ (evict-idle k cfg now user.id c idle) e1)

  create_evicted-joined :
      (user : User) (device : DeviceInfo) (settings : Option Settings) (c : State)
      {p : TokenPair Settings}
      → c.in_tx ≡ true
      → (create_evicted k cfg now user device settings c).0 ≡ ok p
      → (s : DeviceSession) × Opens user device s
          (create_evicted k cfg now user device settings c).1.db
  unfolding create_evicted finish_session
  create_evicted-joined user device settings c joined h =
      let open_it = open_session k cfg now user device settings in
      let (r, e0, _, e) = bind_ok (finish_session k cfg now) (with_tx open_it) c h in
      let same = (with_tx_join open_it c joined).0 in
      let e0' : (open_it c).0 ≡ ok r = rw same at e0 in
      (r.0, rw (e, same) (open_session-Opens user device settings c joined e0'))

  -- The same inside a transaction of the caller's.
  pub create_session_joined-Opens :
      (user : User) (device : DeviceInfo) (settings : Option Settings) (c : State)
      {p : TokenPair Settings}
      → c.in_tx ≡ true
      → (create_session_and_tokens k cfg now user device settings c).0 ≡ ok p
      → (s : DeviceSession) × Opens user device s
          (create_session_and_tokens k cfg now user device settings c).1.db
  unfolding create_session_and_tokens
  create_session_joined-Opens user device settings c joined h =
      let (_, _, e1, e) =
        bind_ok (λ _. create_evicted k cfg now user device settings)
          (evict_oldest_if_over_limit k cfg now user.id) c h in
      rw e
        (create_evicted-joined user device settings _ (evict-joined k cfg now user.id c joined) e1)
