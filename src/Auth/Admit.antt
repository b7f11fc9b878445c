-- ===== src/Auth/Admit.antt =====
-- What `Login` of internal/auth/service.go has checked before it opens a session.
use go_grpc_starter.Prelude.{
  ℕ, ◌≡◌, refl, subst, ap, ◌∙◌, Bool, true, false, some, List, inl, inr, arith, filter, ◌<◌, ◌⊎◌,
}
use go_grpc_starter.Errs.{GoError, Result, ok, err}
use go_grpc_starter.Store.{Conn, query, with_tx, run}
use go_grpc_starter.Store.Inversion.{bind_ok, run-query-db}
use go_grpc_starter.Users.Entity.{User, is_active}
use go_grpc_starter.Auth.Entity.{DeviceSession, DeviceInfo, TokenPair}
use go_grpc_starter.Auth.Tables.{AuthDb}
use go_grpc_starter.Auth.Repository.{done}
use go_grpc_starter.Auth.Users.{
  get_user_by_email, find_by_email, update_last_login, set_last_login, update_users,
}
use go_grpc_starter.Auth.Session.{Collaborators, AuthConfig}
use go_grpc_starter.Auth.Tokens.{record_attempt, create_session_and_tokens}
use go_grpc_starter.Auth.Login.{
  Accounts, LoginLimiter, counter_blocks, blocked, record_failure, finish_login, admit, login_found,
  login_lookup, login_open, login_checked, login,
}
use go_grpc_starter.Auth.Create.{Opens, create_session-Opens, on_device}

module _ {W : Type 0} (c : Conn W AuthDb) (email : List ℕ) where
  pub find_by_email-reads :
      ((find_by_email email c).1.db ≡ c.db) × ((find_by_email email c).1.in_tx ≡ c.in_tx)
  unfolding find_by_email run with_tx query
  find_by_email-reads = ground arith

  pub find_by_email_found :
      {u : User} → (find_by_email email c).0 ≡ ok u → get_user_by_email email c.db ≡ some u
  unfolding find_by_email run with_tx query
  find_by_email_found h = ground arith

module _ {W Settings : Type 0} (k : Collaborators W Settings) (a : Accounts W) (l : LoginLimiter)
    (cfg : AuthConfig) (now : ℕ) where
  abbrev State : Type 0
  State = Conn W AuthDb

  finish_login-sessions :
      (email : List ℕ) (user : User) (p : TokenPair Settings) (c : State)
      → (finish_login k a l cfg now email user p c).1.db.sessions ≡ c.db.sessions
  unfolding finish_login record_attempt update_last_login set_last_login update_users
  finish_login-sessions email user p c = elim (run-query-db c (done (set_last_login now user.id))) [
    | inl kept ↦ ap (λ (o : AuthDb). o.sessions) kept
    | inr set ↦ ap (λ (o : AuthDb). o.sessions) set
  ]

  -- What a login that returns tokens has found, and what it leaves.
  pub record Admitted (email password : List ℕ) (device : DeviceInfo) (before after : AuthDb)
      : Type 0 where
    pub account : User
    pub named : get_user_by_email email before ≡ some account
    pub password_right : a.verify_password account.password_hash password ≡ true
    pub account_active : is_active account ≡ true
    pub session : DeviceSession
    pub opens : Opens k cfg now account device session after

  Opens-moves :
      (user : User) (device : DeviceInfo) (s : DeviceSession) (o o' : AuthDb)
      → o'.sessions ≡ o.sessions
      → Opens k cfg now user device s o
      → Opens k cfg now user device s o'
  Opens-moves user device s o o' same opens = record {
    owned = opens.owned;
    same_device = opens.same_device;
    only = ap (filter (on_device device.device_id)) same ∙ opens.only;
  }

  admit_ok :
      (email : List ℕ) (user : User) (device : DeviceInfo) (c : State) {p : TokenPair Settings}
      → c.in_tx ≡ false
      → (admit k a l cfg now email user device c).0 ≡ ok p
      → (s : DeviceSession) × Opens k cfg now user device s
          (admit k a l cfg now email user device c).1.db
  unfolding admit
  admit_ok email user device c idle h =
      let (settings, w) = k.settings_of user.id (a.reset_counter email c.outside) in
      let d : State = record c { outside = w } in
      let create = create_session_and_tokens k cfg now user device settings in
      let (p, e0, _, e) = bind_ok (finish_login k a l cfg now email user) create d h in
      let (s, opens) = create_session-Opens k cfg now user device settings d idle e0 in
      (
        s,
        rw e (
            Opens-moves user device s (create d).1.db _
              (finish_login-sessions email user p (create d).1) opens),
      )

  login_found_ok :
      (email password : List ℕ) (device : DeviceInfo) (user : User) (c : State)
      {p : TokenPair Settings}
      → (login_found k a l cfg now email password device user c).0 ≡ ok p
      → (a.verify_password user.password_hash password ≡ true)
        × (is_active user ≡ true)
        × (login_found k a l cfg now email password device user c
            ≡ admit k a l cfg now email user device c)
  unfolding login_found record_failure record_attempt
  login_found_ok email password device user c h = ground arith

  login_lookup_ok :
      (r : Result User) (email password : List ℕ) (device : DeviceInfo) (c : State)
      {p : TokenPair Settings}
      → (login_lookup k a l cfg now email password device r c).0 ≡ ok p
      → (user : User) × (r ≡ ok user)
        × (login_lookup k a l cfg now email password device r c
            ≡ login_found k a l cfg now email password device user c)
  unfolding login_lookup record_failure record_attempt
  login_lookup_ok (ok user) email password device c h = (user, refl, refl)
  login_lookup_ok (err e) email password device c h = cc

  login_open_ok :
      (email password : List ℕ) (device : DeviceInfo) (c : State) {p : TokenPair Settings}
      → c.in_tx ≡ false
      → (login_open k a l cfg now email password device c).0 ≡ ok p
      → Admitted email password device c.db (login_open k a l cfg now email password device c).1.db
  unfolding login_open
  login_open_ok email password device c {p} idle h =
      let (same, tx) = find_by_email-reads c email in
      let d = (find_by_email email c).1 in
      let (user, e0, e1) = login_lookup_ok (find_by_email email c).0 email password device d h in
      let (right, active, e2) =
        login_found_ok email password device user d (subst (λ x. x.0 ≡ ok p) e1 h) in
      let e = e1 ∙ e2 in
      let (s, opens) = admit_ok email user device d (tx ∙ idle) (subst (λ x. x.0 ≡ ok p) e h) in
      record {
        account = user;
        named = find_by_email_found c email e0;
        password_right = right;
        account_active = active;
        session = s;
        opens = rw e opens;
      }

  login_checked_ok :
      (locked : Bool) (email password : List ℕ) (device : DeviceInfo) (c : State)
      {p : TokenPair Settings}
      → c.in_tx ≡ false
      → (login_checked k a l cfg now email password device locked c).0 ≡ ok p
      → (locked ≡ false)
        × Admitted email password device c.db
            (login_checked k a l cfg now email password device locked c).1.db
  unfolding login_checked record_attempt
  login_checked_ok true email password device c idle h = cc
  login_checked_ok false email password device c idle h =
      (refl, login_open_ok email password device c idle h)

  -- What the counter was, where it has let a login pass.
  passes_below :
      (r : Result ℕ)
      → counter_blocks l r ≡ false
      → ((n : ℕ) × (r ≡ ok n) × (n < l.max_attempts)) ⊎ ((e : GoError) × (r ≡ err e))
  passes_below (ok n) h = inl (n, refl, ground (arith, h))
  passes_below (err e) h = inr (e, refl)

  -- A login outside a transaction that returns tokens has read a counter of failed attempts below the
  -- limit, or could not read the counter; and it has found an account of the normalized e-mail address
  -- that is active and whose password is the one given. It leaves exactly one open session on the device,
  -- and that is the account's.
  pub login_ok :
      (email password : List ℕ) (device : DeviceInfo) (c : State) {p : TokenPair Settings}
      → c.in_tx ≡ false
      → (login k a l cfg now email password device c).0 ≡ ok p
      → (((n : ℕ) × ((a.counter (a.normalize_email email) c.outside).0 ≡ ok n)
            × (n < l.max_attempts))
          ⊎ ((e : GoError) × ((a.counter (a.normalize_email email) c.outside).0 ≡ err e)))
        × Admitted
            (a.normalize_email email)
            password
            device
            c.db
            (login k a l cfg now email password device c).1.db
  unfolding login blocked
  login_ok email password device c idle h =
      let (r, w) = a.counter (a.normalize_email email) c.outside in
      let (passed, admitted) =
        login_checked_ok (counter_blocks l r) (a.normalize_email email) password device
          (record c { outside = w }) idle h in
      (passes_below r passed, admitted)
