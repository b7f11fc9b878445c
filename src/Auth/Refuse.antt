-- ===== src/Auth/Refuse.antt =====
-- What `Login` of internal/auth/service.go answers without the password of an account.
use go_grpc_starter.Prelude.{ℕ, ◌≡◌, refl, ◌∙◌, Bool, true, false, some, List}
use go_grpc_starter.Errs.{Result, ok, err}
use go_grpc_starter.Store.{Conn}
use go_grpc_starter.Users.Entity.{User}
use go_grpc_starter.Auth.Entity.{DeviceInfo, err_invalid_credentials}
use go_grpc_starter.Auth.Tables.{AuthDb}
use go_grpc_starter.Auth.Users.{get_user_by_email, find_by_email}
use go_grpc_starter.Auth.Session.{Collaborators, AuthConfig}
use go_grpc_starter.Auth.Tokens.{record_attempt}
use go_grpc_starter.Auth.Login.{
  Accounts, LoginLimiter, counter_blocks, blocked, record_failure, login_found, login_lookup,
  login_open, login_checked, login,
}
use go_grpc_starter.Auth.Admit.{find_by_email-reads, find_by_email_found}

module _ {W Settings : Type 0} (k : Collaborators W Settings) (a : Accounts W) (l : LoginLimiter)
    (cfg : AuthConfig) (now : ℕ) where
  abbrev State : Type 0
  State = Conn W AuthDb

  login_found_refuses :
      (email password : List ℕ) (device : DeviceInfo) (user : User) (c : State)
      → a.verify_password user.password_hash password ≡ false
      → ((login_found k a l cfg now email password device user c).0 ≡ err err_invalid_credentials)
        × ((login_found k a l cfg now email password device user c).1.db ≡ c.db)
  unfolding login_found record_failure record_attempt
  login_found_refuses email password device user c wrong = rw wrong (refl, refl)

  login_lookup_refuses :
      (r : Result User) (email password : List ℕ) (device : DeviceInfo) (c : State)
      → ((u : User) → r ≡ ok u → a.verify_password u.password_hash password ≡ false)
      → ((login_lookup k a l cfg now email password device r c).0 ≡ err err_invalid_credentials)
        × ((login_lookup k a l cfg now email password device r c).1.db ≡ c.db)
  unfolding login_lookup record_failure record_attempt
  login_lookup_refuses (ok user) email password device c wrong =
      login_found_refuses email password device user c (wrong user refl)
  login_lookup_refuses (err e) email password device c wrong = (refl, refl)

  login_open_refuses :
      (email password : List ℕ) (device : DeviceInfo) (c : State)
      → ((u : User)
          → get_user_by_email email c.db ≡ some u
          → a.verify_password u.password_hash password ≡ false)
      → ((login_open k a l cfg now email password device c).0 ≡ err err_invalid_credentials)
        × ((login_open k a l cfg now email password device c).1.db ≡ c.db)
  unfolding login_open
  login_open_refuses email password device c wrong =
      let (same, _) = find_by_email-reads c email in
      let (e, kept) =
        login_lookup_refuses (find_by_email email c).0 email password device
          (find_by_email email c).1 (λ u h. wrong u (find_by_email_found c email h)) in
      (e, kept ∙ same)

  login_checked_refuses :
      (locked : Bool) (email password : List ℕ) (device : DeviceInfo) (c : State)
      → locked ≡ false
      → ((u : User)
          → get_user_by_email email c.db ≡ some u
          → a.verify_password u.password_hash password ≡ false)
      → ((login_checked k a l cfg now email password device locked c).0
          ≡ err err_invalid_credentials)
        × ((login_checked k a l cfg now email password device locked c).1.db ≡ c.db)
  unfolding login_checked
  login_checked_refuses true email password device c under wrong = cc
  login_checked_refuses false email password device c under wrong =
      login_open_refuses email password device c wrong

  -- Below the limit of failed attempts, a login without the password of an account of that address is
  -- answered by `ErrInvalidCredentials`, whether there is no account or the password is wrong, and
  -- whatever fails; the tables are unchanged.
  pub login_refuses :
      (email password : List ℕ) (device : DeviceInfo) (c : State)
      → counter_blocks l (a.counter (a.normalize_email email) c.outside).0 ≡ false
      → ((u : User)
          → get_user_by_email (a.normalize_email email) c.db ≡ some u
          → a.verify_password u.password_hash password ≡ false)
      → ((login k a l cfg now email password device c).0 ≡ err err_invalid_credentials)
        × ((login k a l cfg now email password device c).1.db ≡ c.db)
  unfolding login blocked
  login_refuses email password device c under wrong =
      let (r, w) = a.counter (a.normalize_email email) c.outside in
      login_checked_refuses (counter_blocks l r) (a.normalize_email email) password device
        (record c { outside = w }) under wrong
