-- ===== src/Auth/Lockout.antt =====
-- The counter of internal/auth/lockout.go over a run of logins.
pub mod Count
pub mod Locked
use go_grpc_starter.Prelude.{
  ℕ, suc, ◌+◌, ◌≤◌, String, ◌≡◌, ◌≢◌, refl, sym, subst, ap, ◌∙◌, Bool, true, false, not, Option,
  none, some, List, [], ◌∷◌, length, leb, All, arith, Bool-cases, inl, inr, ◌⊎◌, if◌then◌else◌,
}
use go_grpc_starter.Errs.{Result, ok, err}
use go_grpc_starter.Store.{Conn, query, with_tx, run}
use go_grpc_starter.Users.Entity.{User}
use go_grpc_starter.Redis.{Redis, IsRedis, Entry, number_of, text_of, ttl_of, with_ttl_nx}
use go_grpc_starter.Cache.{Codec, build_key, counter, read_count, increment_with_ttl}
use go_grpc_starter.Auth.Entity.{DeviceInfo, TokenPair}
use go_grpc_starter.Auth.Tables.{AuthDb}
use go_grpc_starter.Auth.Users.{get_user_by_email, find_by_email}
use go_grpc_starter.Auth.Session.{Collaborators, AuthConfig, Attempt}
use go_grpc_starter.Auth.Tokens.{record_attempt}
use go_grpc_starter.Auth.Login.{
  Accounts, LoginLimiter, counter_blocks, blocked, record_failure, login_found, login_lookup,
  login_open, login_checked, login, err_too_many_attempts,
}
use go_grpc_starter.Auth.Admit.{find_by_email-reads, find_by_email_found}
use go_grpc_starter.Auth.Refuse.{login_refuses}
use go_grpc_starter.Auth.Cached.{cached, login_key}

find_by_email-outside :
    {W : Type 0} (c : Conn W AuthDb) (email : List ℕ)
    → (find_by_email email c).1.outside ≡ c.outside
unfolding find_by_email run with_tx query
find_by_email-outside c email = ground arith

module _ {W Settings : Type 0} (k : Collaborators W Settings) (a : Accounts W) (l : LoginLimiter)
    (cfg : AuthConfig) (now : ℕ) where
  abbrev State : Type 0
  State = Conn W AuthDb

  -- What a refused login does beyond the database: the failure is counted, then reported.
  login_lookup-counts :
      (r : Result User) (email password : List ℕ) (device : DeviceInfo) (c : State)
      → ((u : User) → r ≡ ok u → a.verify_password u.password_hash password ≡ false)
      → (att : Attempt) × ((login_lookup k a l cfg now email password device r c).1.outside
          ≡ k.publish att (a.increment email l.window c.outside))
  unfolding login_lookup login_found record_failure record_attempt
  login_lookup-counts (ok user) email password device c wrong =
      let w = wrong user refl in
      (
        record { email = email; user_id = user.id; channel = "login"; outcome = "wrong_password" },
        rw w refl,
      )
  login_lookup-counts (err e) email password device c wrong =
      (record { email = email; user_id = 0; channel = "login"; outcome = "not_found" }, refl)

  login_open-counts :
      (email password : List ℕ) (device : DeviceInfo) (c : State)
      → ((u : User)
          → get_user_by_email email c.db ≡ some u
          → a.verify_password u.password_hash password ≡ false)
      → (att : Attempt) × ((login_open k a l cfg now email password device c).1.outside
          ≡ k.publish att (a.increment email l.window c.outside))
  unfolding login_open
  login_open-counts email password device c wrong =
      let d = (find_by_email email c).1 in
      let (att, e) =
        login_lookup-counts (find_by_email email c).0 email password device d
          (λ u h. wrong u (find_by_email_found c email h)) in
      (
        att,
        e ∙ ap (λ o. k.publish att (a.increment email l.window o)) (find_by_email-outside c email),
      )

  login_checked-counts :
      (locked : Bool) (email password : List ℕ) (device : DeviceInfo) (c : State)
      → locked ≡ false
      → ((u : User)
          → get_user_by_email email c.db ≡ some u
          → a.verify_password u.password_hash password ≡ false)
      → (att : Attempt) × ((login_checked k a l cfg now email password device locked c).1.outside
          ≡ k.publish att (a.increment email l.window c.outside))
  unfolding login_checked
  login_checked-counts true email password device c under wrong = cc
  login_checked-counts false email password device c under wrong =
      login_open-counts email password device c wrong

  pub login-counts :
      (email password : List ℕ) (device : DeviceInfo) (c : State)
      → counter_blocks l (a.counter (a.normalize_email email) c.outside).0 ≡ false
      → ((u : User)
          → get_user_by_email (a.normalize_email email) c.db ≡ some u
          → a.verify_password u.password_hash password ≡ false)
      → (att : Attempt) × ((login k a l cfg now email password device c).1.outside
          ≡ k.publish att (
              a.increment
                (a.normalize_email email)
                l.window
                (a.counter (a.normalize_email email) c.outside).1))
  unfolding login blocked
  login-counts email password device c under wrong =
      let (r, w) = a.counter (a.normalize_email email) c.outside in
      login_checked-counts (counter_blocks l r) (a.normalize_email email) password device
        (record c { outside = w }) under wrong

  login_checked-locked :
      (locked : Bool) (email password : List ℕ) (device : DeviceInfo) (c : State)
      → locked ≡ true
      → ((login_checked k a l cfg now email password device locked c).0 ≡ err err_too_many_attempts)
        × ((login_checked k a l cfg now email password device locked c).1.db ≡ c.db)
        × ((att : Attempt) × ((login_checked k a l cfg now email password device locked c).1.outside
              ≡ k.publish att c.outside))
  unfolding login_checked record_attempt
  login_checked-locked false email password device c over = cc
  login_checked-locked true email password device c over = (
    refl,
    refl,
    (record { email = email; user_id = 0; channel = "login"; outcome = "locked" }, refl),
  )

  pub login-locked :
      (email password : List ℕ) (device : DeviceInfo) (c : State)
      → counter_blocks l (a.counter (a.normalize_email email) c.outside).0 ≡ true
      → ((login k a l cfg now email password device c).0 ≡ err err_too_many_attempts)
        × ((login k a l cfg now email password device c).1.db ≡ c.db)
        × ((att : Attempt) × ((login k a l cfg now email password device c).1.outside
              ≡ k.publish att (a.counter (a.normalize_email email) c.outside).1))
  unfolding login blocked
  login-locked email password device c over =
      let (r, w) = a.counter (a.normalize_email email) c.outside in
      login_checked-locked (counter_blocks l r) (a.normalize_email email) password device
        (record c { outside = w }) over
