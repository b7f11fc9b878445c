-- ===== src/Auth/Lockout/Locked.antt =====
-- `Login` after as many failed attempts as internal/auth/lockout.go allows.
use go_grpc_starter.Prelude.{
  ℕ, suc, ◌+◌, ◌≤◌, String, ◌≡◌, refl, sym, subst, ap, ◌∙◌, false, Option, none, some, List, [],
  ◌∷◌, length, leb, All, arith, Bool-cases, inl, inr, ◌⊎◌,
}
use go_grpc_starter.Errs.{err}
use go_grpc_starter.Store.{Conn}
use go_grpc_starter.Users.Entity.{User}
use go_grpc_starter.Redis.{Redis, IsRedis, number_of}
use go_grpc_starter.Cache.{Codec, build_key, counter}
use go_grpc_starter.Auth.Entity.{DeviceInfo}
use go_grpc_starter.Auth.Tables.{AuthDb}
use go_grpc_starter.Auth.Users.{get_user_by_email}
use go_grpc_starter.Auth.Session.{Collaborators, AuthConfig, Attempt}
use go_grpc_starter.Auth.Login.{
  Accounts, LoginLimiter, counter_blocks, login, err_too_many_attempts,
}
use go_grpc_starter.Auth.Refuse.{login_refuses}
use go_grpc_starter.Auth.Cached.{cached, login_key}
use go_grpc_starter.Auth.Lockout.{login-counts, login-locked}
use go_grpc_starter.Auth.Lockout.Count.{IsUp, number, counter-number, increment-number}

module _ {R Settings : Type 0} (k : Collaborators R Settings) (base : Accounts R) (l : LoginLimiter)
    (cfg : AuthConfig) (now : ℕ) (s : Redis R) (h : IsRedis s) (prefix : String)
    (token_data : Codec ℕ) (bytes_text : List ℕ → String) where
  abbrev State : Type 0
  State = Conn R AuthDb

  abbrev pub accounts : Accounts R
  accounts = cached s prefix token_data bytes_text base

  -- One login after another with these passwords, for one address.
  abbrev pub tries : List ℕ → DeviceInfo → List (List ℕ) → State → State
  tries email device [] c = c
  tries email device (p ∷ ps) c =
      tries email device ps (login k accounts l cfg now email p device c).1

  -- None of the passwords is that of the account, if there is one.
  abbrev pub AllWrong : List ℕ → List (List ℕ) → AuthDb → Type 0
  AllWrong email ps o =
      All
        (λ (p : List ℕ).
          (u : User)
          → get_user_by_email (base.normalize_email email) o ≡ some u
          → base.verify_password u.password_hash p ≡ false)
        ps

  abbrev count_of : List ℕ → State → Option ℕ
  count_of email c = number s h prefix (login_key bytes_text (base.normalize_email email)) c.outside

  module _ (up : IsUp s h) (email : List ℕ) (device : DeviceInfo)
      (apart : (att : Attempt) (r : R)
        → h.view
            (k.publish att r)
            (build_key prefix (login_key bytes_text (base.normalize_email email)))
          ≡ h.view r (build_key prefix (login_key bytes_text (base.normalize_email email)))) where
    abbrev key : String
    key = login_key bytes_text (base.normalize_email email)

    counter_blocks-count :
        (c : State) (m : ℕ)
        → count_of email c ≡ some m
        → counter_blocks l (accounts.counter (base.normalize_email email) c.outside).0
          ≡ leb l.max_attempts m
    unfolding cached
    counter_blocks-count c m e = rw (counter-number s h prefix up key c.outside m e).0 refl

    published :
        (att : Attempt) (r r' : R) (m : ℕ)
        → r' ≡ k.publish att r
        → number s h prefix key r ≡ some m
        → number s h prefix key r' ≡ some m
    published att r r' m e count = rw e (rw (apart att r) count)

    -- A failed attempt is counted until the limit is reached.
    try-count :
        (p : List ℕ) (c : State) (m : ℕ)
        → count_of email c ≡ some m
        → ((u : User)
            → get_user_by_email (base.normalize_email email) c.db ≡ some u
            → base.verify_password u.password_hash p ≡ false)
        → (m' : ℕ) × (count_of email (login k accounts l cfg now email p device c).1 ≡ some m')
          × ((login k accounts l cfg now email p device c).1.db ≡ c.db)
          × ((l.max_attempts ≤ m) ⊎ (m' ≡ suc m))
          × (m ≤ m')
    unfolding cached
    try-count p c m count wrong =
        let seen = counter-number s h prefix up key c.outside m count in
        let limit = counter_blocks-count c m count in
        elim (Bool-cases (leb l.max_attempts m)) [
          | inl over ↦
              let (_, db, (att, out)) =
                login-locked k accounts l cfg now email p device c (limit ∙ over) in
              (m, published att _ _ m out seen.1, db, inl (ground (arith, over)), omega arith)
          | inr under ↦
              let (att, out) =
                login-counts k accounts l cfg now email p device c (limit ∙ under) wrong in
              let (_, db) =
                login_refuses k accounts l cfg now email p device c (limit ∙ under) wrong in
              let counted =
                increment-number s h prefix up key l.window (counter s prefix key c.outside).1 m
                  seen.1 in
              (suc m, published att _ _ (suc m) out counted, db, inr refl, omega arith)
        ]

    tries-count :
        (ps : List (List ℕ)) (c : State) (m : ℕ)
        → count_of email c ≡ some m
        → AllWrong email ps c.db
        → l.max_attempts ≤ m + length ps
        → (m' : ℕ) × (count_of email (tries email device ps c) ≡ some m') × (l.max_attempts ≤ m')
    tries-count [] c m count wrong enough = (m, count, omega arith)
    tries-count (p ∷ ps) c m count wrong enough =
        let (m', count', db, step, grows) = try-count p c m count wrong.0 in
        tries-count ps (login k accounts l cfg now email p device c).1 m' count'
          (subst (AllWrong email ps) (sym db) wrong.1) (ground (arith, step, grows))

    -- Guessing ends. While Redis answers and no time passes on the server, after as many logins with wrong
    -- passwords for one address as the limit allows, the next login for it is answered by
    -- `ErrTooManyAttempts`, also with the right password, whatever fails in the database and whether or not
    -- there is such an account. The counter has not been in use, and publishing an attempt does not write
    -- its key; it may write others, as the queue in the same Redis does.
    pub lockout_holds :
        (ps : List (List ℕ)) (password : List ℕ) (c : State)
        → h.view c.outside (build_key prefix key) ≡ none
        → AllWrong email ps c.db
        → l.max_attempts ≤ length ps
        → (login k accounts l cfg now email password device (tries email device ps c)).0
          ≡ err err_too_many_attempts
    unfolding cached
    lockout_holds ps password c fresh wrong enough =
        let (m, count, reached) =
          tries-count ps c 0 (ap (number_of s.parse_int) fresh) wrong (omega arith) in
        (login-locked k accounts l cfg now email password device (tries email device ps c)
          (counter_blocks-count (tries email device ps c) m count ∙ ground (arith, reached))).0
