-- ===== src/Auth/Register/Outcome.antt =====
-- What `Register` of internal/auth/service.go leaves behind: the whole account, or nothing.
use go_grpc_starter.Prelude.{ℕ, String, ◌≡◌, refl, subst, Bool, true, false, List, arith}
use go_grpc_starter.Errs.{GoError, Result, ok, err}
use go_grpc_starter.Store.{Conn, Action, continue, opened, ◌>>=◌, query, with_tx}
use go_grpc_starter.Store.Atomic.{with_tx_commit, with_tx_rollback}
use go_grpc_starter.Store.Keeps.{Keeps, query-Keeps, run-Keeps}
use go_grpc_starter.Store.Idle.{IsIdle, run-IsIdle}
use go_grpc_starter.Users.Entity.{User}
use go_grpc_starter.Settings.{Settings, Codec}
use go_grpc_starter.Auth.Entity.{TokenPair}
use go_grpc_starter.Auth.Tables.{AuthDb}
use go_grpc_starter.Auth.Repository.{seen}
use go_grpc_starter.Auth.Users.{exists_user_by_email, exists_by_email}
use go_grpc_starter.Auth.Session.{Collaborators, AuthConfig, outside}
use go_grpc_starter.Auth.Login.{Accounts}
use go_grpc_starter.Auth.Password.{validate_password, send_verification, store_and_send}
use go_grpc_starter.Auth.Register.Created.{Registers, create_account-Registers}
use go_grpc_starter.Auth.Register.{
  RegisterInput, create_account, finish_register, register_hashed, register_free, register_valid,
  register,
}

module _ {W : Type 0} (k : Collaborators W Settings) (a : Accounts W) (json : Codec)
    (accepts : List ℕ → String → String → Bool) (cfg : AuthConfig) (now : ℕ) where
  abbrev State : Type 0
  State = Conn W AuthDb

  -- The whole account if there are tokens, and otherwise nothing.
  pub Outcome : RegisterInput → AuthDb → Result (TokenPair Settings) × State → Type 0
  Outcome input o (ok p, d) = Registers k a json accepts cfg now input o d.db
  Outcome input o (err e, d) = d.db ≡ o

  -- What runs before, outside a transaction and without a change of the tables.
  record IsAside {A : Type 0} (m : Action W AuthDb A) : Type 0 where
    keeps : Keeps (λ (o : AuthDb). o) m
    idle : IsIdle m

  continue-Outcome :
      {A : Type 0} (input : RegisterInput) (o : AuthDb)
      (f : A → Action W AuthDb (TokenPair Settings)) (r : Result A) (d : State)
      → ((x : A) (c : State) → c.in_tx ≡ false → Outcome input c.db (f x c))
      → d.in_tx ≡ false
      → d.db ≡ o
      → Outcome input o (continue r f d)
  unfolding Outcome
  continue-Outcome input o f (ok x) d h idle same =
      subst (λ o'. Outcome input o' (f x d)) same (h x d idle)
  continue-Outcome input o f (err e) d h idle same = same

  after_aside :
      {A : Type 0} (input : RegisterInput) (f : A → Action W AuthDb (TokenPair Settings))
      (m : Action W AuthDb A)
      → IsAside m
      → ((x : A) (c : State) → c.in_tx ≡ false → Outcome input c.db (f x c))
      → (c : State) → c.in_tx ≡ false
      → Outcome input c.db ((m >>= f) c)
  after_aside input f m aside h c idle =
      continue-Outcome input c.db f (m c).0 (m c).1 h (aside.idle.at c idle) (aside.keeps.at c)

  finish_register-db :
      (p : User × TokenPair Settings) (c : State)
      → ((finish_register k a json accepts cfg now p c).0 ≡ ok p.1)
        × ((finish_register k a json accepts cfg now p c).1.db ≡ c.db)
  unfolding finish_register send_verification store_and_send
  finish_register-db (u, tokens) c = ground arith

  finish-Outcome :
      (input : RegisterInput) (o : AuthDb) (r : Result (User × TokenPair Settings)) (d : State)
      → ((p : User × TokenPair Settings)
          → r ≡ ok p
          → Registers k a json accepts cfg now input o d.db)
      → ((e : GoError) → r ≡ err e → d.db ≡ o)
      → Outcome input o (continue r (finish_register k a json accepts cfg now) d)
  unfolding Outcome
  finish-Outcome input o (ok p) d done failed =
      let (answered, same) = finish_register-db p d in rw (answered, same) (done p refl)
  finish-Outcome input o (err e) d done failed = failed e refl

  register_hashed-Outcome :
      (input : RegisterInput) (hash : String) (c : State)
      → c.in_tx ≡ false
      → Outcome input c.db (register_hashed k a json accepts cfg now input hash c)
  unfolding register_hashed
  register_hashed-Outcome input hash c idle =
      let create = create_account k a json accepts cfg now input hash in
      finish-Outcome input c.db (with_tx create c).0 (with_tx create c).1
        (λ p h.
          let (fine, _, db, _, _) = with_tx_commit create c idle h in
          rw db (create_account-Registers k a json accepts cfg now input hash (opened c) refl fine))
        (λ e h. (with_tx_rollback create c idle h).0)

  register_free-Outcome :
      (input : RegisterInput) (taken : Bool) (c : State)
      → c.in_tx ≡ false
      → Outcome input c.db (register_free k a json accepts cfg now input taken c)
  unfolding register_free Outcome
  register_free-Outcome input true c idle = refl
  register_free-Outcome input false c idle =
      after_aside input (register_hashed k a json accepts cfg now input)
        (outside (a.hash_password input.password))
        (record { keeps = record { at = λ c. refl }; idle = record { at = λ c h. h } })
        (register_hashed-Outcome input) c idle

  validate_password-IsAside : (plain : List ℕ) → IsAside (validate_password plain)
  unfolding validate_password
  validate_password-IsAside plain = record {
    keeps = record { at = λ c. ground arith };
    idle = record { at = λ c h. ground arith };
  }

  exists_by_email-IsAside : (email : List ℕ) → IsAside (exists_by_email email)
  unfolding exists_by_email
  exists_by_email-IsAside email = record {
    keeps = record {
      at = λ c.
          (run-Keeps (λ (o : AuthDb). o) _
              (query-Keeps (λ (o : AuthDb). o) (seen (exists_user_by_email email)) (λ o. refl))).at
            c;
    };
    idle = record { at = λ c h. (run-IsIdle (query (seen (exists_user_by_email email)))).at c h };
  }

  -- `Register` outside a transaction opens the whole account or nothing. If it returns tokens, no live
  -- account had the normalized address, and the tables have one more account with that address and the
  -- given names, its default settings, and exactly one open session on the device, which is the new
  -- account's. If it returns an error, whatever failed, the tables are as they were.
  pub register_outcome :
      (input : RegisterInput) (c : State)
      → c.in_tx ≡ false
      → Outcome input c.db (register k a json accepts cfg now input c)
  unfolding register register_valid
  register_outcome input c idle =
      after_aside input (λ _. register_valid k a json accepts cfg now input)
        (validate_password input.password) (validate_password-IsAside input.password)
        (λ _ d h.
          after_aside input (register_free k a json accepts cfg now input)
            (exists_by_email (a.normalize_email input.email))
            (exists_by_email-IsAside (a.normalize_email input.email)) (register_free-Outcome input)
            d h)
        c idle
