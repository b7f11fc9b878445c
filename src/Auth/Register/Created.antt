-- ===== src/Auth/Register/Created.antt =====
-- The transaction of `Register` of internal/auth/service.go.
use go_grpc_starter.Prelude.{
  ℕ, suc, String, ◌≡◌, ap, ◌∙◌, subst, Bool, true, false, some, List, [], ◌∷◌, ◌++◌, arith,
}
use go_grpc_starter.Errs.{other, ok}
use go_grpc_starter.Store.{Conn, pure, ◌>>=◌, constrained_query}
use go_grpc_starter.Store.Inversion.{bind_ok}
use go_grpc_starter.Store.Atomic.{with_tx_join}
use go_grpc_starter.Store.Joined.{
  constrained_ok, run-constrained_ok, run-IsJoined, constrained-IsJoined,
}
use go_grpc_starter.Users.Entity.{User}
use go_grpc_starter.Settings.{
  Settings, Codec, default_settings, lifted, create_user_settings, settings_create,
}
use go_grpc_starter.Auth.Entity.{DeviceSession, TokenPair}
use go_grpc_starter.Auth.Tables.{AuthDb}
use go_grpc_starter.Auth.Users.{new_user, exists_user_by_email, create_user, user_create}
use go_grpc_starter.Auth.Session.{Collaborators, AuthConfig}
use go_grpc_starter.Auth.Tokens.{create_session_and_tokens}
use go_grpc_starter.Auth.Login.{Accounts}
use go_grpc_starter.Auth.Create.{Opens, create_session_joined-Opens}
use go_grpc_starter.Auth.Accounts.{accounts, create_session-Keeps}
use go_grpc_starter.Auth.Register.{RegisterInput, first_session, set_up, create_account}

module _ {W : Type 0} (k : Collaborators W Settings) (a : Accounts W) (json : Codec)
    (accepts : List ℕ → String → String → Bool) (cfg : AuthConfig) (now : ℕ) where
  abbrev State : Type 0
  State = Conn W AuthDb

  -- An account with its settings and its first session, on the tables `d`, that was not on `o`.
  pub record Registers (input : RegisterInput) (o d : AuthDb) : Type 0 where
    pub hash : String
    pub text : String
    pub first : DeviceSession
    pub free : exists_user_by_email (a.normalize_email input.email) o ≡ false
    pub created :
        d.users
        ≡ o.users
          ++ new_user o.next_user
              (a.normalize_email input.email)
              hash
              input.first_name
              input.last_name
            ∷ []
    pub encoded : json.marshal default_settings ≡ ok text
    pub settled : d.settings ≡ o.settings ++ (o.next_user, json.jsonb text) ∷ []
    pub opens :
        Opens k cfg now
          (new_user o.next_user
            (a.normalize_email input.email)
            hash
            input.first_name
            input.last_name)
          input.device
          first
          d

  create_user-some :
      (email : List ℕ) (hash first last : String) (o d : AuthDb) (u : User)
      → create_user accepts email hash first last o ≡ some (u, d)
      → (exists_user_by_email email o ≡ false)
        × (u ≡ new_user o.next_user email hash first last)
        × (d ≡ record o { users = o.users ++ u ∷ []; next_user = suc o.next_user })
  unfolding create_user
  create_user-some email hash first last o d u h = ground (arith, h)

  user_create_ok :
      (email : List ℕ) (hash first last : String) (c : State) {u : User}
      → c.in_tx ≡ true
      → (user_create accepts email hash first last c).0 ≡ ok u
      → (exists_user_by_email email c.db ≡ false)
        × (u ≡ new_user c.db.next_user email hash first last)
        × ((user_create accepts email hash first last c).1.db
            ≡ record c.db { users = c.db.users ++ u ∷ []; next_user = suc c.db.next_user })
        × ((user_create accepts email hash first last c).1.in_tx ≡ true)
  unfolding user_create
  user_create_ok email hash first last c {u} joined h =
      let insert = create_user accepts email hash first last in
      let row = run-constrained_ok _ insert c joined h in
      let (free, new, db) = create_user-some email hash first last c.db _ u row in
      (free, new, db, (run-IsJoined _ (constrained-IsJoined _ insert)).at c joined)

  create_user_settings-some :
      (id : ℕ) (text : String) (o d : AuthDb)
      → create_user_settings id text o ≡ some (tt, d)
      → d ≡ record o { settings = o.settings ++ (id, text) ∷ [] }
  unfolding create_user_settings
  create_user_settings-some id text o d h = ground (arith, h)

  insert_settings_ok :
      (id : ℕ) (text : String) (c : State)
      → c.in_tx ≡ true
      → (constrained_query (other "create settings") (create_user_settings id text) c).0 ≡ ok tt
      → ((constrained_query (other "create settings") (create_user_settings id text) c).1.db
          ≡ record c.db { settings = c.db.settings ++ (id, text) ∷ [] })
        × ((constrained_query (other "create settings") (create_user_settings id text) c).1.in_tx
            ≡ true)
  insert_settings_ok id text c joined h =
      let insert = create_user_settings id text in
      let row = constrained_ok _ insert c h in
      (create_user_settings-some id text c.db _ row, (constrained-IsJoined _ insert).at c joined)

  settings_create_ok :
      (id : ℕ) (s : Settings) (c : State)
      → c.in_tx ≡ true
      → (settings_create json id s c).0 ≡ ok tt
      → (text : String) × (json.marshal s ≡ ok text)
        × ((settings_create json id s c).1.db
            ≡ record c.db { settings = c.db.settings ++ (id, json.jsonb text) ∷ [] })
        × ((settings_create json id s c).1.in_tx ≡ true)
  unfolding settings_create
  settings_create_ok id s c joined h =
      let insert = λ (text : String).
        constrained_query (other "create settings") (create_user_settings id (json.jsonb text)) in
      let body = lifted json (json.marshal s) >>= insert in
      let same = (with_tx_join body c joined).1 in
      let h' : (body c).0 ≡ ok tt = rw same at h in
      let (text, encoded, e1, e) = bind_ok insert (lifted json (json.marshal s)) c h' in
      let (db, tx) = insert_settings_ok id (json.jsonb text) c joined e1 in
      (text, encoded, rw (same, e) db, rw (same, e) tx)

  -- The new account and its settings, before its first session.
  record Holds (input : RegisterInput) (o d : AuthDb) (u : User) : Type 0 where
    hash : String
    text : String
    free : exists_user_by_email (a.normalize_email input.email) o ≡ false
    new :
        u
        ≡ new_user o.next_user (a.normalize_email input.email) hash input.first_name input.last_name
    encoded : json.marshal default_settings ≡ ok text
    kept :
        accounts d
        ≡ (o.users ++ u ∷ [], o.settings ++ (u.id, json.jsonb text) ∷ [], suc o.next_user)

  first_session-Registers :
      (input : RegisterInput) (u : User) (o : AuthDb) (c : State) {r : User × TokenPair Settings}
      → c.in_tx ≡ true
      → Holds input o c.db u
      → (first_session k a json accepts cfg now input u c).0 ≡ ok r
      → Registers input o (first_session k a json accepts cfg now input u c).1.db
  unfolding first_session
  first_session-Registers input u o c {r} joined held h =
      let create = create_session_and_tokens k cfg now u input.device (some default_settings) in
      let (p, e0, e1, e) = bind_ok (λ (t : TokenPair Settings). pure (u, t)) create c h in
      let (s, opens) =
        create_session_joined-Opens k cfg now u input.device (some default_settings) c joined e0 in
      let same =
        (create_session-Keeps k cfg now u input.device (some default_settings)).at c ∙ held.kept in
      let users = ap (λ (v : List User × List (ℕ × String) × ℕ). v.0) same in
      let settings = ap (λ (v : List User × List (ℕ × String) × ℕ). v.1) same in
      rw e (record {
        hash = held.hash;
        text = held.text;
        first = s;
        free = held.free;
        created = users ∙ ap (λ (x : User). o.users ++ x ∷ []) held.new;
        encoded = held.encoded;
        settled =
            settings ∙ ap (λ (x : User). o.settings ++ (x.id, json.jsonb held.text) ∷ []) held.new;
        opens = subst (λ x. Opens k cfg now x input.device s (create c).1.db) held.new opens;
      })

  pub create_account-Registers :
      (input : RegisterInput) (hash : String) (c : State) {r : User × TokenPair Settings}
      → c.in_tx ≡ true
      → (create_account k a json accepts cfg now input hash c).0 ≡ ok r
      → Registers input c.db (create_account k a json accepts cfg now input hash c).1.db
  unfolding create_account set_up
  create_account-Registers input hash c joined h =
      let create =
        user_create accepts (a.normalize_email input.email) hash input.first_name input.last_name in
      let (u, e0, e1, e) = bind_ok (set_up k a json accepts cfg now input) create c h in
      let (free, new, db, joined') =
        user_create_ok (a.normalize_email input.email) hash input.first_name input.last_name c
          joined e0 in
      let settle = settings_create json u.id default_settings in
      let (_, e2, e3, e') =
        bind_ok (λ _. first_session k a json accepts cfg now input u) settle (create c).1 e1 in
      let (text, encoded, db', joined'') =
        settings_create_ok u.id default_settings (create c).1 joined' e2 in
      let held : Holds input c.db (settle (create c).1).1.db u = record {
        hash = hash;
        text = text;
        free = free;
        new = new;
        encoded = encoded;
        kept = ground (arith, db, db');
      } in
      rw (e, e') (first_session-Registers input u c.db (settle (create c).1).1 joined'' held e3)
