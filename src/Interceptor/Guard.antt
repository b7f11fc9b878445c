-- ===== src/Interceptor/Guard.antt =====
-- Who gets past `authUnary` of internal/interceptor/interceptors.go.
use go_grpc_starter.Prelude.{
  ℕ, suc, ◌≡◌, refl, sym, ap, ◌∙◌, String, true, false, not, ◌&&◌, Option, none, some, List, ◌⊎◌,
  inl, inr, Bool-cases, arith,
}
use go_grpc_starter.Errs.{GoError, Result, ok, err}
use go_grpc_starter.Store.{Conn, query, with_tx, run}
use go_grpc_starter.Store.Inversion.{bind_ok}
use go_grpc_starter.Users.Entity.{User, is_active, is_admin}
use go_grpc_starter.Auth.Entity.{DeviceSession, is_revoked, is_inactive}
use go_grpc_starter.Auth.Tables.{AuthDb, get_device_session_by_id, get_user_by_id}
use go_grpc_starter.Auth.Repository.{session_find_by_id}
use go_grpc_starter.Token.{AccessTokenClaims}
use go_grpc_starter.Interceptor.{Context, Server, Set, is_public, is_admin_method}
use go_grpc_starter.Interceptor.Header.{bearer_token}
use go_grpc_starter.Interceptor.Chain.{
  Handler, some_value, incoming_request_id, request_id_for, recovery_unary, metrics_unary,
  request_id_unary, logging_unary, locale_unary, error_unary,
}
use go_grpc_starter.Interceptor.Unary.{
  called, claimed, token_claims, admitted, checked_session, with_bearer, authenticate, subject_of,
  let_in, auth_unary, validation_unary, inner, unary,
}

module _ {R Req : Type 0} (i : Set R Req) (now : ℕ) where
  -- The caller has a token that the manager accepts, and the row of its session is live, and so is its user's.
  pub record Authenticated (ctx : Context) (c : Conn R AuthDb) (s : DeviceSession) (u : User)
      : Type 0 where
    pub token : List ℕ
    pub in_header : bearer_token ctx.metadata ≡ ok token
    pub claims : AccessTokenClaims
    pub accepted : (i.validate_token (i.bytes_text token) c.outside).0 ≡ ok claims
    pub in_sessions : get_device_session_by_id claims.session_id c.db ≡ some s
    pub in_users : get_user_by_id s.user_id c.db ≡ some u
    pub not_revoked : is_revoked s ≡ false
    pub not_idle : is_inactive now i.max_inactivity_timeout s ≡ false
    pub active : is_active u ≡ true

  session_find_by_id_found :
      (id : ℕ) (c : Conn R AuthDb) {s : DeviceSession} {u : User}
      → (session_find_by_id id c).0 ≡ ok (s, u)
      → (get_device_session_by_id id c.db ≡ some s) × (get_user_by_id s.user_id c.db ≡ some u)
  unfolding session_find_by_id run with_tx query
  session_find_by_id_found id c e = ground (arith, e)

  admitted_ok :
      (v : Result (DeviceSession × User)) (c : Conn R AuthDb) {s : DeviceSession} {u : User}
      → (admitted i now v c).0 ≡ ok (s, u)
      → (v ≡ ok (s, u))
        × (is_revoked s ≡ false)
        × (is_inactive now i.max_inactivity_timeout s ≡ false)
        × (is_active u ≡ true)
  admitted_ok (ok (s', u')) c e = ground (arith, e)
  admitted_ok (err x) c e = cc

  claimed_ok :
      (v : Result AccessTokenClaims) (c : Conn R AuthDb) {claims : AccessTokenClaims}
      → (claimed i now v c).0 ≡ ok claims
      → (v ≡ ok claims) × ((claimed i now v c).1 ≡ c)
  claimed_ok (ok x) c e = (e, refl)
  claimed_ok (err x) c e = cc

  with_bearer_ok :
      (ctx : Context) (v : Result (List ℕ)) (c : Conn R AuthDb) {s : DeviceSession} {u : User}
      → bearer_token ctx.metadata ≡ v
      → (with_bearer i now v c).0 ≡ ok (s, u)
      → Authenticated ctx c s u
  with_bearer_ok ctx (err e) c in_header h = cc
  with_bearer_ok ctx (ok token) c in_header h =
      let (claims, e0, e1, _) =
        bind_ok (checked_session i now) (token_claims i now (i.bytes_text token)) c h in
      let (accepted, _) = claimed_ok (i.validate_token (i.bytes_text token) c.outside).0 _ e0 in
      let d = (token_claims i now (i.bytes_text token) c).1 in
      let (found, live, busy, active) =
        admitted_ok (session_find_by_id claims.session_id d).0 _ e1 in
      let (row, owner) = session_find_by_id_found claims.session_id d found in
      let same : d.db ≡ c.db = claimed-db (i.validate_token (i.bytes_text token) c.outside).0 _ in
      record {
        token = token;
        in_header = in_header;
        claims = claims;
        accepted = accepted;
        in_sessions = ap (get_device_session_by_id claims.session_id) (sym same) ∙ row;
        in_users = ap (get_user_by_id _) (sym same) ∙ owner;
        not_revoked = live;
        not_idle = busy;
        active = active;
      }
    where
      claimed-db :
          (v : Result AccessTokenClaims) (c : Conn R AuthDb) → (claimed i now v c).1.db ≡ c.db
      claimed-db (ok x) c = refl
      claimed-db (err x) c = refl

  pub authenticate_ok :
      (ctx : Context) (c : Conn R AuthDb) {s : DeviceSession} {u : User}
      → (authenticate i now ctx c).0 ≡ ok (s, u)
      → Authenticated ctx c s u
  unfolding authenticate
  authenticate_ok ctx c e = with_bearer_ok ctx (bearer_token ctx.metadata) c refl e

  -- A caller that may call the method, and what its handler is given.
  pub record Admits (Resp : Type 0) (m : String) (ctx : Context) (q : Req) (s : Server R)
      : Type 0 where
    pub session : DeviceSession
    pub owner : User
    pub authenticated : Authenticated ctx s.conn session owner
    pub as_admin : is_admin_method m ≡ true → is_admin owner ≡ true
    pub handled :
        (h : Handler R Req Resp GoError)
        → inner i now m h ctx q s
          ≡ validation_unary i now h
              (record ctx { subject = some (subject_of i now session owner) })
              q
              (record s { conn = (authenticate i now ctx s.conn).1 })

  called-db : (ctx : Context) (s : Server R) → (called i now ctx s).1.conn.db ≡ s.conn.db
  called-db ctx s = go (some_value (incoming_request_id ctx.metadata))
    where
      go :
          (v : Option (List ℕ))
          → (request_id_for i v (record s { in_flight = suc s.in_flight })).1.conn.db ≡ s.conn.db
      go none = refl
      go (some x) = refl

  module _ {Resp : Type 0} where
    inner_guarded :
        (m : String) (ctx : Context) (q : Req) (s : Server R) (h : Handler R Req Resp GoError)
        → is_public m ≡ false
        → inner i now m h ctx q s
          ≡ let_in i now m
              (validation_unary i now h)
              ctx
              q
              (record s { conn = (authenticate i now ctx s.conn).1 })
              (authenticate i now ctx s.conn).0
    unfolding inner auth_unary
    inner_guarded m ctx q s h private_ = rw private_ refl

    inner_guards :
        (m : String) (ctx : Context) (q : Req) (s : Server R) (v : Result (DeviceSession × User))
        → is_public m ≡ false
        → (authenticate i now ctx s.conn).0 ≡ v
        → Admits Resp m ctx q s
          ⊎ ((g h : Handler R Req Resp GoError) → inner i now m g ctx q s ≡ inner i now m h ctx q s)
    inner_guards m ctx q s (err e) private_ v =
        inr (λ g h.
          rw (inner_guarded m ctx q s g private_, inner_guarded m ctx q s h private_, v) refl)
    inner_guards m ctx q s (ok (ds, u)) private_ v =
        elim (Bool-cases (is_admin_method m && not (is_admin u))) [
          | inl not_admin ↦ inr (λ g h.
              rw
                (
                  inner_guarded m ctx q s g private_,
                  inner_guarded m ctx q s h private_,
                  v,
                  not_admin,
                )
                refl)
          | inr fine ↦ inl (record {
            session = ds;
            owner = u;
            authenticated = authenticate_ok ctx s.conn v;
            as_admin = λ admin_only. ground (arith, fine, admin_only);
            handled = λ h. rw (inner_guarded m ctx q s h private_, v, fine) refl;
          })
        ]

    unary_same :
        (m : String) (ctx : Context) (q : Req) (s : Server R) (g h : Handler R Req Resp GoError)
        → inner i now m g (called i now ctx s).0 q (called i now ctx s).1
          ≡ inner i now m h (called i now ctx s).0 q (called i now ctx s).1
        → unary i now m g ctx q s ≡ unary i now m h ctx q s
    unfolding unary recovery_unary metrics_unary request_id_unary logging_unary locale_unary
        error_unary
    unary_same m ctx q s g h e = rw e refl

    -- No handler of a method that is not public runs but for a caller that may call it. Whatever fails, either
    -- the call has a bearer token that the token manager accepts, for a session whose row on the unchanged
    -- tables is not revoked and not idle for longer than the limit, of an account that is not deleted and is
    -- active, an administrator's if the method is one of the admin service, and the handler is given that
    -- caller as its subject; or the answer and the state are the same for every handler.
    pub unary_guards :
        (m : String) (ctx : Context) (q : Req) (s : Server R)
        → is_public m ≡ false
        → (Admits Resp m (called i now ctx s).0 q (called i now ctx s).1
            × ((called i now ctx s).1.conn.db ≡ s.conn.db))
          ⊎ ((g h : Handler R Req Resp GoError) → unary i now m g ctx q s ≡ unary i now m h ctx q s)
    unary_guards m ctx q s private_ =
        let (ctx', s') = called i now ctx s in
        elim (inner_guards m ctx' q s' (authenticate i now ctx' s'.conn).0 private_ refl) [
          | inl admits ↦ inl (admits, called-db ctx s)
          | inr same ↦ inr (λ g h. unary_same m ctx q s g h (same g h))
        ]
