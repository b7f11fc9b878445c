-- ===== src/Auth/Calm.antt =====
-- The repository calls of internal/auth outside a transaction while no call of the database fails.
use go_grpc_starter.Prelude.{
  ℕ, suc, String, ◌≡◌, refl, sym, ◌∙◌, Bool, true, false, ◌&&◌, none, some, List, [], ◌∷◌, find,
  All, ◌==◌, arith, Option-cases, inl, inr,
}
use go_grpc_starter.Errs.{ok}
use go_grpc_starter.Store.{Conn, query, with_tx, run}
use go_grpc_starter.Store.Calm.{IsCalm, Does}
use go_grpc_starter.Users.Entity.{User}
use go_grpc_starter.Auth.Entity.{DeviceSession, RefreshToken}
use go_grpc_starter.Auth.Tables.{
  AuthDb, update_where, revoke_session, revoke_token, is_open, is_live, revoke_sessions_where,
  revoke_tokens_where, revoke_device_session, token_by_hash, get_device_session_by_id,
  get_user_by_id,
}
use go_grpc_starter.Auth.Repository.{session_revoke, find_by_token_hash}

module _ {ℓ} {A : Type ℓ} (p : A → Bool) where
  -- No row that the test picks, so nothing to update.
  no_match_updates_nothing : (f : A → A) (xs : List A) → find p xs ≡ none → update_where p f xs ≡ xs
  unfolding find update_where
  no_match_updates_nothing f [] h = refl
  no_match_updates_nothing f (x ∷ xs) h = ground (arith, no_match_updates_nothing f xs)

module _ {W : Type 0} (c : Conn W AuthDb) (calm : IsCalm c) (idle : c.in_tx ≡ false) where
  pub find_by_token_hash_calm :
      (hash : String) (t : RefreshToken) (s : DeviceSession) (u : User)
      → token_by_hash hash c.db ≡ some t
      → get_device_session_by_id t.session_id c.db ≡ some s
      → get_user_by_id s.user_id c.db ≡ some u
      → ((find_by_token_hash hash c).0 ≡ ok (record { token = t; session = s; owner = u }))
        × ((find_by_token_hash hash c).1.aborted ≡ false)
  unfolding find_by_token_hash run with_tx query
  find_by_token_hash_calm hash t s u ht hs hu = ground (
    arith,
    calm.sound,
    calm.no_faults c.clock,
    calm.no_faults (suc c.clock),
    calm.no_faults (suc (suc c.clock)),
    calm.no_faults (suc (suc (suc c.clock))),
    calm.no_faults (suc (suc (suc (suc c.clock)))),
    calm.no_faults (suc (suc (suc (suc (suc c.clock))))),
  )

  session_revoke_calm :
      (now : ℕ) (reason : String) (id : ℕ)
      → ((session_revoke now reason id c).1.db
          ≡ revoke_sessions_where now reason (λ (s : DeviceSession). s.id == id) c.db)
        × ((session_revoke now reason id c).1.outside ≡ c.outside)
        × ((session_revoke now reason id c).1.in_tx ≡ false)
        × ((session_revoke now reason id c).1.aborted ≡ false)
        × ((session_revoke now reason id c).1.faults ≡ c.faults)
  unfolding session_revoke run with_tx query revoke_device_session revoke_sessions_where
  session_revoke_calm now reason id =
      let test = λ (s : DeviceSession). s.id == id && is_open s in
      elim (Option-cases (find test c.db.sessions)) [
        | inl missing ↦ ground (
          arith,
          missing,
          no_match_updates_nothing test (revoke_session now reason) c.db.sessions missing,
          calm.sound,
          calm.no_faults c.clock,
          calm.no_faults (suc c.clock),
          calm.no_faults (suc (suc c.clock)),
        )
        | inr (s, there) ↦ ground (
          arith,
          there,
          calm.sound,
          calm.no_faults c.clock,
          calm.no_faults (suc c.clock),
          calm.no_faults (suc (suc c.clock)),
          calm.no_faults (suc (suc (suc c.clock))),
        )
      ]

  pub session_revoke_there :
      (now : ℕ) (reason : String) (id : ℕ) (s : DeviceSession)
      → find (λ (x : DeviceSession). x.id == id && is_open x) c.db.sessions ≡ some s
      → (session_revoke now reason id c).0 ≡ ok s
  unfolding session_revoke run with_tx query revoke_device_session
  session_revoke_there now reason id s there = ground (
    arith,
    there,
    calm.sound,
    calm.no_faults c.clock,
    calm.no_faults (suc c.clock),
    calm.no_faults (suc (suc c.clock)),
    calm.no_faults (suc (suc (suc c.clock))),
  )

  pub session_revoke-Does :
      (now : ℕ) (reason : String) (id : ℕ)
      → Does c
          (session_revoke now reason id c).1
          (revoke_sessions_where now reason (λ (s : DeviceSession). s.id == id) c.db)
  session_revoke-Does now reason id =
      let (db, out, tx, sound, faults) = session_revoke_calm now reason id in
      record {
        same_db = db;
        same_outside = out;
        same_tx = tx ∙ sym idle;
        calm = record { no_faults = λ n. rw faults (calm.no_faults n); sound = sound };
      }

-- After a revocation no open row is left that the test picks.
module _ (now : ℕ) (reason : String) where
  closes-rows :
      (p : DeviceSession → Bool) (xs : List DeviceSession)
      → All
          (λ s. p s ≡ true → is_open s ≡ false)
          (update_where (λ s. p s && is_open s) (revoke_session now reason) xs)
  unfolding update_where
  closes-rows p [] = tt
  closes-rows p (x ∷ xs) = (λ h. ground arith, closes-rows p xs)

  kills-rows :
      (p : RefreshToken → Bool) (xs : List RefreshToken)
      → All
          (λ t. p t ≡ true → is_live t ≡ false)
          (update_where (λ t. p t && is_live t) (revoke_token now reason) xs)
  unfolding update_where
  kills-rows p [] = tt
  kills-rows p (x ∷ xs) = (λ h. ground arith, kills-rows p xs)

  pub revoke_sessions_closes :
      (p : DeviceSession → Bool) (o : AuthDb)
      → All (λ s. p s ≡ true → is_open s ≡ false) (revoke_sessions_where now reason p o).sessions
  unfolding revoke_sessions_where
  revoke_sessions_closes p o = closes-rows p o.sessions

  pub revoke_tokens_kills :
      (p : RefreshToken → Bool) (o : AuthDb)
      → All (λ t. p t ≡ true → is_live t ≡ false) (revoke_tokens_where now reason p o).tokens
  unfolding revoke_tokens_where
  revoke_tokens_kills p o = kills-rows p o.tokens
