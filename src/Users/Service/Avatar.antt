-- ===== src/Users/Service/Avatar.antt =====
-- An avatar that was uploaded: `UploadAvatar` of internal/users/service.go.
use go_grpc_starter.Prelude.{
  ℕ, ◌≤◌, String, ◌≡◌, refl, sym, ap, ◌∙◌, Bool, false, ◌||◌, Option, none, some, List, [], ◌∷◌,
  length, ltb, find, ◌==◌, Bool-cases, inl, inr, arith,
}
use mathlib.Core.Option
use go_grpc_starter.Errs.{ok, other}
use go_grpc_starter.Store.{Conn, Action, pure, opened, ◌>>=◌, constrained_query, with_tx}
use go_grpc_starter.Store.Inversion.{bind_ok}
use go_grpc_starter.Store.Atomic.{with_tx_commit, run-with_tx}
use go_grpc_starter.Store.Joined.{constrained_ok}
use go_grpc_starter.Users.Entity.{User}
use go_grpc_starter.Auth.Tables.{AuthDb, get_user_by_id, update_where}
use go_grpc_starter.Auth.Repository.{or_missing}
use go_grpc_starter.Auth.Session.{outside}
use go_grpc_starter.Auth.Users.{
  ProfileUpdate, with_profile, has_live_id, update_user_profile, update_profile, err_user_not_found,
}
use go_grpc_starter.Users.Service.{
  Storage, UserCollaborators, max_avatar_bytes, avatar_content_type, avatar_key, as_upload_failed,
  store_avatar, upload_typed, upload_with, upload_avatar,
}

find-update :
    (id : ℕ) (upd : ProfileUpdate) (users : List User)
    → find (has_live_id id) (update_where (has_live_id id) (with_profile upd) users)
      ≡ Option.map (with_profile upd) (find (has_live_id id) users)
unfolding find update_where
find-update id upd [] = refl
find-update id upd (u ∷ users) = elim (Bool-cases (has_live_id id u)) [
  | inl e ↦ rw e (rw e refl)
  | inr e ↦ rw e (rw e (find-update id upd users))
]

update_user_profile-some :
    (fits : User → Bool) (id : ℕ) (upd : ProfileUpdate) (o d : AuthDb) (v : User)
    → update_user_profile fits id upd o ≡ some (some v, d)
    → (get_user_by_id id d ≡ some v)
      × (Option.map (with_profile upd) (get_user_by_id id o) ≡ some v)
unfolding update_user_profile get_user_by_id
update_user_profile-some fits id upd o d v h =
    let row = Option.map (with_profile upd) (get_user_by_id id o) in
    let users : d.users ≡ update_where (has_live_id id) (with_profile upd) o.users =
      ground (arith, h) in
    let found : row ≡ some v = ground (arith, h) in
    (ap (find (has_live_id id)) users ∙ find-update id upd o.users ∙ found, found)

with_profile-avatar :
    (upd : ProfileUpdate) (row : Option User) (url : String) (v : User)
    → upd.avatar ≡ some url
    → Option.map (with_profile upd) row ≡ some v
    → v.avatar ≡ url
with_profile-avatar upd none url v h e = ground (arith, e)
with_profile-avatar upd (some w) url v h e = ground (arith, e, h)

or_missing-some :
    {W : Type 0} (row : Option User) (v : User) (c : Conn W AuthDb)
    → (or_missing err_user_not_found row c).0 ≡ ok v
    → (row ≡ some v) × ((or_missing err_user_not_found row c).1.db ≡ c.db)
or_missing-some row v c h = ground (arith, h)

module _ {W : Type 0} (u : UserCollaborators W) (fits : User → Bool) where
  update_profile_ok :
      (id : ℕ) (upd : ProfileUpdate) (c : Conn W AuthDb) {v : User}
      → c.in_tx ≡ false
      → (update_profile fits id upd c).0 ≡ ok v
      → update_user_profile fits id upd c.db ≡ some (some v, (update_profile fits id upd c).1.db)
  unfolding update_profile
  update_profile_ok id upd c {v} idle h =
      let write = constrained_query (other "update profile") (update_user_profile fits id upd) in
      let body = write >>= or_missing err_user_not_found in
      let same = run-with_tx body c in
      let h' : (with_tx body c).0 ≡ ok v = rw same at h in
      let (fine, _, db, _, _) = with_tx_commit body c idle h' in
      let (row, e0, e1, e) = bind_ok (or_missing err_user_not_found) write (opened c) fine in
      let (is_v, kept) = or_missing-some row v (write (opened c)).1 e1 in
      let stored = constrained_ok _ (update_user_profile fits id upd) (opened c) e0 in
      rw (same, db, e, kept)
        (stored ∙ ap (λ (x : Option User). some (x, (write (opened c)).1.db)) is_v)

  -- What an upload that succeeded has checked and stored, from the tables `o` to `d`.
  pub record Uploads (user_id : ℕ) (content_type : String) (bytes : List ℕ) (d : AuthDb)
      (url : String) : Type 0 where
    pub store : Storage W
    pub ext : String
    pub uuid : String
    pub owner : User
    pub configured : u.storage ≡ some store
    pub known_type : avatar_content_type content_type ≡ some ext
    pub not_empty : 1 ≤ length bytes
    pub small : length bytes ≤ max_avatar_bytes
    pub at_key : url ≡ store.public_url (avatar_key u fits user_id uuid ext)
    pub stored : get_user_by_id user_id d ≡ some owner
    pub shown : owner.avatar ≡ url

  -- The fields that `UploadAvatar` checked before.
  Stores : Storage W → ℕ → String → String → AuthDb → String → Type 0
  Stores s user_id ext uuid d url =
      (owner : User) × (url ≡ s.public_url (avatar_key u fits user_id uuid ext))
      × (get_user_by_id user_id d ≡ some owner)
      × (owner.avatar ≡ url)

  store_avatar_ok :
      (s : Storage W) (user_id : ℕ) (content_type : String) (bytes : List ℕ) (ext uuid : String)
      (c : Conn W AuthDb) {url : String}
      → c.in_tx ≡ false
      → (store_avatar u fits s user_id content_type bytes ext uuid c).0 ≡ ok url
      → Stores s user_id ext uuid
          (store_avatar u fits s user_id content_type bytes ext uuid c).1.db
          url
  unfolding store_avatar Stores
  store_avatar_ok s user_id content_type bytes ext uuid c {url} idle h =
      let key = avatar_key u fits user_id uuid ext in
      let upd : ProfileUpdate = record {
        first_name = none;
        last_name = none;
        bio = none;
        avatar = some (s.public_url key);
      } in
      let upload : Action W AuthDb (Unit {0}) =
        outside (λ w. let (r, w') = s.put key bytes content_type w in (as_upload_failed r, w')) in
      let save = update_profile fits user_id upd in
      let (_, e0, e1, e) = bind_ok (λ _. save >>= λ _. pure (s.public_url key)) upload c h in
      let (owner, e2, e3, e') = bind_ok (λ _. pure (s.public_url key)) save (upload c).1 e1 in
      let (there, row) =
        update_user_profile-some fits user_id upd (upload c).1.db (save (upload c).1).1.db owner
          (update_profile_ok user_id upd (upload c).1 idle e2) in
      let answered : url ≡ s.public_url key = ground (arith, e3) in
      let shown =
        with_profile-avatar upd (get_user_by_id user_id (upload c).1.db) (s.public_url key) owner
          refl row in
      (owner, answered, rw (e, e') there, shown ∙ sym answered)

  upload_typed_ok :
      (s : Storage W) (user_id : ℕ) (content_type : String) (bytes : List ℕ) (ext : Option String)
      (c : Conn W AuthDb) {url : String}
      → c.in_tx ≡ false
      → u.storage ≡ some s
      → avatar_content_type content_type ≡ ext
      → (upload_typed u fits s user_id content_type bytes ext c).0 ≡ ok url
      → Uploads user_id content_type bytes
          (upload_typed u fits s user_id content_type bytes ext c).1.db
          url
  unfolding upload_typed Stores
  upload_typed_ok s user_id content_type bytes none c idle configured known h = ground (arith, h)
  upload_typed_ok s user_id content_type bytes (some ext) c {url} idle configured known h =
      elim (Bool-cases (length bytes == 0 || ltb max_avatar_bytes (length bytes))) [
        | inl refused ↦ let h' = rw refused at h in ground (arith, h')
        | inr fine ↦
            let h' = rw fine at h in
            let (uuid, w) = u.new_uuid c.outside in
            let (owner, at_key, there, shown) =
              store_avatar_ok s user_id content_type bytes ext uuid (record c { outside = w }) idle
                h' in
            rw fine (record {
              store = s;
              ext = ext;
              uuid = uuid;
              owner = owner;
              configured = configured;
              known_type = known;
              not_empty = ground (arith, fine);
              small = ground (arith, fine);
              at_key = at_key;
              stored = there;
              shown = shown;
            })
      ]

  upload_with_ok :
      (storage : Option (Storage W)) (user_id : ℕ) (content_type : String) (bytes : List ℕ)
      (c : Conn W AuthDb) {url : String}
      → c.in_tx ≡ false
      → u.storage ≡ storage
      → (upload_with u fits storage user_id content_type bytes c).0 ≡ ok url
      → Uploads user_id content_type bytes
          (upload_with u fits storage user_id content_type bytes c).1.db
          url
  unfolding upload_with
  upload_with_ok none user_id content_type bytes c idle configured h = ground (arith, h)
  upload_with_ok (some s) user_id content_type bytes c idle configured h =
      upload_typed_ok s user_id content_type bytes (avatar_content_type content_type) c idle
        configured refl h

  -- An upload outside a transaction that returns a URL had an object store, one of the three content
  -- types, and between 1 byte and 5 MiB; the URL is the one of the object's key, and the live account of
  -- that identifier then shows it.
  pub upload_avatar_ok :
      (user_id : ℕ) (content_type : String) (bytes : List ℕ) (c : Conn W AuthDb) {url : String}
      → c.in_tx ≡ false
      → (upload_avatar u fits user_id content_type bytes c).0 ≡ ok url
      → Uploads user_id content_type bytes
          (upload_avatar u fits user_id content_type bytes c).1.db
          url
  unfolding upload_avatar
  upload_avatar_ok user_id content_type bytes c idle h =
      upload_with_ok u.storage user_id content_type bytes c idle refl h
