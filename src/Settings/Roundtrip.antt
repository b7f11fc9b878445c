-- ===== src/Settings/Roundtrip.antt =====
-- Settings that are written and read again: internal/settings/repository.go.
use go_grpc_starter.Prelude.{
  ℕ, suc, String, ◌≡◌, refl, ap, ◌∙◌, Bool-cases, some, inl, inr, List, [], ◌∷◌, find, arith,
}
use mathlib.Core.Option
use go_grpc_starter.Errs.{ok}
use go_grpc_starter.Store.{Conn, run, query, with_tx}
use go_grpc_starter.Store.Calm.{IsCalm, Does, run-query-Does}
use go_grpc_starter.Auth.Tables.{AuthDb, update_where}
use go_grpc_starter.Auth.Repository.{done}
use go_grpc_starter.Settings.{
  Settings, Codec, has_user, get_user_settings, update_user_settings, get_by_user_id,
  settings_update, get, update,
}

find-replaced :
    (user_id : ℕ) (text old : String) (rows : List (ℕ × String))
    → Option.map (λ (row : ℕ × String). row.1) (find (has_user user_id) rows) ≡ some old
    → Option.map
        (λ (row : ℕ × String). row.1)
        (find
          (has_user user_id)
          (update_where (has_user user_id) (λ (row : ℕ × String). (row.0, text)) rows))
      ≡ some text
unfolding find update_where
find-replaced user_id text old [] h = ground (arith, h)
find-replaced user_id text old (row ∷ rows) h = elim (Bool-cases (has_user user_id row)) [
  | inl e ↦ rw e (rw e refl)
  | inr e ↦ rw e (rw e (find-replaced user_id text old rows (ground (arith, h, e))))
]

module _ {W : Type 0} (json : Codec) (user_id : ℕ) where
  get_calm :
      (s : Settings) (text : String) (c : Conn W AuthDb)
      → IsCalm c
      → get_user_settings user_id c.db ≡ some text
      → json.unmarshal text ≡ ok s
      → (get json user_id c).0 ≡ ok s
  unfolding get get_by_user_id run with_tx query
  get_calm s text c calm there decoded = ground (
    arith,
    there,
    decoded,
    calm.sound,
    calm.no_faults c.clock,
    calm.no_faults (suc c.clock),
    calm.no_faults (suc (suc c.clock)),
    calm.no_faults (suc (suc (suc c.clock))),
  )

  update_calm :
      (s : Settings) (text : String) (c : Conn W AuthDb)
      → IsCalm c
      → json.marshal s ≡ ok text
      → Does c (update json user_id s c).1 (update_user_settings user_id (json.jsonb text) c.db)
  unfolding update settings_update
  update_calm s text c calm encoded =
      rw encoded (run-query-Does c calm (done (update_user_settings user_id (json.jsonb text))))

  -- Settings that were updated are read back. While no call of the database fails, and what the column
  -- gives back for the JSON of the settings decodes to them, `Get` after an `Update` of a user who has a
  -- row of settings returns what was written.
  pub get-update :
      (s : Settings) (text old : String) (c : Conn W AuthDb)
      → IsCalm c
      → json.marshal s ≡ ok text
      → json.unmarshal (json.jsonb text) ≡ ok s
      → get_user_settings user_id c.db ≡ some old
      → (get json user_id (update json user_id s c).1).0 ≡ ok s
  unfolding get_user_settings update_user_settings
  get-update s text old c calm encoded decoded there =
      let d = update_calm s text c calm encoded in
      let row : get_user_settings user_id (update json user_id s c).1.db ≡ some (json.jsonb text) =
        ap (get_user_settings user_id) d.same_db
        ∙ find-replaced user_id (json.jsonb text) old c.db.settings there in
      get_calm s (json.jsonb text) (update json user_id s c).1 d.calm row decoded
