-- ===== src/Cache/Once.antt =====
-- `GetDel` of internal/platform/cache/manager.go among any other work on the server.
use go_grpc_starter.Prelude.{String, ◌≡◌, ◌≢◌, refl, ap, ◌∙◌, Option, none, some}
use go_grpc_starter.Errs.{Result, ok, err}
use go_grpc_starter.Redis.{Redis, IsRedis, text_of}
use go_grpc_starter.Redis.Reach.{Reach, Reach-IsGone}
use go_grpc_starter.Cache.{Codec, decoded, build_key, get_del}

module _ {R A : Type 0} (s : Redis R) (h : IsRedis s) (prefix : String) (c : Codec A) where
  decoded-some :
      (v : Result (Option String)) {a : A}
      → decoded c v ≡ ok (some a)
      → (t : String) × (v ≡ ok (some t))
  decoded-some (ok (some t)) e = (t, refl)
  decoded-some (ok none) e = cc
  decoded-some (err e') e = cc

  pub get_del-gone :
      (key : String) (r : R) {a : A}
      → (get_del s prefix c key r).0 ≡ ok (some a)
      → h.view (get_del s prefix c key r).1 (build_key prefix key) ≡ none
  unfolding get_del
  get_del-gone key r e =
      let (t, found) = decoded-some (s.get_del (build_key prefix key) r).0 e in
      (h.get_del_ok (build_key prefix key) r found).1

  pub get_del_of_gone :
      (key : String) (r : R) {a : A}
      → h.view r (build_key prefix key) ≡ none
      → (get_del s prefix c key r).0 ≢ ok (some a)
  unfolding get_del
  get_del_of_gone key r gone e =
      let (t, found) = decoded-some (s.get_del (build_key prefix key) r).0 e in
      let read = (h.get_del_ok (build_key prefix key) r found).0 ∙ ap text_of gone in cc

  -- A value is taken once. After a `GetDel` that found one, no other finds it, whatever all clients do in
  -- between and after, and whatever fails, until the key is written again.
  pub get_del_once :
      (key : String) (r r' : R) {a b : A}
      → (get_del s prefix c key r).0 ≡ ok (some a)
      → Reach s h (build_key prefix key) (get_del s prefix c key r).1 r'
      → (get_del s prefix c key r').0 ≢ ok (some b)
  get_del_once key r r' taken run =
      get_del_of_gone key r'
        (Reach-IsGone s h (build_key prefix key) run (get_del-gone key r taken))
