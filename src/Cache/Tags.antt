-- ===== src/Cache/Tags.antt =====
-- The tags of internal/platform/cache/manager.go: `Set` with tags, and `InvalidateByTag`.
use go_grpc_starter.Prelude.{
  String, ◌≡◌, refl, ◌∙◌, none, List, [], ◌∷◌, Has, Bool-cases, inl, inr, str_eq, eq_iff,
}
use go_grpc_starter.Errs.{Result, ok, err}
use go_grpc_starter.Redis.{Redis, Command, IsRedis, members_of}
use go_grpc_starter.Cache.{
  both, then_send, and_then, build_tag_key, del_all, invalidate_members, invalidate_by_tag,
}

module _ {R : Type 0} where
  both_ok :
      (x : Result (Unit {0})) (y : Result (Unit {0}) × R)
      → (both x y).0 ≡ ok tt
      → (x ≡ ok tt) × (y.0 ≡ ok tt)
  both_ok (ok tt) y h = (refl, h)
  both_ok (err e) y h = cc

  both-state : (x : Result (Unit {0})) (y : Result (Unit {0}) × R) → (both x y).1 ≡ y.1
  both-state (ok tt) y = refl
  both-state (err e) y = refl

  module _ (a b : Command R (Unit {0})) (r : R) where
    pub then_send_ok : (then_send a b r).0 ≡ ok tt → ((a r).0 ≡ ok tt) × ((b (a r).1).0 ≡ ok tt)
    unfolding then_send
    then_send_ok h = both_ok (a r).0 (b (a r).1) h

    pub then_send-state : (then_send a b r).1 ≡ (b (a r).1).1
    unfolding then_send
    then_send-state = both-state (a r).0 (b (a r).1)

-- Of two steps that succeeded each did, and the second's state is the last.
pub and_then_ok :
    {R A B : Type 0} (x : Result A × R) (f : A → Command R B) {b : B}
    → (and_then x f).0 ≡ ok b
    → (a : A) × (x.0 ≡ ok a) × ((f a x.1).0 ≡ ok b) × (and_then x f ≡ f a x.1)
and_then_ok (ok a, r) f e = (a, refl, e, refl)
and_then_ok (err e', r) f e = cc

module _ {R : Type 0} (s : Redis R) (h : IsRedis s) (prefix : String) where
  -- A deletion that succeeds leaves no entry, and brings none back.
  del-none :
      (j k : String) (r : R)
      → (s.del j r).0 ≡ ok tt
      → h.view r k ≡ none
      → h.view (s.del j r).1 k ≡ none
  del-none j k r fine gone = elim (Bool-cases (str_eq j k)) [
    | inl same ↦ rw (← (eq_iff j k).0 same) (h.del_ok j r fine)
    | inr apart ↦ h.del_other j r k (λ e. cc (apart, (eq_iff j k).1 e)) ∙ gone
  ]

  del_all-none :
      (keys : List String) (k : String) (r : R)
      → (del_all s prefix keys r).0 ≡ ok tt
      → h.view r k ≡ none
      → h.view (del_all s prefix keys r).1 k ≡ none
  unfolding del_all
  del_all-none [] k r fine gone = gone
  del_all-none (j ∷ keys) k r fine gone =
      let (first, rest) = then_send_ok (s.del j) (del_all s prefix keys) r fine in
      rw (then_send-state (s.del j) (del_all s prefix keys) r)
        (del_all-none keys k (s.del j r).1 rest (del-none j k r first gone))

  del_all-gone :
      (keys : List String) (k : String) (r : R)
      → (del_all s prefix keys r).0 ≡ ok tt
      → Has k keys
      → h.view (del_all s prefix keys r).1 k ≡ none
  unfolding del_all
  del_all-gone [] k r fine has = elim has [ ]
  del_all-gone (j ∷ keys) k r fine (inl same) =
      let (first, rest) = then_send_ok (s.del j) (del_all s prefix keys) r fine in
      rw (then_send-state (s.del j) (del_all s prefix keys) r)
        (del_all-none keys k (s.del j r).1 rest (rw same (h.del_ok j r first)))
  del_all-gone (j ∷ keys) k r fine (inr has) =
      let (_, rest) = then_send_ok (s.del j) (del_all s prefix keys) r fine in
      rw (then_send-state (s.del j) (del_all s prefix keys) r)
        (del_all-gone keys k (s.del j r).1 rest has)

  invalidate_members-gone :
      (tag k : String) (keys : List String) (r : R)
      → (invalidate_members s prefix tag keys r).0 ≡ ok tt
      → Has k keys
      → h.view (invalidate_members s prefix tag keys r).1 k ≡ none
  unfolding invalidate_members
  invalidate_members-gone tag k [] r fine has = elim has [ ]
  invalidate_members-gone tag k (j ∷ keys) r fine has =
      let dels = del_all s prefix (j ∷ keys) in
      let (first, last) = then_send_ok dels (s.del (build_tag_key prefix tag)) r fine in
      rw (then_send-state dels (s.del (build_tag_key prefix tag)) r) (
        del-none (build_tag_key prefix tag) k (dels r).1 last
          (del_all-gone (j ∷ keys) k r first has))

  -- An invalidation that succeeds leaves no entry of the tag.
  pub invalidate_by_tag-gone :
      (tag k : String) (r : R)
      → (invalidate_by_tag s prefix tag r).0 ≡ ok tt
      → Has k (members_of (h.view r (build_tag_key prefix tag)))
      → h.view (invalidate_by_tag s prefix tag r).1 k ≡ none
  unfolding invalidate_by_tag
  invalidate_by_tag-gone tag k r fine has =
      let read = s.smembers (build_tag_key prefix tag) r in
      let (keys, e0, e1, e) = and_then_ok read (invalidate_members s prefix tag) fine in
      let listed = h.smembers_ok (build_tag_key prefix tag) r e0 k has in
      rw e (invalidate_members-gone tag k keys read.1 e1 listed)
