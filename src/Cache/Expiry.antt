-- ===== src/Cache/Expiry.antt =====
-- The sets of keys behind the tags of internal/platform/cache/manager.go, and when they expire.
use go_grpc_starter.Prelude.{
  ℕ, ◌+◌, ◌-◌, ◌≤◌, ◌<◌, String, ◌≡◌, ◌≢◌, refl, sym, subst, ap, ◌∙◌, Option, none, some, List, [],
  ◌∷◌, Has, arith, Bool-cases, inl, inr, str_eq, eq_iff,
}
use go_grpc_starter.Errs.{Result, ok}
use go_grpc_starter.Redis.{Redis, Command, IsRedis, Entry, text, members_of, with_ttl, aged, expiry}
use go_grpc_starter.Cache.{
  CacheOptions, then_send, build_key, build_tag_key, add_tags, set_text, invalidate_members,
  invalidate_by_tag,
}
use go_grpc_starter.Cache.Keys.{build_key-ne-tag, build_key-inj}
use go_grpc_starter.Cache.Tags.{then_send_ok, then_send-state, and_then_ok, invalidate_by_tag-gone}

with_ttl-members : (t : ℕ) (e : Option Entry) → members_of (with_ttl t e) ≡ members_of e
with_ttl-members t none = refl
with_ttl-members t (some e) = refl

module _ {R : Type 0} (s : Redis R) (h : IsRedis s) (prefix : String) where
  abbrev tag_members : R → String → List String
  tag_members r key = members_of (h.view r key)

  expire-keeps :
      (j : String) (t : ℕ) (r : R) (key m : String)
      → (s.expire j t r).0 ≡ ok tt
      → Has m (tag_members r key)
      → Has m (tag_members (s.expire j t r).1 key)
  expire-keeps j t r key m fine has = elim (Bool-cases (str_eq j key)) [
    | inl same ↦
        let e = (eq_iff j key).0 same in
        let there = subst (λ x. Has m (tag_members r x)) (sym e) has in
        subst (λ x. Has m (tag_members (s.expire j t r).1 x)) e
          (rw (h.expire_ok j t r fine, with_ttl-members t (h.view r j)) there)
    | inr apart ↦ rw (h.expire_other j t r key (λ e. cc (apart, (eq_iff j key).1 e))) has
  ]

  sadd-keeps :
      (j x : String) (r : R) (key m : String)
      → Has m (tag_members r key)
      → Has m (tag_members (s.sadd j x r).1 key)
  sadd-keeps j x r key m has = elim (Bool-cases (str_eq j key)) [
    | inl same ↦
        let e = (eq_iff j key).0 same in
        subst (λ y. Has m (tag_members (s.sadd j x r).1 y)) e
          (h.sadd_keeps j x r m (subst (λ y. Has m (tag_members r y)) (sym e) has))
    | inr apart ↦ rw (h.sadd_other j x r key (λ e. cc (apart, (eq_iff j key).1 e))) has
  ]

  module _ (full_key : String) (ttl : ℕ) where
    abbrev tag_it : String → Command R (Unit {0})
    tag_it tag = s.sadd (build_tag_key prefix tag) full_key

    abbrev expire_it : String → Command R (Unit {0})
    expire_it tag = s.expire (build_tag_key prefix tag) (ttl + 3600)

    add_tags_ok :
        (tag : String) (tags : List String) (r : R)
        → (add_tags s prefix full_key ttl (tag ∷ tags) r).0 ≡ ok tt
        → ((tag_it tag r).0 ≡ ok tt)
          × ((expire_it tag (tag_it tag r).1).0 ≡ ok tt)
          × ((add_tags s prefix full_key ttl tags (expire_it tag (tag_it tag r).1).1).0 ≡ ok tt)
    unfolding add_tags
    add_tags_ok tag tags r fine =
        let rest = add_tags s prefix full_key ttl tags in
        let (first, more) = then_send_ok (tag_it tag) (then_send (expire_it tag) rest) r fine in
        let (second, last) = then_send_ok (expire_it tag) rest (tag_it tag r).1 more in
        (first, second, last)

    add_tags-state :
        (tag : String) (tags : List String) (r : R)
        → (add_tags s prefix full_key ttl (tag ∷ tags) r).1
          ≡ (add_tags s prefix full_key ttl tags (expire_it tag (tag_it tag r).1).1).1
    unfolding add_tags
    add_tags-state tag tags r =
        let rest = add_tags s prefix full_key ttl tags in
        then_send-state (tag_it tag) (then_send (expire_it tag) rest) r
        ∙ then_send-state (expire_it tag) rest (tag_it tag r).1

    add_tags-keeps :
        (tags : List String) (r : R) (key m : String)
        → (add_tags s prefix full_key ttl tags r).0 ≡ ok tt
        → Has m (tag_members r key)
        → Has m (tag_members (add_tags s prefix full_key ttl tags r).1 key)
    add_tags-keeps [] r key m fine has = unfold add_tags in has
    add_tags-keeps (tag ∷ tags) r key m fine has =
        let (_, second, last) = add_tags_ok tag tags r fine in
        rw (add_tags-state tag tags r) (
          add_tags-keeps tags _ key m last (
            expire-keeps (build_tag_key prefix tag) (ttl + 3600) (tag_it tag r).1 key m second
              (sadd-keeps (build_tag_key prefix tag) full_key r key m has)))

    add_tags-member :
        (tags : List String) (r : R) (tag : String)
        → (add_tags s prefix full_key ttl tags r).0 ≡ ok tt
        → Has tag tags
        → Has full_key
            (tag_members (add_tags s prefix full_key ttl tags r).1 (build_tag_key prefix tag))
    add_tags-member [] r tag fine has = elim has [ ]
    add_tags-member (t ∷ tags) r tag fine (inl same) =
        let (first, second, last) = add_tags_ok t tags r fine in
        let key = build_tag_key prefix t in
        rw (add_tags-state t tags r, same)
          (add_tags-keeps tags _ key full_key last (
            expire-keeps key (ttl + 3600) (tag_it t r).1 key full_key second
              (h.sadd_ok key full_key r first).0))
    add_tags-member (t ∷ tags) r tag fine (inr has) =
        let (_, _, last) = add_tags_ok t tags r fine in
        rw (add_tags-state t tags r) (add_tags-member tags _ tag last has)

    -- The tags are other keys than the entry's.
    add_tags-entry :
        (tags : List String) (r : R) (k : String)
        → h.view (add_tags s prefix full_key ttl tags r).1 (build_key prefix k)
          ≡ h.view r (build_key prefix k)
    add_tags-entry [] r k = unfold add_tags in refl
    add_tags-entry (t ∷ tags) r k =
        let key = build_tag_key prefix t in
        rw (add_tags-state t tags r) (
          add_tags-entry tags _ k
          ∙ h.expire_other key (ttl + 3600) (tag_it t r).1 (build_key prefix k)
              (build_key-ne-tag prefix k t)
          ∙ h.sadd_other key full_key r (build_key prefix k) (build_key-ne-tag prefix k t))

  -- A value that `Set` stored under a tag is gone once an invalidation of the tag has succeeded.
  pub tag_invalidates :
      (key value tag : String) (opts : CacheOptions) (r : R)
      → (set_text s prefix key value opts r).0 ≡ ok tt
      → Has tag opts.tags
      → (invalidate_by_tag s prefix tag (set_text s prefix key value opts r).1).0 ≡ ok tt
      → h.view
          (invalidate_by_tag s prefix tag (set_text s prefix key value opts r).1).1
          (build_key prefix key)
        ≡ none
  unfolding set_text
  tag_invalidates key value tag opts r fine has done =
      let full = build_key prefix key in
      let put = s.set full value opts.ttl in
      let tags = add_tags s prefix full opts.ttl opts.tags in
      let (_, more) = then_send_ok put tags r fine in
      invalidate_by_tag-gone s h prefix tag full (set_text s prefix key value opts r).1 done (
        rw (then_send-state put tags r)
          (add_tags-member full opts.ttl opts.tags (put r).1 tag more has))

  -- A `Set` with one tag, which leaves the other entries as they were.
  module _ (key value tag : String) (ttl : ℕ) (r : R) where
    abbrev put_tagged : Result (Unit {0}) × R
    put_tagged = set_text s prefix key value (record { ttl = ttl; tags = tag ∷ [] }) r

    put_tagged-entry :
        put_tagged.0 ≡ ok tt
        → h.view put_tagged.1 (build_key prefix key)
          ≡ some (record { value = text value; ttl = expiry ttl })
    unfolding set_text
    put_tagged-entry fine =
        let full = build_key prefix key in
        let put = s.set full value ttl in
        let tags = add_tags s prefix full ttl (tag ∷ []) in
        let (first, _) = then_send_ok put tags r fine in
        rw (then_send-state put tags r)
          (add_tags-entry full ttl (tag ∷ []) (put r).1 key ∙ h.set_ok full value ttl r first)

    put_tagged-other :
        (other : String)
        → key ≢ other
        → h.view put_tagged.1 (build_key prefix other) ≡ h.view r (build_key prefix other)
    unfolding set_text
    put_tagged-other other apart =
        let full = build_key prefix key in
        let put = s.set full value ttl in
        let tags = add_tags s prefix full ttl (tag ∷ []) in
        rw (then_send-state put tags r) (
          add_tags-entry full ttl (tag ∷ []) (put r).1 other
          ∙ h.set_other full value ttl r (build_key prefix other)
              (λ e. apart (build_key-inj prefix key other e)))

    put_tagged-ttl :
        put_tagged.0 ≡ ok tt
        → (e : Option Entry) × (h.view put_tagged.1 (build_tag_key prefix tag)
            ≡ with_ttl (ttl + 3600) e)
    unfolding set_text add_tags
    put_tagged-ttl fine =
        let full = build_key prefix key in
        let put = s.set full value ttl in
        let tags = add_tags s prefix full ttl (tag ∷ []) in
        let (_, more) = then_send_ok put tags r fine in
        let (_, second, _) = add_tags_ok full ttl tag [] (put r).1 more in
        let r' = (tag_it full ttl tag (put r).1).1 in
        (
          h.view r' (build_tag_key prefix tag),
          rw (then_send-state put tags r, add_tags-state full ttl tag [] (put r).1)
              (h.expire_ok (build_tag_key prefix tag) (ttl + 3600) r' second),
        )

  no_members : (xs : List String) → ((x : String) → Has x xs → ⊥) → xs ≡ []
  no_members [] none_in = refl
  no_members (x ∷ xs) none_in = absurd (none_in x (inl refl))

  -- Nothing is left to delete once the set of the tag has expired.
  invalidate_expired :
      (tag : String) (r : R)
      → (invalidate_by_tag s prefix tag r).0 ≡ ok tt
      → h.view r (build_tag_key prefix tag) ≡ none
      → (key : String) → h.view (invalidate_by_tag s prefix tag r).1 key ≡ h.view r key
  unfolding invalidate_by_tag invalidate_members
  invalidate_expired tag r fine gone key =
      let read = s.smembers (build_tag_key prefix tag) r in
      let (keys, e0, _, e) = and_then_ok read (invalidate_members s prefix tag) fine in
      let only = h.smembers_only (build_tag_key prefix tag) r e0 in
      let empty : keys ≡ [] =
        no_members keys (λ x has. subst (λ v. Has x (members_of v)) gone (only x has)) in
      rw (e, empty) (h.smembers_view (build_tag_key prefix tag) r key)

  expired : (t n : ℕ) (e : Option Entry) → t ≤ n → aged n (with_ttl t e) ≡ none
  expired t n none h = refl
  expired t n (some e) h = ground arith

  kept :
      (v : String) (t n : ℕ)
      → n < t
      → aged n (some (record { value = text v; ttl = expiry t }))
        ≡ some (record { value = text v; ttl = some (t - n) })
  kept v t n h = ground arith

  -- A tag can be lost before its entries. `Set` gives the set of a tag its own expiry, an hour past that of
  -- the entry, also where a longer one was there. So after an entry has been stored under a tag, and another
  -- whose expiry is more than an hour shorter under the same tag, an `InvalidateByTag` that succeeds leaves
  -- the first entry as it is, at any time from an hour past the shorter expiry until the longer one.
  pub tag_lost :
      (key other value value' tag : String) (ttl ttl' n : ℕ) (r : R)
      → other ≢ key
      → ttl' + 3600 ≤ n
      → n < ttl
      → (put_tagged key value tag ttl r).0 ≡ ok tt
      → (put_tagged other value' tag ttl' (put_tagged key value tag ttl r).1).0 ≡ ok tt
      → (invalidate_by_tag s prefix tag
          (h.wait n (put_tagged other value' tag ttl' (put_tagged key value tag ttl r).1).1)).0
        ≡ ok tt
      → h.view
          (invalidate_by_tag s prefix tag
            (h.wait n (put_tagged other value' tag ttl' (put_tagged key value tag ttl r).1).1)).1
          (build_key prefix key)
        ≡ some (record { value = text value; ttl = some (ttl - n) })
  tag_lost key other value value' tag ttl ttl' n r apart late early first second done =
      let r1 = (put_tagged key value tag ttl r).1 in
      let r2 = (put_tagged other value' tag ttl' r1).1 in
      let (e, set) = put_tagged-ttl other value' tag ttl' r1 second in
      let gone =
        h.wait_view n r2 (build_tag_key prefix tag)
        ∙ ap (aged n) set
        ∙ expired (ttl' + 3600) n e late in
      let entry =
        put_tagged-other other value' tag ttl' r1 key apart
        ∙ put_tagged-entry key value tag ttl r first in
      invalidate_expired tag (h.wait n r2) done gone (build_key prefix key)
      ∙ h.wait_view n r2 (build_key prefix key)
      ∙ ap (aged n) entry
      ∙ kept value ttl n early
