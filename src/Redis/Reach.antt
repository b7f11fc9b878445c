-- ===== src/Redis/Reach.antt =====
-- What any number of clients can do to a server without writing one key.
use go_grpc_starter.Prelude.{ℕ, String, ◌≡◌, ◌≢◌, ap, ◌∙◌, none}
use go_grpc_starter.Redis.{Redis, IsRedis, aged}

module _ {R : Type 0} (s : Redis R) (h : IsRedis s) (key : String) where
  -- A command of any client that is no write of `key`, the passing of time, or work beyond Redis.
  pub data Step (r : R) : R → Type 0 where
    set : (k v : String) (t : ℕ) → k ≢ key → Step r (s.set k v t r).1
    get : (k : String) → Step r (s.get k r).1
    get_del : (k : String) → Step r (s.get_del k r).1
    del : (k : String) → k ≢ key → Step r (s.del k r).1
    incr : (k : String) → k ≢ key → Step r (s.incr k r).1
    expire : (k : String) (t : ℕ) → k ≢ key → Step r (s.expire k t r).1
    expire_nx : (k : String) (t : ℕ) → k ≢ key → Step r (s.expire_nx k t r).1
    sadd : (k m : String) → k ≢ key → Step r (s.sadd k m r).1
    smembers : (k : String) → Step r (s.smembers k r).1
    wait : (n : ℕ) → Step r (h.wait n r)
    beyond : (r' : R) → h.view r' key ≡ h.view r key → Step r r'

  -- The states that such steps lead to, interleaved in any order.
  pub data Reach (r : R) : R → Type 0 where
    here : Reach r r
    next : {r' r'' : R} → Reach r r' → Step r' r'' → Reach r r''

  abbrev IsGone : R → Type 0
  IsGone r = h.view r key ≡ none

  Step-IsGone : {r r' : R} → Step r r' → IsGone r → IsGone r'
  Step-IsGone {r} (set k v t d) g = h.set_other k v t r key d ∙ g
  Step-IsGone {r} (get k) g = h.get_view k r key ∙ g
  Step-IsGone {r} (get_del k) g = h.get_del_gone k r key g
  Step-IsGone {r} (del k d) g = h.del_other k r key d ∙ g
  Step-IsGone {r} (incr k d) g = h.incr_other k r key d ∙ g
  Step-IsGone {r} (expire k t d) g = h.expire_other k t r key d ∙ g
  Step-IsGone {r} (expire_nx k t d) g = h.expire_nx_other k t r key d ∙ g
  Step-IsGone {r} (sadd k m d) g = h.sadd_other k m r key d ∙ g
  Step-IsGone {r} (smembers k) g = h.smembers_view k r key ∙ g
  Step-IsGone {r} (wait n) g = h.wait_view n r key ∙ ap (aged n) g
  Step-IsGone (beyond r' e) g = e ∙ g

  -- A key that is gone stays so.
  pub Reach-IsGone : {r r' : R} → Reach r r' → IsGone r → IsGone r'
  Reach-IsGone here g = g
  Reach-IsGone (next run step) g = Step-IsGone step (Reach-IsGone run g)
