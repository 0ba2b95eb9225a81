-- ===== src/Threads/Pool.antt =====
-- What a pool does to the threads of its process.
use cppfastdevelop.Prelude.{
  ℕ, zero, suc, ◌<◌, ◌≡◌, refl, sym, ap, ◌∙◌, Bool, true, false, ◌&&◌, not, Option, ◌⊎◌, inl, inr,
  none, some, List, [], ◌∷◌, length, if◌then◌else◌, arith,
}
use cppfastdevelop.Threads.{
  Outcome, returned, threw, ThreadCalls, Thread, ThreadPool, checked, created, start_one,
  after_stack, after_detach, started, start_each, start_pool, joined_one, join_each, joins_ended,
  join_pool,
}
use cppfastdevelop.Threads.Live.{
  has, remove, IsPthread, grown, Fresh, Fresh-middle, remove-grown, has-grown, has_first, tids,
}

module _ {W : Type 0} {sys : ThreadCalls W} {live : W → List ℕ} {ends : ℕ → Bool}
    (px : IsPthread sys live ends) where
  -- The loop of `Join`: where its threads are live, and end, each is joined once.
  join_each-joins :
      (all : (t : ℕ) → ends t ≡ true) (ts : List Thread) (ls : List ℕ) (w : W)
      → live w ≡ grown (tids ts) ls
      → Fresh (tids ts) ls
      → ((join_each sys ts w).1 ≡ returned) × (live (join_each sys ts w).0 ≡ ls)
  unfolding join_each grown has
  join_each-joins all [] ls w e f = (refl, e)
  join_each-joins all (t ∷ ts) ls w e f =
      let h : has t.tid (live w) ≡ true =
        ap (has t.tid) e ∙ has-grown t.tid (tids ts) (t.tid ∷ ls) (has_first t.tid ls) in
      let j = px.joins t.tid w (all t.tid) h in
      let w' = (sys.join t.tid w).0 in
      let e' : live w' ≡ grown (tids ts) ls =
        j.1 ∙ ap (remove t.tid) e ∙ remove-grown (tids ts) [] ls t.tid f.1 refl in
      let rest = join_each-joins all ts ls w' e' (Fresh-middle (tids ts) [] ls t.tid f.1) in
      let step : join_each sys (t ∷ ts) w ≡ join_each sys ts w' =
        ap (λ b. joined_one sys (join_each sys ts) (checked (w', b))) j.0 in
      (ap (λ x. x.1) step ∙ rest.0, ap (λ x. live x.0) step ∙ rest.1)

  -- The system has refused the stack size or a thread.
  abbrev pub Refused : ℕ → Type 0
  Refused stack =
      (w : W) × (((sys.attr_setstacksize stack w).1 ≡ false)
        ⊎ ((id : ℕ) × ((sys.create id w).1 ≡ none)))

  -- What a loop of `Start` over `n` threads leaves: it returns with as many threads, live beside
  -- those before, or throws with fewer, since the system has refused.
  abbrev Starts : ℕ → ℕ → List ℕ → W × List Thread × Outcome → Type 0
  Starts stack n ls (w, ts, returned) =
      (live w ≡ grown (tids ts) ls) × Fresh (tids ts) ls × (length ts ≡ n)
  Starts stack n ls (w, ts, threw) =
      (us : List ℕ) × (live w ≡ grown us ls) × Fresh us ls × (length us < n) × Refused stack

  -- The same of one round: what the rest of the loop is to make of it.
  abbrev StartsOne : ℕ → List ℕ → W × Thread × Outcome → Type 0
  StartsOne stack ls (w, t, returned) = (live w ≡ t.tid ∷ ls) × (has t.tid ls ≡ false)
  StartsOne stack ls (w, t, threw) = (live w ≡ ls) × Refused stack

  created-StartsOne :
      (stack : ℕ) (t : Thread) (ls : List ℕ) (w : W) (r : Option ℕ)
      → live w ≡ ls
      → (sys.create t.id w).1 ≡ r
      → StartsOne stack ls (created sys t ((sys.create t.id w).0, r))
  created-StartsOne stack t ls w none e q = (px.creates_none t.id w q ∙ e, (w, inr (t.id, q)))
  created-StartsOne stack t ls w (some tid) e q =
      let c = px.creates t.id w tid q in (c.0 ∙ ap (◌∷◌ tid) e, ap (has tid) (sym e) ∙ c.1)

  after_stack-StartsOne :
      (stack : ℕ) (t : Thread) (ls : List ℕ) (w : W) (b : Bool)
      → live w ≡ ls
      → (sys.attr_setstacksize stack w).1 ≡ b
      → StartsOne stack ls (after_stack sys true t (checked ((sys.attr_setstacksize stack w).0, b)))
  after_stack-StartsOne stack t ls w true e h =
      let w' = (sys.attr_setstacksize stack w).0 in
      created-StartsOne stack t ls w' (sys.create t.id w').1 (px.stack_keeps stack w ∙ e) refl
  after_stack-StartsOne stack t ls w false e h = (px.stack_keeps stack w ∙ e, (w, inl h))

  started-Starts :
      (stack n : ℕ) (us : List Thread) (ls : List ℕ) (next : W → W × List Thread × Outcome)
      (x : W × Thread × Outcome)
      → StartsOne stack ls x
      → ((w : W) (ms : List ℕ) → live w ≡ ms → Starts stack n ms (next w))
      → Starts stack (suc n) ls (started sys us next x)
  unfolding grown
  started-Starts stack n us ls next (w, t, threw) s ih = ([], s.0, tt, omega arith, s.1)
  started-Starts stack n us ls next (w, t, returned) s ih = after (next w) (ih w (t.tid ∷ ls) s.0)
    where
      after :
          (y : W × List Thread × Outcome)
          → Starts stack n (t.tid ∷ ls) y
          → Starts stack (suc n) ls (let (w', vs, r) = y in (w', t ∷ vs, r))
      after (w', vs, returned) h = (h.0, (s.1, h.1), ap suc h.2)
      after (w', vs, threw) (ts, e, f, l, x) = (t.tid ∷ ts, e, (s.1, f), omega (arith, l), x)

  start_each-Starts :
      (stack : ℕ) (ts : List Thread) (ls : List ℕ) (w : W)
      → live w ≡ ls
      → Starts stack (length ts) ls (start_each sys stack true ts w)
  unfolding start_each grown
  start_each-Starts stack [] ls w e = (e, tt, refl)
  start_each-Starts stack (t ∷ ts) ls w e =
      started-Starts stack (length ts) ts ls (start_each sys stack true ts)
        (start_one sys stack true t w)
        (after_stack-StartsOne stack t ls w (sys.attr_setstacksize stack w).1 e refl)
        (λ w' ms h. start_each-Starts stack ts ms w' h)

  -- `Join`, called again and again, with what the calls return.
  unfoldable pub join_times : ℕ → ThreadPool → W → W × ThreadPool × Outcome
  join_times zero p w = (w, p, returned)
  join_times (suc n) p w = let (w', p', r) = join_pool sys p w in join_times n p' w'

  joined_again :
      (n : ℕ) (p : ThreadPool) (w : W) → p.joined ≡ true → join_times n p w ≡ (w, p, returned)
  unfolding join_times
  joined_again zero p w h = refl
  joined_again (suc n) p w h = ground (arith, joined_again n p w h)

  times :
      (n : ℕ) (p : ThreadPool) (w : W) (x : W × ThreadPool × Outcome)
      → join_pool sys p w ≡ x
      → join_times (suc n) p w ≡ join_times n x.1 x.0
  unfolding join_times
  times n p w x e = ap (λ y. join_times n y.1 y.0) e

  -- What `Start` of a pool and the `Join`s behind it come to.
  abbrev pub Ends : ℕ → ℕ → ℕ → List ℕ → W × ThreadPool × Outcome → Type 0
  Ends stack k n ls (w, p, threw) =
      (us : List ℕ) × (live w ≡ grown us ls) × Fresh us ls × (length us < k) × Refused stack
  Ends stack k n ls (w, p, returned) =
      (live w ≡ grown (tids p.threads) ls)
      × (length p.threads ≡ k)
      × ((join_times (suc n) p w).2 ≡ returned)
      × (live (join_times (suc n) p w).0 ≡ ls)

  -- A pool whose threads are `ts`.
  abbrev pub pool : ℕ → Bool → List Thread → ThreadPool
  pool stack joinable ts = record {
    pool_size = length ts;
    stacksize = stack;
    joinable = joinable;
    joined = false;
    threads = ts;
  }

  joins-Ends :
      (all : (t : ℕ) → ends t ≡ true) (stack k n : ℕ) (ls : List ℕ) (p : ThreadPool)
      (y : W × List Thread × Outcome)
      → p.joinable ≡ true
      → p.joined ≡ false
      → Starts stack k ls y
      → Ends stack k n ls (let (w', ts, r) = y in (w', record p { threads = ts }, r))
  joins-Ends all stack k n ls p (w, ts, threw) a b s = s
  joins-Ends all stack k n ls p (w, ts, returned) a b s =
      let q = record p { threads = ts } in
      let j = join_each-joins all ts ls w s.0 s.1 in
      let w' = (join_each sys ts w).0 in
      let joined : join_pool sys q w ≡ (w', record q { joined = true }, returned) =
        ap
          (λ c.
            if c && not p.joined then joins_ended sys q (join_each sys ts w) else (w, q, returned))
          a
        ∙ ap (λ c. if not c then joins_ended sys q (join_each sys ts w) else (w, q, returned)) b
        ∙ ap (λ r. joins_ended sys q (w', r)) j.0 in
      let again : join_times (suc n) q w ≡ (w', record q { joined = true }, returned) =
        times n q w (w', record q { joined = true }, returned) joined
        ∙ joined_again n (record q { joined = true }) w' refl in
      (s.0, s.2, ap (λ x. x.2) again, ap (λ x. live x.0) again ∙ j.1)

  -- `Start` of a pool whose threads are to be joined returns, and has started as many threads as
  -- the pool has, live beside those that were; then, if all threads end, any number of calls of
  -- `Join`, at least one, returns, and leaves live just those that were. Or, where the system
  -- refuses the stack size or a thread, `Start` throws, and has started fewer threads than the pool
  -- has, which stay live.
  pub start_pool-Ends :
      (all : (t : ℕ) → ends t ≡ true) (stack n : ℕ) (ts : List Thread) (w : W)
      → Ends stack (length ts) n (live w) (start_pool sys (pool stack true ts) w)
  start_pool-Ends all stack n ts w =
      joins-Ends all stack (length ts) n (live w) (pool stack true ts)
        (start_each sys stack true ts w) refl refl (start_each-Starts stack ts (live w) w refl)

  -- `Start` of a pool whose threads are not to be joined, where the first one has not been started
  -- and no thread is called by the 0 that it has for an identifier, throws before it starts any, and
  -- leaves its threads and the live ones as they were.
  pub start_pool_detached-throws :
      (stack : ℕ) (t : Thread) (ts : List Thread) (w : W)
      → t.tid ≡ 0
      → has 0 (live w) ≡ false
      → let (w', p', r) = start_pool sys (pool stack false (t ∷ ts)) w in
        (r ≡ threw) × (p'.threads ≡ t ∷ ts) × (live w' ≡ live w)
  unfolding start_each
  start_pool_detached-throws stack t ts w z h = detached (sys.attr_setstacksize stack w).1
    where
      w1 : W
      w1 = (sys.attr_setstacksize stack w).0

      e : live w1 ≡ live w
      e = px.stack_keeps stack w

      absent : has t.tid (live w1) ≡ false
      absent = ap (λ k. has k (live w1)) z ∙ ap (has 0) e ∙ h

      detached :
          (b : Bool)
          → let (w', ts', r) =
              started sys ts
                (start_each sys stack false ts)
                (after_stack sys false t (checked (w1, b))) in
            (r ≡ threw) × (ts' ≡ t ∷ ts) × (live w' ≡ live w)
      detached false = (refl, refl, e)
      detached true =
          let step : started sys ts (start_each sys stack false ts)
                (after_detach sys t (checked (sys.detach t.tid w1)))
              ≡ ((sys.detach t.tid w1).0, t ∷ ts, threw) =
            ap
              (λ c.
                started sys ts (start_each sys stack false ts)
                  (after_detach sys t (checked ((sys.detach t.tid w1).0, c))))
              (px.detaches t.tid w1 absent) in
          (
            ap (λ x. x.2) step,
            ap (λ x. x.1) step,
            ap (λ x. live x.0) step ∙ px.detach_keeps t.tid w1 absent ∙ e,
          )
