-- ===== src/Api/Middleware/Stack.antt =====
-- What the stacks of api.middlewares.go do to the statistics, and to panics.
use demo_redis.Prelude.{
  ◌<◌, ℕ, ◌+◌, ◌%◌, ◌^◌, String, ◌≡◌, refl, sym, ap, ◌∙◌, inl, inr, Option, none, some,
  Option-cases, arith, ◌∷◌,
}
use demo_redis.Book.{Error, canceled, deadline_exceeded}
use demo_redis.Context.{get_request_id}
use demo_redis.Response.{custom, new_custom_writer, base_of}
use demo_redis.Api.{
  ApiHandler, Statistics, with_context, Request, Params, Exchange, Outcome, returned, Handle,
}
use demo_redis.Api.Middleware.{
  chain, cors, count_status, stats_middleware, add_logger, requests_counter, request_id,
  panic_recovery, abort, in_goroutine, get_timeout, timeout_middleware, middlewares_ops,
}
use demo_redis.Api.Middleware.Chain.{chain-eq-nest}
use demo_redis.Api.Middleware.Counting.{total, total-bump}
use mathlib.Core.Path.{subst}

-- A handler that returns and leaves the statistics and the maintenance mode alone.
pub record IsQuiet {W : Type 0} (h : Handle W) : Type 0 where
  pub answers : (r : Request) (ps : Params) (x : Exchange W) → (h r ps x).0 ≡ returned
  pub keeps : (r : Request) (ps : Params) (x : Exchange W) → (h r ps x).1.stats ≡ x.stats

-- On a request that came over a connection, the handler returns, one more status is counted while the
-- counts fit into a uint64, and the number of requests is changed by the function.
pub record Counts {W : Type 0} (f : ℕ → ℕ) (h : Handle W) : Type 0 where
  pub answers :
      (r : Request) (ps : Params) (x : Exchange W) (c : ℕ)
      → r.context.conn ≡ some c
      → (h r ps x).0 ≡ returned
  pub called :
      (r : Request) (ps : Params) (x : Exchange W) (c : ℕ)
      → r.context.conn ≡ some c
      → (h r ps x).1.stats.called ≡ f x.stats.called
  pub counted :
      (r : Request) (ps : Params) (x : Exchange W) (c : ℕ)
      → r.context.conn ≡ some c
      → total x.stats.status + 1 < 2 ^ 64
      → total (h r ps x).1.stats.status ≡ total x.stats.status + 1

abbrev pub same : ℕ → ℕ
same n = n

-- the wrap-around of a uint64
abbrev pub next_uint64 : ℕ → ℕ
next_uint64 n = (n + 1) % 2 ^ 64

module _ {W : Type 0} (api : ApiHandler W) where
  -- What the handler under `StatsMiddleware` is given, and what is made of what it leaves.
  abbrev pub wrapped : ℕ → Exchange W → Exchange W
  wrapped c x = record x {
    writer = custom (new_custom_writer (base_of x.writer) c);
    world = (api.clock.now x.world).1;
  }

  abbrev pub finished : Exchange W → Exchange W
  finished y = count_status api (record y { world = (api.clock.now y.world).1 })

  pub stats-returned :
      (h : Handle W) (r : Request) (ps : Params) (x : Exchange W) (c : ℕ)
      → r.context.conn ≡ some c
      → (h r ps (wrapped c x)).0 ≡ returned
      → stats_middleware api h r ps x ≡ (returned, finished (h r ps (wrapped c x)).1)
  unfolding stats_middleware
  stats-returned h r ps x c e answered = ground arith

  Counts-stats : (h : Handle W) → IsQuiet h → Counts same (stats_middleware api h)
  unfolding count_status
  Counts-stats h q = record {
    answers = λ r ps x c e. rw (stats-returned h r ps x c e (q.answers r ps (wrapped c x)));
    called = λ r ps x c e.
        rw (stats-returned h r ps x c e (q.answers r ps (wrapped c x)))
          (ap (λ (s : Statistics). s.called) (q.keeps r ps (wrapped c x)));
    counted = λ r ps x c e room.
        let kept = ap (λ (s : Statistics). total s.status) (q.keeps r ps (wrapped c x)) in
        rw (stats-returned h r ps x c e (q.answers r ps (wrapped c x)))
          (total-bump _ _ (omega (arith, kept)) ∙ omega (arith, kept));
  }

  stats-abort :
      (rid : String) (t : ℕ) (e : Error) (x : Exchange W) → (abort api rid t e x).1.stats ≡ x.stats
  unfolding abort
  stats-abort rid t canceled x = refl
  stats-abort rid t deadline_exceeded x = refl
  stats-abort rid t _ x = refl

  -- The response as the handler's goroutine finds it: as it was, or aborted.
  abbrev pub aborted_if : Request → Option Error → Exchange W → Exchange W
  aborted_if r none y = y
  aborted_if r (some err) y = (abort api (get_request_id r.context) (get_timeout api r) err y).1

  abbrev pub limited : Request → Request
  limited r =
      let ctx = r.context in
      with_context (record ctx { timeouts = get_timeout api r ∷ ctx.timeouts }) r

  abbrev pub raced : Request → Exchange W → Exchange W
  raced r x =
      let (done, w) = api.expires (limited r).context x.world in
      aborted_if r done (record x { world = w })

  pub timeout-raced :
      (h : Handle W) (r : Request) (ps : Params) (x : Exchange W)
      → timeout_middleware api h r ps x ≡ in_goroutine api (h (limited r) ps) (raced r x)
  unfolding timeout_middleware
  timeout-raced h r ps x = elim (Option-cases (api.expires (limited r).context x.world).0) [
    | inl p ↦ ground arith
    | inr (e, p) ↦ ground arith
  ]

  stats-aborted_if :
      (r : Request) (o : Option Error) (y : Exchange W) → (aborted_if r o y).stats ≡ y.stats
  stats-aborted_if r none y = refl
  stats-aborted_if r (some err) y = stats-abort _ _ err y

  pub in_goroutine-returned :
      (m : Exchange W → Outcome × Exchange W) (x : Exchange W)
      → (m x).0 ≡ returned
      → in_goroutine api m x ≡ m x
  unfolding in_goroutine
  in_goroutine-returned m x e = ground arith

  pub stats-raced : (r : Request) (x : Exchange W) → (raced r x).stats ≡ x.stats
  stats-raced r x = stats-aborted_if r _ _

  Counts-timeout : (f : ℕ → ℕ) (h : Handle W) → Counts f h → Counts f (timeout_middleware api h)
  Counts-timeout f h k =
      let whole : (r : Request) (ps : Params) (x : Exchange W) (c : ℕ)
          → r.context.conn ≡ some c
          → timeout_middleware api h r ps x ≡ h (limited r) ps (raced r x) =
        λ r ps x c e.
          timeout-raced h r ps x
          ∙ in_goroutine-returned (h (limited r) ps) (raced r x) (k.answers (limited r) ps _ c e) in
      record {
        answers = λ r ps x c e. rw (whole r ps x c e) (k.answers (limited r) ps _ c e);
        called = λ r ps x c e.
            rw (whole r ps x c e) (
              k.called (limited r) ps _ c e
              ∙ ap (λ (s : Statistics). f s.called) (stats-raced r x));
        counted = λ r ps x c e room.
            let fits = ap (λ (s : Statistics). total s.status) (stats-raced r x) in
            rw (whole r ps x c e) (
              k.counted (limited r) ps (raced r x) c e (omega (arith, fits)) ∙ omega (arith, fits));
      }

  Counts-cors : (f : ℕ → ℕ) (h : Handle W) → Counts f h → Counts f (cors h)
  unfolding cors
  Counts-cors f h k = record {
    answers = λ r ps x c e. k.answers r ps _ c e;
    called = λ r ps x c e. k.called r ps _ c e;
    counted = λ r ps x c e room. k.counted r ps _ c e room;
  }

  Counts-add_logger : (f : ℕ → ℕ) (h : Handle W) → Counts f h → Counts f (add_logger api h)
  unfolding add_logger
  Counts-add_logger f h k = record {
    answers = λ r ps x c e. k.answers _ ps x c e;
    called = λ r ps x c e. k.called _ ps x c e;
    counted = λ r ps x c e room. k.counted _ ps x c e room;
  }

  Counts-requests_counter :
      (h : Handle W) → Counts same h → Counts next_uint64 (requests_counter api h)
  unfolding requests_counter
  Counts-requests_counter h k = record {
    answers = λ r ps x c e. k.answers _ ps _ c e;
    called = λ r ps x c e. k.called _ ps _ c e;
    counted = λ r ps x c e room. k.counted _ ps _ c e room;
  }

  Counts-request_id : (f : ℕ → ℕ) (h : Handle W) → Counts f h → Counts f (request_id api h)
  unfolding request_id
  Counts-request_id f h k = record {
    answers = λ r ps x c e. k.answers _ ps _ c e;
    called = λ r ps x c e. k.called _ ps _ c e;
    counted = λ r ps x c e room. k.counted _ ps _ c e room;
  }

  Counts-panic_recovery : (f : ℕ → ℕ) (h : Handle W) → Counts f h → Counts f (panic_recovery api h)
  unfolding panic_recovery
  Counts-panic_recovery f h k = record {
    answers = λ r ps x c e. ground (arith, k.answers r ps x c e);
    called = λ r ps x c e. ground (arith, k.answers r ps x c e, k.called r ps x c e);
    counted = λ r ps x c e room. ground (arith, k.answers r ps x c e, k.counted r ps x c e room);
  }

  -- Through the ops stack, a handler that returns and leaves the statistics alone makes the number of
  -- requests go up by one, as a uint64, and one more status be counted while the counts fit into one.
  pub Counts-chain_ops :
      (h : Handle W) → IsQuiet h → Counts next_uint64 (chain (middlewares_ops api) h)
  Counts-chain_ops h q = subst (Counts next_uint64) (sym (chain-eq-nest (middlewares_ops api) h)) (
      Counts-panic_recovery next_uint64 _ (
        Counts-request_id next_uint64 _ (
          Counts-requests_counter _ (
            Counts-add_logger same _
              (Counts-cors same _ (Counts-timeout same _ (Counts-stats h q)))))))
