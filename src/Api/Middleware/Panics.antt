-- ===== src/Api/Middleware/Panics.antt =====
-- Where a panic of a handler goes in the ops stack of api.middlewares.go.
use demo_redis.Prelude.{ℕ, String, ◌≡◌, ap, ◌∙◌, some, arith}
use demo_redis.Api.{ApiHandler, Request, Params, Exchange, panicked, crashed, Outcome, Handle}
use demo_redis.Api.Middleware.{
  chain, cors, stats_middleware, add_logger, requests_counter, request_id, panic_recovery,
  in_goroutine, timeout_middleware, middlewares_ops,
}
use demo_redis.Api.Middleware.Chain.{chain-eq-nest}
use demo_redis.Api.Middleware.Stack.{wrapped, raced, timeout-raced}
use demo_redis.Api.Middleware.Maintenance.{identified, drawn}
use demo_redis.Api.Middleware.Passage.{
  held, holding, entered, entry, before_timeout, request_id-identified,
}

module _ {W : Type 0} (api : ApiHandler W) where
  stats-panicked :
      (h : Handle W) (r : Request) (ps : Params) (x : Exchange W) (c : ℕ) (v : String)
      → r.context.conn ≡ some c
      → (h r ps (wrapped api c x)).0 ≡ panicked v
      → (stats_middleware api h r ps x).0 ≡ panicked v
  unfolding stats_middleware
  stats-panicked h r ps x c v conn e = ground arith

  in_goroutine-crashed :
      (m : Exchange W → Outcome × Exchange W) (x : Exchange W) (v : String)
      → (m x).0 ≡ panicked v
      → (in_goroutine api m x).0 ≡ crashed
  unfolding in_goroutine
  in_goroutine-crashed m x v e = ground arith

  recovery-crashed :
      (k : Handle W) (r : Request) (ps : Params) (x : Exchange W)
      → (k r ps x).0 ≡ crashed
      → (panic_recovery api k r ps x).0 ≡ crashed
  unfolding panic_recovery
  recovery-crashed k r ps x e = ground arith

  module _ (h : Handle W) (r : Request) (ps : Params) (x : Exchange W) (c : ℕ) (v : String)
      (conn : r.context.conn ≡ some c)
      (panics : (h (entered api r x) ps (entry api c r ps x)).0 ≡ panicked v) where
    abbrev timed : Handle W
    timed = timeout_middleware api (stats_middleware api h)

    timed-crashed : (timed (held api r x) ps (holding api r ps x)).0 ≡ crashed
    timed-crashed =
        rw (timeout-raced api (stats_middleware api h) (held api r x) ps (holding api r ps x)) (
          in_goroutine-crashed (stats_middleware api h (entered api r x) ps)
            (raced api (held api r x) (holding api r ps x)) v
            (stats-panicked h (entered api r x) ps (raced api (held api r x) (holding api r ps x)) c
              v conn panics))

    abbrev inner : Handle W
    inner = request_id api (requests_counter api (add_logger api (cors timed)))

    inner-crashed : (inner r ps x).0 ≡ crashed
    inner-crashed =
        ap (λ (o : Outcome × Exchange W). o.0)
          (request_id-identified api (requests_counter api (add_logger api (cors timed))) r ps x
            ∙ before_timeout api timed (identified api r x) ps (drawn api x))
        ∙ timed-crashed

    -- A handler that panics on the request that the middlewares make of one that came over a connection, in
    -- the state in which they call it, ends the process, although `PanicRecoveryMiddleware` stands
    -- outermost in the ops stack: the handler runs in the goroutine that `TimeoutMiddleware` starts, and
    -- nothing recovers there.
    pub chain_ops-crashed : (chain (middlewares_ops api) h r ps x).0 ≡ crashed
    chain_ops-crashed =
        ap (λ (k : Handle W). (k r ps x).0) (chain-eq-nest (middlewares_ops api) h)
        ∙ recovery-crashed inner r ps x inner-crashed
