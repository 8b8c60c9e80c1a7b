-- ===== src/Api/Ops/Switching.antt =====
-- The maintenance mode, as requests to /ops/maintenance switch it through the ops stack and as public
-- requests meet it: api.handlers.ops.go under api.middlewares.go and api.router.*.go.
use demo_redis.Prelude.{ℕ, ◌≡◌, refl, ap, ◌∙◌, true, false, none, some, [], arith, ◌==◌}
use demo_redis.Clock.{zero_time}
use demo_redis.Response.{BaseWriter, plain, base_of}
use demo_redis.Api.{
  ApiHandler, Request, Params, by_name, Exchange, Outcome, returned, new_maintenance, Statistics,
}
use demo_redis.Api.Middleware.{chain, middlewares_ops, count_status, cors}
use demo_redis.Api.Middleware.Stack.{stats-raced, next_uint64}
use demo_redis.Api.Middleware.Passage.{entered, entry, chain_ops-entered}
use demo_redis.Api.Ops.{switch_mode, maintenance}
use demo_redis.Api.Ops.Runtime.{Packages}
use demo_redis.Api.Routes.{Route, setup_routes}
use demo_redis.Api.Routes.Stacks.{under_ops, stacks, public_routes_closed}
use mathlib.Core.List.{Memᴰ}

module _ {W : Type 0} (api : ApiHandler W) where
  -- A request that the route /ops/maintenance is called with.
  abbrev pub switch : Request → Exchange W → Exchange W
  switch r x = (chain (middlewares_ops api) (maintenance api) r [] x).1

  maintenance-on :
      (r : Request) (x : Exchange W)
      → by_name "status" r.query ≡ "enable"
      → ((maintenance api r [] x).0 ≡ returned)
        × ((maintenance api r [] x).1.mode.enabled ≡ true)
        × ((maintenance api r [] x).1.mode.reason ≡ by_name "msg" r.query)
        × ((maintenance api r [] x).1.stats ≡ x.stats)
  unfolding maintenance switch_mode
  maintenance-on r x e =
      let c : (by_name "status" r.query == "enable") ≡ true = rw e refl in
      (ground arith, rw e refl, rw e refl, rw e refl)

  maintenance-off :
      (r : Request) (x : Exchange W)
      → by_name "status" r.query ≡ "disable"
      → api.clock.zero ≡ zero_time
      → ((maintenance api r [] x).0 ≡ returned)
        × ((maintenance api r [] x).1.mode ≡ new_maintenance)
        × ((maintenance api r [] x).1.stats ≡ x.stats)
  unfolding maintenance switch_mode new_maintenance
  maintenance-off r x e z =
      let c : (by_name "status" r.query == "enable") ≡ false = rw e refl in
      let d : (by_name "status" r.query == "disable") ≡ true = rw e refl in
      (ground arith, rw (e, z) refl, rw e refl)

  switch-on :
      (r : Request) (x : Exchange W) (c : ℕ)
      → r.context.conn ≡ some c
      → by_name "status" r.query ≡ "enable"
      → ((switch r x).mode.enabled ≡ true)
        × ((switch r x).mode.reason ≡ by_name "msg" r.query)
        × ((switch r x).stats.called ≡ next_uint64 x.stats.called)
  unfolding count_status cors
  switch-on r x c conn e =
      let (ends, on, reason, stats) = maintenance-on (entered api r x) (entry api c r [] x) e in
      let through = chain_ops-entered api (maintenance api) r [] x c conn ends in
      (
        ap (λ (o : Outcome × Exchange W). o.1.mode.enabled) through ∙ on,
        ap (λ (o : Outcome × Exchange W). o.1.mode.reason) through ∙ reason,
        ap (λ (o : Outcome × Exchange W). o.1.stats.called) through
            ∙ ap (λ (n : Statistics). n.called) (stats ∙ stats-raced api _ _),
      )

  switch-off :
      (r : Request) (x : Exchange W) (c : ℕ)
      → r.context.conn ≡ some c
      → by_name "status" r.query ≡ "disable"
      → api.clock.zero ≡ zero_time
      → ((switch r x).mode ≡ new_maintenance)
        × ((switch r x).stats.called ≡ next_uint64 x.stats.called)
  unfolding count_status cors
  switch-off r x c conn e z =
      let (ends, off, stats) = maintenance-off (entered api r x) (entry api c r [] x) e z in
      let through = chain_ops-entered api (maintenance api) r [] x c conn ends in
      (
        ap (λ (o : Outcome × Exchange W). o.1.mode) through ∙ off,
        ap (λ (o : Outcome × Exchange W). o.1.stats.called) through
            ∙ ap (λ (n : Statistics). n.called) (stats ∙ stats-raced api _ _),
      )

  -- A maintenance window, end to end. A request to /ops/maintenance with the status enable, then one to a
  -- route outside of /ops/, then one to /ops/maintenance with the status disable; those to
  -- /ops/maintenance came over connections, the response of the second is new and takes writes, and
  -- the clock's `Zero` is the zero time. Also where their time runs out, the first switches the mode on with its message as
  -- the reason, and the last back to the mode that the handler was created with; the one between them is
  -- answered with a 503, without a change to the mode, and is not counted as a request.
  pub maintenance_window :
      (packages : Packages W) (route : Route W) (on shown off : Request) (ps : Params)
      (x : Exchange W) (w w' : BaseWriter) (c c' : ℕ)
      → Memᴰ route (setup_routes api packages (stacks api))
      → under_ops route.path ≡ false
      → on.context.conn ≡ some c
      → by_name "status" on.query ≡ "enable"
      → w.sent ≡ none
      → w.broken ≡ none
      → off.context.conn ≡ some c'
      → by_name "status" off.query ≡ "disable"
      → api.clock.zero ≡ zero_time
      → let begun = switch on x in
        let (outcome, between) = route.handle shown ps (record begun { writer = plain w }) in
        let over = switch off (record between { writer = plain w' }) in
        (begun.mode.enabled ≡ true)
        × (begun.mode.reason ≡ by_name "msg" on.query)
        × (outcome ≡ returned)
        × ((base_of between.writer).sent ≡ some 503)
        × (between.mode ≡ begun.mode)
        × (over.mode ≡ new_maintenance)
        × (over.stats.called ≡ next_uint64 (next_uint64 x.stats.called))
  maintenance_window packages route on shown off ps x w w' c c' m outside conn e unsent whole conn'
        d z =
      let begun = switch on x in
      let (enabled, reason, counted) = switch-on on x c conn e in
      let between = (route.handle shown ps (record begun { writer = plain w })).1 in
      let (answered, stats, mode, world, sent) =
        public_routes_closed api packages route shown ps (record begun { writer = plain w }) w m
          outside enabled refl unsent whole in
      let (over, counted') = switch-off off (record between { writer = plain w' }) c' conn' d z in
      (
        enabled,
        reason,
        answered,
        sent,
        mode,
        over,
        counted' ∙ ap (λ (n : Statistics). next_uint64 n.called) stats ∙ ap next_uint64 counted,
      )
