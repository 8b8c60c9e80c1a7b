-- ===== src/Api/Ops/Laws.antt =====
-- What `Maintenance` of api.handlers.ops.go does to the mode.
use demo_redis.Prelude.{true, ◌≡◌, refl}
use demo_redis.Clock.{zero_time}
use demo_redis.Api.{ApiHandler, Request, Params, by_name, Exchange, new_maintenance}
use demo_redis.Api.Ops.{switch_mode, maintenance}

module _ {W : Type 0} (api : ApiHandler W) where
  -- With no status in the path: after a request that enables the maintenance mode it is on, with the request's message as the
  -- reason; a later request that disables it brings back the mode that the handler was created with.
  -- Neither touches the statistics. The clock's `Zero` is the zero time.
  pub enable-disable :
      (on off : Request) (ps : Params) (x : Exchange W)
      → by_name "status" ps ≡ ""
      → by_name "status" on.query ≡ "enable"
      → by_name "status" off.query ≡ "disable"
      → api.clock.zero ≡ zero_time
      → ((maintenance api on ps x).1.mode.enabled ≡ true)
        × ((maintenance api on ps x).1.mode.reason ≡ by_name "msg" on.query)
        × ((maintenance api off ps (maintenance api on ps x).1).1.mode ≡ new_maintenance)
        × ((maintenance api off ps (maintenance api on ps x).1).1.stats ≡ x.stats)
  unfolding maintenance switch_mode new_maintenance
  enable-disable on off ps x p e d z =
      (rw (p, e) refl, rw (p, e) refl, rw (p, e, d, z) refl, rw (p, e, d) refl)
