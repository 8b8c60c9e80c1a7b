-- ===== src/Api/Routes/Stacks.antt =====
-- Which stack of middlewares each route of api.router.*.go goes through.
use demo_redis.Prelude.{
  String, Bool, true, false, ◌≡◌, refl, sym, ◌⊎◌, inl, inr, Option, none, some, List, [], ◌∷◌,
  if◌then◌else◌, arith, All, All-append,
}
use demo_redis.Ids.{strip, request_id_prefix}
use demo_redis.Response.{BaseWriter, plain, base_of}
use demo_redis.Api.{ApiHandler, Handle, Request, Params, Exchange, returned}
use demo_redis.Api.Middleware.{chain, middlewares_public, middlewares_ops}
use demo_redis.Api.Middleware.Maintenance.{maintenance_blocks}
use demo_redis.Api.Ops.Runtime.{
  Packages, ops_handler_wrapper, get_mem_stats, run_gc, free_os_memory, get_cpu_profile,
  get_trace_profile, get_symbol, get_cmd_line,
}
use demo_redis.Api.Index.{index}
use demo_redis.Api.Books.{
  status, create_book, get_all_books, get_one_book, update_book, delete_one_book,
}
use demo_redis.Api.Ops.{get_configs, get_statistics, maintenance, clear_books_cache}
use demo_redis.Api.Routes.{
  Route, MiddlewareMap, setup_book_routes, setup_profiler_routes, setup_ops_routes, setup_routes,
}
use mathlib.Core.List.{Memᴰ}
use mathlib.Core.List.Memᴰ
use mathlib.Core.Path.{subst}

abbrev is_some : {A : Type 0} → Option A → Bool
is_some none = false
is_some (some _) = true

-- The paths of the operations.
unfoldable pub under_ops : String → Bool
unfolding strip
under_ops path = is_some (strip "/ops/" path)

All-mem : {A : Type 0} (P : A → Type 0) (xs : List A) (x : A) → All P xs → Memᴰ x xs → P x
All-mem P [] x p m = elim m [ ]
All-mem P (y ∷ ys) x (py, p) m = elim (Memᴰ.cases_cons m) [
  | inl here ↦ subst P (sym here) py
  | inr later ↦ All-mem P ys x p later
]

module _ {W : Type 0} (api : ApiHandler W) (packages : Packages W) (m : MiddlewareMap W) where
  -- A route goes through the ops stack where its path is under /ops/, and through the public stack
  -- where it is not.
  abbrev pub IsStacked : Route W → Type 0
  IsStacked r =
      (h : Handle W) × ((under_ops r.path ≡ false) × (r.handle ≡ m.public h)
        ⊎ (under_ops r.path ≡ true) × (r.handle ≡ m.ops h))

  book-IsStacked : All IsStacked (setup_book_routes api packages m)
  unfolding setup_book_routes strip under_ops
  book-IsStacked = (
    (index api, inl (refl, refl)),
    (
      (status api, inl (refl, refl)),
      (
        (create_book api, inl (refl, refl)),
        (
          (get_all_books api, inl (refl, refl)),
          (
            (get_one_book api, inl (refl, refl)),
            ((update_book api, inl (refl, refl)), ((delete_one_book api, inl (refl, refl)), tt)),
          ),
        ),
      ),
    ),
  )

  profiler-IsStacked : All IsStacked (setup_profiler_routes api packages m)
  unfolding setup_profiler_routes strip under_ops
  profiler-IsStacked = (
    (ops_handler_wrapper packages.pprof_index, inr (refl, refl)),
    (
      (get_cpu_profile packages, inr (refl, refl)),
      (
        (get_trace_profile packages, inr (refl, refl)),
        (
          (get_symbol packages, inr (refl, refl)),
          (
            (get_cmd_line packages, inr (refl, refl)),
            (
              (ops_handler_wrapper (packages.pprof_handler "heap"), inr (refl, refl)),
              (
                (ops_handler_wrapper (packages.pprof_handler "allocs"), inr (refl, refl)),
                (
                  (ops_handler_wrapper (packages.pprof_handler "goroutine"), inr (refl, refl)),
                  (
                    (ops_handler_wrapper (packages.pprof_handler "threadcreate"), inr (refl, refl)),
                    (
                      (ops_handler_wrapper (packages.pprof_handler "block"), inr (refl, refl)),
                      (
                        (ops_handler_wrapper (packages.pprof_handler "mutex"), inr (refl, refl)),
                        tt,
                      ),
                    ),
                  ),
                ),
              ),
            ),
          ),
        ),
      ),
    ),
  )

  enabled-IsStacked :
      (b : Bool) (rs : List (Route W)) → All IsStacked rs → All IsStacked (if b then rs else [])
  enabled-IsStacked true rs p = p
  enabled-IsStacked false rs p = tt

  ops-IsStacked : All IsStacked (setup_ops_routes api packages m)
  unfolding setup_ops_routes strip under_ops
  ops-IsStacked = (
    (get_configs api, inr (refl, refl)),
    (
      (get_statistics api, inr (refl, refl)),
      (
        (maintenance api, inr (refl, refl)),
        (
          (clear_books_cache api, inr (refl, refl)),
          (
            (get_mem_stats packages, inr (refl, refl)),
            (
              (run_gc api packages, inr (refl, refl)),
              (
                (free_os_memory api packages, inr (refl, refl)),
                enabled-IsStacked api.config.profiler_endpoints_enable _ profiler-IsStacked,
              ),
            ),
          ),
        ),
      ),
    ),
  )

  routes-IsStacked : All IsStacked (setup_routes api packages m)
  unfolding setup_routes setup_book_routes setup_ops_routes setup_profiler_routes strip under_ops
  routes-IsStacked = All-append IsStacked (setup_book_routes api packages m) _ book-IsStacked (
      All-append IsStacked
        (if api.config.ops_endpoints_enable then setup_ops_routes api packages m else []) _
        (enabled-IsStacked api.config.ops_endpoints_enable _ ops-IsStacked)
        ((ops_handler_wrapper packages.swagger, inl (refl, refl)), tt))

-- The stacks that `NewApp` passes to `SetupRoutes`.
module _ {W : Type 0} (api : ApiHandler W) where
  abbrev pub stacks : MiddlewareMap W
  stacks = record { public = chain (middlewares_public api); ops = chain (middlewares_ops api) }

  -- While the maintenance mode is on, every route that is registered outside of /ops/ is closed: a
  -- request to it, with a response that nothing was sent to and that takes writes, is answered with a
  -- 503, and nothing but the drawing of its id happens to the world, the statistics and the mode.
  pub public_routes_closed :
      (packages : Packages W) (route : Route W) (r : Request) (ps : Params) (x : Exchange W)
      (w : BaseWriter)
      → Memᴰ route (setup_routes api packages stacks)
      → under_ops route.path ≡ false
      → x.mode.enabled ≡ true
      → x.writer ≡ plain w
      → w.sent ≡ none
      → w.broken ≡ none
      → ((route.handle r ps x).0 ≡ returned)
        × ((route.handle r ps x).1.stats ≡ x.stats)
        × ((route.handle r ps x).1.mode ≡ x.mode)
        × ((route.handle r ps x).1.world ≡ (api.ids_handler.generate request_id_prefix x.world).1)
        × ((base_of (route.handle r ps x).1.writer).sent ≡ some 503)
  public_routes_closed packages route r ps x w m outside on e unsent whole =
      let (h, via) =
        All-mem (IsStacked api packages stacks) (setup_routes api packages stacks) route
          (routes-IsStacked api packages stacks) m in
      elim via [
        | inl (_, public) ↦ rw public (maintenance_blocks api h r ps x w on e unsent whole)
        | inr (inside, _) ↦ let bad : ⊥ = ground arith in elim bad [ ]
      ]
