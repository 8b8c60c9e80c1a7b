-- ===== src/Api/Routes.antt =====
-- api.router.core.go, api.router.book.go, api.router.ops.go: the routes. httprouter's table is the list
-- of what is registered, in its order; that it finds the handler of a request is the library's part.
pub mod Stacks
pub mod Tables
use demo_redis.Prelude.{String, Bool, if◌then◌else◌, List, [], ◌∷◌, ◌++◌}
use demo_redis.Api.{ApiHandler, Handle}
use demo_redis.Api.Index.{index}
use demo_redis.Api.Books.{
  status, create_book, get_all_books, get_one_book, update_book, delete_one_book,
}
use demo_redis.Api.Ops.{get_configs, get_statistics, maintenance, clear_books_cache}
use demo_redis.Api.Ops.Runtime.{
  Packages, ops_handler_wrapper, get_mem_stats, run_gc, free_os_memory, get_cpu_profile,
  get_trace_profile, get_symbol, get_cmd_line,
}
use demo_redis.Api.Middleware.{MiddlewareFunc}

-- A registered route.
pub record Route (W : Type 0) : Type 0 where
  pub method : String
  pub path : String
  pub handle : Handle W

-- `MiddlewareMap`
pub record MiddlewareMap (W : Type 0) : Type 0 where
  pub public : MiddlewareFunc W
  pub ops : MiddlewareFunc W

abbrev pub route : {W : Type 0} → String → String → Handle W → Route W
route method path handle = record { method = method; path = path; handle = handle }

module _ {W : Type 0} (api : ApiHandler W) (packages : Packages W) (m : MiddlewareMap W) where
  -- `APIHandler.SetupBookRoutes`
  unfoldable pub setup_book_routes : List (Route W)
  setup_book_routes =
      route "GET" "/" (m.public (index api))
      ∷ route "GET" "/status" (m.public (status api))
      ∷ route "POST" "/v1/books" (m.public (create_book api))
      ∷ route "GET" "/v1/books" (m.public (get_all_books api))
      ∷ route "GET" "/v1/books/:id" (m.public (get_one_book api))
      ∷ route "PUT" "/v1/books/:id" (m.public (update_book api))
      ∷ route "DELETE" "/v1/books/:id" (m.public (delete_one_book api))
      ∷ []

  -- the profiler's routes of `SetupOpsRoutes`
  unfoldable pub setup_profiler_routes : List (Route W)
  setup_profiler_routes =
      route "GET" "/ops/debug/pprof/" (m.ops (ops_handler_wrapper packages.pprof_index))
      ∷ route "GET" "/ops/debug/pprof/profile" (m.ops (get_cpu_profile packages))
      ∷ route "GET" "/ops/debug/pprof/trace" (m.ops (get_trace_profile packages))
      ∷ route "GET" "/ops/debug/pprof/symbol" (m.ops (get_symbol packages))
      ∷ route "GET" "/ops/debug/pprof/cmdline" (m.ops (get_cmd_line packages))
      ∷ route "GET" "/ops/debug/pprof/heap"
          (m.ops (ops_handler_wrapper (packages.pprof_handler "heap")))
      ∷ route "GET" "/ops/debug/pprof/allocs"
          (m.ops (ops_handler_wrapper (packages.pprof_handler "allocs")))
      ∷ route "GET" "/ops/debug/pprof/goroutine"
          (m.ops (ops_handler_wrapper (packages.pprof_handler "goroutine")))
      ∷ route "GET" "/ops/debug/pprof/threadcreate"
          (m.ops (ops_handler_wrapper (packages.pprof_handler "threadcreate")))
      ∷ route "GET" "/ops/debug/pprof/block"
          (m.ops (ops_handler_wrapper (packages.pprof_handler "block")))
      ∷ route "GET" "/ops/debug/pprof/mutex"
          (m.ops (ops_handler_wrapper (packages.pprof_handler "mutex")))
      ∷ []

  -- `APIHandler.SetupOpsRoutes`
  unfoldable pub setup_ops_routes : List (Route W)
  setup_ops_routes =
      route "GET" "/ops/configs" (m.ops (get_configs api))
      ∷ route "GET" "/ops/stats" (m.ops (get_statistics api))
      ∷ route "GET" "/ops/maintenance" (m.ops (maintenance api))
      ∷ route "DELETE" "/ops/cache/books/clear" (m.ops (clear_books_cache api))
      ∷ route "GET" "/ops/debug/vars" (m.ops (get_mem_stats packages))
      ∷ route "GET" "/ops/debug/gc" (m.ops (run_gc api packages))
      ∷ route "GET" "/ops/debug/fos" (m.ops (free_os_memory api packages))
      ∷ (if api.config.profiler_endpoints_enable then setup_profiler_routes else [])

  -- `APIHandler.SetupRoutes`, without the handler of what is not found and the redirection of paths
  -- with a trailing slash
  unfoldable pub setup_routes : List (Route W)
  setup_routes =
      setup_book_routes
      ++ (if api.config.ops_endpoints_enable then setup_ops_routes else [])
      ++ (route "GET" "/swagger/" (m.public (ops_handler_wrapper packages.swagger)) ∷ [])
