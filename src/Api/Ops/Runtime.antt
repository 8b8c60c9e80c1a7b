-- ===== src/Api/Ops/Runtime.antt =====
-- The handlers of api.handlers.ops.go over the Go runtime and over handlers of packages: expvar, pprof
-- and the documentation's pages are parameters.
use demo_redis.Prelude.{String, [], ◌∷◌, Action, pure, ◌>>=◌, ◌>>◌}
use demo_redis.Response.{content_json, encode, object}
use demo_redis.Api.{ApiHandler, Request, Exchange, Outcome, returned, Handle, on_world, on_writer}

-- `http.Handler`
abbrev pub HttpHandler : Type 0 → Type 0
HttpHandler W = Request → Action (Exchange W) Outcome

-- What the handlers call: `runtime.GC` and `debug.FreeOSMemory`, the setting of the expvar "goroutines"
-- to `runtime.NumGoroutine`, and the handlers of the packages.
pub record Packages (W : Type 0) : Type 0 where
  pub gc : Action W (Unit {0})
  pub free_os_memory : Action W (Unit {0})
  pub set_goroutines : Action W (Unit {0})
  pub expvar : HttpHandler W
  pub pprof_index : HttpHandler W
  pub pprof_profile : HttpHandler W
  pub pprof_trace : HttpHandler W
  pub pprof_symbol : HttpHandler W
  pub pprof_cmdline : HttpHandler W
  pub pprof_handler : String → HttpHandler W
  pub swagger : HttpHandler W

-- `APIHandler.OpsHandlerWrapper`
unfoldable pub ops_handler_wrapper : {W : Type 0} → HttpHandler W → Handle W
ops_handler_wrapper h r ps = h r

module _ {W : Type 0} (packages : Packages W) where
  -- `GetMemStats`
  unfoldable pub get_mem_stats : Handle W
  get_mem_stats r ps = do on_world packages.set_goroutines; packages.expvar r

  -- `APIHandler.GetCPUProfile`
  unfoldable pub get_cpu_profile : Handle W
  get_cpu_profile r ps = packages.pprof_profile r

  -- `APIHandler.GetTraceProfile`
  unfoldable pub get_trace_profile : Handle W
  get_trace_profile r ps = packages.pprof_trace r

  -- `APIHandler.GetSymbol`
  unfoldable pub get_symbol : Handle W
  get_symbol r ps = packages.pprof_symbol r

  -- `APIHandler.GetCmdLine`
  unfoldable pub get_cmd_line : Handle W
  get_cmd_line r ps = packages.pprof_cmdline r

module _ {W : Type 0} (api : ApiHandler W) (packages : Packages W) where
  -- `APIHandler.RunGC`; the goroutine runs as a whole when it is started
  unfoldable pub run_gc : Handle W
  run_gc r ps = do
    on_world packages.gc
    on_writer (λ w. (tt, content_json w))
    err ← on_writer (encode api.size (object (("called", "go runtime.GC()") ∷ [])))
    pure returned

  -- `APIHandler.FreeOSMemory`, in the same way
  unfoldable pub free_os_memory : Handle W
  free_os_memory r ps = do
    on_world packages.free_os_memory
    on_writer (λ w. (tt, content_json w))
    err ← on_writer (encode api.size (object (("called", "go debug.FreeOSMemory()") ∷ [])))
    pure returned
