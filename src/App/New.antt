-- ===== src/App/New.antt =====
-- `NewApp` of app.server.go: how the application is put together.
pub mod Ready
use demo_redis.Prelude.{
  ℕ, ◌^◌, String, Bool, true, false, Option, none, some, List, [], ◌∷◌, Action, pure, ◌>>=◌, ◌>>◌,
}
use demo_redis.Book.{Error, wrap}
use demo_redis.Context.{Context}
use demo_redis.Clock.{Clocker, Time, new_clock, new_tick_clock}
use demo_redis.Config.{Config, Sources, load_and_init_configs}
use demo_redis.Redis.{Json, RedisClient}
use demo_redis.Bolt.{BoltClient}
use demo_redis.Service.{World, on_redis, on_bolt, on_env}
use demo_redis.Service
use demo_redis.Service.Clear
use demo_redis.Consumer.{BoltDbConsumer}
use demo_redis.System.{book_service, bolt_db_consumer}
use demo_redis.Ids.{UidHandler}
use demo_redis.Log.{RSyncWrite, Os, State, new_rsync_writer, close}
use demo_redis.Log.Setup.{Logger, setup_logging}
use demo_redis.Api.{
  ApiHandler, BookServiceProvider, Statistics, Maintenance, new_maintenance, reset_status,
}
use demo_redis.Api.Ops.{new_statistics}
use demo_redis.Api.Ops.Runtime.{Packages}
use demo_redis.Api.Routes.{Route, setup_routes}
use demo_redis.Api.Routes.Stacks.{stacks}
use demo_redis.App.Connect.{
  RedisLibrary, BoltLibrary, address, new_redis_client, get_bolt_db_client,
}
use Prim.Native.String

-- What `NewApp` asks of the outside: the sources of the configuration, the creation of the folder of
-- the logs, whether `/.dockerenv` can be read, `time.Now`, the versions of Go and of the platform, and
-- what the service, the consumer and the handlers are given, with zap's `Sync`. The fields of `handler` that `NewAPIHandler`
-- sets are replaced. `rounds` is the number of rounds that a full iteration of the hash takes.
pub record Outside (V R B T E F : Type 0) : Type 0 where
  pub sources : Sources String ℕ F E
  pub mkdir_all : String → Action E (Option Error)
  pub stat_dockerenv : Action E (Option Error)
  pub time_now : Action E ℕ
  pub runtime_version : String
  pub platform : String
  pub redis : RedisLibrary V R
  pub bolt : BoltLibrary V B T
  pub json : Json V
  pub time_string : Time → String
  pub ctx_err : Context → Action E (Option Error)
  pub ids_handler : UidHandler (World R B E)
  pub handler : ApiHandler (World R B E)
  pub packages : Packages (World R B E)
  pub rounds : R → ℕ
  pub os : Os F E
  pub logger_sync : Logger String F E → Action (State F E) (Option Error)
  pub stdout : F

-- `App`, with the parts that it holds through its server and its consumers. `addr`, the timeouts and
-- `max_header_bytes` are those of `http.Server`, and `routes` its handler.
pub record App (R B E F : Type 0) : Type 0 where
  pub config : Config String ℕ
  pub addr : String
  pub read_timeout : ℕ
  pub write_timeout : ℕ
  pub max_header_bytes : ℕ
  pub api : ApiHandler (World R B E)
  pub stats : Statistics
  pub mode : Maintenance
  pub routes : List (Route (World R B E))
  pub consumer : BoltDbConsumer R B E
  pub rswriter : RSyncWrite F E
  pub cleanups : List (Action (State F E) (Option Error))

-- `IsAppRunningInDocker`
unfoldable pub is_app_running_in_docker : {E : Type 0} → Action E (Option Error) → Action E Bool
is_app_running_in_docker stat_dockerenv = do
  err ← stat_dockerenv
  elim err [ none ↦ pure true | some e ↦ pure false ]

module _ {V R B T E F : Type 0} (outside : Outside V R B T E F) where
  -- the service as the handlers know it; the events that its `DeleteAll` may take make it log only
  abbrev provider :
      Clocker E → RedisClient V R → BoltClient V B T → String → BookServiceProvider (World R B E)
  provider clock redis_client db bucket_name =
      let bs = book_service outside.json redis_client db bucket_name clock outside.time_string in
      record {
        add = Service.add bs;
        get_one = Service.get_one bs;
        delete = Service.delete bs;
        update = Service.update bs;
        get_all = Service.get_all bs;
        delete_all = λ ctx rid w.
            (tt, (Service.Clear.delete_all bs (outside.rounds w.redis) [] ctx rid w).1);
      }

  -- `NewAPIHandler`
  unfoldable pub new_api_handler :
      Config String ℕ → Clocker E → BookServiceProvider (World R B E) → ApiHandler (World R B E)
  new_api_handler config clock bs =
      let base = outside.handler in
      record base {
        config = config;
        clock = record { now = on_env clock.now; zero = clock.zero };
        ids_handler = outside.ids_handler;
        book_service = bs;
      }

  -- `NewApp` once everything is connected, at a time
  unfoldable pub assemble :
      Config String ℕ → RedisClient V R → BoltClient V B T → Bool → Time → App R B E F
  unfolding new_api_handler
  assemble config redis_client db in_docker now =
      let clock = new_clock outside.time_now config.is_production in
      let bs = provider clock redis_client db config.bolt_db.bucket_name in
      let (_, logs_flusher) =
        setup_logging outside.stdout outside.logger_sync config (new_tick_clock clock) in
      let api = new_api_handler config clock bs in
      record {
        config = config;
        addr = address config.server.host config.server.port;
        read_timeout = config.server.read_timeout;
        write_timeout = config.server.write_timeout;
        max_header_bytes = 2 ^ 20;
        api = api;
        stats = reset_status (
            new_statistics config.git_tag config.git_commit outside.runtime_version outside.platform
              in_docker now);
        mode = new_maintenance;
        routes = setup_routes api outside.packages (stacks api);
        consumer =
            bolt_db_consumer outside.json redis_client db config.bolt_db.bucket_name
              outside.ctx_err;
        rswriter =
            new_rsync_writer config.log_folder config.log_max_size config.is_production clock;
        cleanups = logs_flusher ∷ close outside.os ∷ [];
      }

  -- `NewApp` once the folder of the logs is there
  unfoldable pub connect :
      Config String ℕ → Action (World R B E) (Option (App R B E F) × Option Error)
  unfolding assemble
  connect config = do
    (redis_client, err) ← on_redis (new_redis_client outside.redis config.redis)
    elim err [
      | some e ↦ pure (none, some (wrap "failed to connect to redis server: " e))
      | none ↦ elim redis_client [
        -- not reached: a nil error comes with a client
        | none ↦ pure (none, none)
        | some client ↦ do
          (bolt_db, err') ← on_bolt (get_bolt_db_client outside.bolt config.bolt_db)
          elim err' [
            | some e ↦ pure (none, some (wrap "failed to connect to boltDB server: " e))
            | none ↦ elim bolt_db [
              -- not reached, as above
              | none ↦ pure (none, none)
              | some db ↦ do
                in_docker ← on_env (is_app_running_in_docker outside.stat_dockerenv)
                now ← on_env (new_clock outside.time_now config.is_production).now
                pure (some (assemble config client db in_docker now), none)
            ]
          ]
      ]
    ]

  -- `NewApp`, given the variables of app.version.go
  unfoldable pub new_app :
      String → String → String → Action (World R B E) (Option (App R B E F) × Option Error)
  unfolding connect
  new_app git_commit git_tag build_time = do
    (config, err) ← on_env (load_and_init_configs outside.sources git_commit git_tag build_time)
    elim err [
      | some e ↦ pure (none, some (wrap "failed to setup app configuration: " e))
      | none ↦ elim config [
        -- not reached: a nil error comes with a configuration
        | none ↦ pure (none, none)
        | some config' ↦ do
          err' ← on_env (outside.mkdir_all config'.log_folder)
          elim err' [
            | some e ↦ pure (none, some (wrap "logging: failed to create folder: " e))
            | none ↦ connect config'
          ]
      ]
    ]
