-- ===== src/Config.antt =====
-- config.go: the configuration, the sources that it is read from, and its checks. The YAML decoder,
-- godotenv and envconfig are parameters. `L` is zap's type of log levels, and `N` stands for Go's int
-- and time.Duration, whose values are only passed on here.
pub mod Laws
use demo_redis.Prelude.{
  String, Bool, ◌==◌, ◌||◌, if◌then◌else◌, Option, none, some, Action, pure, ◌>>=◌, ◌>>◌,
}
use demo_redis.Book.{Error, new, wrap}

-- `ServerConfig`
pub record ServerConfig (N : Type 0) : Type 0 where
  pub host : String
  pub port : String
  pub certs_file : String
  pub key_file : String
  pub read_timeout : N
  pub write_timeout : N
  pub long_request_processing_timeout : N
  pub long_request_write_timeout : N
  pub request_timeout : N
  pub shutdown_timeout : N

-- `RedisConfig`
pub record RedisConfig (N : Type 0) : Type 0 where
  pub host : String
  pub port : String
  pub dial_timeout : N
  pub read_timeout : N
  pub write_timeout : N
  pub pool_size : N
  pub pool_timeout : N
  pub username : String
  pub password : String
  pub database_index : N

-- `BoltDBConfig`
pub record BoltDbConfig (N : Type 0) : Type 0 where
  pub file_path : String
  pub timeout : N
  pub bucket_name : String

-- `Config`
pub record Config (L N : Type 0) : Type 0 where
  pub git_commit : String
  pub git_tag : String
  pub build_time : String
  pub is_production : Bool
  pub log_level : L
  pub log_folder : String
  pub log_max_size : N
  pub profiler_endpoints_enable : Bool
  pub ops_endpoints_enable : Bool
  pub server : ServerConfig N
  pub redis : RedisConfig N
  pub bolt_db : BoltDbConfig N

-- What config.go calls: `os.Open` and `Close` of a file, the decoding of YAML into a zero `Config`,
-- `godotenv.Load`, and `envconfig.Process`, which changes the configuration in place.
pub record Sources (L N F W : Type 0) : Type 0 where
  pub open_file : String → Action W (F × Option Error)
  pub close : F → Action W (Unit {0})
  pub decode : F → Action W (Config L N × Option Error)
  pub load_env : String → Action W (Option Error)
  pub process : String → Config L N → Action W (Config L N × Option Error)

module _ {L N F W : Type 0} (sources : Sources L N F W) where
  -- `LoadConfigFile`; a nil pointer is `none`
  unfoldable pub load_config_file : String → Action W (Option (Config L N) × Option Error)
  load_config_file config_file = do
    (file, err) ← sources.open_file config_file
    elim err [
      | some e ↦ pure (none, some e)
      | none ↦ do
        (cfg, err') ← sources.decode file
        sources.close file
        elim err' [ some e ↦ pure (none, some e) | none ↦ pure (some cfg, none) ]
    ]

  -- `LoadConfigEnvs`
  unfoldable pub load_config_envs : String → Config L N → Action W (Config L N × Option Error)
  load_config_envs prefix config = sources.process prefix config

module _ {L N : Type 0} where
  -- the build tags that `InitConfig` sets
  unfoldable pub set_build : String → String → String → Config L N → Config L N
  set_build git_commit git_tag build_time config = record config {
    git_commit = if git_commit == "" then config.git_commit else git_commit;
    git_tag = if git_tag == "" then config.git_tag else git_tag;
    build_time = if build_time == "" then config.build_time else build_time;
  }

  -- the checks of `InitConfig`
  unfoldable pub check_addresses : Config L N → Option Error
  check_addresses config =
      if config.server.host == "" || config.server.port == ""
      then some (new "make sure to set valid server address and port in configuration file")
      else if config.redis.host == "" || config.redis.port == ""
      then some (new "make sure to set valid redis address and port in configuration file")
      else none

  -- `InitConfig`, with the configuration as it leaves it
  unfoldable pub init_config : Config L N → String → String → String → Config L N × Option Error
  unfolding set_build
  init_config config git_commit git_tag build_time =
      let config' = set_build git_commit git_tag build_time config in
      (config', check_addresses config')

module _ {L N F W : Type 0} (sources : Sources L N F W) where
  -- `LoadAndInitConfigs`
  unfoldable pub load_and_init_configs :
      String → String → String → Action W (Option (Config L N) × Option Error)
  load_and_init_configs git_commit git_tag build_time = do
    (config, err) ← load_config_file sources "./config.yml"
    elim err [
      | some e ↦ pure (config, some (wrap "failed to load configurations from file: " e))
      | none ↦ elim config [
        -- not reached: `LoadConfigFile` returns a configuration with a nil error
        | none ↦ pure (none, none)
        | some cfg ↦ do
          err' ← sources.load_env "./config.env"
          elim err' [
            | some e ↦ pure (some cfg, some (wrap "failed to set environment configurations: " e))
            | none ↦ do
              (cfg', err2) ← load_config_envs sources "DRAP" cfg
              elim err2 [
                | some e ↦
                    pure
                      (some cfg', some (wrap "failed to load configurations from environment: " e))
                | none ↦
                    let (cfg2, err3) = init_config cfg' git_commit git_tag build_time in
                    elim err3 [
                      | some e ↦
                          pure (some cfg2, some (wrap "failed to initialize configurations: " e))
                      | none ↦ pure (some cfg2, none)
                    ]
              ]
          ]
      ]
    ]
