-- ===== src/App/Connect.antt =====
-- The connections that `NewApp` makes: `NewRedisClient` of repo.redis.go and `GetBoltDBClient` of
-- repo.bolt.go. The two client libraries are parameters.
use demo_redis.Prelude.{
  ℕ, String, Bool, false, ◌==◌, if◌then◌else◌, Option, none, some, Action, pure, ◌>>=◌,
}
use demo_redis.Book.{Error, new, wrap}
use demo_redis.Config.{RedisConfig, BoltDbConfig}
use demo_redis.Redis.{RedisClient}
use demo_redis.Bolt.{BoltClient}
use Prim.Native.String

-- `fmt.Sprintf("%s:%s", host, port)`
abbrev pub address : String → String → String
address host port = String.◌++◌ host (String.◌++◌ ":" port)

-- `redis.Options`, as far as it is filled in
pub record RedisOptions : Type 0 where
  pub addr : String
  pub dial_timeout : ℕ
  pub read_timeout : ℕ
  pub write_timeout : ℕ
  pub pool_size : ℕ
  pub pool_timeout : ℕ
  pub password : String
  pub username : String
  pub db : ℕ

-- `redis.NewClient` and `Ping`
pub record RedisLibrary (V R : Type 0) : Type 0 where
  pub new_client : RedisOptions → RedisClient V R
  pub ping : RedisClient V R → Action R (String × Option Error)

-- `bolt.Open` of a path with a timeout, and an update that creates a bucket if it does not exist: the
-- error of the creation, which `GetBoltDBClient` wraps, or that of the transaction
pub record BoltLibrary (V B T : Type 0) : Type 0 where
  pub open_db : String → ℕ → Action B (BoltClient V B T × Option Error)
  pub create_bucket : BoltClient V B T → String → Action T (Option Error)

-- an answer to `Ping` other than PONG without an error
abbrev ping_failed : Option Error → Error
ping_failed none = new "redis: ping failed: <nil>"
ping_failed (some e) = wrap "redis: ping failed: " e

abbrev pub is_pong : String × Option Error → Bool
is_pong (pong, none) = pong == "PONG"
is_pong (pong, some e) = false

-- the options of `NewRedisClient`
unfoldable pub redis_options : RedisConfig ℕ → RedisOptions
redis_options config = record {
  addr = address config.host config.port;
  dial_timeout = config.dial_timeout;
  read_timeout = config.read_timeout;
  write_timeout = config.write_timeout;
  pool_size = config.pool_size;
  pool_timeout = config.pool_timeout;
  password = config.password;
  username = config.username;
  db = config.database_index;
}

module _ {V R : Type 0} (redis : RedisLibrary V R) where
  -- `NewRedisClient`
  unfoldable pub new_redis_client :
      RedisConfig ℕ → Action R (Option (RedisClient V R) × Option Error)
  unfolding redis_options
  new_redis_client config = do
    let client = redis.new_client (redis_options config)
    (pong, err) ← redis.ping client
    pure (if is_pong (pong, err) then (some client, none) else (none, some (ping_failed err)))

module _ {V B T : Type 0} (bolt : BoltLibrary V B T) where
  -- the function that `GetBoltDBClient` passes to `Update`
  unfoldable pub set_up_bucket : BoltClient V B T → String → Action T (Option Error)
  set_up_bucket db bucket_name = do
    err ← bolt.create_bucket db bucket_name
    elim err [
      | some e ↦
          pure
            (some (wrap (String.◌++◌ "failed to create " (String.◌++◌ bucket_name " bucket: ")) e))
      | none ↦ pure none
    ]

  -- `GetBoltDBClient`
  unfoldable pub get_bolt_db_client :
      BoltDbConfig ℕ → Action B (Option (BoltClient V B T) × Option Error)
  unfolding set_up_bucket
  get_bolt_db_client config = do
    (db, err) ← bolt.open_db config.file_path config.timeout
    elim err [
      | some e ↦ pure (none, some (wrap "failed to open the database, " e))
      | none ↦ do
        err' ← db.update (set_up_bucket db config.bucket_name)
        elim err' [
          | some e ↦ pure (none, some (wrap "failed to set up bucket: " e))
          | none ↦ pure (some db, none)
        ]
    ]
