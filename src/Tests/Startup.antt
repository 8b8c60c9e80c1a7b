-- ===== src/Tests/Startup.antt =====
-- The application put together over the server and the database in memory.
use demo_redis.Prelude.{Action, length, ℕ, ◌≡◌, ◌⊎◌, Option, none, some}
use demo_redis.Book.{Book, Error, canceled, foreign}
use demo_redis.Log.Setup.{sync_each}
use demo_redis.Log.{Os}
use demo_redis.App.Connect.{RedisLibrary, BoltLibrary}
use demo_redis.App.New.{Outside, App, new_app}
use demo_redis.App.New.Ready.{IsReady}
use demo_redis.App.Main.{app_failed, exit_of, main, main_exit}
use demo_redis.App.{AppError, of}
use demo_redis.Service.{World}
use demo_redis.Tests.Memory.{plain_json, Server, Entries, server, database}
use demo_redis.Tests.Requests.{api}
use demo_redis.Tests.Apps.{sources}
use demo_redis.Tests.Routing.{packages}
use demo_redis.Tests.Service.{full}

abbrev redis : RedisLibrary Book Server
redis = record { new_client = λ options. server; ping = λ c r. (("PONG", none), r) }

abbrev bolt : BoltLibrary Book Entries Entries
bolt = record {
  open_db = λ path timeout b. ((database, none), b);
  create_bucket = λ db name t. (none, t);
}

-- Files that take everything.
abbrev files : Os (Unit {0}) ℕ
files = record {
  open_file = λ path n. ((tt, none), n);
  write = λ f p n. ((length p, none), n);
  close = λ f n. (none, n);
  sync = λ f n. (none, n);
  decimal = λ n. "n";
  stamp = λ t. "now";
  join = λ folder file. folder;
}

abbrev outside : Outside Book Server Entries Entries ℕ (Unit {0})
outside = record {
  sources = sources;
  mkdir_all = λ folder n. (none, n);
  stat_dockerenv = λ n. (none, n);
  time_now = λ n. (n, n);
  runtime_version = "go1.20";
  platform = "linux/amd64";
  redis = redis;
  bolt = bolt;
  json = plain_json;
  time_string = λ t. "now";
  ctx_err = λ ctx n. (some canceled, n);
  ids_handler = api.ids_handler;
  handler = api;
  packages = packages;
  rounds = λ r. 1;
  os = files;
  logger_sync = λ logger. sync_each files logger.cores;
  stdout = tt;
}

-- A run in which the server cannot listen.
abbrev run : App Server Entries ℕ (Unit {0}) → Action (World Server Entries ℕ) (Option AppError)
run app w = (some (of (foreign "listen tcp: address in use")), w)

main_exit_example :
    let made = new_app outside "abc" "" "" in
    ((e : Error) × ((made full).0.1 ≡ some e)
      × (main made run full
          ≡ (some (record { status = 1; line = some (app_failed e) }), (made full).1)))
    ⊎ ((app : App Server Entries ℕ (Unit {0})) × ((made full).0 ≡ (some app, none))
        × IsReady outside app
        × (main made run full
            ≡ (some (exit_of (run app (made full).1).0), (run app (made full).1).1)))
main_exit_example = main_exit outside "abc" "" "" run full
