-- ===== src/Tests/Requests.antt =====
-- A handler over the service in memory, and a request that arrives at it.
use demo_redis.Prelude.{ℕ, String, ◌==◌, true, false, if◌then◌else◌, none, some, [], ◌∷◌}
use demo_redis.Context.{background}
use demo_redis.Clock.{new_clock, zero_time}
use demo_redis.Ids.{Uuid, new_ids_handler}
use demo_redis.Service
use demo_redis.Service.Clear
use demo_redis.Config.{Config, ServerConfig, RedisConfig}
use demo_redis.Service.{World, on_env}
use demo_redis.Response.{BaseWriter, plain}
use demo_redis.Api.{panicked, ApiHandler, BookServiceProvider, Request, Exchange}
use demo_redis.Tests.Memory.{Server, Entries}
use demo_redis.Tests.Storage.{ulysses}
use demo_redis.Tests.Service.{service, full}

abbrev pub Outside : Type 0
Outside = World Server Entries ℕ

-- Identifiers are texts, and a new one is always `1`.
abbrev pub uuid : Uuid String Outside
uuid = record {
  new_v4 = λ w. (("1", none), w);
  to_text = λ u. u;
  from_string_or_nil = λ s. s;
  is_nil = λ u. if u == "1" then false else true;
}

abbrev provider : BookServiceProvider Outside
provider = record {
  add = Service.add service;
  get_one = Service.get_one service;
  delete = Service.delete service;
  update = Service.update service;
  get_all = Service.get_all service;
  delete_all = λ ctx rid w. (tt, (Service.Clear.delete_all service 1 [] ctx rid w).1);
}

abbrev pub server_config : String → ServerConfig ℕ
server_config port = record {
  host = "0.0.0.0";
  port = port;
  certs_file = "";
  key_file = "";
  read_timeout = 10;
  write_timeout = 10;
  long_request_processing_timeout = 60;
  long_request_write_timeout = 60;
  request_timeout = 5;
  shutdown_timeout = 30;
}

abbrev pub redis_config : RedisConfig ℕ
redis_config = record {
  host = "redis";
  port = "6379";
  dial_timeout = 5;
  read_timeout = 5;
  write_timeout = 5;
  pool_size = 10;
  pool_timeout = 5;
  username = "";
  password = "";
  database_index = 0;
}

abbrev pub config : String → Config String ℕ
config port = record {
  git_commit = "";
  git_tag = "v0";
  build_time = "";
  is_production = false;
  log_level = "info";
  log_folder = "./logs";
  log_max_size = 10;
  profiler_endpoints_enable = false;
  ops_endpoints_enable = true;
  server = server_config port;
  redis = redis_config;
  bolt_db = record { file_path = "./books.db"; timeout = 5; bucket_name = "books" };
}

-- No context is ever done.
abbrev pub api : ApiHandler Outside
api = record {
  clock = new_clock (on_env (λ n. (n, n))) true;
  ids_handler = new_ids_handler uuid;
  book_service = provider;
  ctx_err = λ ctx w. (none, w);
  expires = λ ctx w. (none, w);
  time_now = on_env (λ n. (n, n));
  set_write_deadline = λ n w. (none, w);
  decode_body = λ text.
      (record ulysses { id = "b:1"; description = text; price = "10$"; created_at = "then" }, none);
  size = λ b. 7;
  time_string = λ t. "now";
  rfc1123 = λ t. "now";
  minutes = λ s t. "minutes";
  seconds = λ n. "seconds";
  nil_logger_error = panicked "nil pointer dereference";
  config = config "8080";
  parse_ip = λ s. s == "10.0.0.1";
  split_host_port = λ s. if s == "" then none else some "10.0.0.1";
}

abbrev pub no_answer : BaseWriter
no_answer = record { header = []; sent = none; written = []; broken = none }

abbrev pub request : Request
request = record {
  method = "GET";
  path = "/v1/books/b:1";
  query = ("status", "enable") ∷ ("msg", "upgrade") ∷ [];
  body = some "a day in Dublin";
  agent = "curl";
  referer = "";
  header = ("X-Forwarded-For", "unknown,10.0.0.1") ∷ [];
  remote_addr = "10.0.0.1:4000";
  context = record background { conn = some 3 };
}

abbrev pub arriving : Exchange Outside
arriving = record {
  world = full;
  stats = record {
    version = "v1";
    container = false;
    runtime = "";
    platform = "";
    called = 4;
    started = zero_time;
    status = (200, 3) ∷ (404, 1) ∷ [];
  };
  mode = record { enabled = false; reason = ""; started = zero_time };
  writer = plain no_answer;
}
