-- ===== src/Context.antt =====
-- The values that the middlewares put into a request's context (helpers.common.go,
-- helpers.logging.go). Each context key is a field here, since each is only ever set at one type;
-- `none` is a key that was not set. What `ctx.Err()` answers changes with time, so it is asked of the
-- environment and is no field.
pub mod Values
use demo_redis.Prelude.{ℕ, String, Option, none, some, List, []}

-- the fields that `AddLoggerMiddleware` pre-populates a logger with
pub record LogFields : Type 0 where
  pub request_id : String
  pub number : ℕ
  pub method : String
  pub path : String
  pub agent : String
  pub referer : String

pub record Context : Type 0 where
  -- RequestIDContextKey
  pub request_id : Option String
  -- RequestNumberContextKey
  pub request_number : Option ℕ
  -- LoggerContextKey: the fields of the logger that was put there
  pub logger : Option LogFields
  -- ConnContextKey: the identity of the underlying connection
  pub conn : Option ℕ
  -- the durations of the enclosing `context.WithTimeout` calls, the innermost first
  pub timeouts : List ℕ

-- `context.Background()`
abbrev pub background : Context
background = record {
  request_id = none;
  request_number = none;
  logger = none;
  conn = none;
  timeouts = [];
}

-- `GetValueFromContext`, which the program calls with RequestIDContextKey only.
unfoldable pub get_request_id : Context → String
get_request_id ctx = elim ctx.request_id [ some v ↦ v | none ↦ "" ]

-- `GetRequestNumberFromContext`
unfoldable pub get_request_number : Context → ℕ
get_request_number ctx = elim ctx.request_number [ some v ↦ v | none ↦ 0 ]
