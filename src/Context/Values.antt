-- ===== src/Context/Values.antt =====
-- The contexts of package context as the program fills them: values of any type under keys, which are
-- read with type assertions (helpers.common.go, helpers.logging.go).
use demo_redis.Prelude.{
  ℕ, String, ◌≡◌, refl, Option, none, some, List, [], ◌∷◌, ◌==◌, if◌then◌else◌,
}
use demo_redis.Context.{LogFields, Context, background, get_request_id, get_request_number}

-- The values that are put into contexts, by their Go types: string, uint64, *zap.Logger (by its fields)
-- and net.Conn (by its identity).
pub data Value : Type 0 where
  text : String → Value
  number : ℕ → Value
  logger : LogFields → Value
  connection : ℕ → Value

-- the calls of `context.WithValue` that made the context, the last first; `context.WithTimeout` adds no
-- value
abbrev pub Values : Type 0
Values = List (String × Value)

-- `ctx.Value`
abbrev pub value : String → Values → Option Value
value key [] = none
value key ((k, v) ∷ ctx) = if k == key then some v else value key ctx

-- the keys, which are all of type ContextKey
abbrev pub request_id_context_key : String
request_id_context_key = "request.id"

abbrev pub request_number_context_key : String
request_number_context_key = "request.number"

abbrev pub conn_context_key : String
conn_context_key = "http-conn"

abbrev pub logger_context_key : String
logger_context_key = "request.logger"

-- What a type assertion ends in: the value, or a panic where it has another type or is nil.
pub data Asserted (A : Type 0) : Type 0 where
  gets : A → Asserted A
  panics : Asserted A

-- `val.(string)`, `val.(uint64)`, `value.(*zap.Logger)` and `value.(net.Conn)`
abbrev as_string : Value → Asserted String
as_string (text s) = gets s
as_string _ = panics

abbrev as_uint64 : Value → Asserted ℕ
as_uint64 (number n) = gets n
as_uint64 _ = panics

abbrev as_logger : Value → Asserted (Option LogFields)
as_logger (logger l) = gets (some l)
as_logger _ = panics

abbrev as_conn : Value → Asserted ℕ
as_conn (connection c) = gets c
as_conn _ = panics

-- `GetValueFromContext`
unfoldable pub get_value_from_context : Values → String → Asserted String
get_value_from_context ctx key = elim (value key ctx) [ some v ↦ as_string v | none ↦ gets "" ]

-- `GetRequestNumberFromContext`
unfoldable pub get_request_number_from_context : Values → Asserted ℕ
get_request_number_from_context ctx = elim (value request_number_context_key ctx) [
  | some v ↦ as_uint64 v
  | none ↦ gets 0
]

-- `SaveConnInContext`
unfoldable pub save_conn_in_context : Values → ℕ → Values
save_conn_in_context ctx c = (conn_context_key, connection c) ∷ ctx

-- `GetConnFromContext`, which asserts without a test for nil
unfoldable pub get_conn_from_context : Values → Asserted ℕ
get_conn_from_context ctx = elim (value conn_context_key ctx) [ some v ↦ as_conn v | none ↦ panics ]

-- `APIHandler.GetLoggerFromContext`; none is the handler's own logger
unfoldable pub get_logger_from_context : Values → Asserted (Option LogFields)
get_logger_from_context ctx = elim (value logger_context_key ctx) [
  | some v ↦ as_logger v
  | none ↦ gets none
]

-- The contexts that the program makes: what `context.WithValue` was called with, beside the record of
-- Context.antt that the other modules work with.
pub data Made : Values → Context → Type 0 where
  -- `context.Background()`
  empty : Made [] background
  -- the hook ConnContext of the server
  saves_conn :
      {v : Values} {ctx : Context}
      → Made v ctx
      → (c : ℕ) → Made (save_conn_in_context v c) (record ctx { conn = some c })
  -- `RequestIDMiddleware`
  sets_id :
      {v : Values} {ctx : Context}
      → Made v ctx
      → (id : String)
      → Made ((request_id_context_key, text id) ∷ v) (record ctx { request_id = some id })
  -- `RequestsCounterMiddleware`
  sets_number :
      {v : Values} {ctx : Context}
      → Made v ctx
      → (n : ℕ)
      → Made ((request_number_context_key, number n) ∷ v) (record ctx { request_number = some n })
  -- `AddLoggerMiddleware`
  sets_logger :
      {v : Values} {ctx : Context}
      → Made v ctx
      → (l : LogFields) → Made ((logger_context_key, logger l) ∷ v) (record ctx { logger = some l })
  -- `TimeoutMiddleware`
  times :
      {v : Values} {ctx : Context}
      → Made v ctx
      → (d : ℕ) → Made v (record ctx { timeouts = d ∷ ctx.timeouts })

-- However the program fills a context, no type assertion of its accessors meets a value of another
-- type: the request's id, its number and its logger are what was set last, or the empty string, 0 and
-- the handler's own logger where none was set, without a panic; and `GetConnFromContext` panics exactly where no connection was saved.
pub accessors_typed :
    {v : Values} {ctx : Context}
    → Made v ctx
    → (get_value_from_context v request_id_context_key ≡ gets (get_request_id ctx))
      × (get_request_number_from_context v ≡ gets (get_request_number ctx))
      × (get_logger_from_context v ≡ gets ctx.logger)
      × (get_conn_from_context v ≡ elim ctx.conn [ some c ↦ gets c | none ↦ panics ])
unfolding get_value_from_context get_request_number_from_context get_logger_from_context
    get_conn_from_context get_request_id get_request_number save_conn_in_context
accessors_typed empty = (refl, refl, refl, refl)
accessors_typed (saves_conn m c) =
    let (id, num, log, conn) = accessors_typed m in (id, num, log, refl)
accessors_typed (sets_id m i) =
    let (id, num, log, conn) = accessors_typed m in (refl, num, log, conn)
accessors_typed (sets_number m n) =
    let (id, num, log, conn) = accessors_typed m in (id, refl, log, conn)
accessors_typed (sets_logger m l) =
    let (id, num, log, conn) = accessors_typed m in (id, num, refl, conn)
accessors_typed (times m d) = accessors_typed m
