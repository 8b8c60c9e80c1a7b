-- ===== src/Api/Middleware.antt =====
-- api.middlewares.go: the middlewares and their stacks.
pub mod Chain
pub mod Counting
pub mod Locked
pub mod Stack
pub mod Maintenance
pub mod Panics
pub mod Passage
pub mod InFlight
pub mod Requests
pub mod Timeout
use demo_redis.Prelude.{
  ℕ, zero, suc, ◌+◌, ◌-◌, ◌%◌, ◌^◌, String, Bool, true, false, ◌==◌, ◌&&◌, if◌then◌else◌, Option,
  none, some, List, [], ◌∷◌, Action, pure, ◌>>=◌, ◌>>◌, nat_eq, length,
}
use demo_redis.Book.{Error, canceled, deadline_exceeded}
use demo_redis.Context.{Context, LogFields, get_request_id, get_request_number}
use demo_redis.Ids.{request_id_prefix}
use demo_redis.Response.{
  Writer, plain, custom, BaseWriter, CustomWriter, base_of, new_custom_writer, set_header,
  write_header, content_json, encode, object, fields, new_api_error, aborted_header,
}
use demo_redis.Api.{
  ApiHandler, Request, with_context, Params, by_name, Exchange, Outcome, returned, panicked,
  crashed, Handle, on_world, on_writer, reply_error,
}
use demo_redis.Api.Ops.{maintenance}

-- `MiddlewareFunc`
abbrev pub MiddlewareFunc : Type 0 → Type 0
MiddlewareFunc W = Handle W → Handle W

-- the map of statuses, one more of a code, with the wrap-around of a uint64
unfoldable pub bump : ℕ → List (ℕ × ℕ) → List (ℕ × ℕ)
bump code [] = (code, 1) ∷ []
bump code ((c, n) ∷ status) =
    if nat_eq c code then (c, (n + 1) % 2 ^ 64) ∷ status else (c, n) ∷ bump code status

-- the last element of a list of middlewares, `m[lg-1]`, by its index
abbrev pub at : {A : Type 0} → List (A → A) → ℕ → A → A
at [] i a = a
at (m ∷ ms) zero a = m a
at (m ∷ ms) (suc i) a = at ms i a

-- the loop of `Chain`, from the index below the number down to 0
unfoldable pub chain_from : {A : Type 0} → List (A → A) → ℕ → A → A
chain_from m zero handle = handle
chain_from m (suc i) handle = chain_from m i (at m i handle)

-- `Middlewares.Chain`
unfoldable pub chain : {A : Type 0} → List (A → A) → A → A
unfolding chain_from
chain [] h = h
chain (m ∷ ms) h = let lg = length (m ∷ ms) in chain_from (m ∷ ms) (lg - 1) (at (m ∷ ms) (lg - 1) h)

-- the status recorded by the wrapper that a handler was given
abbrev pub code_of : Writer → ℕ
code_of (plain w) = 200
code_of (custom cw) = cw.code

-- `CORSMiddleware`
unfoldable pub cors : {W : Type 0} → MiddlewareFunc W
cors next r ps = do
  on_writer (λ w. (tt, set_header "Access-Control-Allow-Origin" "*" w))
  on_writer (λ w. (
    tt,
    set_header "Access-Control-Allow-Methods" "POST, GET, OPTIONS, PUT, DELETE, UPDATE, PATCH, HEAD"
        w,
  ))
  on_writer (λ w. (
    tt,
    set_header "Access-Control-Allow-Headers"
        "Origin, Access-Control-Request-Method, Access-Control-Request-Headers, Accept, Content-Type, Content-Length, Accept-Encoding, X-CSRF-Token, Authorization, User-Agent, Accept-Language, Referer, DNT, Connection, Pragma, Cache-Control, TE"
        w,
  ))
  next r ps

module _ {W : Type 0} (api : ApiHandler W) where
  -- what `StatsMiddleware` does once the handler under it has returned
  unfoldable pub count_status : Exchange W → Exchange W
  count_status x =
      let s = x.stats in
      record x {
        stats = record s { status = bump (code_of x.writer) s.status };
        writer = plain (base_of x.writer);
      }

  -- `StatsMiddleware`. The wrapper is of no use to its caller, so it is taken off again; a context
  -- without a connection makes `GetConnFromContext` panic.
  unfoldable pub stats_middleware : MiddlewareFunc W
  unfolding count_status
  stats_middleware next r ps = elim r.context.conn [
    | none ↦ pure (panicked "interface conversion: interface is nil, not net.Conn")
    | some conn ↦ do
      on_writer (λ w. (tt, custom (new_custom_writer (base_of w) conn)))
      start ← on_world api.clock.now
      outcome ← next r ps
      elim outcome [
        | returned ↦ do end ← on_world api.clock.now; (λ x. (returned, count_status x))
        | panicked v ↦ (λ x. (panicked v, record x { writer = plain (base_of x.writer) }))
        | crashed ↦ pure crashed
      ]
  ]

  -- `AddLoggerMiddleware`
  unfoldable pub add_logger : MiddlewareFunc W
  add_logger next r ps =
      let ctx = r.context in
      let logger : LogFields = record {
        request_id = get_request_id ctx;
        number = get_request_number ctx;
        method = r.method;
        path = r.path;
        agent = r.agent;
        referer = r.referer;
      } in
      next (with_context (record ctx { logger = some logger }) r) ps

  -- `MaintenanceModeMiddleware`
  unfoldable pub maintenance_mode : MiddlewareFunc W
  maintenance_mode next r ps x = elim x.mode.enabled [
    | true ↦ maintenance api r (("status", "show") ∷ []) x
    | false ↦ next r ps x
  ]

  -- `RequestsCounterMiddleware`, with the wrap-around of a uint64
  unfoldable pub requests_counter : MiddlewareFunc W
  requests_counter next r ps x =
      let ctx = r.context in
      let s = x.stats in
      let called = (s.called + 1) % 2 ^ 64 in
      next (with_context (record ctx { request_number = some called }) r) ps
        (record x { stats = record s { called = called } })

  -- `RequestIDMiddleware`
  unfoldable pub request_id : MiddlewareFunc W
  request_id next r ps = do
    id ← on_world (api.ids_handler.generate request_id_prefix)
    let ctx = r.context
    next (with_context (record ctx { request_id = some id }) r) ps

  -- `PanicRecoveryMiddleware`; the context that it reads is the one from before the other middlewares
  unfoldable pub panic_recovery : MiddlewareFunc W
  panic_recovery next r ps = do
    outcome ← next r ps
    elim outcome [
      | panicked v ↦ reply_error api r.context (
          new_api_error (get_request_id r.context) 500 "failed to process the request." (fields []))
      | returned ↦ pure returned
      | crashed ↦ pure crashed
    ]

  -- `GetTimeout`
  unfoldable pub get_timeout : Request → ℕ
  get_timeout r =
      if r.method == "GET" && r.path == "/v1/books"
      then api.config.server.long_request_processing_timeout
      else api.config.server.request_timeout

  -- the answer that `TimeoutMiddleware` sends in the handler's place
  unfoldable pub abort : String → ℕ → Error → Action (Exchange W) (Unit {0})
  abort rid timeout canceled = do
    on_writer (λ w. (tt, set_header aborted_header "C" w))
    on_writer (λ w. (tt, write_header 499 w))
  abort rid timeout deadline_exceeded = do
    on_writer (λ w. (tt, set_header aborted_header "T" w))
    on_writer (λ w. (tt, content_json w))
    on_writer (λ w. (tt, write_header 504 w))
    on_writer (
        encode api.size (
          object (
            ("requestid", rid)
            ∷ ("message", "request handling timed out")
            ∷ ("timeout", api.seconds timeout)
            ∷ [])))
    pure tt
  abort rid timeout _ = pure tt

  -- the handler in its own goroutine, where nothing recovers a panic
  unfoldable pub in_goroutine : Action (Exchange W) Outcome → Action (Exchange W) Outcome
  in_goroutine m = do
    outcome ← m
    elim outcome [ panicked v ↦ pure crashed | returned ↦ pure returned | crashed ↦ pure crashed ]

  -- `TimeoutMiddleware`. `expires` says which case of the `select` is taken; after a timeout the
  -- handler's goroutine goes on, with the response marked as aborted.
  unfoldable pub timeout_middleware : MiddlewareFunc W
  unfolding in_goroutine
  timeout_middleware next r ps = do
    let ctx = r.context
    let timeout = get_timeout r
    let r' = with_context (record ctx { timeouts = timeout ∷ ctx.timeouts }) r
    done ← on_world (api.expires r'.context)
    elim done [
      | none ↦ in_goroutine (next r' ps)
      | some err ↦ do abort (get_request_id ctx) timeout err; in_goroutine (next r' ps)
    ]

  -- `MiddlewaresStacks`
  abbrev pub middlewares_public : List (MiddlewareFunc W)
  middlewares_public =
      panic_recovery ∷ request_id ∷ maintenance_mode ∷ requests_counter ∷ add_logger ∷ cors
      ∷ timeout_middleware ∷ stats_middleware ∷ []

  abbrev pub middlewares_ops : List (MiddlewareFunc W)
  middlewares_ops =
      panic_recovery ∷ request_id ∷ requests_counter ∷ add_logger ∷ cors ∷ timeout_middleware
      ∷ stats_middleware ∷ []
