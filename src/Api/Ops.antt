-- ===== src/Api/Ops.antt =====
-- api.handlers.ops.go: the maintenance mode, the statistics, and what goes with them.
pub mod Laws
pub mod Runtime
pub mod Publish
pub mod Switching
pub mod Crashing
use demo_redis.Prelude.{
  ℕ, ◌+◌, ◌-◌, ◌%◌, ◌^◌, String, Bool, true, false, not, ◌==◌, if◌then◌else◌, Option, none, some,
  List, [], ◌∷◌, Action, pure, ◌>>=◌, ◌>>◌,
}
use demo_redis.Book.{Error}
use demo_redis.Context.{get_request_id}
use demo_redis.Clock.{Time, is_zero}
use demo_redis.Response.{content_json, write_header, encode, object, Report, statistics, configs}
use demo_redis.Api.{
  ApiHandler, Request, Params, by_name, Exchange, Outcome, returned, Handle, on_world, on_writer,
  Statistics, Maintenance,
}
use Prim.Native.String

-- `NewStatistics`
unfoldable pub new_statistics : String → String → String → String → Bool → Time → Statistics
new_statistics tag commit runtime platform iscontainer starttime = record {
  version = if tag == "" then commit else "";
  container = iscontainer;
  runtime = runtime;
  platform = platform;
  called = 0;
  started = starttime;
  status = [];
}

-- the counter less one, which on a uint64 wraps around
abbrev pub shown_called : ℕ → ℕ
shown_called called = (called + 2 ^ 64 - 1) % 2 ^ 64

module _ {W : Type 0} (api : ApiHandler W) where
  -- the map that `GetStatistics` encodes, at a time
  unfoldable pub report : String → Time → Exchange W → Report
  report requestid now x = record {
    request_id = requestid;
    version = x.stats.version;
    container = x.stats.container;
    platform = x.stats.platform;
    runtime = x.stats.runtime;
    called = shown_called x.stats.called;
    started = api.rfc1123 x.stats.started;
    uptime = String.◌++◌ (api.minutes x.stats.started now) " mins";
    enabled = x.mode.enabled;
    mode_started = if is_zero x.mode.started then "" else api.time_string x.mode.started;
    reason = x.mode.reason;
    status = x.stats.status;
  }

  -- `APIHandler.GetStatistics`, without its read lock, which Middleware/InFlight has
  unfoldable pub get_statistics : Handle W
  unfolding report
  get_statistics r ps = do
    let requestid = get_request_id r.context
    on_writer (λ w. (tt, content_json w))
    now ← on_world api.clock.now
    sent ← (λ x. (report requestid now x, x))
    err ← on_writer (encode api.size (statistics sent))
    pure returned

  -- `APIHandler.GetConfigs`
  unfoldable pub get_configs : Handle W
  get_configs r ps = do
    on_writer (λ w. (tt, content_json w))
    err ← on_writer (encode api.size (configs api.config))
    pure returned

  -- `APIHandler.ClearBooksCache`; the goroutine of `DeleteAll` runs as a whole when it is started
  unfoldable pub clear_books_cache : Handle W
  clear_books_cache r ps = do
    let requestid = get_request_id r.context
    on_world (api.book_service.delete_all r.context requestid)
    on_writer (λ w. (tt, content_json w))
    err ← on_writer (
        encode api.size (
          object (
            ("requestid", requestid)
            ∷ (
              "message",
              "books cache clearing started. check logs every 30 secs based on requestid",
            )
            ∷ [])))
    pure returned

  -- the `switch` of `Maintenance`, which ends with the response to send and with whether the logger
  -- was set
  unfoldable pub switch_mode :
      String → Request → Action (Exchange W) (List (String × String) × Bool)
  switch_mode mstatus r =
      if mstatus == "enable"
      then (do
        now ← on_world api.clock.now
        (λ x. (
          (
            ("requestid", get_request_id r.context)
                ∷ ("maintenance.started", api.rfc1123 now)
                ∷ ("maintenance.reason", by_name "msg" r.query)
                ∷ ("message", "Maintenance mode enabled successfully.")
                ∷ [],
            true,
          ),
          record x {
            mode = record { enabled = true; reason = by_name "msg" r.query; started = now };
          },
        )))
      else if mstatus == "disable"
      then (λ x. (
        (
          ("requestid", get_request_id r.context)
              ∷ ("message", "Maintenance mode disabled successfully.")
              ∷ [],
          true,
        ),
        record x { mode = record { enabled = false; reason = ""; started = api.clock.zero } },
      ))
      else if mstatus == "show"
      then (do
        on_writer (λ w. (tt, write_header 503 w))
        (λ x. (
          (
            ("requestid", get_request_id r.context)
                ∷ ("message", "service currently unvailable.")
                ∷ ("reason", x.mode.reason)
                ∷ ("since", api.rfc1123 x.mode.started)
                ∷ [],
            false,
          ),
          x,
        )))
      else pure ([], false)

  -- the error of the response's write, which is logged with a logger that may be nil
  abbrev logged : Bool → Option Error → Outcome
  logged logger none = returned
  logged true (some e) = returned
  logged false (some e) = api.nil_logger_error

  -- `APIHandler.Maintenance`
  unfoldable pub maintenance : Handle W
  unfolding switch_mode
  maintenance r ps = do
    on_writer (λ w. (tt, content_json w))
    let mstatus = if by_name "status" ps == "show" then "show" else by_name "status" r.query
    (response, logger) ← switch_mode mstatus r
    err ← on_writer (encode api.size (object response))
    pure (logged logger err)
