-- ===== src/Api.antt =====
-- api.handlers.core.go: what the handlers share. `W` is the state outside of the process: the
-- storages, the clock, the random source, and whether contexts are done.
pub mod Decode
pub mod Reply
pub mod Books
pub mod Ops
pub mod Middleware
pub mod Index
pub mod SourceIp
pub mod NotFound
pub mod Routes
use demo_redis.Prelude.{
  ℕ, String, Bool, ◌==◌, if◌then◌else◌, Option, none, some, List, [], ◌∷◌, Action, pure, ◌>>=◌,
  false,
}
use demo_redis.Book.{Book, Error}
use demo_redis.Context.{Context}
use demo_redis.Config.{Config}
use demo_redis.Clock.{Time, Clocker, zero_time}
use demo_redis.Ids.{UidHandler}
use demo_redis.Response.{
  Body, Header, Writer, ApiError, ApiResponse, write_error_response, write_response,
}

-- `BookServiceProvider`
pub record BookServiceProvider (W : Type 0) : Type 0 where
  pub add : Context → String → Book → Action W (Option Error)
  pub get_one : Context → String → Action W (Book × Option Error)
  pub delete : Context → String → Action W (Option Error)
  pub update : Context → String → Book → Action W (Book × Option Error)
  pub get_all : Context → Action W (List Book × Option Error)
  pub delete_all : Context → String → Action W (Unit {0})

-- `Statistics`, its map of statuses as pairs
pub record Statistics : Type 0 where
  pub version : String
  pub container : Bool
  pub runtime : String
  pub platform : String
  pub called : ℕ
  pub started : Time
  pub status : List (ℕ × ℕ)

-- `Maintenance`
pub record Maintenance : Type 0 where
  pub enabled : Bool
  pub reason : String
  pub started : Time

-- How a handler ends. A panic that no `recover` of its own goroutine meets ends the process.
pub data Outcome : Type 0 where
  returned : Outcome
  panicked : String → Outcome
  crashed : Outcome

-- `APIHandler` without its logger, and what its methods call outside of the program. `ctx_err` is `ctx.Err()`;
-- `expires` says whether a context is done before the handler under it has returned, and with which
-- error; `time_now` is `time.Now`; `set_write_deadline` acts on the connection; `decode_body` is the
-- JSON decoder on a zero book; `size` is the length of an encoded body; `time_string` is
-- `time.Time.String`, `rfc1123` its `Format`, and `minutes` prints the minutes from one
-- time to another and `seconds` a duration.
-- `config` has its log level by name; `parse_ip` says whether `net.ParseIP` returns an address, and
-- `split_host_port` is the host of `net.SplitHostPort`, none with an error.
-- `nil_logger_error` is how a call of `Error` on a nil `*zap.Logger` ends.
pub record ApiHandler (W : Type 0) : Type 0 where
  pub clock : Clocker W
  pub ids_handler : UidHandler W
  pub book_service : BookServiceProvider W
  pub ctx_err : Context → Action W (Option Error)
  pub expires : Context → Action W (Option Error)
  pub time_now : Action W ℕ
  pub set_write_deadline : ℕ → Action W (Option Error)
  pub decode_body : String → Book × Option Error
  pub size : Body → ℕ
  pub time_string : Time → String
  pub rfc1123 : Time → String
  pub minutes : Time → Time → String
  pub seconds : ℕ → String
  pub nil_logger_error : Outcome
  pub config : Config String ℕ
  pub parse_ip : String → Bool
  pub split_host_port : String → Option String

-- `http.Request`, as far as the program reads it
pub record Request : Type 0 where
  pub method : String
  pub path : String
  pub query : List (String × String)
  pub body : Option String
  pub agent : String
  pub referer : String
  pub header : Header
  pub remote_addr : String
  pub context : Context

abbrev pub with_context : Context → Request → Request
with_context ctx r = record r { context = ctx }

-- `httprouter.Params`, and `ByName`, which is also `url.Values.Get`
abbrev pub Params : Type 0
Params = List (String × String)

abbrev pub by_name : String → Params → String
by_name key [] = ""
by_name key ((k, v) ∷ ps) = if k == key then v else by_name key ps

-- The state that a request's handling changes: what is outside, the two shared structures of
-- `APIHandler`, and the response.
pub record Exchange (W : Type 0) : Type 0 where
  pub world : W
  pub stats : Statistics
  pub mode : Maintenance
  pub writer : Writer

-- `httprouter.Handle`
abbrev pub Handle : Type 0 → Type 0
Handle W = Request → Params → Action (Exchange W) Outcome

abbrev pub on_world : {W A : Type 0} → Action W A → Action (Exchange W) A
on_world m x = let (a, w) = m x.world in (a, record x { world = w })

abbrev pub on_writer : {W A : Type 0} → Action Writer A → Action (Exchange W) A
on_writer m x = let (a, w) = m x.writer in (a, record x { writer = w })

module _ {W : Type 0} (api : ApiHandler W) where
  -- `WriteErrorResponse(r.Context(), w, errResp)`, whose error is only logged
  unfoldable pub reply_error : Context → ApiError → Action (Exchange W) Outcome
  reply_error ctx resp = do
    done ← on_world (api.ctx_err ctx)
    err ← on_writer (write_error_response api.size done resp)
    pure returned

  -- `WriteResponse(r.Context(), w, resp)`, whose error is only logged
  unfoldable pub reply : Context → ApiResponse → Action (Exchange W) Outcome
  reply ctx resp = do
    done ← on_world (api.ctx_err ctx)
    err ← on_writer (write_response api.size done resp)
    pure returned

-- The maintenance mode and the map that `NewAPIHandler` starts with.
unfoldable pub new_maintenance : Maintenance
new_maintenance = record { enabled = false; reason = ""; started = zero_time }

unfoldable pub reset_status : Statistics → Statistics
reset_status s = record s { status = [] }
