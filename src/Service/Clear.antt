-- ===== src/Service/Clear.antt =====
-- `BookService.DeleteAll` of api.services.go: the goroutine that empties the primary storage, and the
-- loop that waits for it.
pub mod Outcome
use demo_redis.Prelude.{
  ℕ, ◌*◌, ◌^◌, String, Bool, true, false, Option, none, some, List, [], ◌∷◌, ◌++◌, Action, pure,
  ◌>>=◌, ◌>>◌,
}
use demo_redis.Book.{Error}
use demo_redis.Context.{Context, background}
use demo_redis.Service.{World, BookService, on_redis}

-- What the `select` of the loop takes: the context that is done, a tick, or the storage's result.
pub data Event : Type 0 where
  timed_out ticked : Event
  finished : Option Error → Event

-- What the loop logs.
pub data Line : Type 0 where
  timeout still_running completed : Line
  failed : Error → Line

abbrev pub line_of : Option Error → Line
line_of none = completed
line_of (some e) = failed e

-- the loop of `DeleteAll` over the events that its `select` takes one after the other: the lines that
-- it logs, and whether it returned
unfoldable pub watch : List Event → List Line × Bool
watch [] = ([], false)
watch (timed_out ∷ events) = let (lines, returned) = watch events in (timeout ∷ lines, returned)
watch (ticked ∷ events) = let (lines, returned) = watch events in (still_running ∷ lines, returned)
watch (finished err ∷ events) = (line_of err ∷ [], true)

-- ten minutes, in nanoseconds
abbrev pub ops_timeout : ℕ
ops_timeout = 10 * 60 * 10 ^ 9

-- `opsCtx`
abbrev pub ops_context : Context
ops_context = record background { timeouts = ops_timeout ∷ [] }

abbrev result_event : Option (Option Error) → List Event
result_event none = []
result_event (some err) = finished err ∷ []

module _ {R B E : Type 0} (bs : BookService R B E) where
  -- `BookService.DeleteAll`, given the rounds that the storage's loop may make, and the events that
  -- come before the storage's result. The storage's calls are given `opsCtx`: what the client answers to
  -- them once its time is over, which may end the storage's loop with an error, is up to the client.
  unfoldable pub delete_all :
      ℕ → List Event → Context → String → Action (World R B E) (List Line × Bool)
  delete_all rounds events ctx rid = do
    result ← on_redis (bs.pstorage.delete_all rounds ops_context)
    pure (watch (events ++ result_event result))
