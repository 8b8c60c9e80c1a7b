-- ===== src/Tests/Timeouts.antt =====
-- A handler that has answered when its deadline passes, and one that has not.
use demo_redis.Prelude.{ℕ, ◌≡◌, refl, false, none, some, List, [], ◌∷◌, ◌++◌}
use demo_redis.Response.{object, BaseWriter, plain, base_of, CustomWriter}
use demo_redis.Api.{Exchange}
use demo_redis.Book.{deadline_exceeded}
use demo_redis.Api.Middleware.{abort}
use demo_redis.Response.Laws.{status, send}
use demo_redis.Api.Middleware.Timeout.{
  Event, begins, goes_on, handler_sets_type, mark, set_type, send_status, send_answer, at_rest,
  happen, answer,
}
use demo_redis.Api.Middleware.Timeout.Deadline.{
  Same, interleaved-abort, late_timeout_appends, late_write_passes,
}
use demo_redis.Tests.Requests.{Outside, api, no_answer, arriving}

abbrev before : List Event
before =
    handler_sets_type ∷ begins (status 201) ∷ goes_on ∷ begins (send (object [])) ∷ goes_on ∷ []

abbrev rest : List Event
rest =
    begins (status 500)
    ∷ set_type
    ∷ begins (send (object []))
    ∷ goes_on
    ∷ send_status
    ∷ send_answer (answer api "r:1" 5)
    ∷ handler_sets_type
    ∷ []

abbrev wrapper : CustomWriter
wrapper = record { base = no_answer; conn = 3; code = 200; bytes = 0; wrote = false }

abbrev answered : BaseWriter
answered = (happen api.size before (at_rest wrapper)).writer.base

abbrev answering : Exchange Outside
answering = record arriving { writer = plain answered }

interleaved-abort_example :
    Same
      (happen api.size (before ++ mark ∷ rest) (at_rest wrapper)).writer.base
      (base_of (abort api "r:1" 5 deadline_exceeded answering).1.writer)
interleaved-abort_example =
    interleaved-abort api "r:1" 5 before rest wrapper answering refl refl refl

late_timeout_appends_example :
    let w = answered in
    let v = (happen api.size (before ++ mark ∷ rest) (at_rest wrapper)).writer.base in
    (v.written ≡ w.written ++ answer api "r:1" 5 ∷ [])
    × ((code : ℕ) → w.sent ≡ some code → v.sent ≡ some code)
    × (w.sent ≡ none → v.sent ≡ some 504)
late_timeout_appends_example = late_timeout_appends api "r:1" 5 before rest wrapper refl refl refl

-- The handler is in `Write`, past its test, when the deadline passes.
abbrev writing_on : List Event
writing_on = begins (status 201) ∷ goes_on ∷ begins (send (object [])) ∷ []

late_write_passes_example :
    let w = (happen api.size writing_on (at_rest wrapper)).writer.base in
    let v =
      (happen api.size
        (writing_on
          ++ mark ∷ set_type ∷ send_status ∷ send_answer (answer api "r:1" 5) ∷ goes_on ∷ [])
        (at_rest wrapper)).writer.base in
    (v.written ≡ (w.written ++ answer api "r:1" 5 ∷ []) ++ object [] ∷ [])
    × ((code : ℕ) → w.sent ≡ some code → v.sent ≡ some code)
late_write_passes_example = late_write_passes api "r:1" 5 writing_on (object []) wrapper refl refl
