-- ===== src/Api/Middleware/Timeout.antt =====
-- `TimeoutMiddleware` of api.middlewares.go beside the handler's goroutine: the steps of the
-- calls that each of them makes of the response's writer, in any order.
pub mod Deadline
use demo_redis.Prelude.{
  ℕ, ◌+◌, String, true, if◌then◌else◌, not, ◌==◌, refl, sym, ap, ◌∙◌, inl, inr, none, some,
  Option-cases, List, [], ◌∷◌, ◌++◌,
}
use mathlib.Core.Path.{subst}
use demo_redis.Book.{deadline_exceeded}
use demo_redis.Response.{
  Body, object, BaseWriter, CustomWriter, base_write_header, base_write, aborted_header, is_aborted,
  plain, base_of, Header, get, set,
}
use demo_redis.Response.Laws.{Call, status, send}
use demo_redis.Api.{ApiHandler, Exchange}
use demo_redis.Api.Middleware.{abort}

-- What the two goroutines do to the response: the handler begins a call of its wrapper, goes on with one
-- that it began, or sets the type of the content; the middleware, once the deadline has passed, marks
-- the response, sets the type, sends its status and writes its answer, on the writer under the wrapper.
pub data Event : Type 0 where
  begins : Call → Event
  goes_on handler_sets_type mark set_type send_status : Event
  send_answer : Body → Event

-- Where the handler's goroutine stands in a call: in none; in `WriteHeader`, past the test of the mark; in
-- `Write`, past its test, at its call of `WriteHeader`, or past the test of that, or at its own write.
pub data Doing : Type 0 where
  idle : Doing
  heading : ℕ → Doing
  at_header past_header writing : Body → Doing

pub record Racing : Type 0 where
  pub writer : CustomWriter
  pub doing : Doing

abbrev pub at_rest : CustomWriter → Racing
at_rest cw = record { writer = cw; doing = idle }

abbrev pub typed : BaseWriter → BaseWriter
typed w = record w { header = set "Content-Type" "application/json; charset=UTF-8" w.header }

abbrev pub marked : BaseWriter → BaseWriter
marked w = record w { header = set aborted_header "T" w.header }

module _ (size : Body → ℕ) where
  -- an event of the middleware, on the writer under the wrapper
  abbrev pub on_base : Event → BaseWriter → BaseWriter
  on_base mark w = marked w
  on_base set_type w = typed w
  on_base send_status w = base_write_header 504 w
  on_base (send_answer b) w = (base_write size b w).1
  on_base _ w = w

  -- a call of the wrapper as far as its test of the mark
  abbrev pub begin_call : Call → CustomWriter → Racing
  begin_call (status code) cw =
      if is_aborted cw.base
      then at_rest (record cw { code = code; wrote = true })
      else record { writer = cw; doing = heading code }
  begin_call (send b) cw =
      if is_aborted cw.base
      then at_rest cw
      else record { writer = cw; doing = if cw.wrote then writing b else at_header b }

  -- `WriteHeader` behind its test
  abbrev pub send_header : ℕ → CustomWriter → CustomWriter
  send_header code cw =
      if cw.wrote
      then cw
      else record cw { code = code; wrote = true; base = base_write_header code cw.base }

  -- `Write` from its write on
  abbrev pub send_body : Body → CustomWriter → CustomWriter
  send_body b cw =
      let ((n, err), base') = base_write size b cw.base in
      record cw { base = base'; bytes = cw.bytes + n }

  -- the next step of a call that was begun
  abbrev pub go_on : Doing → CustomWriter → Racing
  go_on idle cw = at_rest cw
  go_on (heading code) cw = at_rest (send_header code cw)
  go_on (at_header b) cw =
      if is_aborted cw.base
      then record { writer = record cw { wrote = true }; doing = writing b }
      else record { writer = cw; doing = past_header b }
  go_on (past_header b) cw = record { writer = send_header cw.code cw; doing = writing b }
  go_on (writing b) cw = at_rest (send_body b cw)

  -- A goroutine begins a call only when it is in none.
  abbrev pub begin_at : Doing → Call → CustomWriter → Racing
  begin_at idle c cw = begin_call c cw
  begin_at d c cw = record { writer = cw; doing = d }

  abbrev pub happens : Event → Racing → Racing
  happens (begins c) x = begin_at x.doing c x.writer
  happens goes_on x = go_on x.doing x.writer
  happens handler_sets_type x =
      let cw = x.writer in record x { writer = record cw { base = typed cw.base } }
  happens e x = let cw = x.writer in record x { writer = record cw { base = on_base e cw.base } }

  abbrev pub happen : List Event → Racing → Racing
  happen [] x = x
  happen (e ∷ es) x = happen es (happens e x)

  -- The events of the middleware alone.
  abbrev pub on_bases : List Event → BaseWriter → BaseWriter
  on_bases [] w = w
  on_bases (e ∷ es) w = on_bases es (on_base e w)

module _ {W : Type 0} (api : ApiHandler W) where
  -- the answer of `TimeoutMiddleware`
  abbrev pub answer : String → ℕ → Body
  answer rid timeout = object (
      ("requestid", rid)
      ∷ ("message", "request handling timed out")
      ∷ ("timeout", api.seconds timeout)
      ∷ [])
