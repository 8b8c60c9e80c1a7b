-- ===== src/Api/Middleware/Timeout/Deadline.antt =====
-- What the client gets where the deadline of `TimeoutMiddleware` of api.middlewares.go passes while the
-- handler's goroutine goes on.
use demo_redis.Prelude.{
  ℕ, String, true, not, ◌==◌, ◌≡◌, refl, sym, ap, ◌∙◌, inl, inr, none, some, Option-cases, List, [],
  ◌∷◌, ◌++◌, arith,
}
use mathlib.Core.Path.{subst}
use demo_redis.Book.{deadline_exceeded}
use demo_redis.Response.{
  Body, BaseWriter, CustomWriter, base_write_header, base_write, aborted_header, is_aborted, plain,
  base_of, Header, get,
}
use demo_redis.Response.Laws.{Call, status, send}
use demo_redis.Api.{ApiHandler, Exchange}
use demo_redis.Api.Middleware.{abort}
use demo_redis.Api.Middleware.Timeout.{
  Event, begins, goes_on, handler_sets_type, mark, set_type, send_status, send_answer, Doing, idle,
  writing, Racing, at_rest, typed, marked, begin_call, happens, happen, on_bases, answer,
}

-- What the client gets, but for the headers.
abbrev pub Same : BaseWriter → BaseWriter → Type 0
Same a b = (a.sent ≡ b.sent) × (a.written ≡ b.written) × (a.broken ≡ b.broken)

module _ (size : Body → ℕ) where
  Same-header :
      (code : ℕ) (a b : BaseWriter)
      → Same a b
      → Same (base_write_header code a) (base_write_header code b)
  Same-header code a b (sent, written, broken) = elim (Option-cases a.sent) [
    | inl unsent ↦ ground arith
    | inr (c, e) ↦ ground arith
  ]

  Same-write :
      (x : Body) (a b : BaseWriter)
      → Same a b
      → Same (base_write size x a).1 (base_write size x b).1
  Same-write x a b (sent, written, broken) = elim (Option-cases a.broken) [
    | inr (e, gone) ↦
        let (s, w, b) = Same-header 200 a b (sent, written, broken) in ground (arith, s, w)
    | inl whole ↦ elim (Option-cases a.sent) [
      | inl unsent ↦ ground arith
      | inr (c, e) ↦ ground arith
    ]
  ]

  header-kept : (code : ℕ) (w : BaseWriter) → (base_write_header code w).header ≡ w.header
  header-kept code w = elim (Option-cases w.sent) [
    | inl unsent ↦ ground arith
    | inr (c, e) ↦ ground arith
  ]

  write-kept : (x : Body) (w : BaseWriter) → (base_write size x w).1.header ≡ w.header
  write-kept x w =
      let kept = header-kept 200 w in
      elim (Option-cases w.broken) [
        | inl whole ↦ ground (arith, kept)
        | inr (e, gone) ↦ ground (arith, kept)
      ]

  -- Neither the sending of the status nor a write takes the mark away.
  still_aborted :
      (v w : BaseWriter) → v.header ≡ w.header → is_aborted w ≡ true → is_aborted v ≡ true
  still_aborted v w kept h = ap (λ (g : Header). not (get aborted_header g == "")) kept ∙ h

  -- A call that begins after the mark is over with its test.
  begin_call-aborted :
      (c : Call) (cw : CustomWriter)
      → is_aborted cw.base ≡ true
      → (cw' : CustomWriter) × (begin_call size c cw ≡ at_rest cw') × (cw'.base ≡ cw.base)
  begin_call-aborted (status code) cw h =
      (record cw { code = code; wrote = true }, ground arith, refl)
  begin_call-aborted (send b) cw h = (cw, ground arith, refl)

  -- After the mark the handler's events do not count.
  happen-Same :
      (es : List Event) (cw : CustomWriter) (w : BaseWriter)
      → is_aborted cw.base ≡ true
      → Same cw.base w
      → Same (happen size es (at_rest cw)).writer.base (on_bases size es w)
  happen-Same [] cw w h s = s
  happen-Same (begins c ∷ es) cw w h s =
      let (cw', over, same) = begin_call-aborted c cw h in
      subst (λ (y : Racing). Same (happen size es y).writer.base (on_bases size es w)) (sym over)
        (happen-Same es cw' w (rw same h) (rw same s))
  happen-Same (goes_on ∷ es) cw w h s = happen-Same es cw w h s
  happen-Same (handler_sets_type ∷ es) cw w h s =
      happen-Same es (record cw { base = typed cw.base }) w h s
  happen-Same (mark ∷ es) cw w h s =
      happen-Same es (record cw { base = marked cw.base }) (marked w) refl s
  happen-Same (set_type ∷ es) cw w h s =
      happen-Same es (record cw { base = typed cw.base }) (typed w) h s
  happen-Same (send_status ∷ es) cw w h s =
      happen-Same es (record cw { base = base_write_header 504 cw.base }) (base_write_header 504 w)
        (still_aborted (base_write_header 504 cw.base) cw.base (header-kept 504 cw.base) h)
        (Same-header 504 cw.base w s)
  happen-Same (send_answer x ∷ es) cw w h s =
      happen-Same es (record cw { base = (base_write size x cw.base).1 }) (base_write size x w).1
        (still_aborted (base_write size x cw.base).1 cw.base (write-kept x cw.base) h)
        (Same-write x cw.base w s)

  -- The events of the middleware among others, in their order.
  abbrev pub by_middleware : List Event → List Event
  by_middleware [] = []
  by_middleware (begins c ∷ es) = by_middleware es
  by_middleware (goes_on ∷ es) = by_middleware es
  by_middleware (handler_sets_type ∷ es) = by_middleware es
  by_middleware (mark ∷ es) = mark ∷ by_middleware es
  by_middleware (set_type ∷ es) = set_type ∷ by_middleware es
  by_middleware (send_status ∷ es) = send_status ∷ by_middleware es
  by_middleware (send_answer b ∷ es) = send_answer b ∷ by_middleware es

  on_bases-by_middleware :
      (es : List Event) (w : BaseWriter) → on_bases size es w ≡ on_bases size (by_middleware es) w
  on_bases-by_middleware [] w = refl
  on_bases-by_middleware (begins c ∷ es) w = on_bases-by_middleware es w
  on_bases-by_middleware (goes_on ∷ es) w = on_bases-by_middleware es w
  on_bases-by_middleware (handler_sets_type ∷ es) w = on_bases-by_middleware es w
  on_bases-by_middleware (mark ∷ es) w = on_bases-by_middleware es (marked w)
  on_bases-by_middleware (set_type ∷ es) w = on_bases-by_middleware es (typed w)
  on_bases-by_middleware (send_status ∷ es) w = on_bases-by_middleware es (base_write_header 504 w)
  on_bases-by_middleware (send_answer b ∷ es) w = on_bases-by_middleware es (base_write size b w).1

  happen-append :
      (before es : List Event) (x : Racing)
      → happen size (before ++ es) x ≡ happen size es (happen size before x)
  happen-append [] es x = refl
  happen-append (e ∷ before) es x = happen-append before es (happens size e x)

  abbrev mark_at : Doing → CustomWriter → Racing
  mark_at d cw = record { writer = record cw { base = marked cw.base }; doing = d }

  marked-rest :
      (rest : List Event) (x : Racing)
      → x.doing ≡ idle
      → Same
          (happen size (mark ∷ rest) x).writer.base
          (on_bases size (mark ∷ by_middleware rest) x.writer.base)
  marked-rest rest x free =
      let cw = x.writer in
      rw (sym (on_bases-by_middleware rest (marked cw.base))) (
        subst
          (λ (d : Doing).
            Same (happen size rest (mark_at d cw)).writer.base
              (on_bases size rest (marked cw.base)))
          (sym free)
          (happen-Same rest (record cw { base = marked cw.base }) (marked cw.base) refl
            (refl, refl, refl)))

  -- From the mark on, the client gets what the middleware sends as if it were alone, if the handler is in
  -- no call.
  marked-Same :
      (before rest : List Event) (cw : CustomWriter)
      → (happen size before (at_rest cw)).doing ≡ idle
      → Same
          (happen size (before ++ mark ∷ rest) (at_rest cw)).writer.base
          (on_bases size (mark ∷ by_middleware rest) (happen size before (at_rest cw)).writer.base)
  marked-Same before rest cw free =
      rw (happen-append before (mark ∷ rest) (at_rest cw))
        (marked-rest rest (happen size before (at_rest cw)) free)

  -- The middleware alone, on a response that takes writes.
  alone_appends :
      (b : Body) (w : BaseWriter)
      → w.broken ≡ none
      → let v = on_bases size (mark ∷ set_type ∷ send_status ∷ send_answer b ∷ []) w in
        (v.written ≡ w.written ++ b ∷ [])
        × ((code : ℕ) → w.sent ≡ some code → v.sent ≡ some code)
        × (w.sent ≡ none → v.sent ≡ some 504)
  alone_appends b w whole = elim (Option-cases w.sent) [
    | inl unsent ↦ (ground arith, (λ code e. ground arith), (λ e. ground arith))
    | inr (c, sent) ↦ (ground arith, (λ code e. ground arith), (λ e. ground arith))
  ]

-- The second response is the first with the answer and then the body.
abbrev Passes : Body → Body → BaseWriter → BaseWriter → Type 0
Passes answer b w v =
    (v.written ≡ (w.written ++ answer ∷ []) ++ b ∷ [])
    × ((code : ℕ) → w.sent ≡ some code → v.sent ≡ some code)

module _ (size : Body → ℕ) where
  passing :
      (answer b : Body) (x : Racing)
      → x.doing ≡ writing b
      → x.writer.base.broken ≡ none
      → Passes answer b x.writer.base
          (happen size
            (mark ∷ set_type ∷ send_status ∷ send_answer answer ∷ goes_on ∷ [])
            x).writer.base
  passing answer b x past whole = elim (Option-cases x.writer.base.sent) [
    | inl unsent ↦ (ground arith, (λ code e. ground arith))
    | inr (c, sent) ↦ (ground arith, (λ code e. ground arith))
  ]

module _ {W : Type 0} (api : ApiHandler W) where
  -- the events of the middleware and, behind them, a step of the handler's call
  abbrev pub overtaken : String → ℕ → List Event
  overtaken rid timeout =
      mark ∷ set_type ∷ send_status ∷ send_answer (answer api rid timeout) ∷ goes_on ∷ []

  -- the events of the middleware behind the mark
  abbrev pub answering : String → ℕ → List Event
  answering rid timeout = set_type ∷ send_status ∷ send_answer (answer api rid timeout) ∷ []

  -- If the handler's goroutine is in no call of its wrapper when the response is marked, then, however its
  -- later calls and their steps fall among the calls of the middleware, the client gets the same
  -- status and the same bodies as if the middleware had answered in one go when it marked the response.
  pub interleaved-abort :
      (rid : String) (timeout : ℕ) (before rest : List Event) (cw : CustomWriter) (x : Exchange W)
      → by_middleware api.size rest ≡ answering rid timeout
      → (happen api.size before (at_rest cw)).doing ≡ idle
      → x.writer ≡ plain (happen api.size before (at_rest cw)).writer.base
      → Same
          (happen api.size (before ++ mark ∷ rest) (at_rest cw)).writer.base
          (base_of (abort api rid timeout deadline_exceeded x).1.writer)
  unfolding abort
  interleaved-abort rid timeout before rest cw x order free e =
      let s = marked-Same api.size before rest cw free in rw e (rw order at s)

  -- A deadline that passes after the handler has sent its status, between its calls and before its
  -- goroutine is done, leaves the handler's status and appends the answer to the bodies that were
  -- written; only where no status was sent does the client get 504.
  pub late_timeout_appends :
      (rid : String) (timeout : ℕ) (before rest : List Event) (cw : CustomWriter)
      → by_middleware api.size rest ≡ answering rid timeout
      → (happen api.size before (at_rest cw)).doing ≡ idle
      → (happen api.size before (at_rest cw)).writer.base.broken ≡ none
      → let w = (happen api.size before (at_rest cw)).writer.base in
        let v = (happen api.size (before ++ mark ∷ rest) (at_rest cw)).writer.base in
        (v.written ≡ w.written ++ answer api rid timeout ∷ [])
        × ((code : ℕ) → w.sent ≡ some code → v.sent ≡ some code)
        × (w.sent ≡ none → v.sent ≡ some 504)
  late_timeout_appends rid timeout before rest cw order free whole =
      let w = (happen api.size before (at_rest cw)).writer.base in
      let s = marked-Same api.size before rest cw free in
      let (sent, written, _) = rw order at s in
      let (written', kept, new) = alone_appends api.size (answer api rid timeout) w whole in
      (written ∙ written', (λ code e. sent ∙ kept code e), (λ e. sent ∙ new e))

  -- A handler that is past the tests of `Write` when the response is marked still reaches the client: if the
  -- connection takes writes and the handler goes on after the middleware's answer, its body is written
  -- behind that answer, and a status that was sent before is kept.
  pub late_write_passes :
      (rid : String) (timeout : ℕ) (before : List Event) (b : Body) (cw : CustomWriter)
      → (happen api.size before (at_rest cw)).doing ≡ writing b
      → (happen api.size before (at_rest cw)).writer.base.broken ≡ none
      → let w = (happen api.size before (at_rest cw)).writer.base in
        let v = (happen api.size (before ++ overtaken rid timeout) (at_rest cw)).writer.base in
        (v.written ≡ (w.written ++ answer api rid timeout ∷ []) ++ b ∷ [])
        × ((code : ℕ) → w.sent ≡ some code → v.sent ≡ some code)
  late_write_passes rid timeout before b cw past whole =
      subst
        (λ (y : Racing).
          Passes (answer api rid timeout) b (happen api.size before (at_rest cw)).writer.base
            y.writer.base)
        (sym (happen-append api.size before (overtaken rid timeout) (at_rest cw)))
        (passing api.size (answer api rid timeout) b (happen api.size before (at_rest cw)) past
          whole)
