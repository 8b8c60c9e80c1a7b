-- ===== src/Api/Middleware/Requests.antt =====
-- Requests one after another through the ops stack of api.middlewares.go.
use demo_redis.Prelude.{
  ℕ, ◌+◌, ◌<◌, ◌^◌, ◌≡◌, refl, String, none, ◌++◌, ◌%◌, Option-cases, inl, inr, some, List, [], ◌∷◌,
  arith, length,
}
use demo_redis.Api.{ApiHandler, Request, Params, Exchange, Handle, Statistics}
use demo_redis.Api.Middleware.{chain, middlewares_ops, requests_counter}
use demo_redis.Api.Ops.{report, get_statistics}
use demo_redis.Clock.{Time}
use demo_redis.Context.{get_request_id}
use demo_redis.Response.{Body, encode, content_json, Report, statistics, BaseWriter, plain, base_of}
use demo_redis.Api.Middleware.Counting.{total}
use demo_redis.Api.Middleware.Stack.{IsQuiet, Counts-chain_ops}

-- What is encoded onto a response that takes writes is written after what was.
encode_written :
    (size : Body → ℕ) (b : Body) (w : BaseWriter)
    → w.broken ≡ none
    → (base_of (encode size b (content_json (plain w))).1).written ≡ w.written ++ b ∷ []
encode_written size b w whole = elim (Option-cases w.sent) [
  | inl unsent ↦ ground arith
  | inr (code, sent) ↦ ground arith
]

-- A request, with the connection that it came over and the handler that its route names.
pub record Call (W : Type 0) : Type 0 where
  pub request : Request
  pub params : Params
  pub conn : ℕ
  pub handler : Handle W
  pub over : request.context.conn ≡ some conn
  pub quiet : IsQuiet handler

-- As many requests were counted as statuses.
abbrev pub IsConsistent : Statistics → Type 0
IsConsistent s = s.called ≡ total s.status

module _ {W : Type 0} (api : ApiHandler W) where
  abbrev pub serve : List (Call W) → Exchange W → Exchange W
  serve [] x = x
  serve (c ∷ cs) x = serve cs (chain (middlewares_ops api) c.handler c.request c.params x).1

  -- Each request comes over a connection, and its handler returns and leaves the statistics alone. From
  -- consistent statistics, after any number of requests, handled to their ends one after another, fewer than a uint64 can
  -- count, the number of requests has gone up by as many and is still the sum of the statuses'
  -- counts.
  pub serve-IsConsistent :
      (cs : List (Call W)) (x : Exchange W)
      → IsConsistent x.stats
      → x.stats.called + length cs < 2 ^ 64
      → ((serve cs x).stats.called ≡ x.stats.called + length cs) × IsConsistent (serve cs x).stats
  serve-IsConsistent [] x h room = (omega arith, h)
  serve-IsConsistent (c ∷ cs) x h room =
      let k = Counts-chain_ops api c.handler c.quiet in
      let y = (chain (middlewares_ops api) c.handler c.request c.params x).1 in
      let up : y.stats.called ≡ x.stats.called + 1 =
        omega (arith, k.called c.request c.params x c.conn c.over) in
      let more = k.counted c.request c.params x c.conn c.over (omega (arith, h)) in
      let (called, consistent) =
        serve-IsConsistent cs y (omega (arith, up, more, h)) (omega (arith, up)) in
      (omega (arith, called, up), consistent)

  -- The number that a report shows, one less than the counter, is the number from before its own
  -- request, also where the counter wraps around.
  report-requests_counter :
      (h : Handle W) (r : Request) (ps : Params) (x : Exchange W) (rid : String) (now : Time)
      → x.stats.called < 2 ^ 64
      → (r' : Request) × (y : Exchange W) × (requests_counter api h r ps x ≡ h r' ps y)
        × ((report api rid now y).called ≡ x.stats.called)
  unfolding requests_counter report
  report-requests_counter h r ps x rid now room = (_, _, refl, omega arith)

  -- `GetStatistics` under `RequestsCounterMiddleware`, on a response that takes writes, sends one
  -- report: its numbers are those from before its own request, also where the counter wraps around, and
  -- it shows whether the maintenance mode is on.
  pub get_statistics_sent :
      (r : Request) (ps : Params) (x : Exchange W) (w : BaseWriter)
      → x.stats.called < 2 ^ 64
      → x.writer ≡ plain w
      → w.broken ≡ none
      → (s : Report) × ((base_of
            (requests_counter api (get_statistics api) r ps x).1.writer).written
          ≡ w.written ++ statistics s ∷ [])
        × (s.called ≡ x.stats.called)
        × (s.status ≡ x.stats.status)
        × (s.enabled ≡ x.mode.enabled)
  unfolding requests_counter get_statistics report
  get_statistics_sent r ps x w room e whole =
      let ctx = r.context in
      let called = (x.stats.called + 1) % 2 ^ 64 in
      let rid = get_request_id (record ctx { request_number = some called }) in
      let stats = x.stats in
      let y : Exchange W = record x { stats = record stats { called = called } } in
      (
        report api rid (api.clock.now x.world).0 y,
        rw e (encode_written api.size _ _ whole),
        omega arith,
        refl,
        refl,
      )
