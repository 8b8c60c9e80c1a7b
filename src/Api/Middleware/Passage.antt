-- ===== src/Api/Middleware/Passage.antt =====
-- The way of a request through the public stack of api.middlewares.go to its handler, and of the
-- response back.
use demo_redis.Prelude.{ℕ, ◌+◌, ◌%◌, ◌^◌, ◌≡◌, refl, sym, ap, ◌∙◌, false, Option, none, some}
use demo_redis.Context.{LogFields, get_request_id, get_request_number}
use demo_redis.Ids.{request_id_prefix}
use demo_redis.Book.{Error}
use mathlib.Core.Path.{subst}
use demo_redis.Response.{custom, new_custom_writer, base_of, is_aborted, BaseWriter, plain}
use demo_redis.Api.{ApiHandler, Request, Params, Exchange, Outcome, returned, Handle, with_context}
use demo_redis.Api.Reply.{IsFresh}
use demo_redis.Api.Middleware.{
  chain, cors, stats_middleware, add_logger, requests_counter, request_id, maintenance_mode,
  timeout_middleware, panic_recovery, middlewares_public, middlewares_ops,
}
use demo_redis.Api.Middleware.Chain.{chain-eq-nest}
use demo_redis.Api.Middleware.Stack.{
  wrapped, finished, stats-returned, limited, aborted_if, raced, timeout-raced,
  in_goroutine-returned,
}
use demo_redis.Api.Middleware.Maintenance.{request_id-off, identified, drawn, recovered}

module _ {W : Type 0} (api : ApiHandler W) where
  -- the request's number, and its logger
  abbrev numbered : ℕ → Request → Request
  numbered n r = let ctx = r.context in with_context (record ctx { request_number = some n }) r

  abbrev logged : Request → Request
  logged r =
      let ctx = r.context in
      let logger : LogFields = record {
        request_id = get_request_id ctx;
        number = get_request_number ctx;
        method = r.method;
        path = r.path;
        agent = r.agent;
        referer = r.referer;
      } in
      with_context (record ctx { logger = some logger }) r

  abbrev next_number : Exchange W → ℕ
  next_number x = (x.stats.called + 1) % 2 ^ 64

  abbrev counted : Exchange W → Exchange W
  counted x = let s = x.stats in record x { stats = record s { called = next_number x } }

  -- the response with the headers of `CORSMiddleware`
  abbrev allowed : Request → Params → Exchange W → Exchange W
  allowed r ps x = (cors (λ _ _ y. (returned, y)) r ps x).1

  pub before_timeout :
      (h : Handle W) (r : Request) (ps : Params) (x : Exchange W)
      → requests_counter api (add_logger api (cors h)) r ps x
        ≡ h (logged (numbered (next_number x) r)) ps (allowed r ps (counted x))
  unfolding requests_counter add_logger cors
  before_timeout h r ps x = refl

  pub request_id-identified :
      (k : Handle W) (r : Request) (ps : Params) (x : Exchange W)
      → request_id api k r ps x ≡ k (identified api r x) ps (drawn api x)
  unfolding request_id
  request_id-identified k r ps x = refl

  -- the request as it reaches `TimeoutMiddleware`, and the state there
  abbrev pub held : Request → Exchange W → Request
  held r x = logged (numbered (next_number x) (identified api r x))

  abbrev pub holding : Request → Params → Exchange W → Exchange W
  holding r ps x = allowed (identified api r x) ps (counted (drawn api x))

  -- the request that the handler is given, and the state in which it is called
  abbrev pub entered : Request → Exchange W → Request
  entered r x = limited api (held r x)

  abbrev pub entry : ℕ → Request → Params → Exchange W → Exchange W
  entry c r ps x = wrapped api c (raced api (held r x) (holding r ps x))

  module _ (h : Handle W) (r : Request) (ps : Params) (x : Exchange W) (c : ℕ)
      (conn : r.context.conn ≡ some c)
      (answered : (h (entered r x) ps (entry c r ps x)).0 ≡ returned) where
    -- what the client gets, and what is left behind
    abbrev pub left : Outcome × Exchange W
    left = (returned, finished api (h (entered r x) ps (entry c r ps x)).1)

    abbrev timed : Handle W
    timed = timeout_middleware api (stats_middleware api h)

    in_time : timed (held r x) ps (holding r ps x) ≡ left
    in_time =
        let counted_by =
          stats-returned api h (entered r x) ps (raced api (held r x) (holding r ps x)) c conn
            answered in
        timeout-raced api (stats_middleware api h) (held r x) ps (holding r ps x)
        ∙ in_goroutine-returned api (stats_middleware api h (entered r x) ps)
            (raced api (held r x) (holding r ps x))
            (ap (λ (o : Outcome × Exchange W). o.0) counted_by)
        ∙ counted_by

    -- the middlewares that both stacks have
    abbrev inner : Handle W
    inner = requests_counter api (add_logger api (cors timed))

    identified-left : request_id api inner r ps x ≡ left
    identified-left =
        request_id-identified inner r ps x
        ∙ before_timeout timed (identified api r x) ps (drawn api x)
        ∙ in_time

    from_recovery : (k : Handle W) → k r ps x ≡ left → panic_recovery api k r ps x ≡ left
    from_recovery k body =
        recovered api k r ps x (ap (λ (o : Outcome × Exchange W). o.0) body) ∙ body

    -- Where the handler returns, a request that came over a connection goes through the ops stack as if
    -- its handler were called with the request that the middlewares make, in the state that they leave,
    -- and its status counted.
    pub chain_ops-entered : chain (middlewares_ops api) h r ps x ≡ left
    chain_ops-entered =
        ap (λ (k : Handle W). k r ps x) (chain-eq-nest (middlewares_ops api) h)
        ∙ from_recovery (request_id api inner) identified-left

    -- So it does through the public stack, while the maintenance mode is off.
    pub chain_public-entered :
        x.mode.enabled ≡ false → chain (middlewares_public api) h r ps x ≡ left
    chain_public-entered off =
        ap (λ (k : Handle W). k r ps x) (chain-eq-nest (middlewares_public api) h)
        ∙ from_recovery (request_id api (maintenance_mode api inner))
            (request_id-off api inner r ps x off ∙ identified-left)

  raced-in_time :
      (r : Request) (x : Exchange W)
      → (api.expires (limited api r).context x.world).0 ≡ none
      → raced api r x ≡ record x { world = (api.expires (limited api r).context x.world).1 }
  raced-in_time r x e =
      ap
        (λ (o : Option Error).
          aborted_if api r o (record x { world = (api.expires (limited api r).context x.world).1 }))
        e

  allowed-IsFresh :
      (r : Request) (ps : Params) (x : Exchange W) (c : ℕ) (w : BaseWriter)
      → x.writer ≡ plain w
      → w.sent ≡ none
      → is_aborted w ≡ false
      → IsFresh (custom (new_custom_writer (base_of (allowed r ps x).writer) c))
  unfolding cors new_custom_writer
  allowed-IsFresh r ps x c w e unsent whole = rw e (unsent, refl, whole)

  -- The middlewares leave a new response fresh for the handler, if its deadline has not passed.
  pub entry-IsFresh :
      (r : Request) (ps : Params) (x : Exchange W) (c : ℕ) (w : BaseWriter)
      → x.writer ≡ plain w
      → w.sent ≡ none
      → is_aborted w ≡ false
      → (api.expires (entered r x).context (holding r ps x).world).0 ≡ none
      → IsFresh (entry c r ps x).writer
  entry-IsFresh r ps x c w e unsent whole in_time =
      subst (λ (y : Exchange W). IsFresh (custom (new_custom_writer (base_of y.writer) c)))
        (sym (raced-in_time (held r x) (holding r ps x) in_time))
        (allowed-IsFresh (identified api r x) ps (counted (drawn api x)) c w e unsent whole)

  -- The world that the handler is called in: the request's id was drawn, the deadline was looked at and
  -- the clock was asked.
  pub entry-world :
      (r : Request) (ps : Params) (x : Exchange W) (c : ℕ)
      → (api.expires (entered r x).context (holding r ps x).world).0 ≡ none
      → (entry c r ps x).world
        ≡ (api.clock.now
            (api.expires
              (entered r x).context
              (api.ids_handler.generate request_id_prefix x.world).1).1).1
  unfolding cors
  entry-world r ps x c in_time =
      ap (λ (y : Exchange W). (api.clock.now y.world).1)
        (raced-in_time (held r x) (holding r ps x) in_time)
