-- ===== src/Api/Middleware/Maintenance.antt =====
-- The maintenance mode in the public stack of api.middlewares.go.
use demo_redis.Prelude.{◌≡◌, sym, ap, ◌∙◌, true, false, none, some, [], ◌∷◌, arith}
use demo_redis.Ids.{request_id_prefix}
use demo_redis.Response.{plain, BaseWriter, base_of}
use demo_redis.Api.{ApiHandler, Request, Params, Exchange, returned, Handle, with_context}
use demo_redis.Api.Ops.{maintenance}
use demo_redis.Api.Middleware.{
  chain, maintenance_mode, request_id, panic_recovery, middlewares_public, middlewares_ops,
}
use demo_redis.Api.Middleware.Chain.{chain-eq-nest}

module _ {W : Type 0} (api : ApiHandler W) where
  maintenance-off :
      (n : Handle W) (r : Request) (ps : Params) (x : Exchange W)
      → x.mode.enabled ≡ false
      → maintenance_mode api n r ps x ≡ n r ps x
  unfolding maintenance_mode
  maintenance-off n r ps x off = ground arith

  pub request_id-off :
      (n : Handle W) (r : Request) (ps : Params) (x : Exchange W)
      → x.mode.enabled ≡ false
      → request_id api (maintenance_mode api n) r ps x ≡ request_id api n r ps x
  unfolding request_id
  request_id-off n r ps x off = maintenance-off n _ ps _ off

  -- Panic recovery depends on what the next handler does with this request alone.
  panic_recovery-cong :
      (k k' : Handle W) (r : Request) (ps : Params) (x : Exchange W)
      → k r ps x ≡ k' r ps x
      → panic_recovery api k r ps x ≡ panic_recovery api k' r ps x
  unfolding panic_recovery
  panic_recovery-cong k k' r ps x e = λ i. panic_recovery api (λ _ _ _. e i) r ps x

  -- While the maintenance mode is off, the public stack does what the ops stack does.
  pub chain_public-eq-chain_ops :
      (h : Handle W) (r : Request) (ps : Params) (x : Exchange W)
      → x.mode.enabled ≡ false
      → chain (middlewares_public api) h r ps x ≡ chain (middlewares_ops api) h r ps x
  chain_public-eq-chain_ops h r ps x off =
      ap (λ (k : Handle W). k r ps x) (chain-eq-nest (middlewares_public api) h)
      ∙ panic_recovery-cong _ _ r ps x (request_id-off _ r ps x off)
      ∙ sym (ap (λ (k : Handle W). k r ps x) (chain-eq-nest (middlewares_ops api) h))

  abbrev show_params : Params
  show_params = ("status", "show") ∷ []

  abbrev pub identified : Request → Exchange W → Request
  identified r x =
      let ctx = r.context in
      let id = (api.ids_handler.generate request_id_prefix x.world).0 in
      with_context (record ctx { request_id = some id }) r

  abbrev pub drawn : Exchange W → Exchange W
  drawn x = record x { world = (api.ids_handler.generate request_id_prefix x.world).1 }

  request_id-on :
      (n : Handle W) (r : Request) (ps : Params) (x : Exchange W)
      → x.mode.enabled ≡ true
      → request_id api (maintenance_mode api n) r ps x
        ≡ maintenance api (identified r x) show_params (drawn x)
  unfolding request_id maintenance_mode
  request_id-on n r ps x on = ground arith

  pub recovered :
      (k : Handle W) (r : Request) (ps : Params) (x : Exchange W)
      → (k r ps x).0 ≡ returned
      → panic_recovery api k r ps x ≡ k r ps x
  unfolding panic_recovery
  recovered k r ps x e = ground arith

  maintenance-show :
      (r : Request) (x : Exchange W) (w : BaseWriter)
      → x.writer ≡ plain w
      → w.sent ≡ none
      → w.broken ≡ none
      → ((maintenance api r show_params x).0 ≡ returned)
        × ((maintenance api r show_params x).1.stats ≡ x.stats)
        × ((maintenance api r show_params x).1.mode ≡ x.mode)
        × ((maintenance api r show_params x).1.world ≡ x.world)
        × ((base_of (maintenance api r show_params x).1.writer).sent ≡ some 503)
  unfolding maintenance
  maintenance-show r x w e unsent whole = ground arith

  -- While the maintenance mode is on, a request through the public stack that nothing was sent to and
  -- that takes writes reaches no handler: whatever the handler is, the answer is a 503, and nothing but
  -- the drawing of the request's id happens to the world, to the statistics or to the mode.
  pub maintenance_blocks :
      (h : Handle W) (r : Request) (ps : Params) (x : Exchange W) (w : BaseWriter)
      → x.mode.enabled ≡ true
      → x.writer ≡ plain w
      → w.sent ≡ none
      → w.broken ≡ none
      → ((chain (middlewares_public api) h r ps x).0 ≡ returned)
        × ((chain (middlewares_public api) h r ps x).1.stats ≡ x.stats)
        × ((chain (middlewares_public api) h r ps x).1.mode ≡ x.mode)
        × ((chain (middlewares_public api) h r ps x).1.world
            ≡ (api.ids_handler.generate request_id_prefix x.world).1)
        × ((base_of (chain (middlewares_public api) h r ps x).1.writer).sent ≡ some 503)
  maintenance_blocks h r ps x w on e unsent open_still =
      let shown = maintenance-show (identified r x) (drawn x) w e unsent open_still in
      let whole =
        ap (λ (k : Handle W). k r ps x) (chain-eq-nest (middlewares_public api) h)
        ∙ panic_recovery-cong _ (λ _ _ _. maintenance api (identified r x) show_params (drawn x)) r
            ps x (request_id-on _ r ps x on)
        ∙ recovered _ r ps x shown.0 in
      rw whole shown
