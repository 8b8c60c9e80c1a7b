-- ===== src/Api/Ops/Crashing.antt =====
-- How `Maintenance` of api.handlers.ops.go ends on its route, under the ops stack of
-- api.middlewares.go.
use demo_redis.Prelude.{
  ℕ, String, Bool-cases, true, false, ◌≡◌, ◌≢◌, ◌==◌, refl, sym, ap, ◌∙◌, ◌⊎◌, inl, inr, none, some,
  some-ne-none, Option-cases, String-cases, [], arith,
}
use demo_redis.Book.{Error}
use demo_redis.Response.{
  BaseWriter, CustomWriter, custom, is_aborted, base_of, custom_write, custom_write_header,
}
use demo_redis.Api.{returned, panicked, crashed, ApiHandler, Request, by_name, Exchange, Outcome}
use demo_redis.Api.Ops.{switch_mode, maintenance}
use demo_redis.Api.Middleware.{chain, middlewares_ops}
use demo_redis.Api.Middleware.Passage.{entered, entry, chain_ops-entered}
use demo_redis.Api.Middleware.Panics.{chain_ops-crashed}

abbrev pub asked : Request → String
asked r = by_name "status" r.query

-- A write of the handler fails: the connection is gone, or the timeout's answer was sent before.
abbrev pub Fails : BaseWriter → Type 0
Fails w = (w.broken ≢ none) ⊎ (is_aborted w ≡ true)

abbrev pub Works : BaseWriter → Type 0
Works w = (w.broken ≡ none) × (is_aborted w ≡ false)

Works-cases : (w : BaseWriter) → Works w ⊎ Fails w
Works-cases w = elim (Option-cases w.broken) [
  | inr (e, gone) ↦ inr (inl (λ q. some-ne-none (sym gone ∙ q)))
  | inl whole ↦ elim (Bool-cases (is_aborted w)) [ inl h ↦ inr (inr h) | inr on ↦ inl (whole, on) ]
]

module _ {W : Type 0} (api : ApiHandler W) where
  maintenance-whole :
      (r : Request) (x : Exchange W) (cw : CustomWriter)
      → x.writer ≡ custom cw
      → Works cw.base
      → (maintenance api r [] x).0 ≡ returned
  unfolding maintenance switch_mode custom_write custom_write_header
  maintenance-whole r x cw e (whole, on) = ground arith

  maintenance-enabled :
      (r : Request) (x : Exchange W)
      → (asked r == "enable") ≡ true
      → (maintenance api r [] x).0 ≡ returned
  unfolding maintenance switch_mode
  maintenance-enabled r x is = ground arith

  maintenance-disabled :
      (r : Request) (x : Exchange W)
      → (asked r == "enable") ≡ false
      → (asked r == "disable") ≡ true
      → (maintenance api r [] x).0 ≡ returned
  unfolding maintenance switch_mode
  maintenance-disabled r x not_enable is = ground arith

  maintenance-aborted :
      (r : Request) (x : Exchange W) (cw : CustomWriter)
      → x.writer ≡ custom cw
      → is_aborted cw.base ≡ true
      → (asked r == "enable") ≡ false
      → (asked r == "disable") ≡ false
      → (maintenance api r [] x).0 ≡ api.nil_logger_error
  unfolding maintenance switch_mode custom_write custom_write_header
  maintenance-aborted r x cw e h not_enable not_disable = ground arith

  maintenance-broken :
      (r : Request) (x : Exchange W) (cw : CustomWriter) (err : Error)
      → x.writer ≡ custom cw
      → cw.base.broken ≡ some err
      → is_aborted cw.base ≡ false
      → (asked r == "enable") ≡ false
      → (asked r == "disable") ≡ false
      → (maintenance api r [] x).0 ≡ api.nil_logger_error
  unfolding maintenance switch_mode custom_write custom_write_header
  maintenance-broken r x cw err e h on not_enable not_disable = ground arith

  -- The response as the stack hands it to the handler.
  abbrev pub handed : ℕ → Request → Exchange W → BaseWriter
  handed c r x = base_of (entry api c r [] x).writer

  failing :
      (r : Request) (x : Exchange W) (c : ℕ)
      → Fails (handed c r x)
      → (asked r == "enable") ≡ false
      → (asked r == "disable") ≡ false
      → (maintenance api (entered api r x) [] (entry api c r [] x)).0 ≡ api.nil_logger_error
  failing r x c fails not_enable not_disable = elim (Bool-cases (is_aborted (handed c r x))) [
    | inl h ↦
        maintenance-aborted (entered api r x) (entry api c r [] x) _ refl h not_enable not_disable
    | inr on ↦ elim (Option-cases (handed c r x).broken) [
      | inr (err, e) ↦
          maintenance-broken (entered api r x) (entry api c r [] x) _ err refl e on not_enable
            not_disable
      | inl whole ↦ elim fails [ inl gone ↦ elim (gone whole) [ ] | inr h ↦ cc ]
    ]
  ]

  -- `Maintenance` on its route, without path parameters, under the ops stack, for a request that came
  -- over a connection: it returns if the response, as the stack hands it to the handler, takes writes and
  -- is not marked as aborted, or if the request enables or disables the mode. Where the request shows the mode, or asks
  -- for anything else, and the connection is gone or the deadline or the client's end came first, the
  -- process ends, since the failed write is logged with a nil logger; a call on it is taken to panic.
  pub maintenance_outcome :
      (r : Request) (x : Exchange W) (c : ℕ) (v : String)
      → r.context.conn ≡ some c
      → api.nil_logger_error ≡ panicked v
      → (Works (handed c r x) ⊎ (asked r ≡ "enable") ⊎ (asked r ≡ "disable"))
          × ((chain (middlewares_ops api) (maintenance api) r [] x).0 ≡ returned)
        ⊎ Fails (handed c r x)
          × (asked r ≢ "enable")
          × (asked r ≢ "disable")
          × ((chain (middlewares_ops api) (maintenance api) r [] x).0 ≡ crashed)
  maintenance_outcome r x c v conn nil = elim (String-cases (asked r) "enable") [
    | inl (c', is) ↦ inl (inr (inl is), through (maintenance-enabled _ _ c'))
    | inr (c', not_enable) ↦ elim (String-cases (asked r) "disable") [
      | inl (c2, is) ↦ inl (inr (inr is), through (maintenance-disabled _ _ c' c2))
      | inr (c2, not_disable) ↦ elim (Works-cases (handed c r x)) [
        | inl works ↦ inl (inl works, through (maintenance-whole _ _ _ refl works))
        | inr fails ↦ inr (
          fails,
          not_enable,
          not_disable,
          chain_ops-crashed api (maintenance api) r [] x c v conn (failing r x c fails c' c2 ∙ nil),
        )
      ]
    ]
  ]
    where
      through :
          (maintenance api (entered api r x) [] (entry api c r [] x)).0 ≡ returned
          → (chain (middlewares_ops api) (maintenance api) r [] x).0 ≡ returned
      through e =
          ap (λ (o : Outcome × Exchange W). o.0)
            (chain_ops-entered api (maintenance api) r [] x c conn e)
