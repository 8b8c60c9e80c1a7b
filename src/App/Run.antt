-- ===== src/App/Run.antt =====
-- `Run` of app.server.go: why it ends, and with which error.
pub mod Ends
use demo_redis.Prelude.{
  ℕ, zero, suc, ◌+◌, ◌≤◌, ◌<◌, Bool-cases, if◌then◌else◌, true, false, ◌≡◌, ◌≢◌, refl, sym, ◌∙◌,
  ◌⊎◌, inl, inr, Option, none, some, Option-cases, some-ne-none, arith,
}
use demo_redis.Book.{Error, server_closed}
use demo_redis.App.{
  ErrGroup, ErrGroupLaws, Servers, ServersLaws, needs_force, serve, stop, Stopping, waiting,
  shutting, stopped, Running, started, returns, Step, signal, consumers_start, consumer_exits,
  listen_closes, listen_fails, stop_begins, stop_ends, Steps, start, step, IsFinished,
}

-- `Stop` reports no error to the group.
pub stop_nil : {W : Type 0} (servers : Servers W) (t : ℕ) (w : W) → (stop servers t w).0 ≡ none
unfolding stop
stop_nil servers t w = ground arith

serve_closed : serve (some server_closed) ≡ none
unfolding serve
serve_closed = refl

serve_other : (e : Error) → e ≢ server_closed → serve (some e) ≡ some e
unfolding serve
serve_other e other =
    elim e as (λ e. e ≢ server_closed → serve (some e) ≡ some e) [
      | server_closed ↦ λ other. elim (other refl) [ ]
      | _ ↦ λ other. refl
    ]
      other

after-waiting : (s : Stopping) → (s ≡ shutting) ⊎ (s ≡ stopped) → s ≢ waiting
after-waiting s (inl e) = λ q. cc
after-waiting s (inr e) = λ q. cc

module _ {G W : Type 0} (eg : ErrGroup G) (laws : ErrGroupLaws eg) (servers : Servers W)
    (shutdown_timeout queue_consumers : ℕ) where
  -- The group's context is done exactly when a signal came or `ListenAndServe` failed, `Stop` goes on
  -- only when it is done, and the group's error is that of a server that has returned.
  abbrev pub IsSound : Running G W → Type 0
  IsSound s =
      (s.signalled ≡ true → eg.is_done s.group ≡ true)
      × (eg.is_done s.group ≡ true → (s.signalled ≡ true) ⊎ (eg.wait_error s.group ≢ none))
      × (s.stopping ≢ waiting → eg.is_done s.group ≡ true)
      × ((e : Error) → eg.wait_error s.group ≡ some e → (e ≢ server_closed) × (s.serving ≡ false))

  nil_return-IsSound :
      (err : Option Error) (s : Running G W) → err ≡ none → IsSound s → IsSound (returns eg err s)
  nil_return-IsSound err s nil (a, b, c, d) =
      let (kept, same) = laws.returned_nil s.group in
      rw nil (
        (λ q. same ∙ a q),
        (λ q. elim (b (sym same ∙ q)) [ inl l ↦ inl l | inr r ↦ inr (λ z. r (sym kept ∙ z)) ]),
        (λ q. same ∙ c q),
        (λ e q. d e (sym kept ∙ q)),
      )

  error_returned :
      (e : Error) (g : G)
      → (e' : Error) × (eg.wait_error (eg.returned (some e) g) ≡ some e')
        × ((e' ≡ e) ⊎ (eg.wait_error g ≡ some e'))
  error_returned e g = elim (Option-cases (eg.wait_error g)) [
    | inl first ↦ (e, laws.returned_first e g first, inl refl)
    | inr (e', later) ↦ (e', laws.returned_later e' e g later, inr later)
  ]

  error_return-IsSound :
      (e : Error) (s : Running G W)
      → e ≢ server_closed
      → s.serving ≡ false
      → ((e' : Error) → eg.wait_error s.group ≡ some e' → e' ≢ server_closed)
      → IsSound (returns eg (some e) s)
  error_return-IsSound e s other ended before =
      let done = laws.returned_error e s.group in
      let (e', is, from) = error_returned e s.group in
      (
        (λ _. done),
        (λ _. inr (λ z. some-ne-none (sym is ∙ z))),
        (λ _. done),
        (λ e2 q.
            let same : e' ≡ e2 = ground arith in
            (
              elim from [
                | inl new ↦ (λ c. other (sym new ∙ same ∙ c))
                | inr old ↦ (λ c. before e' old (same ∙ c))
              ],
              ended,
            )),
      )

  Step-IsSound :
      (s t : Running G W)
      → IsSound s
      → Step eg servers shutdown_timeout queue_consumers s t
      → IsSound t
  Step-IsSound s t (a, b, c, d) (signal e) =
      let (kept, done) = laws.parent_ends s.group in
      ((λ _. done), (λ _. inl refl), (λ _. done), (λ e' q. d e' (sym kept ∙ q)))
  Step-IsSound s t (a, b, c, d) (consumers_start e) =
      nil_return-IsSound none
        (record s { consuming = false; consumers = s.consumers + queue_consumers }) refl
        (a, b, c, d)
  Step-IsSound s t (a, b, c, d) (consumer_exits n e q pops) =
      nil_return-IsSound none (record s { consumers = n }) refl (a, b, c, d)
  Step-IsSound s t (a, b, c, d) (listen_closes e q) =
      nil_return-IsSound _ (record s { serving = false }) serve_closed
        (a, b, c, λ e' q'. ((d e' q').0, refl))
  Step-IsSound s t (a, b, c, d) (listen_fails e serving other) =
      rw (serve_other e other)
        (error_return-IsSound e (record s { serving = false }) other refl (λ e' q. (d e' q).0))
  Step-IsSound s t (a, b, c, d) (stop_begins e q) = (a, b, (λ _. q), d)
  Step-IsSound s t (a, b, c, d) (stop_ends e) =
      nil_return-IsSound _
        (record s { stopping = stopped; world = (stop servers shutdown_timeout s.world).1 })
        (stop_nil servers shutdown_timeout s.world) (a, b, (λ _. c (λ z. cc)), d)

  Steps-IsSound :
      (s t : Running G W) (n : ℕ)
      → IsSound s
      → Steps eg servers shutdown_timeout queue_consumers s n t
      → IsSound t
  Steps-IsSound s t n sound start = sound
  Steps-IsSound s t n' sound (step n u t' before last) =
      Step-IsSound u t' (Steps-IsSound s u n sound before) last

  -- When the goroutines of `Run` have all returned, the group's context was done, which it is only by a
  -- signal or an error. The group has no error only if a signal came, and an error that it has is not
  -- that of a server that was closed.
  pub run_outcome :
      (g : G) (w : W) (n : ℕ) (s : Running G W)
      → eg.is_done g ≡ false
      → eg.wait_error g ≡ none
      → Steps eg servers shutdown_timeout queue_consumers (started g w) n s
      → IsFinished eg servers shutdown_timeout queue_consumers s
      → (eg.is_done s.group ≡ true)
        × (eg.wait_error s.group ≡ none → s.signalled ≡ true)
        × ((e : Error) → eg.wait_error s.group ≡ some e → e ≢ server_closed)
  run_outcome g w n s undone none_yet steps (_, _, _, over) =
      let (_, why, begun, err) =
        Steps-IsSound (started g w) s n
          ((λ q. cc), (λ q. inl (cc)), (λ q. elim (q refl) [ ]), (λ e q. cc)) steps in
      let done = begun (after-waiting s.stopping (inr over)) in
      (
        done,
        (λ ok. elim (why done) [ inl came ↦ came | inr bad ↦ elim (bad ok) [ ] ]),
        (λ e q. (err e q).0),
      )
