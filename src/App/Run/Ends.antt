-- ===== src/App/Run/Ends.antt =====
-- `Run` of app.server.go comes to its end: the calls of `Stop` release what waits for them.
use demo_redis.Prelude.{
  ℕ, zero, suc, ◌+◌, ◌≤◌, ◌<◌, Bool-cases, if◌then◌else◌, true, false, ◌≡◌, refl, ◌∙◌, ◌⊎◌, inl,
  inr, none, arith,
}
use demo_redis.App.{
  ErrGroup, Servers, ServersLaws, needs_force, stop, Stopping, waiting, shutting, stopped, Running,
  started, Step, signal, consumers_start, consumer_exits, listen_closes, listen_fails, stop_begins,
  stop_ends, Steps, start, step, IsFinished,
}

-- The steps of `Stop` that are left.
abbrev left : Stopping → ℕ
left waiting = 2
left shutting = 1
left stopped = 0

Stopping-cases : (s : Stopping) → (s ≡ waiting) ⊎ (s ≡ shutting) ⊎ (s ≡ stopped)
Stopping-cases waiting = inl refl
Stopping-cases shutting = inr (inl refl)
Stopping-cases stopped = inr (inr refl)

ℕ-cases : (n : ℕ) → (n ≡ 0) ⊎ ((m : ℕ) × (n ≡ suc m))
ℕ-cases zero = inl refl
ℕ-cases (suc m) = inr (m, refl)

module _ {G W : Type 0} (eg : ErrGroup G) (servers : Servers W)
    (shutdown_timeout queue_consumers : ℕ) where
  -- The steps that are left.
  abbrev measure : Running G W → ℕ
  measure s =
      (if s.signalled then 0 else 1)
      + (if s.consuming then suc queue_consumers else 0)
      + s.consumers
      + (if s.serving then 1 else 0)
      + left s.stopping

  Step-measure :
      (s t : Running G W)
      → Step eg servers shutdown_timeout queue_consumers s t
      → measure t < measure s
  Step-measure s t (signal e) = ground arith
  Step-measure s t (consumers_start e) = ground arith
  Step-measure s t (consumer_exits n e q pops) = ground arith
  Step-measure s t (listen_closes e q) = ground arith
  Step-measure s t (listen_fails e serving other) = ground arith
  Step-measure s t (stop_begins e q) = ground arith
  Step-measure s t (stop_ends e) = ground arith

  Steps-measure :
      (s t : Running G W) (n : ℕ)
      → Steps eg servers shutdown_timeout queue_consumers s n t
      → n + measure t ≤ measure s
  Steps-measure s t n start = ground arith
  Steps-measure s t n' (step n u t' before last) =
      let more = Steps-measure s u n before in let less = Step-measure u t' last in ground arith

module _ {G W : Type 0} (eg : ErrGroup G) (servers : Servers W) (ends : ServersLaws servers)
    (shutdown_timeout queue_consumers : ℕ)
    (closes : (w : W) → (servers.close_redis w).0 ≡ none) where
  -- What waits for the calls of `Stop` goes on after them.
  abbrev IsReleased : W → Type 0
  IsReleased w = (servers.listen_ends w ≡ true) × (servers.pops_end w ≡ true)

  close_redis-IsReleased :
      (w : W) → servers.listen_ends w ≡ true → IsReleased (servers.close_redis w).1
  close_redis-IsReleased w over =
      (ends.close_redis_apart w ∙ over, ends.close_redis_ends w (closes w))

  stop-forced :
      (w : W)
      → needs_force (servers.shutdown shutdown_timeout w).0 ≡ true
      → (stop servers shutdown_timeout w).1
        ≡ (servers.close_redis (servers.close (servers.shutdown shutdown_timeout w).1).1).1
  unfolding stop
  stop-forced w forced = ground arith

  stop-graceful :
      (w : W)
      → needs_force (servers.shutdown shutdown_timeout w).0 ≡ false
      → (stop servers shutdown_timeout w).1
        ≡ (servers.close_redis (servers.shutdown shutdown_timeout w).1).1
  unfolding stop
  stop-graceful w graceful = ground arith

  stop-IsReleased : (w : W) → IsReleased (stop servers shutdown_timeout w).1
  stop-IsReleased w = elim (Bool-cases (needs_force (servers.shutdown shutdown_timeout w).0)) [
    | inl forced ↦ rw (stop-forced w forced) (close_redis-IsReleased _ (ends.close_ends _))
    | inr graceful ↦
        rw (stop-graceful w graceful)
          (close_redis-IsReleased _ (ends.shutdown_ends shutdown_timeout w graceful))
  ]

  abbrev IsFreed : Running G W → Type 0
  IsFreed s = s.stopping ≡ stopped → IsReleased s.world

  Step-IsFreed :
      (s t : Running G W)
      → IsFreed s
      → Step eg servers shutdown_timeout queue_consumers s t
      → IsFreed t
  Step-IsFreed s t f (signal e) = f
  Step-IsFreed s t f (consumers_start e) = f
  Step-IsFreed s t f (consumer_exits n e q pops) = f
  Step-IsFreed s t f (listen_closes e q) = f
  Step-IsFreed s t f (listen_fails e serving other) = f
  Step-IsFreed s t f (stop_begins e q) = λ z. cc
  Step-IsFreed s t f (stop_ends e) = λ _. stop-IsReleased s.world

  Steps-IsFreed :
      (s t : Running G W) (n : ℕ)
      → IsFreed s
      → Steps eg servers shutdown_timeout queue_consumers s n t
      → IsFreed t
  Steps-IsFreed s t n f start = f
  Steps-IsFreed s t n' f (step n u t' before last) =
      Step-IsFreed u t' (Steps-IsFreed s u n f before) last

  abbrev CanGoOn : Running G W → Type 0
  CanGoOn s =
      (t : Running G W) × Step eg servers shutdown_timeout queue_consumers s t
      × (t.signalled ≡ s.signalled)

  progress :
      (s : Running G W)
      → IsFreed s
      → eg.is_done s.group ≡ true
      → IsFinished eg servers shutdown_timeout queue_consumers s ⊎ CanGoOn s
  progress s freed done = elim (Bool-cases s.consuming) [
    | inl starting ↦ inr (_, consumers_start starting, refl)
    | inr none_to_start ↦ elim (Stopping-cases s.stopping) [
      | inl waits ↦ inr (_, stop_begins waits done, refl)
      | inr (inl shuts) ↦ inr (_, stop_ends shuts, refl)
      | inr (inr over) ↦ elim (Bool-cases s.serving) [
        | inl serves ↦ inr (_, listen_closes serves (inr (over, (freed over).0)), refl)
        | inr served ↦ elim (ℕ-cases s.consumers) [
          | inr (n, more) ↦ inr (_, consumer_exits n more done (freed over).1, refl)
          | inl no_consumer ↦ inl (none_to_start, no_consumer, served, over)
        ]
      ]
    ]
  ]

  -- `Run` ends, if redis' client closes without an error: from its start no schedule has more than five
  -- steps and one for each consumer, and once the group's context is done some goroutine of it can go
  -- on, without a further signal, until all have returned, although a consumer waits in `Pop` and
  -- `Serve` in `ListenAndServe` until a call of `Stop` ends them.
  pub run_ends :
      (g : G) (w : W) (n : ℕ) (s : Running G W)
      → Steps eg servers shutdown_timeout queue_consumers (started g w) n s
      → (n ≤ 5 + queue_consumers)
        × (eg.is_done s.group ≡ true
            → IsFinished eg servers shutdown_timeout queue_consumers s
              ⊎ (t : Running G W) × Step eg servers shutdown_timeout queue_consumers s t
                × (t.signalled ≡ s.signalled))
  run_ends g w n s steps =
      let bound =
        Steps-measure eg servers shutdown_timeout queue_consumers (started g w) s n steps in
      (ground arith, progress s (Steps-IsFreed (started g w) s n (λ q. cc) steps))
