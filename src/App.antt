-- ===== src/App.antt =====
-- app.server.go: the application's run. The error group and the HTTP server are parameters; `Run`
-- is a relation of steps, one for each thing that a goroutine of the group or the environment does next.
pub mod Clean
pub mod Run
pub mod Connect
pub mod New
pub mod Main
use demo_redis.Prelude.{
  ℕ, zero, suc, ◌+◌, String, Bool, true, false, ◌≡◌, ◌≢◌, ◌⊎◌, if◌then◌else◌, Option, none, some,
  List, [], ◌∷◌, length, Action, pure, ◌>>=◌, ◌>>◌,
}
use demo_redis.Book.{Error, server_closed}

-- An error as `errors.Join` nests them.
pub data AppError : Type 0 where
  of : Error → AppError
  only : AppError → AppError
  both : AppError → AppError → AppError

-- `errors.Join` of two errors: nil errors are dropped.
abbrev pub join : Option AppError → Option AppError → Option AppError
join none none = none
join none (some e) = some (only e)
join (some e) none = some (only e)
join (some e) (some e') = some (both e e')

abbrev pub app_error : Option Error → Option AppError
app_error none = none
app_error (some e) = some (of e)

module _ {W : Type 0} where
  -- the loop of `App.Clean`
  unfoldable pub clean_from :
      List (Action W (Option Error)) → Option AppError → Action W (Option AppError)
  clean_from [] errs = pure errs
  clean_from (f ∷ fs) errs = do ferr ← f; clean_from fs (join errs (app_error ferr))

  -- `App.Clean`
  unfoldable pub clean : List (Action W (Option Error)) → Action W (Option AppError)
  clean cleanups = clean_from cleanups none

  -- `App.Run` from the return of `g.Wait` on
  unfoldable pub finish_run :
      List (Action W (Option Error)) → Option Error → Action W (Option AppError)
  finish_run cleanups err = do errs ← clean cleanups; pure (join (app_error err) errs)

-- `err == http.ErrServerClosed`
abbrev pub is_server_closed : Option Error → Bool
is_server_closed (some server_closed) = true
is_server_closed _ = false

-- `App.Serve`, given what `ListenAndServe` returns
unfoldable pub serve : Option Error → Option Error
serve err = if is_server_closed err then none else err

-- What `App.Stop` calls: `Shutdown` with a timeout, and `Close` of the server and of the redis client.
pub record Servers (W : Type 0) : Type 0 where
  pub shutdown : ℕ → Action W (Option Error)
  pub close : Action W (Option Error)
  pub close_redis : Action W (Option Error)
  -- whether in a state `ListenAndServe` returns `ErrServerClosed`, and a `Pop` that waits an error
  pub listen_ends : W → Bool
  pub pops_end : W → Bool

-- the server's forced end, unless the graceful one succeeded
abbrev pub needs_force : Option Error → Bool
needs_force none = false
needs_force (some server_closed) = false
needs_force (some _) = true

-- The documentation of net/http: `Shutdown`, where it succeeds, and `Close` have ended `ListenAndServe`.
-- The redis client's: once it is closed its calls fail, those that wait as well. The two are apart.
pub record ServersLaws {W : Type 0} (servers : Servers W) : Type 0 where
  pub shutdown_ends :
      (t : ℕ) (w : W)
      → needs_force (servers.shutdown t w).0 ≡ false
      → servers.listen_ends (servers.shutdown t w).1 ≡ true
  pub close_ends : (w : W) → servers.listen_ends (servers.close w).1 ≡ true
  pub close_redis_ends :
      (w : W) → (servers.close_redis w).0 ≡ none → servers.pops_end (servers.close_redis w).1 ≡ true
  pub close_redis_apart :
      (w : W) → servers.listen_ends (servers.close_redis w).1 ≡ servers.listen_ends w

module _ {W : Type 0} (servers : Servers W) (shutdown_timeout : ℕ) where
  -- `App.Stop` once the group's context is done
  unfoldable pub stop : Action W (Option Error)
  stop = do
    err ← servers.shutdown shutdown_timeout
    elim (needs_force err) [
      | true ↦ do servers.close; servers.close_redis; pure none
      | false ↦ do servers.close_redis; pure none
    ]

-- `errgroup.Group` with its context: what the return of a goroutine and the end of the parent context
-- do to it, the error that `Wait` returns, and whether the context is done.
pub record ErrGroup (G : Type 0) : Type 0 where
  pub returned : Option Error → G → G
  pub parent_done : G → G
  pub wait_error : G → Option Error
  pub is_done : G → Bool

-- The documentation of errgroup: the first error that is not nil ends the context and is what `Wait`
-- returns; the context also ends with its parent.
pub record ErrGroupLaws {G : Type 0} (eg : ErrGroup G) : Type 0 where
  pub returned_nil :
      (g : G)
      → (eg.wait_error (eg.returned none g) ≡ eg.wait_error g)
        × (eg.is_done (eg.returned none g) ≡ eg.is_done g)
  pub returned_error : (e : Error) (g : G) → eg.is_done (eg.returned (some e) g) ≡ true
  pub returned_first :
      (e : Error) (g : G) → eg.wait_error g ≡ none → eg.wait_error (eg.returned (some e) g) ≡ some e
  pub returned_later :
      (e e' : Error) (g : G)
      → eg.wait_error g ≡ some e
      → eg.wait_error (eg.returned (some e') g) ≡ some e
  pub parent_ends :
      (g : G)
      → (eg.wait_error (eg.parent_done g) ≡ eg.wait_error g)
        × (eg.is_done (eg.parent_done g) ≡ true)

-- How far the goroutine of `Stop` is.
pub data Stopping : Type 0 where
  waiting shutting stopped : Stopping

-- The state of `Run`: the group, the state outside, whether a signal came, whether `ConsumeQueues` has
-- still to start the consumers, how many of them run, whether `Serve` runs, and `Stop`.
pub record Running (G W : Type 0) : Type 0 where
  pub group : G
  pub world : W
  pub signalled : Bool
  pub consuming : Bool
  pub consumers : ℕ
  pub serving : Bool
  pub stopping : Stopping

-- `App.Run` when the three goroutines are started
abbrev pub started : {G W : Type 0} → G → W → Running G W
started g w = record {
  group = g;
  world = w;
  signalled = false;
  consuming = true;
  consumers = 0;
  serving = true;
  stopping = waiting;
}

-- A goroutine of the group returns.
abbrev pub returns : {G W : Type 0} → ErrGroup G → Option Error → Running G W → Running G W
returns eg err s = record s { group = eg.returned err s.group }

module _ {G W : Type 0} (eg : ErrGroup G) (servers : Servers W)
    (shutdown_timeout queue_consumers : ℕ) where
  pub data Step (s : Running G W) : Running G W → Type 0 where
    -- the first SIGINT or SIGTERM
    signal :
        s.signalled ≡ false → Step s (record s { signalled = true; group = eg.parent_done s.group })
    -- `ConsumeQueues`
    consumers_start :
        s.consuming ≡ true
        → Step s (
            returns eg none
              (record s { consuming = false; consumers = s.consumers + queue_consumers }))
    -- a consumer's `Consume`, which returns nil, and only when its `Pop` returns an error and its
    -- context is done
    consumer_exits :
        (n : ℕ)
        → s.consumers ≡ suc n
        → eg.is_done s.group ≡ true
        → servers.pops_end s.world ≡ true
        → Step s (returns eg none (record s { consumers = n }))
    -- `ListenAndServe` returns `ErrServerClosed` while `Stop` makes its calls, or after, if they
    -- ended it
    listen_closes :
        s.serving ≡ true
        → (s.stopping ≡ shutting) ⊎ (s.stopping ≡ stopped) × (servers.listen_ends s.world ≡ true)
        → Step s (returns eg (serve (some server_closed)) (record s { serving = false }))
    -- and it always returns an error
    listen_fails :
        (e : Error)
        → s.serving ≡ true
        → e ≢ server_closed
        → Step s (returns eg (serve (some e)) (record s { serving = false }))
    stop_begins :
        s.stopping ≡ waiting → eg.is_done s.group ≡ true → Step s (record s { stopping = shutting })
    stop_ends :
        s.stopping ≡ shutting
        → Step s (
            let (err, w) = stop servers shutdown_timeout s.world in
            returns eg err (record s { stopping = stopped; world = w }))

  -- The steps of a run, the number of them first.
  pub data Steps (s : Running G W) : ℕ → Running G W → Type 0 where
    start : Steps s 0 s
    step : (n : ℕ) (t u : Running G W) → Steps s n t → Step t u → Steps s (suc n) u

  -- `g.Wait` returns when no goroutine of the group runs.
  abbrev pub IsFinished : Running G W → Type 0
  IsFinished s =
      (s.consuming ≡ false) × (s.consumers ≡ 0) × (s.serving ≡ false) × (s.stopping ≡ stopped)
