-- ===== src/Tests/Apps.antt =====
-- A run of the application on a concrete error group and servers, and a configuration from memory.
use demo_redis.Prelude.{
  ℕ, ◌+◌, ◌≤◌, String, Bool, true, false, ◌≡◌, ◌≢◌, ◌⊎◌, inl, ◌==◌, ◌||◌, if◌then◌else◌, refl,
  Option, none, some, List, [], ◌∷◌,
}
use demo_redis.Book.{Error, server_closed, deadline_exceeded}
use demo_redis.App.{
  AppError, ErrGroup, ErrGroupLaws, Servers, ServersLaws, Running, started, Step, signal,
  consumers_start, consumer_exits, listen_closes, stop_begins, stop_ends, Steps, start, step,
  IsFinished, finish_run, waiting, shutting, stopped,
}
use demo_redis.App.Run.{run_outcome}
use demo_redis.App.Run.Ends.{run_ends}
use demo_redis.Config.{
  Config, Sources, init_config, load_and_init_configs, load_config_file, load_config_envs,
  set_build, check_addresses,
}
use demo_redis.Tests.Requests.{config}
use demo_redis.Config.Laws.{HasAddresses, Prefers, load_and_init_configs-HasAddresses}

-- The group keeps its first error, and whether its context is done.
abbrev after : Option Error → Option Error × Bool → Option Error × Bool
after none g = g
after (some e) (none, done) = (some e, true)
after (some e) (some e', done) = (some e', true)

abbrev group : ErrGroup (Option Error × Bool)
group = record {
  returned = after;
  parent_done = λ g. (g.0, true);
  wait_error = λ g. g.0;
  is_done = λ g. g.1;
}

error_ends : (e : Error) (g : Option Error × Bool) → (after (some e) g).1 ≡ true
error_ends e (none, done) = refl
error_ends e (some e', done) = refl

first_kept : (e : Error) (g : Option Error × Bool) → g.0 ≡ none → (after (some e) g).0 ≡ some e
first_kept e (none, done) q = refl
first_kept e (some e', done) q = cc

later_dropped :
    (e e' : Error) (g : Option Error × Bool) → g.0 ≡ some e → (after (some e') g).0 ≡ some e
later_dropped e e' (none, done) q = cc
later_dropped e e' (some e2, done) q = q

group-laws : ErrGroupLaws group
group-laws = record {
  returned_nil = λ g. (refl, refl);
  returned_error = error_ends;
  returned_first = first_kept;
  returned_later = later_dropped;
  parent_ends = λ g. (refl, refl);
}

-- The servers note the calls. The graceful shutdown is too slow.
abbrev was_stopped : List String → Bool
was_stopped [] = false
was_stopped (call ∷ calls) =
    if call == "redis" then was_stopped calls else (call == "close") || was_stopped calls

abbrev redis_closed : List String → Bool
redis_closed [] = false
redis_closed (call ∷ _) = call == "redis"

abbrev servers : Servers (List String)
servers = record {
  shutdown = λ t w. (some deadline_exceeded, "shutdown" ∷ w);
  close = λ w. (none, "close" ∷ w);
  close_redis = λ w. (none, "redis" ∷ w);
  listen_ends = was_stopped;
  pops_end = redis_closed;
}

servers-laws : ServersLaws servers
servers-laws = record {
  shutdown_ends = λ t w e. cc;
  close_ends = λ w. refl;
  close_redis_ends = λ w e. refl;
  close_redis_apart = λ w. refl;
}

abbrev begun : Running (Option Error × Bool) (List String)
begun = started (none, false) []

abbrev ended : Running (Option Error × Bool) (List String)
ended = record {
  group = (none, true);
  world = "redis" ∷ "close" ∷ "shutdown" ∷ [];
  signalled = true;
  consuming = false;
  consumers = 0;
  serving = false;
  stopping = stopped;
}

-- A signal ends a run with one consumer.
signalled_run : Steps group servers 30 1 begun 6 ended
unfolding demo_redis.App.stop demo_redis.App.serve
signalled_run =
    step 5 _ _
      (step 4 _ _
        (step 3 _ _
          (step 2 _ _ (step 1 _ _ (step 0 _ _ start (consumers_start refl)) (signal refl))
            (stop_begins refl refl))
          (listen_closes refl (inl refl)))
        (stop_ends refl))
      (consumer_exits 0 refl refl refl)

run_ends_example :
    (6 ≤ 5 + 1)
    × (group.is_done ended.group ≡ true
        → IsFinished group servers 30 1 ended
          ⊎ (t : Running (Option Error × Bool) (List String)) × Step group servers 30 1 ended t
            × (t.signalled ≡ ended.signalled))
run_ends_example =
    run_ends group servers servers-laws 30 1 (λ w. refl) (none, false) [] 6 ended signalled_run

run_outcome_example :
    (group.is_done ended.group ≡ true)
    × (group.wait_error ended.group ≡ none → ended.signalled ≡ true)
    × ((e : Error) → group.wait_error ended.group ≡ some e → e ≢ server_closed)
run_outcome_example =
    run_outcome group group-laws servers 30 1 (none, false) [] 6 ended refl refl signalled_run
      (refl, refl, refl, refl)

-- The file has no port, which the environment gives.
abbrev pub sources : {W : Type 0} → Sources String ℕ (Unit {0}) W
sources = record {
  open_file = λ path w. ((tt, none), w);
  close = λ f w. (tt, w);
  decode = λ f w. ((config "", none), w);
  load_env = λ path w. (none, w);
  process = λ prefix c w. ((config "8080", none), w);
}

load_and_init_configs-HasAddresses_example :
    let ((loaded, err), _) = load_and_init_configs sources "abc" "" "" tt in
    (file before c : Config String ℕ) × (v : Unit {0}) × ((sources.process "DRAP" file v).0
      ≡ (before, none))
    × (loaded ≡ some c)
    × HasAddresses c
    × Prefers "abc" before.git_commit c.git_commit
    × Prefers "" before.git_tag c.git_tag
    × Prefers "" before.build_time c.build_time
unfolding load_and_init_configs load_config_file load_config_envs init_config set_build
    check_addresses
load_and_init_configs-HasAddresses_example =
    load_and_init_configs-HasAddresses sources "abc" "" "" tt refl
