-- ===== src/Api/Middleware/InFlight.antt =====
-- Many requests at once, as far as api.middlewares.go counts them and `GetStatistics` of
-- api.handlers.ops.go shows the counts: the counter is raised when a request comes in, its status is
-- counted under the write lock when it ends, and a report is made under the read lock.
use demo_redis.Prelude.{
  ℕ, ◌+◌, ◌<◌, ◌≤◌, ◌%◌, ◌^◌, ◌≡◌, sym, List, [], ◌∷◌, ◌++◌, arith, length, All, All-map, All-drop,
}
use demo_redis.Api.{Statistics}
use demo_redis.Api.Middleware.{bump}
use demo_redis.Api.Middleware.Counting.{total, total-bump}
use demo_redis.Api.Middleware.Requests.{IsConsistent}
use demo_redis.Api.Ops.{shown_called}
use mathlib.Core.Path.{subst}

-- The counter and the map of the statistics; the requests that came since the start, and those of them
-- whose status was not counted yet; of these, those that hold the read lock: the ones that have not
-- read the counter yet, and the numbers that the others will show.
pub record Traffic : Type 0 where
  pub called : ℕ
  pub status : List (ℕ × ℕ)
  pub arrived : ℕ
  pub in_flight : ℕ
  pub entered : ℕ
  pub loaded : List ℕ

-- A request has come in, and a status is counted, which leaves so many requests in flight.
abbrev pub request_counted : Traffic → Traffic
request_counted x = record x {
  called = (x.called + 1) % 2 ^ 64;
  arrived = x.arrived + 1;
  in_flight = x.in_flight + 1;
}

abbrev pub status_counted : ℕ → ℕ → Traffic → Traffic
status_counted code n x = record x { status = bump code x.status; in_flight = n }

-- The read lock is taken, and the counter is read, which leaves so many readers that have not read it.
abbrev pub lock_read : Traffic → Traffic
lock_read x = record x { entered = x.entered + 1 }

abbrev pub count_loaded : ℕ → Traffic → Traffic
count_loaded n x = record x { entered = n; loaded = shown_called x.called ∷ x.loaded }

-- What one goroutine does while the others stand still.
pub data Turn (x : Traffic) : Traffic → Type 0 where
  -- `RequestsCounterMiddleware` raises the counter
  arrive : Turn x (request_counted x)
  -- `StatsMiddleware` counts a code under the write lock, which it gets once nobody reads
  count :
      (code n : ℕ)
      → x.entered ≡ 0
      → x.loaded ≡ []
      → x.in_flight ≡ n + 1
      → Turn x (status_counted code n x)
  -- `GetStatistics` takes the read lock
  enter : x.entered + length x.loaded < x.in_flight → Turn x (lock_read x)
  -- it reads the counter
  load : (n : ℕ) → x.entered ≡ n + 1 → Turn x (count_loaded n x)
  -- it has encoded the map, and gives the read lock back
  leave :
      (front back : List ℕ) (c : ℕ)
      → x.loaded ≡ front ++ c ∷ back
      → Turn x (record x { loaded = front ++ back })

pub data Turns (x : Traffic) : Traffic → Type 0 where
  start : Turns x x
  more : {y z : Traffic} → Turns x y → Turn y z → Turns x z

abbrev pub at_first : Statistics → Traffic
at_first s = record {
  called = s.called;
  status = s.status;
  arrived = 0;
  in_flight = 0;
  entered = 0;
  loaded = [];
}

-- A number between the statuses that are counted and the requests that came, the reader's own left out.
abbrev pub IsBetween : Traffic → ℕ → Type 0
IsBetween x c = (total x.status ≤ c) × (c < total x.status + x.in_flight)

length-drop :
    (front back : List ℕ) (c : ℕ) → length (front ++ c ∷ back) ≡ length (front ++ back) + 1
length-drop [] back c = omega arith
length-drop (b ∷ front) back c = omega (arith, length-drop front back c)

module _ (s : Statistics) where
  record Counted (x : Traffic) : Type 0 where
    all_came : x.called ≡ s.called + x.arrived
    all_counted : x.called ≡ total x.status + x.in_flight
    readers : x.entered + length x.loaded ≤ x.in_flight
    between : All (IsBetween x) x.loaded

  Turn-Counted :
      {x y : Traffic}
      → Turn x y
      → s.called + y.arrived < 2 ^ 64
      → (s.called + x.arrived < 2 ^ 64 → Counted x)
      → Counted y
  Turn-Counted {x} arrive room inv =
      let i = inv (omega (arith, room)) in
      let came = i.all_came in
      let all = i.all_counted in
      let readers = i.readers in
      record {
        all_came = omega (arith, room, came);
        all_counted = omega (arith, room, came, all);
        readers = omega (arith, readers);
        between = All-map (λ c h. (h.0, omega (arith, h.1))) x.loaded i.between;
      }
  Turn-Counted {x} (count code n none_entered none_loaded some_fly) room inv =
      let i = inv room in
      let came = i.all_came in
      let all = i.all_counted in
      let readers = i.readers in
      let up : total (bump code x.status) ≡ total x.status + 1 =
        total-bump code x.status (omega (arith, room, came, all, some_fly)) in
      record {
        all_came = came;
        all_counted = omega (arith, up, all, some_fly);
        readers = rw (none_entered, none_loaded) (omega arith);
        between = rw none_loaded tt;
      }
  Turn-Counted {x} (enter free) room inv =
      let i = inv room in
      record {
        all_came = i.all_came;
        all_counted = i.all_counted;
        readers = omega (arith, free);
        between = i.between;
      }
  Turn-Counted {x} (load n e) room inv =
      let i = inv room in
      let came = i.all_came in
      let all = i.all_counted in
      let readers = i.readers in
      record {
        all_came = came;
        all_counted = all;
        readers = omega (arith, readers, e);
        between = (
          (omega (arith, room, came, all, readers, e), omega (arith, room, came, all, readers, e)),
          i.between,
        );
      }
  Turn-Counted {x} (leave front back c e) room inv =
      let i = inv room in
      let readers = i.readers in
      let fewer : length x.loaded ≡ length (front ++ back) + 1 =
        subst (λ (l : List ℕ). length l ≡ length (front ++ back) + 1) (sym e)
          (length-drop front back c) in
      record {
        all_came = i.all_came;
        all_counted = i.all_counted;
        readers = omega (arith, readers, fewer);
        between = All-drop (IsBetween x) front back c (subst (All (IsBetween x)) e i.between);
      }

  Turns-Counted :
      {x y : Traffic} → Turns x y → s.called + y.arrived < 2 ^ 64 → Counted x → Counted y
  Turns-Counted start room inv = inv
  Turns-Counted (more path step) room inv =
      Turn-Counted step room (λ before. Turns-Counted path before inv)

  -- From consistent statistics, with fewer requests than a uint64 counts, and however the requests
  -- overlap: the counter is what it was and one for each request that came, and the sum of the
  -- statuses' counts is behind it by exactly the requests in flight. While a report is made, its number
  -- of calls is at least the sum of the statuses that it shows, and exceeds it by fewer than the requests in
  -- flight, so that the two match if its own request is the only one.
  pub reports_in_flight :
      IsConsistent s
      → (x : Traffic) → Turns (at_first s) x
      → s.called + x.arrived < 2 ^ 64
      → (x.called ≡ s.called + x.arrived)
        × (x.called ≡ total x.status + x.in_flight)
        × All (IsBetween x) x.loaded
        × (x.in_flight ≡ 1 → All (λ c. c ≡ total x.status) x.loaded)
  reports_in_flight consistent x path room =
      let first : Counted (at_first s) = record {
        all_came = omega arith;
        all_counted = omega (arith, consistent);
        readers = omega arith;
        between = tt;
      } in
      let c = Turns-Counted path room first in
      (
        c.all_came,
        c.all_counted,
        c.between,
        λ alone. All-map (λ n h. omega (arith, alone, h.0, h.1)) x.loaded c.between,
      )
