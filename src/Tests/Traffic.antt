-- ===== src/Tests/Traffic.antt =====
-- Requests that overlap while a report is made.
use demo_redis.Prelude.{◌+◌, ◌≡◌, refl, false, [], ◌∷◌, arith, All}
use demo_redis.Clock.{zero_time}
use demo_redis.Api.{Statistics}
use demo_redis.Api.Ops.{new_statistics}
use demo_redis.Api.Middleware.Counting.{total}
use demo_redis.Api.Middleware.InFlight.{
  Traffic, Turns, start, more, arrive, count, enter, load, at_first, reports_in_flight, IsBetween,
}

abbrev stats : Statistics
stats = new_statistics "" "abc" "go1.22" "linux" false zero_time

-- Of three requests one was answered, one makes a report, and one came after it.
abbrev busy : Traffic
busy = record {
  called = 3;
  status = (200, 1) ∷ [];
  arrived = 3;
  in_flight = 2;
  entered = 0;
  loaded = 2 ∷ [];
}

-- The report shows two calls and one status.
busy-Turns : Turns (at_first stats) busy
unfolding new_statistics demo_redis.Api.Middleware.bump
busy-Turns =
    more
      (more (more (more (more (more start arrive) arrive) (count 200 1 refl refl refl)) arrive)
        (enter (omega arith)))
      (load 0 refl)

reports_in_flight_example :
    (busy.called ≡ stats.called + busy.arrived)
    × (busy.called ≡ total busy.status + busy.in_flight)
    × All (IsBetween busy) busy.loaded
    × (busy.in_flight ≡ 1 → All (λ c. c ≡ total busy.status) busy.loaded)
unfolding new_statistics
reports_in_flight_example = reports_in_flight stats refl busy busy-Turns (omega arith)
