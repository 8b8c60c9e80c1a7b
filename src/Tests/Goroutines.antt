-- ===== src/Tests/Goroutines.antt =====
-- Goroutines that meet at the lock of the statistics, and requests that meet at
-- the maintenance mode.
use demo_redis.Prelude.{ℕ, ◌+◌, ◌%◌, ◌^◌, ◌≡◌, refl, none, true, false, List, [], ◌∷◌, ◌++◌, arith}
use demo_redis.Mutex.{Shared, Steps, start, more, lock, access, unlock, at_first}
use demo_redis.Api.Middleware.Counting.{counted}
use demo_redis.Api.Middleware.Locked.{count_section, occurs, concurrent_counts}
use demo_redis.Clock.{zero_time}
use demo_redis.Api.Ops.Publish.{
  Access, perform_all, enable_accesses, disable_accesses, Interleaved, racing_calls_torn,
}
use demo_redis.Tests.Requests.{arriving}

-- Three responses; the second is counted first.
abbrev codes : List ℕ
codes = 200 ∷ 404 ∷ 200 ∷ []

abbrev one_counted : Shared ℕ (List (ℕ × ℕ)) (Unit {0})
one_counted = record {
  state = (404, 1) ∷ [];
  holder = none;
  waiting = 200 ∷ 200 ∷ [];
  answers = tt ∷ [];
}

one_counted-Steps : Steps count_section (at_first count_section codes []) one_counted
unfolding count_section
one_counted-Steps =
    more
      (more (more (more start (lock (200 ∷ []) (200 ∷ []) 404 refl refl)) (access _ _ refl))
        (access _ _ refl))
      (unlock tt refl)

concurrent_counts_example :
    ((code : ℕ)
      → (gone : ℕ) × (gone + occurs code (200 ∷ 200 ∷ []) ≡ occurs code codes)
        × (counted code ((404, 1) ∷ []) ≡ (0 + gone) % 2 ^ 64))
    × ((y : Shared ℕ (List (ℕ × ℕ)) (Unit {0})) × Steps count_section one_counted y
        × (y.waiting ≡ [])
        × ((code : ℕ) → counted code y.state ≡ (0 + occurs code codes) % 2 ^ 64))
concurrent_counts_example =
    concurrent_counts codes [] (λ code. omega arith) one_counted one_counted-Steps refl

racing_calls_torn_example :
    ((both : List Access) × Interleaved
        (enable_accesses "upgrade" (record { nanos = 5; utc = true }))
        (disable_accesses zero_time)
        both
      × (perform_all both arriving.mode
          ≡ record { enabled = true; reason = ""; started = zero_time }))
    × (perform_all
          (disable_accesses zero_time
            ++ enable_accesses "upgrade" (record { nanos = 5; utc = true }))
          arriving.mode
        ≡ record { enabled = true; reason = "upgrade"; started = record { nanos = 5; utc = true } })
    × (perform_all
          (enable_accesses "upgrade" (record { nanos = 5; utc = true })
            ++ disable_accesses zero_time)
          arriving.mode
        ≡ record { enabled = false; reason = ""; started = zero_time })
racing_calls_torn_example =
    racing_calls_torn zero_time (record { nanos = 5; utc = true }) "upgrade" arriving.mode
