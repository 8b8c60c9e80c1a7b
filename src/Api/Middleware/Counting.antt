-- ===== src/Api/Middleware/Counting.antt =====
-- The map of statuses that `StatsMiddleware` of api.middlewares.go keeps.
use demo_redis.Prelude.{
  ℕ, ◌+◌, ◌<◌, ◌%◌, ◌^◌, ◌≡◌, List, [], ◌∷◌, arith, nat_eq, if◌then◌else◌, Bool-cases, inl, inr,
}
use demo_redis.Api.Middleware.{bump}

-- How often a code was counted, and how many responses were counted in all.
abbrev pub counted : ℕ → List (ℕ × ℕ) → ℕ
counted code [] = 0
counted code ((c, n) ∷ status) = if nat_eq c code then n else counted code status

abbrev pub total : List (ℕ × ℕ) → ℕ
total [] = 0
total ((c, n) ∷ status) = n + total status

-- While they all fit into a uint64, one more response is counted.
pub total-bump :
    (code : ℕ) (status : List (ℕ × ℕ))
    → total status + 1 < 2 ^ 64
    → total (bump code status) ≡ total status + 1
unfolding bump
total-bump code [] room = omega arith
total-bump code ((c, n) ∷ status) room = elim (Bool-cases (nat_eq c code)) [
  | inl e ↦ rw e (omega arith)
  | inr e ↦ rw e (omega (arith, total-bump code status (omega arith)))
]

-- Counting a code adds one to its count, modulo 2 ^ 64, and leaves every other code's as it was.
pub counted-bump :
    (code other : ℕ) (status : List (ℕ × ℕ))
    → counted other (bump code status)
      ≡ (if nat_eq code other then (counted other status + 1) % 2 ^ 64 else counted other status)
unfolding bump
counted-bump code other [] = ground arith
counted-bump code other ((c, n) ∷ status) = ground (arith, counted-bump code other status)
