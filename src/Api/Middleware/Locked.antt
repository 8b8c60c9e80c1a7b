-- ===== src/Api/Middleware/Locked.antt =====
-- The end of `StatsMiddleware` of api.middlewares.go, run by many goroutines at once: each takes the
-- lock of the statistics, looks up its code in the map and stores the new count, in two accesses.
use demo_redis.Prelude.{
  ℕ, ◌+◌, ◌<◌, ◌%◌, ◌^◌, ◌≡◌, refl, sym, ap, ◌∙◌, Option, none, some, List, [], ◌∷◌, ◌++◌, arith,
  nat_eq, if◌then◌else◌,
}
use demo_redis.Api.Middleware.{bump}
use demo_redis.Api.Middleware.Counting.{counted, counted-bump}
use demo_redis.Mutex.{Section, done, act, call, run, Shared, Steps, at_first, run_all}
use demo_redis.Mutex.Serial.{Steps-run_all, Steps-append, Steps-can_finish}
use mathlib.Core.List.{Perm}
use mathlib.Core.List.{Permᴰ}
use mathlib.Core.Logic.{∥∥₁_elim}
use native.Mathlib.Nat.{ℕ_set}

-- `num, found := api.stats.status[code]`
abbrev pub find_status : ℕ → List (ℕ × ℕ) → Option ℕ
find_status code [] = none
find_status code ((c, n) ∷ status) = if nat_eq c code then some n else find_status code status

-- `api.stats.status[code] = num`
abbrev pub store_status : ℕ → ℕ → List (ℕ × ℕ) → List (ℕ × ℕ)
store_status code num [] = (code, num) ∷ []
store_status code num ((c, n) ∷ status) =
    if nat_eq c code then (c, num) ∷ status else (c, n) ∷ store_status code num status

-- what `StatsMiddleware` does under the lock, for a response with the code
unfoldable pub count_section : ℕ → Section (List (ℕ × ℕ)) (Unit {0})
count_section code =
    call (λ status. (find_status code status, status))
      λ found. elim found [
        | none ↦ act (store_status code 1) (λ _. done tt)
        | some num ↦ act (store_status code ((num + 1) % 2 ^ 64)) (λ _. done tt)
      ]

-- When nobody comes between, the two accesses count the code.
run-count_section :
    (code : ℕ) (status : List (ℕ × ℕ)) → (run (count_section code) status).1 ≡ bump code status
unfolding count_section bump
run-count_section code [] = refl
run-count_section code ((c, n) ∷ status) = ground (arith, run-count_section code status)

abbrev pub occurs : ℕ → List ℕ → ℕ
occurs code [] = 0
occurs code (c ∷ codes) = (if nat_eq c code then 1 else 0) + occurs code codes

occurs-append : (code : ℕ) (l r : List ℕ) → occurs code (l ++ r) ≡ occurs code l + occurs code r
occurs-append code [] r = omega arith
occurs-append code (c ∷ l) r = omega (arith, occurs-append code l r)

Permᴰ-occurs : (code : ℕ) {l r : List ℕ} → Permᴰ l r → occurs code l ≡ occurs code r
Permᴰ-occurs code Permᴰ.nil = refl
Permᴰ-occurs code (Permᴰ.cons e p) = rw (e, Permᴰ-occurs code p) refl
Permᴰ-occurs code (Permᴰ.swap e e') = rw (e, e') (omega arith)
Permᴰ-occurs code (Permᴰ.trans p q) = Permᴰ-occurs code p ∙ Permᴰ-occurs code q

Perm-occurs : (code : ℕ) {l r : List ℕ} → Perm l r → occurs code l ≡ occurs code r
Perm-occurs code p = ∥∥₁_elim p (ℕ_set _ _) (Permᴰ-occurs code)

-- Whole calls, one after the other, count every code as often as it comes.
counted-run_all :
    (codes : List ℕ) (code : ℕ) (status : List (ℕ × ℕ))
    → counted code status < 2 ^ 64
    → counted code (run_all count_section codes status).1
      ≡ (counted code status + occurs code codes) % 2 ^ 64
counted-run_all [] code status small = omega arith
counted-run_all (c ∷ codes) code status small =
    let step : counted code (run (count_section c) status).1
        ≡ (if nat_eq c code then (counted code status + 1) % 2 ^ 64 else counted code status) =
      ap (counted code) (run-count_section c status) ∙ counted-bump c code status in
    let rest = counted-run_all codes code (run (count_section c) status).1 (ground arith) in
    ground arith

module _ (codes : List ℕ) (status : List (ℕ × ℕ)) where
  abbrev begin : Shared ℕ (List (ℕ × ℕ)) (Unit {0})
  begin = at_first count_section codes status

  -- While the lock is free, the goroutines that are not waiting have been counted.
  free-counted :
      (x : Shared ℕ (List (ℕ × ℕ)) (Unit {0}))
      → Steps count_section begin x
      → x.holder ≡ none
      → (code : ℕ) → counted code status < 2 ^ 64
      → (gone : ℕ) × (gone + occurs code x.waiting ≡ occurs code codes)
        × (counted code x.state ≡ (counted code status + gone) % 2 ^ 64)
  free-counted x path free code small =
      let (gone, ran, perm) = Steps-run_all count_section codes status x path free in
      (
        occurs code gone,
        sym (occurs-append code gone x.waiting) ∙ Perm-occurs code perm,
        ap (λ (r : List (Unit {0}) × List (ℕ × ℕ)). counted code r.1) (sym ran)
            ∙ counted-run_all gone code status small,
      )

  -- Many requests that are counted at once lose no count. However the accesses of their goroutines are
  -- interleaved, whenever the lock is free, as it is for every reader of the map, each code's
  -- count has gone up by exactly the goroutines of that code that do not wait any more, modulo
  -- 2 ^ 64; and from there they can all come to their ends, where each code was counted
  -- as often as it was answered. Before, every count fits into a uint64.
  pub concurrent_counts :
      ((code : ℕ) → counted code status < 2 ^ 64)
      → (x : Shared ℕ (List (ℕ × ℕ)) (Unit {0})) → Steps count_section begin x
      → x.holder ≡ none
      → ((code : ℕ)
          → (gone : ℕ) × (gone + occurs code x.waiting ≡ occurs code codes)
            × (counted code x.state ≡ (counted code status + gone) % 2 ^ 64))
        × ((y : Shared ℕ (List (ℕ × ℕ)) (Unit {0})) × Steps count_section x y
            × (y.waiting ≡ [])
            × ((code : ℕ)
                → counted code y.state ≡ (counted code status + occurs code codes) % 2 ^ 64))
  concurrent_counts small x path free = (
    λ code. free-counted x path free code (small code),
    let (y, later, free', over) = Steps-can_finish count_section x in
        (
          y,
          later,
          over,
          λ code.
              let (gone, all, up) =
                free-counted y (Steps-append count_section path later) free' code (small code) in
              let empty : occurs code y.waiting ≡ 0 = ap (occurs code) over in
              omega (arith, all, up, empty),
        ),
  )
