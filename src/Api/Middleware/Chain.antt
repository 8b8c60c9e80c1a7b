-- ===== src/Api/Middleware/Chain.antt =====
-- `Chain` of api.middlewares.go nests the middlewares, the first outermost.
use demo_redis.Prelude.{
  ℕ, zero, suc, ◌-◌, ◌<◌, ◌≤◌, ◌≡◌, refl, sym, ap, ◌∙◌, List, [], ◌∷◌, arith, length,
}
use demo_redis.Api.Middleware.{at, chain_from, chain}

module _ {A : Type 0} where
  -- m₁ (m₂ (… (mₙ h)))
  abbrev pub nest : List (A → A) → A → A
  nest [] h = h
  nest (m ∷ ms) h = m (nest ms h)

  abbrev skip : ℕ → List (A → A) → List (A → A)
  skip zero ms = ms
  skip (suc n) [] = []
  skip (suc n) (m ∷ ms) = skip n ms

  at-nest :
      (ms : List (A → A)) (i : ℕ) (h : A)
      → i < length ms
      → at ms i (nest (skip (suc i) ms) h) ≡ nest (skip i ms) h
  at-nest [] i h l = elim l [ ]
  at-nest (m ∷ ms) zero h l = refl
  at-nest (m ∷ ms) (suc i) h l = at-nest ms i h (omega arith)

  chain_from-nest :
      (ms : List (A → A)) (i : ℕ) (h : A)
      → i ≤ length ms
      → chain_from ms i (nest (skip i ms) h) ≡ nest ms h
  unfolding chain_from
  chain_from-nest ms zero h l = refl
  chain_from-nest ms (suc i) h l =
      rw (at-nest ms i h (omega arith)) (chain_from-nest ms i h (omega arith))

  skip-length : (ms : List (A → A)) (h : A) → nest (skip (length ms) ms) h ≡ h
  skip-length [] h = refl
  skip-length (m ∷ ms) h = skip-length ms h

  -- A chain is the handler with every middleware applied round it, the list's first outermost: the
  -- loop over the indices, which starts at the last and counts down, computes the nesting.
  pub chain-eq-nest : (ms : List (A → A)) (h : A) → chain ms h ≡ nest ms h
  unfolding chain
  chain-eq-nest [] h = refl
  chain-eq-nest (m ∷ ms) h =
      let last : suc (length ms) - 1 ≡ length ms = omega arith in
      rw last (
        ap (λ a. chain_from (m ∷ ms) (length ms) (at (m ∷ ms) (length ms) a))
          (sym (skip-length ms h))
        ∙ ap (chain_from (m ∷ ms) (length ms)) (at-nest (m ∷ ms) (length ms) h (omega arith))
        ∙ chain_from-nest (m ∷ ms) (length ms) h (omega arith))
