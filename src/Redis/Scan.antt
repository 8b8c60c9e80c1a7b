-- ===== src/Redis/Scan.antt =====
-- What redis promises of HSCAN, which repo.redis.go calls until the cursor is 0 again: a full
-- iteration returns every field that was there from its start to its end, and it ends while the hash
-- does not grow.
use demo_redis.Prelude.{ℕ, ◌<◌, String, ◌≡◌, ◌≢◌, ◌⊎◌, Option, none, List, [], ◌∷◌, length, All}
use demo_redis.Book.{Error}
use demo_redis.Context.{Context}
use demo_redis.Redis.{RedisClient, Keyspace}
use mathlib.Core.List.{Memᴰ}

-- The fields among fields and values in turn.
abbrev pub fields_of : List String → List String
fields_of [] = []
fields_of (f ∷ []) = f ∷ []
fields_of (f ∷ v ∷ rest) = f ∷ fields_of rest

module _ {V R : Type 0} (c : RedisClient V R) (contents : R → Keyspace V) (ctx : Context)
    (k pattern : String) (n : ℕ) where
  abbrev pub scan : ℕ → R → (List String × ℕ × Option Error) × R
  scan cursor = c.hscan ctx k cursor pattern n

  -- The states of the server at the calls of a full iteration: each call takes the cursor that the one
  -- before it returned, and the last returns 0.
  abbrev pub Full : ℕ → List R → Type 0
  Full cursor [] = ⊥
  Full cursor (r ∷ []) = ((scan cursor r).0.2 ≡ none) × ((scan cursor r).0.1 ≡ 0)
  Full cursor (r ∷ rs) = ((scan cursor r).0.2 ≡ none) × Full (scan cursor r).0.1 rs

  -- The same for an iteration that has not ended.
  abbrev pub Unfinished : ℕ → List R → Type 0
  Unfinished cursor [] = Unit
  Unfinished cursor (r ∷ rs) =
      ((scan cursor r).0.2 ≡ none) × ((scan cursor r).0.1 ≢ 0) × Unfinished (scan cursor r).0.1 rs

  -- One of the calls returned the field.
  abbrev pub Returned : String → ℕ → List R → Type 0
  Returned f cursor [] = ⊥
  Returned f cursor (r ∷ rs) =
      Memᴰ f (fields_of (scan cursor r).0.0) ⊎ Returned f (scan cursor r).0.1 rs

-- A hash has no other fields or values than another.
abbrev pub Within : {V : Type 0} → (String → Option V) → (String → Option V) → Type 0
Within h h' = (f : String) → (h f ≡ none) ⊎ (h f ≡ h' f)

pub record ScanLaws {V R : Type 0} (c : RedisClient V R) (contents : R → Keyspace V)
    (rounds : R → ℕ) : Type 0 where
  pub hscan_keeps :
      (ctx : Context) (k : String) (cursor : ℕ) (pattern : String) (n : ℕ) (r : R)
      → contents (c.hscan ctx k cursor pattern n r).1 ≡ contents r
  -- for the pattern that every field fits
  pub hscan_complete :
      (ctx : Context) (k : String) (n : ℕ) (f : String) (rs : List R)
      → Full c contents ctx k "*" n 0 rs
      → All (λ r. (contents r).hash k f ≢ none) rs
      → Returned c contents ctx k "*" n f 0 rs
  pub hscan_ends :
      (ctx : Context) (k : String) (n : ℕ) (r : R) (rs : List R)
      → Unfinished c contents ctx k "*" n 0 rs
      → All (λ s. Within ((contents s).hash k) ((contents r).hash k)) rs
      → length rs < rounds r
