-- ===== src/Bolt.antt =====
-- The boltdb client as a parameter: `BoltClient` holds the calls that repo.bolt.go makes, `BoltLaws`
-- their documented behaviour. `B` is the state of the database, `T` that of a transaction, and `V`
-- the type of encoded books.
use demo_redis.Prelude.{
  String, ◌≡◌, ◌≢◌, ◌==◌, ◌&&◌, if◌then◌else◌, Option, none, some, List, Action,
}
use demo_redis.Book.{Error, book_not_found}
use mathlib.Core.List.{Memᴰ}

pub record BoltClient (V B T : Type 0) : Type 0 where
  -- DB.Update: a read-write transaction around a function
  pub update : Action T (Option Error) → Action B (Option Error)
  -- DB.Begin(false): a read-only transaction
  pub begin : B → T × Option Error
  -- Tx.Bucket(bucket).Put(key, value), .Get(key) and .Delete(key)
  pub put : String → String → V → Action T (Option Error)
  pub get : String → String → T → Option V
  pub delete : String → String → Action T (Option Error)
  -- what Tx.Bucket(bucket).Cursor() yields from First by Next until the nil key
  pub cursor : String → T → List (String × V)

-- Buckets by name, and values by key.
abbrev pub Buckets : Type 0 → Type 0
Buckets V = String → String → Option V

abbrev pub set_key : {V : Type 0} → String → String → Option V → Buckets V → Buckets V
set_key k f o d i j = if k == i && f == j then o else d i j

pub record BoltLaws {V B T : Type 0} (c : BoltClient V B T) (content : B → Buckets V)
    (inside : T → Buckets V) : Type 0 where
  pub update_ok :
      (f : Action T (Option Error)) (b : B)
      → (c.update f b).0 ≡ none
      → (t : T) × (inside t ≡ content b)
        × ((f t).0 ≡ none)
        × (content (c.update f b).1 ≡ inside (f t).1)
  -- A transaction that fails is rolled back.
  pub update_err :
      (f : Action T (Option Error)) (b : B) (e : Error)
      → (c.update f b).0 ≡ some e
      → content (c.update f b).1 ≡ content b
  pub begin_ok : (b : B) → (c.begin b).1 ≡ none → inside (c.begin b).0 ≡ content b
  pub begin_err : (b : B) → (c.begin b).1 ≢ some book_not_found
  pub put_ok :
      (k f : String) (v : V) (t : T)
      → (c.put k f v t).0 ≡ none
      → inside (c.put k f v t).1 ≡ set_key k f (some v) (inside t)
  pub get_lem : (k f : String) (t : T) → c.get k f t ≡ inside t k f
  pub delete_ok :
      (k f : String) (t : T)
      → (c.delete k f t).0 ≡ none
      → inside (c.delete k f t).1 ≡ set_key k f none (inside t)
  pub cursor_sound :
      (k f : String) (v : V) (t : T) → Memᴰ (f, v) (c.cursor k t) → inside t k f ≡ some v
  pub cursor_complete :
      (k f : String) (v : V) (t : T) → inside t k f ≡ some v → Memᴰ (f, v) (c.cursor k t)
