-- ===== src/Redis.antt =====
-- The go-redis client and encoding/json as parameters: `RedisClient` and `Json` hold the calls that
-- repo.redis.go and infra.queues.go make, `RedisLaws` and `JsonLaws` their documented behaviour. `R`
-- is the state of the server, and `V` the type of encoded books.
pub mod Scan
use demo_redis.Prelude.{
  ℕ, zero, String, ◌≡◌, ◌≢◌, ◌↔◌, ◌⊎◌, ◌==◌, ◌&&◌, if◌then◌else◌, Option, none, some, List, [], ◌∷◌,
  ◌++◌, Action,
}
use demo_redis.Book.{Book, Error, book_not_found, redis_nil}
use demo_redis.Context.{Context}
use mathlib.Core.List.{Memᴰ}

pub record Json (V : Type 0) : Type 0 where
  pub marshal : Book → V × Option Error
  -- into a zero `Book`
  pub unmarshal : V → Book × Option Error

-- Encoding a struct of strings does not fail and is undone by decoding; an error of the decoder is
-- none of the program's.
pub record JsonLaws {V : Type 0} (json : Json V) : Type 0 where
  pub marshal_ok : (b : Book) → (json.marshal b).1 ≡ none
  pub unmarshal-marshal : (b : Book) → json.unmarshal (json.marshal b).0 ≡ (b, none)
  pub unmarshal_err : (v : V) → (json.unmarshal v).1 ≢ some book_not_found

pub record RedisClient (V R : Type 0) : Type 0 where
  -- HSET key field value, as `.Err()`
  pub hset : Context → String → String → V → Action R (Option Error)
  -- HGET key field, as `.Result()`
  pub hget : Context → String → String → Action R (V × Option Error)
  -- HDEL key field: the number of fields removed
  pub hdel : Context → String → String → Action R (ℕ × Option Error)
  -- HVALS key
  pub hvals : Context → String → Action R (List V × Option Error)
  -- HSCAN key cursor MATCH pattern COUNT n: fields and values in turn, and the next cursor
  pub hscan : Context → String → ℕ → String → ℕ → Action R (List String × ℕ × Option Error)
  -- RPUSH key value
  pub rpush : Context → String → V → Action R (Option Error)
  -- BLPOP timeout keys: the key and the value popped
  pub blpop : Context → ℕ → List String → Action R ((String × V) × Option Error)

-- What the server stores: hashes, by key and field, and lists, by key.
pub record Keyspace (V : Type 0) : Type 0 where
  pub hash : String → String → Option V
  pub list : String → List V

module _ {V : Type 0} where
  abbrev pub put_field : String → String → V → Keyspace V → Keyspace V
  put_field k f v d = record d { hash = λ i j. if k == i && f == j then some v else d.hash i j }

  abbrev pub drop_field : String → String → Keyspace V → Keyspace V
  drop_field k f d = record d { hash = λ i j. if k == i && f == j then none else d.hash i j }

  abbrev pub set_list : String → List V → Keyspace V → Keyspace V
  set_list k l d = record d { list = λ i. if k == i then l else d.list i }

  -- BLPOP takes the head of the first list that is not empty, in the order of the keys.
  abbrev pub first_of_lists : List String → Keyspace V → Option (String × V × Keyspace V)
  first_of_lists [] d = none
  first_of_lists (k ∷ ks) d = elim (d.list k) [
    | [] ↦ first_of_lists ks d
    | v ∷ rest ↦ some (k, v, set_list k rest d)
  ]

pub record RedisLaws {V R : Type 0} (c : RedisClient V R) (contents : R → Keyspace V) : Type 0 where
  pub hset_ok :
      (ctx : Context) (k f : String) (v : V) (r : R)
      → (c.hset ctx k f v r).0 ≡ none
      → contents (c.hset ctx k f v r).1 ≡ put_field k f v (contents r)
  pub hset_any :
      (ctx : Context) (k f : String) (v : V) (r : R)
      → (contents (c.hset ctx k f v r).1 ≡ contents r)
        ⊎ (contents (c.hset ctx k f v r).1 ≡ put_field k f v (contents r))
  pub hget_keeps :
      (ctx : Context) (k f : String) (r : R) → contents (c.hget ctx k f r).1 ≡ contents r
  pub hget_ok :
      (ctx : Context) (k f : String) (r : R)
      → (c.hget ctx k f r).0.1 ≡ none
      → (contents r).hash k f ≡ some (c.hget ctx k f r).0.0
  pub hget_nil :
      (ctx : Context) (k f : String) (r : R)
      → (c.hget ctx k f r).0.1 ≡ some redis_nil
      → (contents r).hash k f ≡ none
  pub hget_err :
      (ctx : Context) (k f : String) (r : R) → (c.hget ctx k f r).0.1 ≢ some book_not_found
  pub hdel_ok :
      (ctx : Context) (k f : String) (r : R)
      → (c.hdel ctx k f r).0.1 ≡ none
      → contents (c.hdel ctx k f r).1 ≡ drop_field k f (contents r)
  pub hdel_count :
      (ctx : Context) (k f : String) (r : R)
      → (c.hdel ctx k f r).0.1 ≡ none
      → ((c.hdel ctx k f r).0.0 ≡ zero) ↔ ((contents r).hash k f ≡ none)
  -- The number that comes with an error is Go's zero value.
  pub hdel_err :
      (ctx : Context) (k f : String) (r : R) (e : Error)
      → (c.hdel ctx k f r).0.1 ≡ some e
      → (c.hdel ctx k f r).0.0 ≡ zero
  pub hdel_any :
      (ctx : Context) (k f : String) (r : R)
      → (contents (c.hdel ctx k f r).1 ≡ contents r)
        ⊎ (contents (c.hdel ctx k f r).1 ≡ drop_field k f (contents r))
  pub hvals_keeps : (ctx : Context) (k : String) (r : R) → contents (c.hvals ctx k r).1 ≡ contents r
  pub hvals_sound :
      (ctx : Context) (k : String) (r : R) (v : V)
      → (c.hvals ctx k r).0.1 ≡ none
      → Memᴰ v (c.hvals ctx k r).0.0
      → (f : String) × ((contents r).hash k f ≡ some v)
  pub hvals_complete :
      (ctx : Context) (k f : String) (r : R) (v : V)
      → (c.hvals ctx k r).0.1 ≡ none
      → (contents r).hash k f ≡ some v
      → Memᴰ v (c.hvals ctx k r).0.0
  pub rpush_ok :
      (ctx : Context) (k : String) (v : V) (r : R)
      → (c.rpush ctx k v r).0 ≡ none
      → contents (c.rpush ctx k v r).1 ≡ set_list k ((contents r).list k ++ v ∷ []) (contents r)
  pub rpush_any :
      (ctx : Context) (k : String) (v : V) (r : R)
      → (contents (c.rpush ctx k v r).1 ≡ contents r)
        ⊎ (contents (c.rpush ctx k v r).1 ≡ set_list k ((contents r).list k ++ v ∷ []) (contents r))
  pub blpop_ok :
      (ctx : Context) (n : ℕ) (ks : List String) (r : R)
      → (c.blpop ctx n ks r).0.1 ≡ none
      → first_of_lists ks (contents r)
        ≡ some (
          (c.blpop ctx n ks r).0.0.0,
          (c.blpop ctx n ks r).0.0.1,
          contents (c.blpop ctx n ks r).1,
        )
  -- A pop that failed changed nothing, or took its element and lost it with the reply.
  pub blpop_any :
      (ctx : Context) (n : ℕ) (ks : List String) (r : R)
      → (contents (c.blpop ctx n ks r).1 ≡ contents r)
        ⊎ ((k : String) × (v : V) × (first_of_lists ks (contents r)
              ≡ some (k, v, contents (c.blpop ctx n ks r).1)))
