-- ===== src/Queue.antt =====
-- infra.queues.go: the queues of books between the service and the consumer.
pub mod Contract
pub mod Decode
pub mod Laws
pub mod Apart
use demo_redis.Prelude.{String, Option, none, some, List, Action, pure, ◌>>=◌}
use demo_redis.Book.{Book, zero_book, Error}
use demo_redis.Context.{Context}
use demo_redis.Redis.{Json, RedisClient}

abbrev pub create_queue : String
create_queue = "creation"

abbrev pub update_queue : String
update_queue = "updating"

abbrev pub delete_queue : String
delete_queue = "deletion"

-- `Queuer`; `pop` gives the queue's id, the book and the error
pub record Queuer (S : Type 0) : Type 0 where
  pub push : Context → String → Book → Action S (Option Error)
  pub pop : Context → List String → Action S (String × Book × Option Error)

-- what `Pop` does with the key and the text that it popped
unfoldable pub popped : String → Book × Option Error → String × Book × Option Error
popped qid (book, some e) = ("", book, some e)
popped qid (book, none) = (qid, book, none)

module _ {V R : Type 0} (json : Json V) (client : RedisClient V R) where
  -- `redisQueue.Push`
  unfoldable pub push : Context → String → Book → Action R (Option Error)
  push ctx qid book =
      let (bytes, err) = json.marshal book in
      elim err [ some e ↦ pure (some e) | none ↦ client.rpush ctx qid bytes ]

  -- `redisQueue.Pop`
  unfoldable pub pop : Context → List String → Action R (String × Book × Option Error)
  pop ctx qids = do
    ((qid, text), err) ← client.blpop ctx 0 qids
    elim err [
      | some e ↦ pure ("", zero_book, some e)
      | none ↦ pure (popped qid (json.unmarshal text))
    ]

  -- `NewRedisQueue`
  abbrev pub new_redis_queue : Queuer R
  new_redis_queue = record { push = push; pop = pop }
