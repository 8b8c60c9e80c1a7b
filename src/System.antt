-- ===== src/System.antt =====
-- The service and the consumer as `NewApp` of app.server.go puts them together: one redis server under
-- the primary storage and the queue, one bolt database under the backup storage.
pub mod Delivery
pub mod Requests
pub mod Agreement
pub mod Clearing
pub mod Losses
pub mod Overlap
use demo_redis.Prelude.{String, Option, Action}
use demo_redis.Book.{Error}
use demo_redis.Context.{Context}
use demo_redis.Clock.{Clocker, Time}
use demo_redis.Redis.{Json, RedisClient}
use demo_redis.Bolt.{BoltClient}
use demo_redis.Store.Redis.{new_redis_book_storage}
use demo_redis.Store.Bolt.{new_bolt_book_storage}
use demo_redis.Queue.{new_redis_queue}
use demo_redis.Service.{BookService, new_book_service}
use demo_redis.Consumer.{BoltDbConsumer, new_bolt_db_consumer}

module _ {V R B T E : Type 0} (json : Json V) (redis_client : RedisClient V R)
    (bolt_db_client : BoltClient V B T) (bucket_name : String) where
  -- the `bookService` of `NewApp`
  abbrev pub book_service : Clocker E → (Time → String) → BookService R B E
  book_service clock time_string =
      new_book_service clock time_string (new_redis_book_storage json redis_client)
        (new_bolt_book_storage json bolt_db_client bucket_name) (new_redis_queue json redis_client)

  -- the `boltDBConsumer` of `NewApp`
  abbrev pub bolt_db_consumer : (Context → Action E (Option Error)) → BoltDbConsumer R B E
  bolt_db_consumer ctx_err =
      new_bolt_db_consumer (new_redis_queue json redis_client)
        (new_bolt_book_storage json bolt_db_client bucket_name) ctx_err
