-- ===== src/Tests/Storage.antt =====
-- The storages and the queue on a server and a database in memory.
use demo_redis.Prelude.{◌≡◌, ◌≢◌, ◌⊎◌, none, some, [], ◌∷◌}
use demo_redis.Book.{Book, zero_book, book_not_found}
use demo_redis.Context.{background}
use demo_redis.Store.Contract.{Implements}
use demo_redis.Store.Redis
use demo_redis.Store.Redis.{h_books}
use demo_redis.Store.Redis.Laws as RedisLaws
use demo_redis.Store.Bolt
use demo_redis.Store.Bolt.Laws as BoltLaws
use demo_redis.Queue.{new_redis_queue}
use demo_redis.Queue.Contract.{Enqueues}
use demo_redis.Queue.Laws.{queued, redis-Enqueues}
use demo_redis.Tests.Memory.{plain_json, plain_json-laws, Server, contents, server, database}
use demo_redis.Tests.Memory.Laws.{server-laws, database-laws, bucket_content}

abbrev pub ulysses : Book
ulysses = record zero_book { id = "b:1"; title = "Ulysses"; author = "Joyce" }

-- A server that holds one book.
abbrev pub shelf : Server
shelf = record { entries = (h_books, "b:1", ulysses) ∷ []; lists = λ qid. [] }

redis-Implements_example :
    Implements
      (Redis.new_redis_book_storage plain_json server)
      (RedisLaws.view plain_json server contents plain_json-laws server-laws)
redis-Implements_example =
    RedisLaws.redis-Implements plain_json server contents plain_json-laws server-laws

delete_outcome_example :
    ((Redis.delete plain_json server background "b:1" shelf).0 ≡ none)
      × ((server.hdel background h_books "b:1" shelf).0.1 ≡ none)
      × ((contents shelf).hash h_books "b:1" ≢ none)
    ⊎ ((Redis.delete plain_json server background "b:1" shelf).0 ≡ some book_not_found)
      × (((server.hdel background h_books "b:1" shelf).0.1 ≢ none)
          ⊎ ((contents shelf).hash h_books "b:1" ≡ none))
delete_outcome_example =
    RedisLaws.delete_outcome plain_json server contents plain_json-laws server-laws background "b:1"
      shelf

bolt-Implements_example : Implements (Bolt.new_bolt_book_storage plain_json database "books") (
    BoltLaws.view plain_json database "books" bucket_content bucket_content plain_json-laws
      database-laws)
bolt-Implements_example =
    BoltLaws.bolt-Implements plain_json database "books" bucket_content bucket_content
      plain_json-laws database-laws

redis-Enqueues_example :
    Enqueues
      (new_redis_queue plain_json server)
      (queued plain_json server contents plain_json-laws server-laws)
redis-Enqueues_example = redis-Enqueues plain_json server contents plain_json-laws server-laws
