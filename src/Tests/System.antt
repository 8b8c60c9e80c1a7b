-- ===== src/Tests/System.antt =====
-- A book that is created, updated and deleted over the server and the database in memory.
use demo_redis.Prelude.{◌≡◌, refl, true, some, none, arith}
use demo_redis.Book.{canceled}
use demo_redis.Context.{background}
use demo_redis.Clock.{new_clock}
use demo_redis.Store.Bolt
use demo_redis.Store.Redis
use demo_redis.Queue.{push}
use demo_redis.Replica.{tombstone}
use demo_redis.Replica.Sync.{InSync, drained}
use demo_redis.Replica.Pending.{pending}
use demo_redis.Service.{update}
use demo_redis.System.Delivery
use demo_redis.System.Agreement
use demo_redis.Tests.Memory.{plain_json, plain_json-laws, server, database, contents}
use demo_redis.Tests.Memory.Laws.{server-laws, database-laws, bucket_content}
use demo_redis.Tests.Storage.{ulysses}
use demo_redis.Tests.Service.{service, deleting, pops}

pub up :
    Delivery.IsUp plain_json server database "books"
      (new_clock (λ n. (n, n)) true)
      (λ t. "now")
      (λ ctx n. (some canceled, n))
      contents
      bucket_content
      bucket_content
      plain_json-laws
      server-laws
      database-laws
      background
unfolding Bolt.delete Bolt.add Bolt.update
up = record { pops = pops; writes = λ qid b s. ground arith }

update_lost_example :
    ((Agreement.seen plain_json server database "books"
          (new_clock (λ n. (n, n)) true)
          (λ t. "now")
          (λ ctx n. (some canceled, n))
          contents
          bucket_content
          bucket_content
          plain_json-laws
          server-laws
          database-laws
          (update service background "b:1" ulysses deleting).1).primary
        "b:1"
      ≡ some (record ulysses { updated_at = "now" }))
    × (drained
          (Agreement.seen plain_json server database "books"
            (new_clock (λ n. (n, n)) true)
            (λ t. "now")
            (λ ctx n. (some canceled, n))
            contents
            bucket_content
            bucket_content
            plain_json-laws
            server-laws
            database-laws
            (update service background "b:1" ulysses deleting).1)
          "b:1"
        ≡ none)
    × ¬ InSync (
        Agreement.seen plain_json server database "books"
          (new_clock (λ n. (n, n)) true)
          (λ t. "now")
          (λ ctx n. (some canceled, n))
          contents
          bucket_content
          bucket_content
          plain_json-laws
          server-laws
          database-laws
          (update service background "b:1" ulysses deleting).1)
unfolding update Redis.update push pending
update_lost_example =
    Agreement.update_lost plain_json server database "books" (new_clock (λ n. (n, n)) true)
      (λ t. "now") (λ ctx n. (some canceled, n)) contents bucket_content bucket_content
      plain_json-laws server-laws database-laws background ulysses (tombstone "b:1") deleting refl
      refl refl
