-- ===== src/Tests/Service.antt =====
-- The service and the consumer over a server and a database in memory.
use demo_redis.Prelude.{
  ℕ, String, ◌≡◌, ◌≢◌, ◌⊎◌, refl, true, none, some, List, [], ◌∷◌, ◌==◌, if◌then◌else◌, arith,
}
use demo_redis.Book.{Book, canceled}
use demo_redis.Context.{background}
use demo_redis.Clock.{new_clock}
use demo_redis.Store.{Books}
use demo_redis.Store.Contract.{Lists, Implements}
use demo_redis.Store.Redis
use demo_redis.Store.Redis.{h_books}
use demo_redis.Store.Redis.Laws as RedisLaws
use demo_redis.Store.Bolt
use demo_redis.Store.Bolt.Laws as BoltLaws
use demo_redis.Queue.{new_redis_queue, create_queue, update_queue, delete_queue}
use demo_redis.Queue.Contract.{Queues, first_of, Enqueues, AreApart}
use demo_redis.Queue.Laws as QueueLaws
use demo_redis.Queue.Apart.{redis-AreApart}
use demo_redis.Replica
use demo_redis.Replica.{Replica, queue_ids}
use demo_redis.Replica.Pending.{pending}
use demo_redis.Replica.Sync.{InSync, IsQuiet}
use demo_redis.Service
use demo_redis.Service.{World, BookService}
use demo_redis.Service.Abstract.{replica_of}
use demo_redis.Service.Listing.{get_all_prefers_backup}
use demo_redis.Service.Read.{Answered, get_one-Answered, get_one_undoes_delete}
use demo_redis.Consumer.{BoltDbConsumer, consume}
use demo_redis.Consumer.Refines.{Works, consume_catches_up}
use demo_redis.Tests.Memory.{
  plain_json, plain_json-laws, Server, Entries, contents, server, database,
}
use demo_redis.Tests.Memory.Laws.{server-laws, database-laws, bucket_content}
use demo_redis.Tests.Storage.{ulysses, shelf}

-- The environment is a clock that stands still.
abbrev pub service : BookService Server Entries ℕ
service = record {
  clock = new_clock (λ n. (n, n)) true;
  time_string = λ t. "now";
  pstorage = Redis.new_redis_book_storage plain_json server;
  bstorage = Bolt.new_bolt_book_storage plain_json database "books";
  queue = new_redis_queue plain_json server;
}

-- A consumer whose context is done from the start.
abbrev pub consumer : BoltDbConsumer Server Entries ℕ
consumer = record {
  queue = new_redis_queue plain_json server;
  repo = Bolt.new_bolt_book_storage plain_json database "books";
  ctx_err = λ ctx n. (some canceled, n);
}

abbrev pub pview : Server → Books
pview = RedisLaws.view plain_json server contents plain_json-laws server-laws

abbrev pub bview : Entries → Books
bview =
    BoltLaws.view plain_json database "books" bucket_content bucket_content plain_json-laws
      database-laws

abbrev pub queued : Server → Queues
queued = QueueLaws.queued plain_json server contents plain_json-laws server-laws

pub primary_laws : Implements service.pstorage pview
primary_laws = RedisLaws.redis-Implements plain_json server contents plain_json-laws server-laws

pub backup_laws : Implements service.bstorage bview
backup_laws =
    BoltLaws.bolt-Implements plain_json database "books" bucket_content bucket_content
      plain_json-laws database-laws

pub queue_laws : Enqueues service.queue queued
queue_laws = QueueLaws.redis-Enqueues plain_json server contents plain_json-laws server-laws

pub apart_laws : AreApart service.pstorage service.queue pview queued
apart_laws = redis-AreApart plain_json server contents plain_json-laws server-laws

abbrev pub empty : World Server Entries ℕ
empty = record { redis = record { entries = []; lists = λ k. [] }; bolt = []; env = 5 }

abbrev pub full : World Server Entries ℕ
full = record { redis = shelf; bolt = ("books", "b:1", ulysses) ∷ []; env = 5 }

abbrev view_of : World Server Entries ℕ → Replica
view_of = replica_of pview bview queued

-- The deletion of the book, which then waits for the consumer.
abbrev pub deleting : World Server Entries ℕ
deleting = record full {
  redis = record shelf {
    entries = [];
    lists = λ k. if k == delete_queue then Replica.tombstone "b:1" ∷ [] else [];
  };
}

get_one-Answered_example :
    Answered
      (pview deleting.redis)
      (bview deleting.bolt)
      (service.pstorage.get_one background "b:1" deleting.redis).0.1
      "b:1"
      (Service.get_one service background "b:1" deleting).0
get_one-Answered_example =
    get_one-Answered service pview bview queued primary_laws backup_laws apart_laws background "b:1"
      deleting

in_sync : InSync (view_of deleting)
in_sync id = ground arith

get_one_undoes_delete_example :
    ((t : Book) × (pending "b:1" (queued deleting.redis delete_queue) ≡ some t))
    × (pview (Service.get_one service background "b:1" deleting).1.redis "b:1"
        ≡ some (Service.get_one service background "b:1" deleting).0.0)
    × ¬ InSync (view_of (Service.get_one service background "b:1" deleting).1)
unfolding Service.get_one Redis.get_one Bolt.get_one Bolt.found Redis.add
get_one_undoes_delete_example =
    get_one_undoes_delete service pview bview queued primary_laws backup_laws apart_laws background
      "b:1" deleting in_sync refl refl refl

-- A pop finds a book where one waits.
pub pops :
    (r : Server)
    → first_of queue_ids (queued r) ≢ none
    → (consumer.queue.pop background queue_ids r).0.2 ≡ none
unfolding demo_redis.Queue.pop demo_redis.Queue.popped
pops r h = go (r.lists create_queue) (r.lists update_queue) (r.lists delete_queue) refl refl refl
  where
    go :
        (c u d : List Book)
        → r.lists create_queue ≡ c
        → r.lists update_queue ≡ u
        → r.lists delete_queue ≡ d
        → (consumer.queue.pop background queue_ids r).0.2 ≡ none
    go (b ∷ c) u d ec eu ed = rw ec refl
    go [] (b ∷ u) d ec eu ed = rw (ec, eu) refl
    go [] [] (b ∷ d) ec eu ed = rw (ec, eu, ed) refl
    go [] [] [] ec eu ed = absurd (h (rw (ec, eu, ed) refl))

works :
    Works consumer pview bview queued service.pstorage backup_laws queue_laws apart_laws background
unfolding Bolt.delete Bolt.add Bolt.update
works = record { pops = pops; writes = λ qid b s. ground arith }

consume_catches_up_example :
    ((consume consumer 1 background queue_ids deleting).0 ≡ none)
    × IsQuiet (view_of (consume consumer 1 background queue_ids deleting).1)
    × ((id : String)
        → bview (consume consumer 1 background queue_ids deleting).1.bolt id
          ≡ pview deleting.redis id)
consume_catches_up_example =
    consume_catches_up consumer pview bview queued service.pstorage backup_laws queue_laws
      apart_laws background deleting works in_sync 1 refl

get_all_prefers_backup_example :
    let backup_err = (service.bstorage.get_all background full.bolt).0.1 in
    let backup_books = (service.bstorage.get_all background full.bolt).0.0 in
    let primary_err = (service.pstorage.get_all background full.redis).0.1 in
    let primary_books = (service.pstorage.get_all background full.redis).0.0 in
    let (books, err) = (Service.get_all service background full).0 in
    (backup_err ≡ none)
      × ((id : String) × (b : Book) × (bview full.bolt id ≡ some b))
      × (err ≡ none)
      × (books ≡ backup_books)
      × Lists (bview full.bolt) books
    ⊎ ((backup_err ≢ none) ⊎ ((id : String) → bview full.bolt id ≡ none))
      × (err ≡ primary_err)
      × (books ≡ primary_books)
      × (err ≡ none → Lists (pview full.redis) books)
get_all_prefers_backup_example =
    get_all_prefers_backup service pview bview primary_laws backup_laws background full
