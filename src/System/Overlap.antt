-- ===== src/System/Overlap.antt =====
-- Requests that overlap: the accesses that the calls of api.services.go make to redis, and those of the
-- loop of infra.consumers.go, in any order. A call may be overtaken between its write and the push that
-- it makes next, and the consumer between its pop and its write.
pub mod Agree
pub mod Whole
pub mod Race
use demo_redis.Prelude.{String, ◌≡◌, Option, none, some, List, [], ◌∷◌, ◌++◌, All}
use demo_redis.Book.{Book}
use demo_redis.Context.{Context}
use demo_redis.Replica.{queue_ids, tombstone}
use demo_redis.Replica.Overlap.{Kind, creation, updating, deletion, Pushes, queue_of}
use demo_redis.Service.{World, BookService}
use demo_redis.Consumer.{BoltDbConsumer, apply}
use demo_redis.Consumer.Refines.{write_err}

-- The outside of the program, the pushes that the calls under way owe, and the book that the consumer
-- holds, with the id of its queue.
pub record Busy (R B E : Type 0) : Type 0 where
  pub world : World R B E
  pub owed : Pushes
  pub held : Option (String × Book)

-- No call is under way.
abbrev pub at_rest : {R B E : Type 0} → World R B E → Busy R B E
at_rest w = record { world = w; owed = []; held = none }

module _ {R B E : Type 0} (bs : BookService R B E) (bc : BoltDbConsumer R B E) where
  abbrev pub clock_read : Busy R B E → Busy R B E
  clock_read x = record x { world = record (x.world) { env = (bs.clock.now x.world.env).1 } }

  -- `GetOne` has asked the primary storage, and the backup storage.
  abbrev pub primary_asked : Context → String → Busy R B E → Busy R B E
  primary_asked ctx id x = record x {
    world = record (x.world) { redis = (bs.pstorage.get_one ctx id x.world.redis).1 };
  }

  abbrev pub backup_asked : Context → String → Busy R B E → Busy R B E
  backup_asked ctx id x = record x {
    world = record (x.world) { bolt = (bs.bstorage.get_one ctx id x.world.bolt).1 };
  }

  -- `Add`, `Update` and `Delete` have written, and have still to push.
  abbrev pub book_added : Context → Book → Busy R B E → Busy R B E
  book_added ctx b x = record x {
    world = record (x.world) { redis = (bs.pstorage.add ctx b.id b x.world.redis).1 };
    owed = x.owed ++ (creation, b) ∷ [];
  }

  abbrev pub book_updated : Context → Book → Busy R B E → Busy R B E
  book_updated ctx b x = record x {
    world = record (x.world) { redis = (bs.pstorage.update ctx b.id b x.world.redis).1 };
    owed = x.owed ++ (updating, b) ∷ [];
  }

  abbrev pub book_deleted : Context → String → Busy R B E → Busy R B E
  book_deleted ctx id x = record x {
    world = record (x.world) { redis = (bs.pstorage.delete ctx id x.world.redis).1 };
    owed = x.owed ++ (deletion, tombstone id) ∷ [];
  }

  -- A push is made, and the others are still owed.
  abbrev pub book_pushed : Context → Kind → Book → Pushes → Busy R B E → Busy R B E
  book_pushed ctx k b rest x = record x {
    world = record (x.world) { redis = (bs.queue.push ctx (queue_of k) b x.world.redis).1 };
    owed = rest;
  }

  -- The consumer has popped a book, and has written it.
  abbrev pub book_popped : Context → Busy R B E → Busy R B E
  book_popped ctx x = record x {
    world = record (x.world) { redis = (bc.queue.pop ctx queue_ids x.world.redis).1 };
    held = some (
      (bc.queue.pop ctx queue_ids x.world.redis).0.0,
      (bc.queue.pop ctx queue_ids x.world.redis).0.1,
    );
  }

  abbrev pub book_stored : Context → String → Book → Busy R B E → Busy R B E
  book_stored ctx qid b x = record x {
    world = record (x.world) { bolt = (apply bc ctx qid b x.world.bolt).1 };
    held = none;
  }

  -- One access; a write, a push or a pop is one that succeeds. A call that writes is let in where
  -- `Admits` holds. The write with which `GetOne` puts a book of the backup back is left out.
  pub data Access (Admits : Busy R B E → Kind → Book → Type 0) (x : Busy R B E)
      : Busy R B E → Type 0 where
    -- `Update` reads the clock
    reads_clock : Access Admits x (clock_read x)
    -- `GetOne` asks the primary storage
    asks : (ctx : Context) (id : String) → Access Admits x (primary_asked ctx id x)
    -- it asks the backup storage
    asks_backup : (ctx : Context) (id : String) → Access Admits x (backup_asked ctx id x)
    -- `Add` adds its book
    adds :
        (ctx : Context) (b : Book)
        → Admits x creation b
        → (bs.pstorage.add ctx b.id b x.world.redis).0 ≡ none
        → Access Admits x (book_added ctx b x)
    -- `Update` stores its book, which has its time
    updates :
        (ctx : Context) (b : Book)
        → Admits x updating b
        → (bs.pstorage.update ctx b.id b x.world.redis).0.1 ≡ none
        → Access Admits x (book_updated ctx b x)
    -- `Delete` deletes the id
    deletes :
        (ctx : Context) (id : String)
        → Admits x deletion (tombstone id)
        → (bs.pstorage.delete ctx id x.world.redis).0 ≡ none
        → Access Admits x (book_deleted ctx id x)
    -- any call that owes a push makes it
    pushes :
        (ctx : Context) (k : Kind) (b : Book) (front back : Pushes)
        → x.owed ≡ front ++ (k, b) ∷ back
        → (bs.queue.push ctx (queue_of k) b x.world.redis).0 ≡ none
        → Access Admits x (book_pushed ctx k b (front ++ back) x)
    -- the consumer pops a book
    pops :
        (ctx : Context)
        → x.held ≡ none
        → (bc.queue.pop ctx queue_ids x.world.redis).0.2 ≡ none
        → Access Admits x (book_popped ctx x)
    -- it writes the book that it holds
    stores :
        (ctx : Context) (qid : String) (b : Book)
        → x.held ≡ some (qid, b)
        → write_err bc ctx qid b x.world.bolt ≡ none
        → Access Admits x (book_stored ctx qid b x)

  pub data Accesses (Admits : Busy R B E → Kind → Book → Type 0) (x : Busy R B E)
      : Busy R B E → Type 0 where
    start : Accesses Admits x x
    more : {y z : Busy R B E} → Accesses Admits x y → Access Admits y z → Accesses Admits x z
