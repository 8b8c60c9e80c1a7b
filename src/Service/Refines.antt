-- ===== src/Service/Refines.antt =====
-- The writers of api.services.go against the abstract view of Replica.antt.
use demo_redis.Prelude.{String, ◌≡◌, refl, ap, ◌∙◌, none, arith}
use demo_redis.Book.{Book}
use demo_redis.Context.{Context}
use demo_redis.Store.{Books}
use demo_redis.Store.Contract.{Implements}
use demo_redis.Queue.{create_queue, update_queue, delete_queue}
use demo_redis.Queue.Contract.{Queues, Enqueues, AreApart, append}
use demo_redis.Replica
use demo_redis.Replica.{Replica}
use demo_redis.Service.Abstract.{replica_of}
use demo_redis.Service.{World, BookService, add, delete, update}

module _ {R B E : Type 0} (bs : BookService R B E) where
  -- The state after the two calls that a successful writer makes.
  pub add-stored :
      (ctx : Context) (id : String) (b : Book) (w : World R B E)
      → (bs.pstorage.add ctx id b w.redis).0 ≡ none
      → (add bs ctx id b w).1 ≡ record w {
        redis = (bs.queue.push ctx create_queue b (bs.pstorage.add ctx id b w.redis).1).1;
      }
  unfolding add
  add-stored ctx id b w p = ground arith

  pub delete-stored :
      (ctx : Context) (id : String) (w : World R B E)
      → (bs.pstorage.delete ctx id w.redis).0 ≡ none
      → (delete bs ctx id w).1 ≡ record w {
        redis =
            (bs.queue.push ctx delete_queue
              (Replica.tombstone id)
              (bs.pstorage.delete ctx id w.redis).1).1;
      }
  unfolding delete
  delete-stored ctx id w p = ground arith

  abbrev pub timed : Book → World R B E → Book
  timed b w = record b { updated_at = bs.time_string (bs.clock.now w.env).0 }

  pub update-stored :
      (ctx : Context) (id : String) (b : Book) (w : World R B E)
      → (bs.pstorage.update ctx id (timed b w) w.redis).0.1 ≡ none
      → ((update bs ctx id b w).1 ≡ record w {
        redis =
            (bs.queue.push ctx update_queue
              (timed b w)
              (bs.pstorage.update ctx id (timed b w) w.redis).1).1;
        env = (bs.clock.now w.env).1;
      })
        × ((update bs ctx id b w).0.0 ≡ (bs.pstorage.update ctx id (timed b w) w.redis).0.0)
  unfolding update
  update-stored ctx id b w p = (ground arith, ground arith)

module _ {R B E : Type 0} (bs : BookService R B E) (pview : R → Books) (bview : B → Books)
    (queued : R → Queues) (pstore : Implements bs.pstorage pview)
    (queues : Enqueues bs.queue queued) (apart : AreApart bs.pstorage bs.queue pview queued) where
  -- What the primary storage and the queue hold after a write of the one and a push onto the other.
  published :
      (ctx : Context) (qid : String) (b : Book) (r : R) (m : Books) (q : Queues)
      → pview r ≡ m
      → queued r ≡ q
      → (bs.queue.push ctx qid b r).0 ≡ none
      → (pview (bs.queue.push ctx qid b r).1 ≡ m)
        × (queued (bs.queue.push ctx qid b r).1 ≡ append qid b q)
  published ctx qid b r m q e f ok =
      (apart.view-push ctx qid b r ∙ e, queues.push_ok ctx qid b r ok ∙ ap (append qid b) f)

  -- A successful `Add` whose push got through is the abstract creation.
  pub add_refines :
      (ctx : Context) (b : Book) (w : World R B E)
      → (add bs ctx b.id b w).0 ≡ none
      → (bs.queue.push ctx create_queue b (bs.pstorage.add ctx b.id b w.redis).1).0 ≡ none
      → replica_of pview bview queued (add bs ctx b.id b w).1
        ≡ Replica.create b (replica_of pview bview queued w)
  unfolding add
  add_refines ctx b w ok pushed =
      let p : (bs.pstorage.add ctx b.id b w.redis).0 ≡ none = ground arith in
      let (view, queue) =
        published ctx create_queue b _ _ _ (pstore.add_ok ctx b.id b w.redis p)
          (apart.queued-add ctx b.id b w.redis) pushed in
      rw (add-stored bs ctx b.id b w p) (Replica.Replica-eq view refl queue)

  -- A successful `Delete` whose push got through is the abstract deletion.
  pub delete_refines :
      (ctx : Context) (id : String) (w : World R B E)
      → (delete bs ctx id w).0 ≡ none
      → (bs.queue.push ctx delete_queue
          (Replica.tombstone id)
          (bs.pstorage.delete ctx id w.redis).1).0
        ≡ none
      → replica_of pview bview queued (delete bs ctx id w).1
        ≡ Replica.delete id (replica_of pview bview queued w)
  unfolding delete
  delete_refines ctx id w ok pushed =
      let p : (bs.pstorage.delete ctx id w.redis).0 ≡ none = ground arith in
      let (view, queue) =
        published ctx delete_queue (Replica.tombstone id) _ _ _ (pstore.delete_ok ctx id w.redis p)
          (apart.queued-delete ctx id w.redis) pushed in
      rw (delete-stored bs ctx id w p) (Replica.Replica-eq view refl queue)

  -- The book that `Update` stores: the given one, stamped with the current time.
  abbrev pub stamped : Book → World R B E → Book
  stamped b w = timed bs b w

  -- A successful `Update` whose push got through is the abstract update with the stamped book, which
  -- it also returns.
  pub update_refines :
      (ctx : Context) (b : Book) (w : World R B E)
      → (update bs ctx b.id b w).0.1 ≡ none
      → (bs.queue.push ctx update_queue
          (stamped b w)
          (bs.pstorage.update ctx b.id (stamped b w) w.redis).1).0
        ≡ none
      → (replica_of pview bview queued (update bs ctx b.id b w).1
          ≡ Replica.update (stamped b w) (replica_of pview bview queued w))
        × ((update bs ctx b.id b w).0.0 ≡ stamped b w)
  unfolding update
  update_refines ctx b w ok pushed =
      let p : (bs.pstorage.update ctx b.id (stamped b w) w.redis).0.1 ≡ none = ground arith in
      let (view, queue) =
        published ctx update_queue (stamped b w) _ _ _
          (pstore.update_ok ctx b.id (stamped b w) w.redis p)
          (apart.queued-update ctx b.id (stamped b w) w.redis) pushed in
      let (world, answer) = update-stored bs ctx b.id b w p in
      (
        rw world (Replica.Replica-eq view refl queue),
        answer ∙ pstore.update_echo ctx b.id (stamped b w) w.redis,
      )
