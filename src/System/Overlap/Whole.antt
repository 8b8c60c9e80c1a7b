-- ===== src/System/Overlap/Whole.antt =====
-- The calls of api.services.go, and a round of infra.consumers.go, when no other goroutine comes
-- between their accesses.
use demo_redis.Prelude.{String, ◌≡◌, refl, sym, Option, none, [], ◌∷◌, ◌++◌, arith}
use demo_redis.Book.{Book}
use demo_redis.Context.{Context}
use demo_redis.Queue.{create_queue, update_queue, delete_queue}
use demo_redis.Replica.{queue_ids, tombstone}
use demo_redis.Replica.Overlap.{Kind, creation, updating, deletion, Pushes, queue_of}
use demo_redis.Service.{World, BookService, add, update, delete}
use demo_redis.Service.Refines.{add-stored, update-stored, delete-stored, timed}
use demo_redis.Consumer.{BoltDbConsumer, apply, round}
use demo_redis.Consumer.Refines.{write_err, round-state}
use demo_redis.System.Overlap.{
  Busy, reads_clock, adds, updates, deletes, pushes, pops, stores, Accesses, start, more,
}
use mathlib.Core.List.{append-nil}
use mathlib.Core.Path.{subst}

module _ {R B E : Type 0} (bs : BookService R B E) (bc : BoltDbConsumer R B E)
    (Admits : Busy R B E → Kind → Book → Type 0) (x : Busy R B E) where
  -- A call writes, and at once makes its push.
  write_then_push :
      (ctx : Context) (k : Kind) (b : Book) (w : World R B E)
      → Accesses bs bc Admits x (record x { world = w; owed = x.owed ++ (k, b) ∷ [] })
      → (bs.queue.push ctx (queue_of k) b w.redis).0 ≡ none
      → Accesses bs bc Admits x
          (record x { world = record w { redis = (bs.queue.push ctx (queue_of k) b w.redis).1 } })
  write_then_push ctx k b w path ok =
      subst
        (λ (owed : Pushes). Accesses bs bc Admits x (record x {
          world = record w { redis = (bs.queue.push ctx (queue_of k) b w.redis).1 };
          owed = owed;
        }))
        (append-nil x.owed) (more path (pushes ctx k b x.owed [] refl ok))

  pub whole_add :
      (ctx : Context) (b : Book)
      → Admits x creation b
      → (add bs ctx b.id b x.world).0 ≡ none
      → (bs.queue.push ctx create_queue b (bs.pstorage.add ctx b.id b x.world.redis).1).0 ≡ none
      → Accesses bs bc Admits x (record x { world = (add bs ctx b.id b x.world).1 })
  unfolding add
  whole_add ctx b admitted ok pushed =
      let stored : (bs.pstorage.add ctx b.id b x.world.redis).0 ≡ none = ground arith in
      rw (add-stored bs ctx b.id b x.world stored)
        (write_then_push ctx creation b _ (more start (adds ctx b admitted stored)) pushed)

  pub whole_update :
      (ctx : Context) (b : Book)
      → let t = timed bs b x.world in
        Admits
          (record x { world = record (x.world) { env = (bs.clock.now x.world.env).1 } })
          updating
          t
        → (update bs ctx b.id b x.world).0.1 ≡ none
        → (bs.queue.push ctx update_queue t (bs.pstorage.update ctx b.id t x.world.redis).1).0
          ≡ none
        → Accesses bs bc Admits x (record x { world = (update bs ctx b.id b x.world).1 })
  unfolding update
  whole_update ctx b admitted ok pushed =
      let t = timed bs b x.world in
      let stored : (bs.pstorage.update ctx b.id t x.world.redis).0.1 ≡ none = ground arith in
      let (world, answer) = update-stored bs ctx b.id b x.world stored in
      rw world (
        write_then_push ctx updating t _
          (more (more start reads_clock) (updates ctx t admitted stored)) pushed)

  pub whole_delete :
      (ctx : Context) (id : String)
      → Admits x deletion (tombstone id)
      → (delete bs ctx id x.world).0 ≡ none
      → (bs.queue.push ctx delete_queue
          (tombstone id)
          (bs.pstorage.delete ctx id x.world.redis).1).0
        ≡ none
      → Accesses bs bc Admits x (record x { world = (delete bs ctx id x.world).1 })
  unfolding delete
  whole_delete ctx id admitted ok pushed =
      let stored : (bs.pstorage.delete ctx id x.world.redis).0 ≡ none = ground arith in
      rw (delete-stored bs ctx id x.world stored) (
        write_then_push ctx deletion (tombstone id) _ (more start (deletes ctx id admitted stored))
          pushed)

  pub whole_round :
      (ctx : Context)
      → x.held ≡ none
      → (bc.queue.pop ctx queue_ids x.world.redis).0.2 ≡ none
      → write_err bc ctx
          (bc.queue.pop ctx queue_ids x.world.redis).0.0
          (bc.queue.pop ctx queue_ids x.world.redis).0.1
          x.world.bolt
        ≡ none
      → Accesses bs bc Admits x (record x { world = (round bc ctx queue_ids x.world).1 })
  whole_round ctx free popped written = rw (round-state bc ctx queue_ids x.world popped) (
      subst
        (λ (held : Option (String × Book)). Accesses bs bc Admits x (record x {
          world = record (x.world) {
            redis = (bc.queue.pop ctx queue_ids x.world.redis).1;
            bolt =
                (apply bc ctx (bc.queue.pop ctx queue_ids x.world.redis).0.0
                  (bc.queue.pop ctx queue_ids x.world.redis).0.1 x.world.bolt).1;
          };
          held = held;
        }))
        (sym free) (more (more start (pops ctx free popped)) (stores ctx _ _ refl written)))
