-- ===== src/System/Losses.antt =====
-- What the backup loses where a push of api.services.go or a write of infra.consumers.go fails: both
-- are logged, and neither is tried again.
use demo_redis.Prelude.{◌≡◌, ◌≢◌, refl, sym, ap, ◌∙◌, Option, none, some, arith, eq_refl}
use demo_redis.Book.{Book, Error}
use demo_redis.Context.{Context}
use demo_redis.Store.{BookStorage, Books}
use demo_redis.Store.Contract.{Implements}
use demo_redis.Queue.{create_queue, update_queue, delete_queue}
use demo_redis.Queue.Contract.{Queues, Enqueues, AreApart, first_of}
use demo_redis.Replica.{Replica, queue_ids}
use demo_redis.Replica.Pending.{pending, unless}
use demo_redis.Replica.Sync.{InSync, drained, drained_lem}
use demo_redis.Service.{World, BookService, add}
use demo_redis.Service.Abstract.{replica_of}
use demo_redis.Consumer.{BoltDbConsumer, apply, round, continued}
use demo_redis.Consumer.Refines.{round-state}

unless-some : (o m : Option Book) (b : Book) → unless o m ≡ some b → m ≡ some b
unless-some none m b e = e
unless-some (some c) m b e = ground arith

module _ {R B E : Type 0} (bs : BookService R B E) (pview : R → Books) (bview : B → Books)
    (queued : R → Queues) (pstore : Implements bs.pstorage pview)
    (apart : AreApart bs.pstorage bs.queue pview queued) where
  add-unpushed :
      (ctx : Context) (b : Book) (w : World R B E) (e : Error)
      → (bs.pstorage.add ctx b.id b w.redis).0 ≡ none
      → (bs.queue.push ctx create_queue b (bs.pstorage.add ctx b.id b w.redis).1).0 ≡ some e
      → add bs ctx b.id b w ≡ (
        none,
        record w {
          redis = (bs.queue.push ctx create_queue b (bs.pstorage.add ctx b.id b w.redis).1).1;
        },
      )
  unfolding add
  add-unpushed ctx b w e ok failed = ground arith

  -- If the primary takes the book of an `Add` while the push fails and leaves the queues alone, and
  -- the backup was not due to hold that very book, `Add` reports success all the same: the primary
  -- holds the book, the backup is due to hold what it was due to hold before, and so it is out of step.
  pub unpushed_lost :
      (ctx : Context) (b : Book) (w : World R B E) (e : Error)
      → (bs.pstorage.add ctx b.id b w.redis).0 ≡ none
      → (bs.queue.push ctx create_queue b (bs.pstorage.add ctx b.id b w.redis).1).0 ≡ some e
      → queued (bs.queue.push ctx create_queue b (bs.pstorage.add ctx b.id b w.redis).1).1
        ≡ queued (bs.pstorage.add ctx b.id b w.redis).1
      → drained (replica_of pview bview queued w) b.id ≢ some b
      → let (answer, w') = add bs ctx b.id b w in
        let after = replica_of pview bview queued w' in
        (answer ≡ none)
        × (after.primary b.id ≡ some b)
        × (drained after ≡ drained (replica_of pview bview queued w))
        × ¬ InSync after
  unpushed_lost ctx b w e ok failed kept absent =
      let held =
        apart.view-push ctx create_queue b (bs.pstorage.add ctx b.id b w.redis).1
        ∙ pstore.add_ok ctx b.id b w.redis ok in
      let same_queues = kept ∙ apart.queued-add ctx b.id b w.redis in
      let there : pview (bs.queue.push ctx create_queue b (bs.pstorage.add ctx b.id b w.redis).1).1
            b.id
          ≡ some b =
        ap (λ (m : Books). m b.id) held ∙ rw (eq_refl b.id) in
      let due : drained (record {
        primary = pview (bs.queue.push ctx create_queue b (bs.pstorage.add ctx b.id b w.redis).1).1;
        backup = bview w.bolt;
        queued = queued (bs.queue.push ctx create_queue b (bs.pstorage.add ctx b.id b w.redis).1).1;
      })
          ≡ drained (replica_of pview bview queued w) =
        ap
          (λ (q : Queues).
            drained (record { primary = pview w.redis; backup = bview w.bolt; queued = q }))
          same_queues in
      rw (add-unpushed ctx b w e ok failed) (
        refl,
        there,
        due,
        λ sync. absent (sym (ap (λ (m : Books). m b.id) due) ∙ sync b.id ∙ there),
      )

module _ {R B E : Type 0} (bc : BoltDbConsumer R B E) (pview : R → Books) (bview : B → Books)
    (queued : R → Queues) (st : BookStorage R) (queues : Enqueues bc.queue queued)
    (apart : AreApart st bc.queue pview queued) where
  round-failed :
      (ctx : Context) (b : Book) (w : World R B E)
      → (bc.queue.pop ctx queue_ids w.redis).0 ≡ (create_queue, b, none)
      → round bc ctx queue_ids w ≡ (
        continued,
        record w {
          redis = (bc.queue.pop ctx queue_ids w.redis).1;
          bolt = (bc.repo.add ctx b.id b w.bolt).1;
        },
      )
  unfolding apply
  round-failed ctx b w popped = round-state bc ctx queue_ids w (rw popped refl) ∙ rw popped refl

  -- If the consumer pops a created book that the primary holds, the backup does not hold it, the write
  -- leaves the backup as it was (as a write that fails does), and no other creation or update of its id
  -- waits, then the loop goes on without the book: it has left the queue, backup and primary are as they
  -- were, and the backup is out of step.
  pub failed_write_lost :
      (ctx : Context) (b : Book) (w : World R B E)
      → (bc.queue.pop ctx queue_ids w.redis).0 ≡ (create_queue, b, none)
      → bview (bc.repo.add ctx b.id b w.bolt).1 ≡ bview w.bolt
      → pview w.redis b.id ≡ some b
      → bview w.bolt b.id ≢ some b
      → pending b.id (queued (bc.queue.pop ctx queue_ids w.redis).1 create_queue) ≡ none
      → pending b.id (queued (bc.queue.pop ctx queue_ids w.redis).1 update_queue) ≡ none
      → let (r, w') = round bc ctx queue_ids w in
        let before = replica_of pview bview queued w in
        let after = replica_of pview bview queued w' in
        (r ≡ continued)
        × (first_of queue_ids before.queued ≡ some (create_queue, b, after.queued))
        × (after.backup ≡ before.backup)
        × (after.primary ≡ before.primary)
        × ¬ InSync after
  failed_write_lost ctx b w popped kept here absent none_created none_updated =
      let found = queues.pop_ok ctx queue_ids w.redis (rw popped refl) in
      let held = apart.view-pop ctx queue_ids w.redis in
      let after : Replica = record {
        primary = pview (bc.queue.pop ctx queue_ids w.redis).1;
        backup = bview (bc.repo.add ctx b.id b w.bolt).1;
        queued = queued (bc.queue.pop ctx queue_ids w.redis).1;
      } in
      rw (round-failed ctx b w popped) (
        refl,
        found ∙ rw popped refl,
        kept,
        held,
        λ sync. absent (
            sym (ap (λ (m : Books). m b.id) kept)
            ∙ unless-some (pending b.id (after.queued delete_queue)) (after.backup b.id) b (
                (rw (none_updated, none_created) refl)
                ∙ sym (drained_lem after b.id)
                ∙ sync b.id
                ∙ ap (λ (m : Books). m b.id) held
                ∙ here)),
      )
