-- ===== src/System/Agreement.antt =====
-- The primary and the backup agree: any interleaving of the service of api.services.go and the rounds
-- of the consumer of infra.consumers.go.
use demo_redis.Prelude.{String, ◌≡◌, sym, Option, some, none, Action}
use demo_redis.Book.{Book, Error}
use demo_redis.Context.{Context}
use demo_redis.Clock.{Clocker, Time}
use demo_redis.Redis.{Json, JsonLaws, RedisClient, RedisLaws, Keyspace}
use demo_redis.Bolt.{BoltClient, BoltLaws, Buckets}
use demo_redis.Store.{Books}
use demo_redis.Store.Contract.{Implements}
use demo_redis.Queue.Contract.{Queues, Enqueues, AreApart}
use demo_redis.Queue.{create_queue, update_queue, delete_queue}
use demo_redis.Replica.{Replica, queue_ids, tombstone}
use demo_redis.Replica.Pending.{pending}
use demo_redis.Replica.Sync.{
  InSync, IsQuiet, Step, creates, updates, deletes, consumes, Reach, here, next, Reach-agree,
  drained, update_after_delete,
}
use demo_redis.Service.{World, BookService, add, update, delete}
use demo_redis.Service.Refines.{add_refines, update_refines, delete_refines}
use demo_redis.Consumer.{BoltDbConsumer, round}
use demo_redis.Consumer.Refines.{write_err, round_refines}
use demo_redis.System.Delivery
use mathlib.Core.Path.{subst}

module _ {V R B T E : Type 0} (json : Json V) (redis_client : RedisClient V R)
    (bolt_db_client : BoltClient V B T) (bucket_name : String) (clock : Clocker E)
    (time_string : Time → String) (ctx_err : Context → Action E (Option Error))
    (contents : R → Keyspace V) (content : B → Buckets V) (inside : T → Buckets V)
    (json_laws : JsonLaws json) (redis_laws : RedisLaws redis_client contents)
    (bolt_laws : BoltLaws bolt_db_client content inside) where
  abbrev service : BookService R B E
  service =
      Delivery.service json redis_client bolt_db_client bucket_name clock time_string ctx_err
        contents content inside json_laws redis_laws bolt_laws

  abbrev consumer : BoltDbConsumer R B E
  consumer =
      Delivery.consumer json redis_client bolt_db_client bucket_name clock time_string ctx_err
        contents content inside json_laws redis_laws bolt_laws

  abbrev primary : R → Books
  primary =
      Delivery.primary json redis_client bolt_db_client bucket_name clock time_string ctx_err
        contents content inside json_laws redis_laws bolt_laws

  abbrev backup : B → Books
  backup =
      Delivery.backup json redis_client bolt_db_client bucket_name clock time_string ctx_err
        contents content inside json_laws redis_laws bolt_laws

  abbrev queued : R → Queues
  queued =
      Delivery.queued json redis_client bolt_db_client bucket_name clock time_string ctx_err
        contents content inside json_laws redis_laws bolt_laws

  primary_laws : Implements service.pstorage primary
  primary_laws =
      Delivery.primary_laws json redis_client bolt_db_client bucket_name clock time_string ctx_err
        contents content inside json_laws redis_laws bolt_laws

  backup_laws : Implements service.bstorage backup
  backup_laws =
      Delivery.backup_laws json redis_client bolt_db_client bucket_name clock time_string ctx_err
        contents content inside json_laws redis_laws bolt_laws

  queue_laws : Enqueues service.queue queued
  queue_laws =
      Delivery.queue_laws json redis_client bolt_db_client bucket_name clock time_string ctx_err
        contents content inside json_laws redis_laws bolt_laws

  apart_laws : AreApart service.pstorage service.queue primary queued
  apart_laws =
      Delivery.apart_laws json redis_client bolt_db_client bucket_name clock time_string ctx_err
        contents content inside json_laws redis_laws bolt_laws

  abbrev pub seen : World R B E → Replica
  seen =
      Delivery.seen json redis_client bolt_db_client bucket_name clock time_string ctx_err contents
        content inside json_laws redis_laws bolt_laws

  abbrev stamp : Book → World R B E → Book
  stamp =
      Delivery.stamp json redis_client bolt_db_client bucket_name clock time_string ctx_err contents
        content inside json_laws redis_laws bolt_laws

  -- A successful call of the service whose push got through, or a round of the consumer whose pop and
  -- whose write succeed. A new id has nothing waiting in the queues that are popped after its own, and
  -- an update meets no waiting deletion of its id.
  pub data Move : World R B E → World R B E → Type 0 where
    added :
        (ctx : Context) (b : Book) (w : World R B E)
        → pending b.id ((seen w).queued update_queue) ≡ none
        → pending b.id ((seen w).queued delete_queue) ≡ none
        → (add service ctx b.id b w).0 ≡ none
        → (service.queue.push ctx create_queue b (service.pstorage.add ctx b.id b w.redis).1).0
          ≡ none
        → Move w (add service ctx b.id b w).1
    updated :
        (ctx : Context) (b : Book) (w : World R B E)
        → pending b.id ((seen w).queued delete_queue) ≡ none
        → (update service ctx b.id b w).0.1 ≡ none
        → (service.queue.push ctx update_queue
            (stamp b w)
            (service.pstorage.update ctx b.id (stamp b w) w.redis).1).0
          ≡ none
        → Move w (update service ctx b.id b w).1
    deleted :
        (ctx : Context) (id : String) (w : World R B E)
        → (delete service ctx id w).0 ≡ none
        → (service.queue.push ctx delete_queue
            (tombstone id)
            (service.pstorage.delete ctx id w.redis).1).0
          ≡ none
        → Move w (delete service ctx id w).1
    consumed :
        (ctx : Context) (w : World R B E)
        → (consumer.queue.pop ctx queue_ids w.redis).0.2 ≡ none
        → write_err consumer ctx
            (consumer.queue.pop ctx queue_ids w.redis).0.0
            (consumer.queue.pop ctx queue_ids w.redis).0.1
            w.bolt
          ≡ none
        → Move w (round consumer ctx queue_ids w).1

  pub data Run (w : World R B E) : World R B E → Type 0 where
    start : Run w w
    then_moves : {u v : World R B E} → Run w u → Move u v → Run w v

  Move-Step : {u v : World R B E} → Move u v → Step (seen u) (seen v)
  Move-Step (added ctx b w hu hd ok pushed) =
      subst (Step (seen w))
        (sym (
          add_refines service primary backup queued primary_laws queue_laws apart_laws ctx b w ok
            pushed))
        (creates (seen w) b hu hd)
  Move-Step (updated ctx b w hd ok pushed) =
      let (e, _) =
        update_refines service primary backup queued primary_laws queue_laws apart_laws ctx b w ok
          pushed in
      subst (Step (seen w)) (sym e) (updates (seen w) (stamp b w) hd)
  Move-Step (deleted ctx id w ok pushed) =
      subst (Step (seen w))
        (sym (
          delete_refines service primary backup queued primary_laws queue_laws apart_laws ctx id w
            ok pushed))
        (deletes (seen w) id)
  Move-Step (consumed ctx w popped written) =
      let (_, e) =
        round_refines consumer primary backup queued service.pstorage backup_laws queue_laws
          apart_laws ctx w popped written in
      subst (Step (seen w)) (sym e) (consumes (seen w))

  Run-Reach : {u v : World R B E} → Run u v → Reach (seen u) (seen v)
  Run-Reach start = here
  Run-Reach (then_moves path m) = next (Run-Reach path) (Move-Step m)

  -- From a state in which the backup is in step with the primary, after any interleaving of successful
  -- calls of the service whose pushes got through, where an id that is created has no update or
  -- deletion waiting and an updated one no deletion, and of rounds of the consumer that succeed:
  -- whenever the queues are empty the backup in bolt holds what the primary in redis holds.
  pub moves-agree :
      {u v : World R B E}
      → InSync (seen u)
      → Run u v
      → IsQuiet (seen v)
      → (id : String) → (seen v).backup id ≡ (seen v).primary id
  moves-agree h path quiet id = Reach-agree h (Run-Reach path) quiet id

  -- A successful `Update` whose push got through, of a book with a deletion still waiting, is lost to
  -- the backup: the primary holds the updated book, while the backup holds none once the waiting books
  -- are popped in their order, so that the two are not in step.
  pub update_lost :
      (ctx : Context) (b t : Book) (w : World R B E)
      → pending b.id ((seen w).queued delete_queue) ≡ some t
      → (update service ctx b.id b w).0.1 ≡ none
      → (service.queue.push ctx update_queue
          (stamp b w)
          (service.pstorage.update ctx b.id (stamp b w) w.redis).1).0
        ≡ none
      → ((seen (update service ctx b.id b w).1).primary b.id ≡ some (stamp b w))
        × (drained (seen (update service ctx b.id b w).1) b.id ≡ none)
        × ¬ InSync (seen (update service ctx b.id b w).1)
  update_lost ctx b t w hd ok pushed =
      let (e, _) =
        update_refines service primary backup queued primary_laws queue_laws apart_laws ctx b w ok
          pushed in
      subst
        (λ (r : Replica).
          (r.primary b.id ≡ some (stamp b w)) × (drained r b.id ≡ none) × ¬ InSync r)
        (sym e) (update_after_delete (seen w) (stamp b w) t hd)
