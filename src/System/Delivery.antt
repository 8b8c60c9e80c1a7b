-- ===== src/System/Delivery.antt =====
-- What the service writes reaches the backup: api.services.go,
-- infra.queues.go and infra.consumers.go over the storages of repo.redis.go and repo.bolt.go, from the laws of the two
-- clients and the encoder alone.
use demo_redis.Prelude.{String, ◌≡◌, refl, sym, ap, ◌∙◌, Option, none, Action}
use demo_redis.Book.{Book, Error}
use demo_redis.Context.{Context}
use demo_redis.Clock.{Clocker, Time}
use demo_redis.Redis.{Json, JsonLaws, RedisClient, RedisLaws, Keyspace}
use demo_redis.Bolt.{BoltClient, BoltLaws, Buckets}
use demo_redis.Store.{Books, put, remove}
use demo_redis.Store.Contract.{Implements}
use demo_redis.Store.Redis.Laws as RedisStore
use demo_redis.Store.Bolt.Laws as BoltStore
use demo_redis.Queue.{create_queue, update_queue, delete_queue}
use demo_redis.Queue.Contract.{Queues, Enqueues, AreApart}
use demo_redis.Queue.Laws as RedisQueue
use demo_redis.Queue.Apart.{redis-AreApart}
use demo_redis.Replica
use demo_redis.Replica.{Replica, queue_ids, tombstone}
use demo_redis.Replica.Pending.{pending}
use demo_redis.Replica.Sync.{InSync, IsQuiet, create-InSync, update-InSync, delete-InSync}
use demo_redis.Replica.Drain.{waiting}
use demo_redis.Service.{World, BookService, add, update, delete}
use demo_redis.Service.Abstract.{replica_of}
use demo_redis.Service.Refines.{add_refines, update_refines, delete_refines, stamped}
use demo_redis.Consumer.{BoltDbConsumer, consume}
use demo_redis.Consumer.Refines.{Works, consume_catches_up}
use demo_redis.System.{book_service, bolt_db_consumer}
use mathlib.Core.Path.{subst}

-- Redis and bolt are as they were.
abbrev pub Keeps : {R B E A : Type 0} → Action (World R B E) A → Type 0
Keeps {R} {B} {E} m = (w : World R B E) → ((m w).1.redis ≡ w.redis) × ((m w).1.bolt ≡ w.bolt)

module _ {V R B T E : Type 0} (json : Json V) (redis_client : RedisClient V R)
    (bolt_db_client : BoltClient V B T) (bucket_name : String) (clock : Clocker E)
    (time_string : Time → String) (ctx_err : Context → Action E (Option Error))
    (contents : R → Keyspace V) (content : B → Buckets V) (inside : T → Buckets V)
    (json_laws : JsonLaws json) (redis_laws : RedisLaws redis_client contents)
    (bolt_laws : BoltLaws bolt_db_client content inside) where
  abbrev pub service : BookService R B E
  service = book_service json redis_client bolt_db_client bucket_name clock time_string

  abbrev pub consumer : BoltDbConsumer R B E
  consumer = bolt_db_consumer json redis_client bolt_db_client bucket_name ctx_err

  abbrev pub primary : R → Books
  primary = RedisStore.view json redis_client contents json_laws redis_laws

  abbrev pub backup : B → Books
  backup = BoltStore.view json bolt_db_client bucket_name content inside json_laws bolt_laws

  abbrev pub queued : R → Queues
  queued = RedisQueue.queued json redis_client contents json_laws redis_laws

  pub primary_laws : Implements service.pstorage primary
  primary_laws = RedisStore.redis-Implements json redis_client contents json_laws redis_laws

  pub backup_laws : Implements service.bstorage backup
  backup_laws =
      BoltStore.bolt-Implements json bolt_db_client bucket_name content inside json_laws bolt_laws

  pub queue_laws : Enqueues service.queue queued
  queue_laws = RedisQueue.redis-Enqueues json redis_client contents json_laws redis_laws

  pub apart_laws : AreApart service.pstorage service.queue primary queued
  apart_laws = redis-AreApart json redis_client contents json_laws redis_laws

  abbrev pub seen : World R B E → Replica
  seen = replica_of primary backup queued

  -- The book that `Update` stores, by the proof of its refinement.
  abbrev pub stamp : Book → World R B E → Book
  stamp = stamped service primary backup queued primary_laws queue_laws apart_laws

  -- Redis and bolt answer: a pop finds what is waiting, and every write to the backup succeeds.
  abbrev pub IsUp : Context → Type 0
  IsUp ctx =
      Works consumer primary backup queued service.pstorage backup_laws queue_laws apart_laws ctx

  -- The backup after one round of the consumer, in a world that holds one waiting book.
  pub delivered :
      (cctx : Context) (w : World R B E) (r : Replica)
      → IsUp cctx
      → seen w ≡ r
      → InSync r
      → waiting r ≡ 1
      → (id : String) → backup (consume consumer 1 cctx queue_ids w).1.bolt id ≡ r.primary id
  delivered cctx w r up e sync one id =
      let (_, _, same) =
        consume_catches_up consumer primary backup queued service.pstorage backup_laws queue_laws
          apart_laws cctx w up (subst InSync (sym e) sync) 1 (ap waiting e ∙ one) in
      same id ∙ ap (λ (x : Replica). x.primary id) e

  module _ (cctx : Context) (up : IsUp cctx) (ctx : Context) (w : World R B E)
      (quiet : IsQuiet (seen w)) (sync : InSync (seen w)) where
    -- From a state with empty queues in which the backup holds what the primary holds, a successful
    -- `Add` whose push got through is in the backup after one round of the consumer, while redis and
    -- bolt answer; every other book of the backup is as it was in the primary.
    pub add_reaches_backup :
        (b : Book)
        → (add service ctx b.id b w).0 ≡ none
        → (service.queue.push ctx create_queue b (service.pstorage.add ctx b.id b w.redis).1).0
          ≡ none
        → (id : String)
        → backup (consume consumer 1 cctx queue_ids (add service ctx b.id b w).1).1.bolt id
          ≡ put b.id b (primary w.redis) id
    add_reaches_backup b ok pushed =
        let (ec, eu, ed) = quiet in
        delivered cctx _ (Replica.create b (seen w)) up
          (add_refines service primary backup queued primary_laws queue_laws apart_laws ctx b w ok
            pushed)
          (unfold pending in create-InSync (seen w) b (rw eu refl) (rw ed refl) sync)
          (rw (ec, eu, ed) refl)

    -- From a state with empty queues in which the backup holds what the primary holds, a successful
    -- `Update` whose push got through is in the backup after one round of the consumer, with its new
    -- time, while redis and bolt answer; every other book of the backup is as it was in the primary.
    pub update_reaches_backup :
        (b : Book)
        → (update service ctx b.id b w).0.1 ≡ none
        → (service.queue.push ctx update_queue
            (stamp b w)
            (service.pstorage.update ctx b.id (stamp b w) w.redis).1).0
          ≡ none
        → (id : String)
        → backup (consume consumer 1 cctx queue_ids (update service ctx b.id b w).1).1.bolt id
          ≡ put b.id (stamp b w) (primary w.redis) id
    update_reaches_backup b ok pushed =
        let (ec, eu, ed) = quiet in
        let (e, _) =
          update_refines service primary backup queued primary_laws queue_laws apart_laws ctx b w ok
            pushed in
        delivered cctx _ (Replica.update (stamp b w) (seen w)) up e
          (unfold pending in update-InSync (seen w) (stamp b w) (rw ed refl) sync)
          (rw (ec, eu, ed) refl)

    -- From a state with empty queues in which the backup holds what the primary holds, a book that
    -- `Delete` deleted with success, and whose push got through, is gone from the backup after one round
    -- of the consumer, while redis and bolt answer; every other book of the backup is as it was in the
    -- primary.
    pub delete_reaches_backup :
        (gone : String)
        → (delete service ctx gone w).0 ≡ none
        → (service.queue.push ctx delete_queue
            (tombstone gone)
            (service.pstorage.delete ctx gone w.redis).1).0
          ≡ none
        → (id : String)
        → backup (consume consumer 1 cctx queue_ids (delete service ctx gone w).1).1.bolt id
          ≡ remove gone (primary w.redis) id
    delete_reaches_backup gone ok pushed =
        let (ec, eu, ed) = quiet in
        delivered cctx _ (Replica.delete gone (seen w)) up
          (delete_refines service primary backup queued primary_laws queue_laws apart_laws ctx gone
            w ok pushed)
          (delete-InSync (seen w) gone sync) (rw (ec, eu, ed) refl)

  pub seen-Keeps : (v w : World R B E) → (v.redis ≡ w.redis) × (v.bolt ≡ w.bolt) → seen v ≡ seen w
  seen-Keeps v w (r, b) =
      ap (λ (x : R). record { primary = primary x; backup = backup v.bolt; queued = queued x }) r
      ∙ ap
          (λ (x : B). record {
            primary = primary w.redis;
            backup = backup x;
            queued = queued w.redis;
          })
          b
