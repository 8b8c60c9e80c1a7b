-- ===== src/System/Requests.antt =====
-- Requests that write, from their handlers in api.handlers.book.go through the service to the backup:
-- what they share.
pub mod Create
pub mod Update
pub mod Delete
pub mod Arrival
use demo_redis.Prelude.{String, true, ◌≡◌, ◌≢◌, refl, ap, ◌∙◌, Option, none, some, Action}
use demo_redis.Book.{Book, Error}
use demo_redis.Context.{Context}
use demo_redis.Clock.{Clocker, Time}
use demo_redis.Redis.{Json, JsonLaws, RedisClient, RedisLaws, Keyspace}
use demo_redis.Bolt.{BoltClient, BoltLaws, Buckets}
use demo_redis.Store.{Books, put, remove}
use demo_redis.Store.Contract.{Implements}
use demo_redis.Queue.{create_queue, update_queue, delete_queue}
use demo_redis.Queue.Contract.{Queues, Enqueues, AreApart}
use demo_redis.Replica
use demo_redis.Replica.{Replica, queue_ids, tombstone}
use demo_redis.Replica.Pending.{pending}
use demo_redis.Replica.Sync.{InSync, IsQuiet, create-InSync, update-InSync, delete-InSync}
use demo_redis.Replica.Drain.{waiting}
use demo_redis.Service.{World, BookService, add, update, delete}
use demo_redis.Service.Refines.{add_refines, update_refines, delete_refines}
use demo_redis.Consumer.{BoltDbConsumer, consume}
use demo_redis.Book.Valid.{IsComplete, validate_create_iff, validate_update_iff}
use demo_redis.Ids.{book_id_prefix}
use demo_redis.Response.{base_of}
use demo_redis.Api.{ApiHandler, Request, Params, by_name, Exchange}
use demo_redis.Api.Decode.{decode_request}
use demo_redis.Api.Reply.{IsFresh, IsLive}
use demo_redis.Api.Books.{create_book}
use demo_redis.Api.Books.Write as Write
use demo_redis.Api.Books.{create_book, update_book, delete_one_book}
use demo_redis.Api.Books.Status as Status
use demo_redis.Service.{get_one}
use demo_redis.Service.Lookup.{get_one-replica_of}
use demo_redis.System.Delivery
use demo_redis.System.Delivery.{Keeps}

-- What `NewApp` puts together: the encoder, the clients, the clock, and the laws that are relied on.
pub record Parts (V R B T E : Type 0) : Type 0 where
  pub json : Json V
  pub redis_client : RedisClient V R
  pub bolt_db_client : BoltClient V B T
  pub bucket_name : String
  pub clock : Clocker E
  pub time_string : Time → String
  pub ctx_err : Context → Action E (Option Error)
  pub contents : R → Keyspace V
  pub content : B → Buckets V
  pub inside : T → Buckets V
  pub json_laws : JsonLaws json
  pub redis_laws : RedisLaws redis_client contents
  pub bolt_laws : BoltLaws bolt_db_client content inside

module _ {V R B T E : Type 0} (d : Parts V R B T E) where
  abbrev pub service : BookService R B E
  service =
      Delivery.service d.json d.redis_client d.bolt_db_client d.bucket_name d.clock d.time_string
        d.ctx_err d.contents d.content d.inside d.json_laws d.redis_laws d.bolt_laws

  abbrev pub consumer : BoltDbConsumer R B E
  consumer =
      Delivery.consumer d.json d.redis_client d.bolt_db_client d.bucket_name d.clock d.time_string
        d.ctx_err d.contents d.content d.inside d.json_laws d.redis_laws d.bolt_laws

  abbrev pub primary : R → Books
  primary =
      Delivery.primary d.json d.redis_client d.bolt_db_client d.bucket_name d.clock d.time_string
        d.ctx_err d.contents d.content d.inside d.json_laws d.redis_laws d.bolt_laws

  abbrev pub backup : B → Books
  backup =
      Delivery.backup d.json d.redis_client d.bolt_db_client d.bucket_name d.clock d.time_string
        d.ctx_err d.contents d.content d.inside d.json_laws d.redis_laws d.bolt_laws

  abbrev pub queued : R → Queues
  queued =
      Delivery.queued d.json d.redis_client d.bolt_db_client d.bucket_name d.clock d.time_string
        d.ctx_err d.contents d.content d.inside d.json_laws d.redis_laws d.bolt_laws

  abbrev pub seen : World R B E → Replica
  seen =
      Delivery.seen d.json d.redis_client d.bolt_db_client d.bucket_name d.clock d.time_string
        d.ctx_err d.contents d.content d.inside d.json_laws d.redis_laws d.bolt_laws

  abbrev pub stamp : Book → World R B E → Book
  stamp =
      Delivery.stamp d.json d.redis_client d.bolt_db_client d.bucket_name d.clock d.time_string
        d.ctx_err d.contents d.content d.inside d.json_laws d.redis_laws d.bolt_laws

  abbrev pub IsUp : Context → Type 0
  IsUp =
      Delivery.IsUp d.json d.redis_client d.bolt_db_client d.bucket_name d.clock d.time_string
        d.ctx_err d.contents d.content d.inside d.json_laws d.redis_laws d.bolt_laws

  -- A handler over the service, whose clock, identifiers and contexts do not act on redis or bolt.
  pub record IsOver (api : ApiHandler (World R B E)) : Type 0 where
    pub adds : api.book_service.add ≡ add service
    pub looks_up : api.book_service.get_one ≡ get_one service
    pub deletes : api.book_service.delete ≡ delete service
    pub updates : api.book_service.update ≡ update service
    pub clock_keeps : Keeps api.clock.now
    pub ids_keep : (prefix : String) → Keeps (api.ids_handler.generate prefix)
    pub contexts_keep : (c : Context) → Keeps (api.ctx_err c)
    pub deadlines_keep : (c : Context) → Keeps (api.expires c)

  pub primary_laws : Implements service.pstorage primary
  primary_laws =
      Delivery.primary_laws d.json d.redis_client d.bolt_db_client d.bucket_name d.clock
        d.time_string d.ctx_err d.contents d.content d.inside d.json_laws d.redis_laws d.bolt_laws

  pub backup_laws : Implements service.bstorage backup
  backup_laws =
      Delivery.backup_laws d.json d.redis_client d.bolt_db_client d.bucket_name d.clock
        d.time_string d.ctx_err d.contents d.content d.inside d.json_laws d.redis_laws d.bolt_laws

  pub queue_laws : Enqueues service.queue queued
  queue_laws =
      Delivery.queue_laws d.json d.redis_client d.bolt_db_client d.bucket_name d.clock d.time_string
        d.ctx_err d.contents d.content d.inside d.json_laws d.redis_laws d.bolt_laws

  pub apart_laws : AreApart service.pstorage service.queue primary queued
  apart_laws =
      Delivery.apart_laws d.json d.redis_client d.bolt_db_client d.bucket_name d.clock d.time_string
        d.ctx_err d.contents d.content d.inside d.json_laws d.redis_laws d.bolt_laws

  pub seen-Keeps : (v w : World R B E) → (v.redis ≡ w.redis) × (v.bolt ≡ w.bolt) → seen v ≡ seen w
  seen-Keeps =
      Delivery.seen-Keeps d.json d.redis_client d.bolt_db_client d.bucket_name d.clock d.time_string
        d.ctx_err d.contents d.content d.inside d.json_laws d.redis_laws d.bolt_laws

  pub delivered :
      (cctx : Context) (w : World R B E) (r : Replica)
      → IsUp cctx
      → seen w ≡ r
      → InSync r
      → waiting r ≡ 1
      → (id : String) → backup (consume consumer 1 cctx queue_ids w).1.bolt id ≡ r.primary id
  delivered =
      Delivery.delivered d.json d.redis_client d.bolt_db_client d.bucket_name d.clock d.time_string
        d.ctx_err d.contents d.content d.inside d.json_laws d.redis_laws d.bolt_laws

  -- What is seen once a handler has called the service and answered.
  pub handled :
      (api : ApiHandler (World R B E)) (over : IsOver api) (ctx : Context) (y after : World R B E)
      (s : Replica)
      → y ≡ (api.ctx_err ctx after).1
      → seen after ≡ s
      → seen y ≡ s
  handled api over ctx y after s e h =
      ap seen e ∙ seen-Keeps (api.ctx_err ctx after).1 after (over.contexts_keep ctx after) ∙ h
