-- ===== src/System/Requests/Update.antt =====
-- What `UpdateBook` leaves behind, where it succeeds.
use demo_redis.Prelude.{◌≡◌, ◌≢◌, ap, ◌∙◌, Option, none}
use demo_redis.Book.{Book, Error}
use demo_redis.Queue.{update_queue}
use demo_redis.Replica
use demo_redis.Replica.{Replica, queue_ids, tombstone}
use demo_redis.Service.{World, update}
use demo_redis.Service.Refines.{update_refines}
use demo_redis.Book.Valid.{IsComplete, validate_update_iff}
use demo_redis.Api.{ApiHandler, Request, Params, Exchange}
use demo_redis.Api.Decode.{decode_request}
use demo_redis.Api.Reply.{IsFresh, IsLive, Answers}
use demo_redis.Api.Books.{update_book}
use demo_redis.Api.Books.Write as Write
use demo_redis.System.Requests.{
  Parts, service, primary, backup, queued, seen, stamp, IsOver, primary_laws, queue_laws,
  apart_laws,
}

module _ {V R B T E : Type 0} (d : Parts V R B T E) (api : ApiHandler (World R B E))
    (over : IsOver d api) (r : Request) (live : IsLive api r.context) (x : Exchange (World R B E))
    (fresh : IsFresh x.writer) where
  -- A complete book that is updated with success is answered with 200, and is then in the primary with
  -- its new time and waits for the backup.
  pub update_book-seen :
      (ps : Params)
      → (decode_request api r).1 ≡ none
      → (let b = Write.submitted api r live x fresh in
          IsComplete b × (b.id ≢ "") × (b.created_at ≢ ""))
      → let b = Write.submitted api r live x fresh in
        (update (service d) r.context b.id b x.world).0.1 ≡ none
        → ((service d).queue.push r.context update_queue
            (stamp d b x.world)
            ((service d).pstorage.update r.context b.id (stamp d b x.world) x.world.redis).1).0
          ≡ none
        → Answers api r.context 200 (Write.updated api r live x fresh).1 (update_book api r ps x)
          × (seen d (Write.updated api r live x fresh).1
              ≡ Replica.update (stamp d b x.world) (seen d x.world))
  update_book-seen ps decoded complete ok pushed =
      let b = Write.submitted api r live x fresh in
      let was_updated : Write.updated api r live x fresh
          ≡ update (service d) r.context b.id b x.world =
        ap (λ f. f r.context b.id b x.world) over.updates in
      (
        Write.update_book-valid api r live x fresh none decoded ((validate_update_iff b).1 complete)
            (ap (λ (a : (Book × Option Error) × World R B E). a.0.1) was_updated ∙ ok) ps,
        ap (λ (a : (Book × Option Error) × World R B E). seen d a.1) was_updated
            ∙ (update_refines (service d) (primary d) (backup d) (queued d) (primary_laws d)
                (queue_laws d) (apart_laws d) r.context b x.world ok pushed).0,
      )
