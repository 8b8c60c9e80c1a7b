-- ===== src/System/Requests/Create.antt =====
-- What `CreateBook` leaves behind, where it succeeds.
use demo_redis.Prelude.{◌≡◌, ap, ◌∙◌, Option, none}
use demo_redis.Book.{Error}
use demo_redis.Queue.{create_queue}
use demo_redis.Replica
use demo_redis.Replica.{Replica, queue_ids, tombstone}
use demo_redis.Service.{World, add}
use demo_redis.Service.Refines.{add_refines}
use demo_redis.Book.Valid.{IsComplete, validate_create_iff}
use demo_redis.Ids.{book_id_prefix}
use demo_redis.Api.{ApiHandler, Request, Params, Exchange}
use demo_redis.Api.Decode.{decode_request}
use demo_redis.Api.Reply.{IsFresh, IsLive, Answers}
use demo_redis.Api.Books.{create_book}
use demo_redis.Api.Books.Write as Write
use demo_redis.System.Requests.{
  Parts, service, primary, backup, queued, seen, IsOver, primary_laws, queue_laws, apart_laws,
  seen-Keeps,
}

module _ {V R B T E : Type 0} (d : Parts V R B T E) (api : ApiHandler (World R B E))
    (over : IsOver d api) (r : Request) (live : IsLive api r.context) (x : Exchange (World R B E))
    (fresh : IsFresh x.writer) where
  -- the world in which the service is called
  abbrev pub called : World R B E
  called = (api.clock.now (api.clock.now (Write.w_id api r live x fresh).1).1).1

  called-seen : seen d called ≡ seen d x.world
  called-seen =
      let w1 = (Write.w_id api r live x fresh).1 in
      let w2 = (api.clock.now w1).1 in
      seen-Keeps d called w2 (over.clock_keeps w2)
      ∙ seen-Keeps d w2 w1 (over.clock_keeps w1)
      ∙ seen-Keeps d w1 x.world (over.ids_keep book_id_prefix x.world)

  -- A complete book that is added with success is answered with 201, and is then in the primary and
  -- waits for the backup.
  pub create_book-seen :
      (ps : Params)
      → (decode_request api r).1 ≡ none
      → IsComplete (Write.submitted api r live x fresh)
      → let b = Write.stamped api r live x fresh in
        (add (service d) r.context b.id b called).0 ≡ none
        → ((service d).queue.push r.context create_queue b
            ((service d).pstorage.add r.context b.id b called.redis).1).0
          ≡ none
        → Answers api r.context 201 (Write.added api r live x fresh).1 (create_book api r ps x)
          × (seen d (Write.added api r live x fresh).1 ≡ Replica.create b (seen d x.world))
  create_book-seen ps decoded complete ok pushed =
      let b = Write.stamped api r live x fresh in
      let was_added : Write.added api r live x fresh ≡ add (service d) r.context b.id b called =
        ap (λ f. f r.context b.id b called) over.adds in
      (
        Write.create_book-valid api r live x fresh ps none decoded
            ((validate_create_iff (Write.submitted api r live x fresh)).1 complete)
            (ap (λ (a : Option Error × World R B E). a.0) was_added ∙ ok),
        ap (λ (a : Option Error × World R B E). seen d a.1) was_added
            ∙ add_refines (service d) (primary d) (backup d) (queued d) (primary_laws d)
                (queue_laws d) (apart_laws d) r.context b called ok pushed
            ∙ ap (Replica.create b) called-seen,
      )
