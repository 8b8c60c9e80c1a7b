-- ===== src/System/Requests/Arrival.antt =====
-- Requests that write, through the public stack of api.middlewares.go to their handlers, and from there
-- through the service to the backup.
use demo_redis.Prelude.{ℕ, String, true, false, ◌≡◌, ◌≢◌, refl, sym, ap, ◌∙◌, none, some}
use demo_redis.Context.{Context}
use demo_redis.Store.{put, remove}
use demo_redis.Queue.{create_queue, update_queue, delete_queue}
use demo_redis.Replica
use demo_redis.Replica.{Replica, queue_ids, tombstone}
use demo_redis.Replica.Pending.{pending}
use demo_redis.Replica.Sync.{InSync, IsQuiet, create-InSync, update-InSync, delete-InSync}
use demo_redis.Replica.Drain.{waiting}
use demo_redis.Service.{World, get_one, add, update, delete}
use demo_redis.Consumer.{consume}
use demo_redis.Book.Valid.{IsComplete}
use demo_redis.Response.{base_of}
use demo_redis.Api.{ApiHandler, Request, Params, by_name, Exchange}
use demo_redis.Api.Decode.{decode_request}
use demo_redis.Api.Reply.{IsFresh, IsLive, Answers}
use demo_redis.Api.Books.{create_book, update_book, delete_one_book}
use demo_redis.Api.Books.Write as Write
use demo_redis.Api.Books.Status as Status
use demo_redis.Ids.{request_id_prefix}
use demo_redis.Response.{BaseWriter, plain, is_aborted}
use demo_redis.Api.{Handle, returned}
use demo_redis.Api.Middleware.{count_status}
use demo_redis.Api.Middleware.Passage.{
  entered, entry, holding, chain_public-entered, entry-IsFresh, entry-world,
}
use demo_redis.Api.Routes.Stacks.{stacks}
use demo_redis.System.Requests.Create.{called, create_book-seen}
use demo_redis.System.Requests.Update.{update_book-seen}
use demo_redis.System.Requests.Delete.{delete_one_book-seen}
use mathlib.Core.Path.{subst}
use demo_redis.System.Requests.{
  handled, Parts, service, consumer, primary, backup, seen, stamp, IsUp, IsOver, seen-Keeps,
  delivered,
}

module _ {V R B T E : Type 0} (d : Parts V R B T E) (cctx : Context) (up : IsUp d cctx)
    (api : ApiHandler (World R B E)) (over : IsOver d api) (r : Request) (ps : Params)
    (x : Exchange (World R B E)) (c : ℕ) (w : BaseWriter) where
  -- A request that came over a connection, with a new response, while the maintenance mode is off. Its
  -- deadline does not pass, its context is not done, the queues are empty, and the backup holds what the
  -- primary holds.
  pub record Arrives : Type 0 where
    pub off : x.mode.enabled ≡ false
    pub conn : r.context.conn ≡ some c
    pub plain_writer : x.writer ≡ plain w
    pub unsent : w.sent ≡ none
    pub not_aborted : is_aborted w ≡ false
    pub in_time : (api.expires (entered api r x).context (holding api r ps x).world).0 ≡ none
    pub live : IsLive api (entered api r x).context
    pub quiet : IsQuiet (seen d x.world)
    pub sync : InSync (seen d x.world)

  abbrev pub given : Request
  given = entered api r x

  abbrev pub meets : Exchange (World R B E)
  meets = entry api c r ps x

  module _ (arr : Arrives) where
    pub fresh : IsFresh meets.writer
    fresh = entry-IsFresh api r ps x c w arr.plain_writer arr.unsent arr.not_aborted arr.in_time

    -- The middlewares do not act on redis or bolt.
    meets-seen : seen d meets.world ≡ seen d x.world
    meets-seen =
        let w1 = (api.ids_handler.generate request_id_prefix x.world).1 in
        let w2 = (api.expires given.context w1).1 in
        ap (seen d) (entry-world api r ps x c arr.in_time)
        ∙ seen-Keeps d (api.clock.now w2).1 w2 (over.clock_keeps w2)
        ∙ seen-Keeps d w2 w1 (over.deadlines_keep given.context w1)
        ∙ seen-Keeps d w1 x.world (over.ids_keep request_id_prefix x.world)

    -- The answer of a handler that has called the service reaches the client, and what it wrote the
    -- backup.
    sent_back :
        (h : Handle (World R B E)) (code : ℕ) (after : World R B E) (s : Replica)
        → Answers api given.context code after (h given ps meets)
        → seen d after ≡ s
        → InSync s
        → waiting s ≡ 1
        → let y = (stacks api).public h r ps x in
          (y.0 ≡ returned)
          × ((base_of y.1.writer).sent ≡ some code)
          × ((id : String)
              → backup d (consume (consumer d) 1 cctx queue_ids y.1.world).1.bolt id ≡ s.primary id)
    unfolding count_status
    sent_back h code after s answers e sync one =
        let done = (h given ps meets).1 in
        let through = chain_public-entered api h r ps x c arr.conn answers.ended arr.off in
        rw through (
          refl,
          answers.status,
          delivered d cctx (api.clock.now done.world).1 s up
              (seen-Keeps d (api.clock.now done.world).1 done.world (over.clock_keeps done.world)
                ∙ handled d api over given.context done.world after s answers.world e)
              sync one,
        )

    -- A request that creates a book, end to end: it came over a connection, with a new response, while
    -- the maintenance mode is off; its deadline does not pass and its context is not done; the queues are
    -- empty and the backup holds what the primary holds. Redis and bolt answer, and the clock, the
    -- identifiers and the contexts do not act on them. Its body decodes to a complete book, the
    -- service's `Add` succeeds and its push gets through. Then, through all the middlewares of the public
    -- stack, it is answered with 201, and after one round of the consumer the backup holds the book
    -- under its new id, and else what the primary held before the request.
    pub created_reaches_backup :
        (decode_request api given).1 ≡ none
        → IsComplete (Write.submitted api given arr.live meets fresh)
        → let b = Write.stamped api given arr.live meets fresh in
          let before = called d api over given arr.live meets fresh in
          (add (service d) given.context b.id b before).0 ≡ none
          → ((service d).queue.push given.context create_queue b
              ((service d).pstorage.add given.context b.id b before.redis).1).0
            ≡ none
          → let y = (stacks api).public (create_book api) r ps x in
            (y.0 ≡ returned)
            × ((base_of y.1.writer).sent ≡ some 201)
            × ((id : String)
                → backup d (consume (consumer d) 1 cctx queue_ids y.1.world).1.bolt id
                  ≡ put b.id b (primary d x.world.redis) id)
    created_reaches_backup decoded complete ok pushed =
        let b = Write.stamped api given arr.live meets fresh in
        let (answers, e) =
          create_book-seen d api over given arr.live meets fresh ps decoded complete ok pushed in
        let (ec, eu, ed) = arr.quiet in
        sent_back (create_book api) 201 _ (Replica.create b (seen d x.world)) answers
          (e ∙ ap (Replica.create b) meets-seen)
          (unfold pending in create-InSync (seen d x.world) b (rw eu refl) (rw ed refl) arr.sync)
          (rw (ec, eu, ed) refl)

    -- A request that updates a book, end to end: it came over a connection, with a new response, while
    -- the maintenance mode is off; its deadline does not pass and its context is not done; the queues are
    -- empty and the backup holds what the primary holds. Redis and bolt answer, and the clock, the
    -- identifiers and the contexts do not act on them. Its body decodes to a complete book with an id
    -- and a creation time, the service's `Update` succeeds and its push gets through. Then, through all
    -- the middlewares of the public stack, it is answered with 200, whatever the id in the path, and
    -- after one round of the consumer the backup holds the book with its new time under the id in the
    -- body, and else what the primary held before the request.
    pub updated_reaches_backup :
        (decode_request api given).1 ≡ none
        → (let b = Write.submitted api given arr.live meets fresh in
            IsComplete b × (b.id ≢ "") × (b.created_at ≢ ""))
        → let b = Write.submitted api given arr.live meets fresh in
          let b' = stamp d b meets.world in
          (update (service d) given.context b.id b meets.world).0.1 ≡ none
          → ((service d).queue.push given.context update_queue b'
              ((service d).pstorage.update given.context b.id b' meets.world.redis).1).0
            ≡ none
          → let y = (stacks api).public (update_book api) r ps x in
            (y.0 ≡ returned)
            × ((base_of y.1.writer).sent ≡ some 200)
            × ((id : String)
                → backup d (consume (consumer d) 1 cctx queue_ids y.1.world).1.bolt id
                  ≡ put b.id b' (primary d x.world.redis) id)
    updated_reaches_backup decoded complete ok pushed =
        let b = Write.submitted api given arr.live meets fresh in
        let b' = stamp d b meets.world in
        let (answers, e) =
          update_book-seen d api over given arr.live meets fresh ps decoded complete ok pushed in
        let (ec, eu, ed) = arr.quiet in
        sent_back (update_book api) 200 _ (Replica.update b' (seen d x.world)) answers
          (e ∙ ap (Replica.update b') meets-seen)
          (unfold pending in update-InSync (seen d x.world) b' (rw ed refl) arr.sync)
          (rw (ec, eu, ed) refl)

    -- A request that deletes a book, end to end: it came over a connection, with a new response, while
    -- the maintenance mode is off; its deadline does not pass and its context is not done; the queues are
    -- empty and the backup holds what the primary holds. Redis and bolt answer, and the clock, the
    -- identifiers and the contexts do not act on them. The id in the path is valid, the service finds
    -- the book and deletes it with success, and its push gets through. Then, through all the middlewares
    -- of the public stack, it is answered with 200, and after one round of the consumer the book is gone
    -- from the backup, which holds else what the primary held before the request.
    pub deleted_reaches_backup :
        Status.known api given arr.live meets fresh ps ≡ true
        → let gone = by_name "id" ps in
          let found = get_one (service d) given.context gone meets.world in
          found.0.1 ≡ none
          → (delete (service d) given.context gone found.1).0 ≡ none
          → ((service d).queue.push given.context delete_queue
              (tombstone gone)
              ((service d).pstorage.delete given.context gone found.1.redis).1).0
            ≡ none
          → let y = (stacks api).public (delete_one_book api) r ps x in
            (y.0 ≡ returned)
            × ((base_of y.1.writer).sent ≡ some 200)
            × ((id : String)
                → backup d (consume (consumer d) 1 cctx queue_ids y.1.world).1.bolt id
                  ≡ remove gone (primary d x.world.redis) id)
    deleted_reaches_backup valid found ok pushed =
        let gone = by_name "id" ps in
        let (answers, e) =
          delete_one_book-seen d api over given arr.live meets fresh ps
            (subst IsQuiet (sym meets-seen) arr.quiet) (subst InSync (sym meets-seen) arr.sync)
            valid found ok pushed in
        let (ec, eu, ed) = arr.quiet in
        sent_back (delete_one_book api) 200 _ (Replica.delete gone (seen d x.world)) answers
          (e ∙ ap (Replica.delete gone) meets-seen) (delete-InSync (seen d x.world) gone arr.sync)
          (rw (ec, eu, ed) refl)
