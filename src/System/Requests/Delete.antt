-- ===== src/System/Requests/Delete.antt =====
-- What `DeleteOneBook` leaves behind, where it succeeds.
use demo_redis.Prelude.{true, ◌≡◌, ap, ◌∙◌, Option, none}
use demo_redis.Book.{Book, Error}
use demo_redis.Queue.{delete_queue}
use demo_redis.Replica
use demo_redis.Replica.{Replica, queue_ids, tombstone}
use demo_redis.Replica.Sync.{InSync, IsQuiet}
use demo_redis.Service.{World, get_one, delete}
use demo_redis.Service.Refines.{delete_refines}
use demo_redis.Service.Lookup.{get_one-replica_of}
use demo_redis.Api.{ApiHandler, Request, Params, by_name, Exchange}
use demo_redis.Api.Reply.{IsFresh, IsLive, Answers}
use demo_redis.Api.Books.{delete_one_book}
use demo_redis.Api.Books.Status as Status
use demo_redis.System.Requests.{
  Parts, service, primary, backup, queued, seen, IsOver, primary_laws, backup_laws, queue_laws,
  apart_laws,
}

module _ {V R B T E : Type 0} (d : Parts V R B T E) (api : ApiHandler (World R B E))
    (over : IsOver d api) (r : Request) (live : IsLive api r.context) (x : Exchange (World R B E))
    (fresh : IsFresh x.writer) where
  -- A book that is found and deleted with success is answered with 200, and is then gone from the
  -- primary, while its deletion waits for the backup, which had the same book before.
  pub delete_one_book-seen :
      (ps : Params)
      → IsQuiet (seen d x.world)
      → InSync (seen d x.world)
      → Status.known api r live x fresh ps ≡ true
      → let gone = by_name "id" ps in
        let found = get_one (service d) r.context gone x.world in
        found.0.1 ≡ none
        → (delete (service d) r.context gone found.1).0 ≡ none
        → ((service d).queue.push r.context delete_queue
            (tombstone gone)
            ((service d).pstorage.delete r.context gone found.1.redis).1).0
          ≡ none
        → Answers api r.context 200
            (Status.deleted api r live x fresh ps).1
            (delete_one_book api r ps x)
          × (seen d (Status.deleted api r live x fresh ps).1 ≡ Replica.delete gone (seen d x.world))
  delete_one_book-seen ps quiet sync valid found ok pushed =
      let gone = by_name "id" ps in
      let w1 = (get_one (service d) r.context gone x.world).1 in
      let was_found : Status.looked_up api r live x fresh ps
          ≡ get_one (service d) r.context gone x.world =
        ap (λ f. f r.context gone x.world) over.looks_up in
      let was_deleted : Status.deleted api r live x fresh ps
          ≡ delete (service d) r.context gone w1 =
        ap (λ f. f r.context gone (Status.looked_up api r live x fresh ps).1) over.deletes
        ∙ ap (λ (a : (Book × Option Error) × World R B E). delete (service d) r.context gone a.1)
            was_found in
      let (ec, eu, ed) = quiet in
      let before : seen d w1 ≡ seen d x.world =
        get_one-replica_of (service d) (primary d) (backup d) (queued d) (primary_laws d)
          (backup_laws d) (apart_laws d) r.context gone x.world (rw (ec, eu, ed) at (sync gone)) in
      (
        Status.delete_one_book-found api r live x fresh ps none valid
            (ap (λ (a : (Book × Option Error) × World R B E). a.0.1) was_found ∙ found)
            (ap (λ (a : Option Error × World R B E). a.0) was_deleted ∙ ok),
        ap (λ (a : Option Error × World R B E). seen d a.1) was_deleted
            ∙ delete_refines (service d) (primary d) (backup d) (queued d) (primary_laws d)
                (queue_laws d) (apart_laws d) r.context gone w1 ok pushed
            ∙ ap (Replica.delete gone) before,
      )
