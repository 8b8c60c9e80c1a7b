-- ===== src/Tests/Overlap.antt =====
-- Requests that overlap, over the server and the database in memory.
use demo_redis.Prelude.{ℕ, String, ◌≡◌, ◌≢◌, refl, some, [], ◌∷◌, ap}
use demo_redis.Book.{Book, zero_book}
use demo_redis.Context.{background}
use demo_redis.Store.Redis
use demo_redis.Store.Bolt
use demo_redis.Queue.{create_queue, update_queue}
use demo_redis.Replica.{queue_ids}
use demo_redis.Replica.Sync.{InSync, IsQuiet, drained}
use demo_redis.Replica.Overlap.{creation, updating}
use demo_redis.Service.Abstract.{replica_of}
use demo_redis.Consumer.{apply}
use demo_redis.System.Overlap.{
  Busy, at_rest, updates, adds, pushes, pops, stores, Accesses, start, more,
}
use demo_redis.System.Overlap.Agree.{IsOrderly, overlapping_calls_agree}
use demo_redis.System.Overlap.Race.{raced, racing_updates_diverge}
use demo_redis.Tests.Memory.{Server, Entries}
use demo_redis.Tests.Storage.{ulysses}
use demo_redis.Tests.Service.{
  service, consumer, pview, bview, queued, primary_laws, backup_laws, queue_laws, apart_laws, full,
}

abbrev revised : Book
revised = record ulysses { author = "James Joyce" }

abbrev dubliners : Book
dubliners = record zero_book { id = "b:2"; title = "Dubliners"; author = "Joyce" }

-- One book is updated and another is added; the second is pushed first, and the first while the
-- consumer holds the second.
abbrev updated : Server
updated = (service.pstorage.update background "b:1" revised full.redis).1

abbrev added : Server
added = (service.pstorage.add background "b:2" dubliners updated).1

abbrev second_pushed : Server
second_pushed = (service.queue.push background create_queue dubliners added).1

abbrev second_popped : Server
second_popped = (consumer.queue.pop background queue_ids second_pushed).1

abbrev first_pushed : Server
first_pushed = (service.queue.push background update_queue revised second_popped).1

abbrev second_stored : Entries
second_stored = (apply consumer background create_queue dubliners full.bolt).1

abbrev ended : Busy Server Entries ℕ
ended = at_rest (record full {
  redis = (consumer.queue.pop background queue_ids first_pushed).1;
  bolt = (apply consumer background update_queue revised second_stored).1;
})

schedule : Accesses service consumer (IsOrderly queued) (at_rest full) ended
unfolding Redis.update Redis.add demo_redis.Queue.push demo_redis.Queue.pop demo_redis.Queue.popped
    Bolt.add Bolt.update apply demo_redis.Replica.Pending.pending
schedule =
    more
      (more
        (more
          (more
            (more
              (more
                (more (more start (updates background revised (tt, refl) refl))
                  (adds background dubliners ((refl, tt), (refl, refl)) refl))
                (pushes background creation dubliners ((updating, revised) ∷ []) [] refl refl))
              (pops background refl refl))
            (pushes background updating revised [] [] refl refl))
          (stores background create_queue dubliners refl refl))
        (pops background refl refl))
      (stores background update_queue revised refl refl)

overlapping_calls_agree_example :
    InSync (replica_of pview bview queued ended.world)
    × (IsQuiet (replica_of pview bview queued ended.world)
        → (id : String) → bview ended.world.bolt id ≡ pview ended.world.redis id)
overlapping_calls_agree_example =
    overlapping_calls_agree service consumer pview bview queued primary_laws backup_laws backup_laws
      queue_laws queue_laws apart_laws apart_laws full ended (λ id. refl) schedule refl refl

different : ulysses ≢ revised
different e = cc (ap (λ (b : Book). b.author) e)

racing_updates_diverge_example :
    Accesses service consumer
      (λ x k b. Unit)
      (at_rest full)
      (at_rest (raced service background background ulysses revised full))
    × (pview (raced service background background ulysses revised full).redis "b:1" ≡ some revised)
    × (drained
          (replica_of pview bview queued (raced service background background ulysses revised full))
          "b:1"
        ≡ some ulysses)
    × ¬ InSync
        (replica_of pview bview queued (raced service background background ulysses revised full))
unfolding Redis.update demo_redis.Queue.push demo_redis.Replica.Pending.pending
racing_updates_diverge_example =
    racing_updates_diverge service consumer pview bview queued primary_laws queue_laws apart_laws
      background background ulysses revised full refl different refl refl refl refl refl
