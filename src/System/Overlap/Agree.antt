-- ===== src/System/Overlap/Agree.antt =====
-- Overlapping requests of different books keep the backup in step with the primary.
use demo_redis.Prelude.{String, ◌≡◌, refl, sym, none, [], ◌++◌}
use demo_redis.Book.{Book}
use demo_redis.Store.{Books}
use demo_redis.Store.Contract.{Implements}
use demo_redis.Queue.Contract.{Queues, Enqueues, AreApart}
use demo_redis.Replica.{Replica, Replica-eq, queue_ids, tombstone}
use demo_redis.Replica.Sync.{InSync, IsQuiet, Reach-agree, here}
use demo_redis.Replica.Overlap.{
  Kind, creation, updating, deletion, Flow, IsFree, IsOrdered, write, push, store, queue_of,
}
use demo_redis.Replica.Overlap.Kept.{
  IsKept, idle-IsKept, IsKept-InSync, create-IsKept, update-IsKept, delete-IsKept, push-IsKept,
  store-IsKept,
}
use demo_redis.Replica.Overlap.Popped.{pop-IsKept}
use demo_redis.Service.{World, BookService}
use demo_redis.Service.Abstract.{replica_of}
use demo_redis.Consumer.{BoltDbConsumer}
use demo_redis.Consumer.Refines.{view-apply}
use demo_redis.System.Overlap.{
  Busy, at_rest, Access, reads_clock, asks, asks_backup, adds, updates, deletes, pushes, pops,
  stores, Accesses, start, more,
}
use mathlib.Core.Path.{subst}

module _ {R B E : Type 0} (queued : R → Queues) where
  -- A call is let in while no call on its id is under way, and while nothing waits that would be popped
  -- after its own book though it was written before.
  abbrev pub IsOrderly : Busy R B E → Kind → Book → Type 0
  IsOrderly x k b = IsFree b.id x.owed × IsOrdered (queued x.world.redis) (k, b)

module _ {R B E : Type 0} (bs : BookService R B E) (bc : BoltDbConsumer R B E) (pview : R → Books)
    (bview : B → Books) (queued : R → Queues) (pstore : Implements bs.pstorage pview)
    (bstore' : Implements bs.bstorage bview) (bstore : Implements bc.repo bview)
    (sent : Enqueues bs.queue queued) (taken : Enqueues bc.queue queued)
    (apart : AreApart bs.pstorage bs.queue pview queued)
    (apart' : AreApart bs.pstorage bc.queue pview queued) where
  abbrev flow_of : Busy R B E → Flow
  flow_of x = record {
    replica = replica_of pview bview queued x.world;
    owed = x.owed;
    held = x.held;
  }

  -- The invariant, where an access made of the replica what is said.
  kept_as :
      (y : Busy R B E) (r : Replica)
      → replica_of pview bview queued y.world ≡ r
      → IsKept (record { replica = r; owed = y.owed; held = y.held })
      → IsKept (flow_of y)
  kept_as y r e k =
      subst (λ (s : Replica). IsKept (record { replica = s; owed = y.owed; held = y.held })) (sym e)
        k

  Access-IsKept :
      {x y : Busy R B E}
      → Access bs bc (IsOrderly queued) x y
      → IsKept (flow_of x)
      → IsKept (flow_of y)
  Access-IsKept reads_clock h = h
  Access-IsKept {x} {y} (asks_backup ctx id) h =
      kept_as y (flow_of x).replica
        (Replica-eq refl (bstore'.get_one_keeps ctx id x.world.bolt) refl) h
  Access-IsKept {x} {y} (asks ctx id) h =
      kept_as y (flow_of x).replica
        (Replica-eq (pstore.get_one_keeps ctx id x.world.redis) refl
          (apart.queued-get_one ctx id x.world.redis))
        h
  Access-IsKept {x} {y} (adds ctx b (free, ordered) ok) h =
      kept_as y (write creation b (flow_of x)).replica
        (Replica-eq (pstore.add_ok ctx b.id b x.world.redis ok) refl
          (apart.queued-add ctx b.id b x.world.redis))
        (create-IsKept (flow_of x) h b free ordered)
  Access-IsKept {x} {y} (updates ctx b (free, ordered) ok) h =
      kept_as y (write updating b (flow_of x)).replica
        (Replica-eq (pstore.update_ok ctx b.id b x.world.redis ok) refl
          (apart.queued-update ctx b.id b x.world.redis))
        (update-IsKept (flow_of x) h b free ordered)
  Access-IsKept {x} {y} (deletes ctx id (free, ordered) ok) h =
      kept_as y (write deletion (tombstone id) (flow_of x)).replica
        (Replica-eq (pstore.delete_ok ctx id x.world.redis ok) refl
          (apart.queued-delete ctx id x.world.redis))
        (delete-IsKept (flow_of x) h id free)
  Access-IsKept {x} {y} (pushes ctx k b front back e ok) h =
      kept_as y (push k b (front ++ back) (flow_of x)).replica
        (Replica-eq (apart.view-push ctx (queue_of k) b x.world.redis) refl
          (sent.push_ok ctx (queue_of k) b x.world.redis ok))
        (push-IsKept (flow_of x) h k b front back e)
  Access-IsKept {x} {y} (pops ctx free ok) h =
      let found = taken.pop_ok ctx queue_ids x.world.redis ok in
      kept_as y _ (Replica-eq (apart'.view-pop ctx queue_ids x.world.redis) refl refl)
        (pop-IsKept (flow_of x) h free _ _ _ found)
  Access-IsKept {x} {y} (stores ctx qid b e ok) h =
      kept_as y (store qid b (flow_of x)).replica
        (Replica-eq refl (view-apply bc bview bstore ctx qid b x.world.bolt ok) refl)
        (store-IsKept (flow_of x) h qid b e)

  Accesses-IsKept :
      {x y : Busy R B E}
      → Accesses bs bc (IsOrderly queued) x y
      → IsKept (flow_of x)
      → IsKept (flow_of y)
  Accesses-IsKept start h = h
  Accesses-IsKept (more path a) h = Access-IsKept a (Accesses-IsKept path h)

  -- Requests may overlap. From a state in which the backup is in step with the primary, after any
  -- interleaving of the accesses of `Add`, `Update`, `Delete`, of the reads of `GetOne` and of the
  -- consumer, where no write, push or pop fails, no two writing calls are under way on one id, and a book
  -- is not created while an update or a deletion of its id waits, nor updated while a deletion waits:
  -- once no push is owed and the consumer holds no book, the backup is in step again, and it holds
  -- what the primary holds if the queues are empty.
  pub overlapping_calls_agree :
      (w : World R B E) (y : Busy R B E)
      → InSync (replica_of pview bview queued w)
      → Accesses bs bc (IsOrderly queued) (at_rest w) y
      → y.owed ≡ []
      → y.held ≡ none
      → InSync (replica_of pview bview queued y.world)
        × (IsQuiet (replica_of pview bview queued y.world)
            → (id : String) → bview y.world.bolt id ≡ pview y.world.redis id)
  overlapping_calls_agree w y sync path none_owed none_held =
      let kept = Accesses-IsKept path (idle-IsKept (replica_of pview bview queued w) sync) in
      let sync' = IsKept-InSync (flow_of y) kept none_owed none_held in
      (sync', λ quiet id. Reach-agree {r = (flow_of y).replica} sync' here quiet id)
