-- ===== src/System/Overlap/Race.antt =====
-- Two updates of one book that overlap.
use demo_redis.Prelude.{◌≡◌, ◌≢◌, refl, sym, ap, ◌∙◌, none, some, [], ◌∷◌, ◌++◌, eq_refl}
use demo_redis.Book.{Book}
use demo_redis.Context.{Context}
use demo_redis.Store.{Books, put}
use demo_redis.Store.Contract.{Implements}
use demo_redis.Queue.{update_queue, delete_queue}
use demo_redis.Queue.Contract.{Queues, Enqueues, AreApart, append}
use demo_redis.Replica.{Replica, Replica-eq}
use demo_redis.Replica.Pending.{pending, pending-append}
use demo_redis.Replica.Sync.{InSync, drained, drained_lem}
use demo_redis.Replica.Overlap.{updating}
use demo_redis.Service.{World, BookService}
use demo_redis.Service.Abstract.{replica_of}
use demo_redis.Consumer.{BoltDbConsumer}
use demo_redis.System.Overlap.{at_rest, updates, pushes, Accesses, start, more}
use mathlib.Core.Option.{some-injective}
use mathlib.Core.Path.{subst}

-- Two books of one id that are stored in one order and pushed in the other.
crossed :
    (r : Replica) (a b : Book)
    → a.id ≡ b.id
    → a ≢ b
    → pending a.id (r.queued delete_queue) ≡ none
    → let s : Replica = record {
      primary = put b.id b (put a.id a r.primary);
      backup = r.backup;
      queued = append update_queue a (append update_queue b r.queued);
    } in
      (s.primary a.id ≡ some b) × (drained s a.id ≡ some a) × ¬ InSync s
crossed r a b same differ none_gone =
    let s : Replica = record {
      primary = put b.id b (put a.id a r.primary);
      backup = r.backup;
      queued = append update_queue a (append update_queue b r.queued);
    } in
    let held : s.primary a.id ≡ some b = rw (← same, eq_refl a.id) refl in
    let due : drained s a.id ≡ some a =
      drained_lem s a.id
      ∙ rw (none_gone, pending-append a.id (r.queued update_queue ++ b ∷ []) a, eq_refl a.id)
          refl in
    (held, due, λ sync. differ (some-injective a b (sym due ∙ sync a.id ∙ held)))

module _ {R B E : Type 0} (bs : BookService R B E) where
  -- The first update is stored, then the second is stored and pushed, and then the first is pushed.
  abbrev pub raced : Context → Context → Book → Book → World R B E → World R B E
  raced ctx ctx' a b w =
      let both = (bs.pstorage.update ctx' b.id b (bs.pstorage.update ctx a.id a w.redis).1).1 in
      let second = (bs.queue.push ctx' update_queue b both).1 in
      record w { redis = (bs.queue.push ctx update_queue a second).1 }

module _ {R B E : Type 0} (bs : BookService R B E) (bc : BoltDbConsumer R B E) (pview : R → Books)
    (bview : B → Books) (queued : R → Queues) (pstore : Implements bs.pstorage pview)
    (sent : Enqueues bs.queue queued) (apart : AreApart bs.pstorage bs.queue pview queued) where
  -- Two calls of `Update` with different books of one id, which both succeed, can leave the backup out of
  -- step: while no deletion of the id waits, the calls can be interleaved so that
  -- the second book is stored last and pushed first. The primary then holds the second book, and the
  -- backup is due to hold the first.
  pub racing_updates_diverge :
      (ctx ctx' : Context) (a b : Book) (w : World R B E)
      → a.id ≡ b.id
      → a ≢ b
      → pending a.id (queued w.redis delete_queue) ≡ none
      → (bs.pstorage.update ctx a.id a w.redis).0.1 ≡ none
      → let first = (bs.pstorage.update ctx a.id a w.redis).1 in
        let both = (bs.pstorage.update ctx' b.id b first).1 in
        let second = (bs.queue.push ctx' update_queue b both).1 in
        (bs.pstorage.update ctx' b.id b first).0.1 ≡ none
        → (bs.queue.push ctx' update_queue b both).0 ≡ none
        → (bs.queue.push ctx update_queue a second).0 ≡ none
        → let after = replica_of pview bview queued (raced bs ctx ctx' a b w) in
          Accesses bs bc (λ x k c. Unit) (at_rest w) (at_rest (raced bs ctx ctx' a b w))
          × (after.primary a.id ≡ some b)
          × (drained after a.id ≡ some a)
          × ¬ InSync after
  racing_updates_diverge ctx ctx' a b w same differ none_gone ok ok' pushed pushed' =
      let path =
        more
          (more (more (more start (updates ctx a tt ok)) (updates ctx' b tt ok'))
            (pushes ctx' updating b ((updating, a) ∷ []) [] refl pushed))
          (pushes ctx updating a [] [] refl pushed') in
      let view =
        apart.view-push ctx update_queue a _
        ∙ apart.view-push ctx' update_queue b _
        ∙ pstore.update_ok ctx' b.id b _ ok'
        ∙ ap (put b.id b) (pstore.update_ok ctx a.id a w.redis ok) in
      let queue =
        sent.push_ok ctx update_queue a _ pushed'
        ∙ ap (append update_queue a) (
            sent.push_ok ctx' update_queue b _ pushed
            ∙ ap (append update_queue b)
                (apart.queued-update ctx' b.id b _ ∙ apart.queued-update ctx a.id a w.redis)) in
      let (held, due, out) =
        subst (λ (s : Replica). (s.primary a.id ≡ some b) × (drained s a.id ≡ some a) × ¬ InSync s)
          (sym (Replica-eq view refl queue))
          (crossed (replica_of pview bview queued w) a b same differ none_gone) in
      (path, held, due, out)
