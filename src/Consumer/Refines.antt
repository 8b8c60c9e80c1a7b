-- ===== src/Consumer/Refines.antt =====
-- The consumer of infra.consumers.go against the abstract view of Replica.antt, and the backup that
-- catches up with the primary.
use demo_redis.Prelude.{
  ℕ, zero, suc, ◌≤◌, String, ◌≡◌, ◌≢◌, refl, sym, ap, ◌∙◌, ◌==◌, ◌↔◌, if◌then◌else◌, Bool-cases,
  inl, inr, Option, none, List, arith,
}
use demo_redis.Book.{Book, Error}
use demo_redis.Context.{Context}
use demo_redis.Store.{Books}
use demo_redis.Store.Contract.{Implements}
use demo_redis.Queue.{create_queue, update_queue, delete_queue}
use demo_redis.Queue.Contract.{Queues, Enqueues, AreApart, first_of}
use demo_redis.Replica
use demo_redis.Replica.{Replica, queue_ids}
use demo_redis.Replica.Sync.{drained, InSync, IsQuiet}
use demo_redis.Replica.Drain.{run, waiting, run-drains, waiting-consume, first_of-ne-none}
use demo_redis.Store.{BookStorage}
use demo_redis.Service.{World}
use demo_redis.Service.Abstract.{replica_of}
use demo_redis.Consumer.{BoltDbConsumer, exited, continued, apply, round, consume}
use mathlib.Core.Path.{subst}

module _ {R B E : Type 0} (bc : BoltDbConsumer R B E) where
  -- The error of the write that `apply` makes.
  abbrev pub write_err : Context → String → Book → B → Option Error
  write_err ctx qid book b =
      if qid == create_queue
      then (bc.repo.add ctx book.id book b).0
      else if qid == update_queue
      then (bc.repo.update ctx book.id book b).0.1
      else if qid == delete_queue
      then (bc.repo.delete ctx book.id b).0
      else none

  module _ (bview : B → Books) (bstore : Implements bc.repo bview) where
    -- A write that succeeds does to the backup what the abstract switch does.
    pub view-apply :
        (ctx : Context) (qid : String) (book : Book) (b : B)
        → write_err ctx qid book b ≡ none
        → bview (apply bc ctx qid book b).1 ≡ Replica.apply qid book (bview b)
    unfolding apply
    view-apply ctx qid book b = elim (Bool-cases (qid == create_queue)) [
      | inl c ↦ rw c (bstore.add_ok ctx book.id book b)
      | inr c ↦ elim (Bool-cases (qid == update_queue)) [
        | inl u ↦ rw (c, u) (bstore.update_ok ctx book.id book b)
        | inr u ↦ elim (Bool-cases (qid == delete_queue)) [
          | inl d ↦ rw (c, u, d) (bstore.delete_ok ctx book.id b)
          | inr d ↦ rw (c, u, d) (λ _. refl)
        ]
      ]
    ]

  -- The loop exits exactly in a round whose pop failed while the context was done.
  pub round-exits_iff :
      (ctx : Context) (qids : List String) (w : World R B E)
      → ((round bc ctx qids w).0 ≡ exited)
        ↔ ((bc.queue.pop ctx qids w.redis).0.2 ≢ none) × ((bc.ctx_err ctx w.env).0 ≢ none)
  unfolding round
  round-exits_iff ctx qids w = ground arith

  -- A round whose pop succeeds writes what it popped, and the loop goes on.
  pub round-state :
      (ctx : Context) (qids : List String) (w : World R B E)
      → (bc.queue.pop ctx qids w.redis).0.2 ≡ none
      → round bc ctx qids w ≡ (
        continued,
        record w {
          redis = (bc.queue.pop ctx qids w.redis).1;
          bolt =
              (apply bc ctx
                (bc.queue.pop ctx qids w.redis).0.0
                (bc.queue.pop ctx qids w.redis).0.1
                w.bolt).1;
        },
      )
  unfolding round
  round-state ctx qids w popped = ground arith

module _ {R B E : Type 0} (bc : BoltDbConsumer R B E) (pview : R → Books) (bview : B → Books)
    (queued : R → Queues) (st : BookStorage R) (bstore : Implements bc.repo bview)
    (queues : Enqueues bc.queue queued) (apart : AreApart st bc.queue pview queued) where
  -- A round of the loop whose pop and whose write succeed is the abstract round, and the loop goes on.
  pub round_refines :
      (ctx : Context) (w : World R B E)
      → (bc.queue.pop ctx queue_ids w.redis).0.2 ≡ none
      → write_err bc ctx
          (bc.queue.pop ctx queue_ids w.redis).0.0
          (bc.queue.pop ctx queue_ids w.redis).0.1
          w.bolt
        ≡ none
      → ((round bc ctx queue_ids w).0 ≡ continued)
        × (replica_of pview bview queued (round bc ctx queue_ids w).1
            ≡ Replica.consume (replica_of pview bview queued w))
  round_refines ctx w popped written =
      let found = queues.pop_ok ctx queue_ids w.redis popped in
      let kept = apart.view-pop ctx queue_ids w.redis in
      let wrote = view-apply bc bview bstore ctx _ _ w.bolt written in
      rw (round-state bc ctx queue_ids w popped) (
        refl,
        Replica.Replica-eq kept wrote refl
            ∙ sym (ap (Replica.settle (replica_of pview bview queued w)) found),
      )

  -- The storage and the queue work: a pop finds what is waiting, and every write succeeds.
  pub record Works (ctx : Context) : Type 0 where
    pub pops :
        (r : R) → first_of queue_ids (queued r) ≢ none → (bc.queue.pop ctx queue_ids r).0.2 ≡ none
    pub writes : (qid : String) (b : Book) (s : B) → write_err bc ctx qid b s ≡ none

  consume-continues :
      (n : ℕ) (ctx : Context) (w : World R B E)
      → (round bc ctx queue_ids w).0 ≡ continued
      → consume bc (suc n) ctx queue_ids w ≡ consume bc n ctx queue_ids (round bc ctx queue_ids w).1
  unfolding consume
  consume-continues n ctx w goes = ground arith

  consume-run :
      (n : ℕ) (ctx : Context) (w : World R B E)
      → Works ctx
      → n ≤ waiting (replica_of pview bview queued w)
      → ((consume bc n ctx queue_ids w).0 ≡ none)
        × (replica_of pview bview queued (consume bc n ctx queue_ids w).1
            ≡ run n (replica_of pview bview queued w))
  unfolding consume run
  consume-run zero ctx w works h = (refl, refl)
  consume-run (suc n) ctx w works h =
      let popped =
        works.pops w.redis (first_of-ne-none (replica_of pview bview queued w) (omega arith)) in
      let (goes, step) = round_refines ctx w popped (
        works.writes (bc.queue.pop ctx queue_ids w.redis).0.0
          (bc.queue.pop ctx queue_ids w.redis).0.1 w.bolt) in
      let (result, rest) =
        consume-run n ctx (round bc ctx queue_ids w).1 works
          (omega (arith, ap waiting step, waiting-consume (replica_of pview bview queued w))) in
      rw (consume-continues n ctx w goes) (result, rest ∙ ap (run n) step)

  -- From a state in which the waiting books will bring the backup to what the primary holds, while the
  -- storage and the queue work and the service makes no write, the consumer's loop brings
  -- the backup up to the primary in as many rounds as books are waiting: the queues are then empty,
  -- the loop is still running, and the backup holds what the primary held.
  pub consume_catches_up :
      (ctx : Context) (w : World R B E)
      → Works ctx
      → InSync (replica_of pview bview queued w)
      → (n : ℕ) → waiting (replica_of pview bview queued w) ≡ n
      → ((consume bc n ctx queue_ids w).0 ≡ none)
        × IsQuiet (replica_of pview bview queued (consume bc n ctx queue_ids w).1)
        × ((id : String) → bview (consume bc n ctx queue_ids w).1.bolt id ≡ pview w.redis id)
  consume_catches_up ctx w works sync n h =
      let r = replica_of pview bview queued w in
      let (result, end) = consume-run n ctx w works (omega arith) in
      let (quiet, settled) = run-drains n r (omega arith) in
      let backup : bview (consume bc n ctx queue_ids w).1.bolt ≡ drained r =
        ap (λ (x : Replica). x.backup) end ∙ settled in
      (result, subst IsQuiet (sym end) quiet, λ id. ap (λ (m : Books). m id) backup ∙ sync id)
