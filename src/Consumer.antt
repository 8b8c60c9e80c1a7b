-- ===== src/Consumer.antt =====
-- infra.consumers.go: the consumer that applies queued books to the backup storage.
pub mod Refines
use demo_redis.Prelude.{
  ℕ, zero, suc, String, Option, none, some, List, Action, pure, ◌>>=◌, ◌>>◌, ◌==◌, if◌then◌else◌,
}
use demo_redis.Book.{Book, Error}
use demo_redis.Context.{Context}
use demo_redis.Store.{BookStorage}
use demo_redis.Queue.{Queuer, create_queue, update_queue, delete_queue}
use demo_redis.Service.{World, on_redis, on_bolt, on_env}

-- `boltDBConsumer`, without its logger; `ctx_err` is `ctx.Err()` as the environment answers it.
pub record BoltDbConsumer (R B E : Type 0) : Type 0 where
  pub queue : Queuer R
  pub repo : BookStorage B
  pub ctx_err : Context → Action E (Option Error)

-- `NewBoltDBConsumer`
abbrev pub new_bolt_db_consumer :
    {R B E : Type 0}
    → Queuer R
    → BookStorage B
    → (Context → Action E (Option Error))
    → BoltDbConsumer R B E
new_bolt_db_consumer q repo ctx_err = record { queue = q; repo = repo; ctx_err = ctx_err }

-- What a round of the loop ends with.
pub data Round : Type 0 where
  exited : Round
  continued : Round

module _ {R B E : Type 0} (bc : BoltDbConsumer R B E) where
  -- the `switch` on the queue's id
  unfoldable pub apply : Context → String → Book → Action B (Unit {0})
  apply ctx qid book =
      if qid == create_queue
      then (do bc.repo.add ctx book.id book; pure tt)
      else if qid == update_queue
      then (do bc.repo.update ctx book.id book; pure tt)
      else if qid == delete_queue
      then (do bc.repo.delete ctx book.id; pure tt)
      else pure tt

  -- one round of the loop in `Consume`
  unfoldable pub round : Context → List String → Action (World R B E) Round
  round ctx qids = do
    (qid, book, err) ← on_redis (bc.queue.pop ctx qids)
    elim err [
      | some e ↦ do
        cerr ← on_env (bc.ctx_err ctx)
        elim cerr [ some _ ↦ pure exited | none ↦ pure continued ]
      | none ↦ do on_bolt (apply ctx qid book); pure continued
    ]

  -- `Consume`, in at most as many rounds as the number says; `none` if they were used up
  unfoldable pub consume : ℕ → Context → List String → Action (World R B E) (Option (Option Error))
  consume zero ctx qids = pure none
  consume (suc rounds) ctx qids = do
    r ← round ctx qids
    elim r [ exited ↦ pure (some none) | continued ↦ consume rounds ctx qids ]
