-- ===== src/Replica/Drain.antt =====
-- The consumer empties the queues in as many rounds as books are waiting.
use demo_redis.Prelude.{
  ℕ, zero, suc, ◌+◌, ◌-◌, ◌≤◌, ◌<◌, ◌≢◌, none, some-ne-none, ◌≡◌, refl, ◌∙◌, List, [], ◌∷◌, arith,
  length,
}
use demo_redis.Book.{Book}
use demo_redis.Queue.{create_queue, update_queue, delete_queue}
use demo_redis.Queue.Contract.{first_of}
use demo_redis.Replica.{Replica, consume, queue_ids}
use demo_redis.Replica.Sync.{drained, drained-consume, IsQuiet}

abbrev pub waiting : Replica → ℕ
waiting r =
    length (r.queued create_queue) + length (r.queued update_queue) + length (r.queued delete_queue)

-- The consumer's rounds with no step of the service between them.
unfoldable pub run : ℕ → Replica → Replica
run zero r = r
run (suc n) r = run n (consume r)

pub waiting-consume : (r : Replica) → waiting (consume r) ≡ waiting r - 1
waiting-consume r =
    go (r.queued create_queue) (r.queued update_queue) (r.queued delete_queue) refl refl refl
  where
    go :
        (c u d : List Book)
        → r.queued create_queue ≡ c
        → r.queued update_queue ≡ u
        → r.queued delete_queue ≡ d
        → waiting (consume r) ≡ waiting r - 1
    go (b ∷ c) u d ec eu ed = rw ec (omega arith)
    go [] (b ∷ u) d ec eu ed = rw (ec, eu) (simp ec (omega arith))
    go [] [] (b ∷ d) ec eu ed = rw (ec, eu, ed) (simp (ec, eu) (omega arith))
    go [] [] [] ec eu ed =
        let idle : consume r ≡ r = rw (ec, eu, ed) in rw (idle, ec, eu, ed) (omega arith)

-- While a book waits, the consumer's pop finds one.
pub first_of-ne-none : (r : Replica) → 0 < waiting r → first_of queue_ids r.queued ≢ none
first_of-ne-none r =
    go (r.queued create_queue) (r.queued update_queue) (r.queued delete_queue) refl refl refl
  where
    go :
        (c u d : List Book)
        → r.queued create_queue ≡ c
        → r.queued update_queue ≡ u
        → r.queued delete_queue ≡ d
        → 0 < waiting r
        → first_of queue_ids r.queued ≢ none
    go (b ∷ c) u d ec eu ed h = rw ec (λ e. some-ne-none e)
    go [] (b ∷ u) d ec eu ed h = rw (ec, eu) (λ e. some-ne-none e)
    go [] [] (b ∷ d) ec eu ed h = rw (ec, eu, ed) (λ e. some-ne-none e)
    go [] [] [] ec eu ed h = absurd (omega (arith, rw (ec, eu, ed) at h))

nil_of_length : (l : List Book) → length l ≡ 0 → l ≡ []
nil_of_length [] h = refl
nil_of_length (b ∷ l) h = absurd (omega arith)

-- After at least as many rounds as books are waiting, with no other step between, the queues are
-- empty and the backup is what the waiting books make of it.
pub run-drains :
    (n : ℕ) (r : Replica) → waiting r ≤ n → IsQuiet (run n r) × ((run n r).backup ≡ drained r)
unfolding run
run-drains zero r h =
    let ec = nil_of_length (r.queued create_queue) (omega arith) in
    let eu = nil_of_length (r.queued update_queue) (omega arith) in
    let ed = nil_of_length (r.queued delete_queue) (omega arith) in ((ec, eu, ed), rw (ec, eu, ed))
run-drains (suc n) r h =
    let (quiet, settled) = run-drains n (consume r) (omega (arith, waiting-consume r)) in
    (quiet, settled ∙ drained-consume r)
