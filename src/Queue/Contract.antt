-- ===== src/Queue/Contract.antt =====
-- What a `Queuer` promises, and that it leaves the storage on the same server alone.
use demo_redis.Prelude.{
  String, ◌≡◌, ◌⊎◌, ◌==◌, ◌++◌, if◌then◌else◌, Option, none, some, List, [], ◌∷◌,
}
use demo_redis.Book.{Book}
use demo_redis.Context.{Context}
use demo_redis.Store.{BookStorage, Books}
use demo_redis.Queue.{Queuer}

-- Books waiting, by the id of their queue, the oldest first.
abbrev pub Queues : Type 0
Queues = String → List Book

abbrev pub append : String → Book → Queues → Queues
append qid b q k = if qid == k then q k ++ b ∷ [] else q k

abbrev pub set_queue : String → List Book → Queues → Queues
set_queue qid l q k = if qid == k then l else q k

-- The oldest book of the first queue that is not empty, with its queue and what is left.
abbrev pub first_of : List String → Queues → Option (String × Book × Queues)
first_of [] q = none
first_of (k ∷ ks) q = elim (q k) [ [] ↦ first_of ks q | b ∷ rest ↦ some (k, b, set_queue k rest q) ]

pub record Enqueues {S : Type 0} (q : Queuer S) (queued : S → Queues) : Type 0 where
  pub push_ok :
      (ctx : Context) (qid : String) (b : Book) (s : S)
      → (q.push ctx qid b s).0 ≡ none
      → queued (q.push ctx qid b s).1 ≡ append qid b (queued s)
  pub push_any :
      (ctx : Context) (qid : String) (b : Book) (s : S)
      → (queued (q.push ctx qid b s).1 ≡ queued s)
        ⊎ (queued (q.push ctx qid b s).1 ≡ append qid b (queued s))
  pub pop_ok :
      (ctx : Context) (qids : List String) (s : S)
      → (q.pop ctx qids s).0.2 ≡ none
      → first_of qids (queued s)
        ≡ some ((q.pop ctx qids s).0.0, (q.pop ctx qids s).0.1, queued (q.pop ctx qids s).1)

-- The storage and the queue act on the same server and on different parts of it.
pub record AreApart {S : Type 0} (st : BookStorage S) (q : Queuer S) (view : S → Books)
    (queued : S → Queues) : Type 0 where
  pub view-push :
      (ctx : Context) (qid : String) (b : Book) (s : S) → view (q.push ctx qid b s).1 ≡ view s
  pub view-pop : (ctx : Context) (qids : List String) (s : S) → view (q.pop ctx qids s).1 ≡ view s
  pub queued-add :
      (ctx : Context) (id : String) (b : Book) (s : S) → queued (st.add ctx id b s).1 ≡ queued s
  pub queued-get_one :
      (ctx : Context) (id : String) (s : S) → queued (st.get_one ctx id s).1 ≡ queued s
  pub queued-delete :
      (ctx : Context) (id : String) (s : S) → queued (st.delete ctx id s).1 ≡ queued s
  pub queued-update :
      (ctx : Context) (id : String) (b : Book) (s : S) → queued (st.update ctx id b s).1 ≡ queued s
