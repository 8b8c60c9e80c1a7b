-- ===== src/Replica/Overlap.antt =====
-- Calls of api.services.go that overlap, and the rounds of infra.consumers.go between them, one access at a time: a
-- call writes the primary and owes a push until it makes it; a round holds a book between its pop and
-- its write.
pub mod Owed
pub mod Kept
pub mod Popped
use demo_redis.Prelude.{
  String, String-cases, ◌≡◌, refl, sym, ap, ◌∙◌, Option, none, some, List, [], ◌∷◌, ◌++◌, ◌==◌,
  if◌then◌else◌, inl, inr, All, false,
}
use demo_redis.Book.{Book}
use demo_redis.Store.{Books, put, remove}
use demo_redis.Queue.{create_queue, update_queue, delete_queue}
use demo_redis.Queue.Contract.{Queues, append, first_of}
use demo_redis.Replica.{Replica, apply}
use demo_redis.Replica.Pending.{pending}

-- What a call does: the queues of infra.queues.go, as data.
pub data Kind : Type 0 where
  creation : Kind
  updating : Kind
  deletion : Kind

abbrev pub queue_of : Kind → String
queue_of creation = create_queue
queue_of updating = update_queue
queue_of deletion = delete_queue

-- The pushes that the calls under way still owe.
abbrev pub Pushes : Type 0
Pushes = List (Kind × Book)

-- The replica between two accesses, with the pushes owed, in the order of their writes, and with the
-- book that the consumer has popped and not written yet.
pub record Flow : Type 0 where
  pub replica : Replica
  pub owed : Pushes
  pub held : Option (String × Book)

-- The books owed to a queue.
unfoldable pub owed_to : String → Pushes → List Book
owed_to qid [] = []
owed_to qid ((k, b) ∷ owed) =
    let rest = owed_to qid owed in if queue_of k == qid then b ∷ rest else rest

abbrev pub settled : Option (String × Book) → Books → Books
settled none m = m
settled (some (qid, b)) m = apply qid b m

-- The replica as it will be once each push that is owed was made and the book that is held was written.
abbrev pub finished : Flow → Replica
finished x = record {
  primary = x.replica.primary;
  backup = settled x.held x.replica.backup;
  queued = λ qid. x.replica.queued qid ++ owed_to qid x.owed;
}

-- No call on the id is under way.
abbrev pub IsFree : String → Pushes → Type 0
IsFree id = All (λ o. (o.1.id == id) ≡ false)

-- No two calls on one id are under way.
abbrev pub AreDistinct : Pushes → Type 0
AreDistinct [] = Unit
AreDistinct ((k, b) ∷ owed) = IsFree b.id owed × AreDistinct owed

-- The write that a call makes to the primary.
abbrev pub wrote : Kind → Book → Books → Books
wrote creation b m = put b.id b m
wrote updating b m = put b.id b m
wrote deletion b m = remove b.id m

-- The four accesses: a call writes and then pushes, the consumer pops and then writes.
abbrev pub write : Kind → Book → Flow → Flow
write k b x =
    let r = x.replica in
    record x { replica = record r { primary = wrote k b r.primary }; owed = x.owed ++ (k, b) ∷ [] }

abbrev pub push : Kind → Book → Pushes → Flow → Flow
push k b rest x =
    let r = x.replica in
    record x { replica = record r { queued = append (queue_of k) b r.queued }; owed = rest }

abbrev pub pop : String → Book → Queues → Flow → Flow
pop qid b rest x =
    let r = x.replica in record x { replica = record r { queued = rest }; held = some (qid, b) }

abbrev pub store : String → Book → Flow → Flow
store qid b x =
    let r = x.replica in
    record x { replica = record r { backup = apply qid b r.backup }; held = none }

-- What waits does not come after a call: nothing of the id waits in the queues that are popped after
-- the call's own.
abbrev pub IsOrdered : Queues → Kind × Book → Type 0
IsOrdered q (creation, b) =
    (pending b.id (q update_queue) ≡ none) × (pending b.id (q delete_queue) ≡ none)
IsOrdered q (updating, b) = pending b.id (q delete_queue) ≡ none
IsOrdered q (deletion, b) = Unit
