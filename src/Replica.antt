-- ===== src/Replica.antt =====
-- An abstract view of api.services.go and infra.consumers.go together: the primary map, the backup
-- map, and the queues of books between them. The operations here are what the service and the
-- consumer do when no call fails; Service/Refines.antt and Consumer/Refines.antt relate the code to
-- them.
pub mod Pending
pub mod Sync
pub mod Drain
pub mod Overlap
use demo_redis.Prelude.{
  ℕ, zero, suc, String, ◌≡◌, Option, none, some, List, [], ◌∷◌, ◌++◌, ◌==◌, if◌then◌else◌,
}
use demo_redis.Book.{Book, zero_book}
use demo_redis.Store.{Books, put, remove}
use demo_redis.Queue.Contract.{Queues, append, first_of}
use demo_redis.Queue.{create_queue, update_queue, delete_queue}

pub record Replica : Type 0 where
  pub primary : Books
  pub backup : Books
  pub queued : Queues

-- `BookService.Add`, `Update` and `Delete`
abbrev pub create : Book → Replica → Replica
create b r = record r { primary = put b.id b r.primary; queued = append create_queue b r.queued }

abbrev pub update : Book → Replica → Replica
update b r = record r { primary = put b.id b r.primary; queued = append update_queue b r.queued }

abbrev pub tombstone : String → Book
tombstone id = record zero_book { id = id }

abbrev pub delete : String → Replica → Replica
delete id r = record r {
  primary = remove id r.primary;
  queued = append delete_queue (tombstone id) r.queued;
}

-- The switch of `boltDBConsumer.Consume`, on the backup.
abbrev pub apply : String → Book → Books → Books
apply qid b m =
    if qid == create_queue
    then put b.id b m
    else if qid == update_queue
    then put b.id b m
    else if qid == delete_queue
    then remove b.id m
    else m

-- The order of the arguments of `Consume` in app.server.go.
abbrev pub queue_ids : List String
queue_ids = create_queue ∷ update_queue ∷ delete_queue ∷ []

abbrev pub settle : Replica → Option (String × Book × Queues) → Replica
settle r none = r
settle r (some (qid, b, q)) = record r { backup = apply qid b r.backup; queued = q }

-- One round of the consumer, which waits where all queues are empty.
abbrev pub consume : Replica → Replica
consume r = settle r (first_of queue_ids r.queued)

pub Replica-eq :
    {p p' : Books} {b b' : Books} {q q' : Queues}
    → p ≡ p'
    → b ≡ b'
    → q ≡ q'
    → ◌≡◌ {A = Replica}
        (record { primary = p; backup = b; queued = q })
        (record { primary = p'; backup = b'; queued = q' })
Replica-eq e f g = λ i. record { primary = e i; backup = f i; queued = g i }
