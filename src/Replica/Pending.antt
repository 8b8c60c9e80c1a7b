-- ===== src/Replica/Pending.antt =====
-- What waiting books will do to the backup, and the last waiting book for an id.
use demo_redis.Prelude.{
  String, ◌≡◌, refl, Option, none, some, List, [], ◌∷◌, ◌++◌, arith, ◌==◌, if◌then◌else◌, true,
}
use demo_redis.Book.{Book}
use demo_redis.Store.{Books, put, remove}

-- The consumer's writes for the books of a list, in their order.
abbrev pub put_all : List Book → Books → Books
put_all [] m = m
put_all (b ∷ bs) m = put_all bs (put b.id b m)

abbrev pub remove_all : List Book → Books → Books
remove_all [] m = m
remove_all (b ∷ bs) m = remove_all bs (remove b.id m)

-- The last book of a list that has the id.
unfoldable pub pending : String → List Book → Option Book
pending id [] = none
pending id (b ∷ bs) = elim (pending id bs) [
  | some c ↦ some c
  | none ↦ if b.id == id then some b else none
]

abbrev pub or_else : Option Book → Option Book → Option Book
or_else (some b) o = some b
or_else none o = o

abbrev pub unless : Option Book → Option Book → Option Book
unless (some b) o = none
unless none o = o

pub pending-append :
    (id : String) (l : List Book) (b : Book)
    → pending id (l ++ b ∷ []) ≡ (if b.id == id then some b else pending id l)
unfolding pending
pending-append id [] b = ground arith
pending-append id (c ∷ l) b = ground (arith, pending-append id l b)

pub pending-join :
    (id : String) (l r : List Book) → pending id (l ++ r) ≡ or_else (pending id r) (pending id l)
unfolding pending
pending-join id [] r = ground arith
pending-join id (c ∷ l) r = ground (arith, pending-join id l r)

-- A book may be moved over books of other ids.
pub pending-move :
    (id : String) (b : Book) (l f r : List Book)
    → ((b.id == id) ≡ true → pending id (f ++ r) ≡ none)
    → pending id ((l ++ b ∷ []) ++ (f ++ r)) ≡ pending id (l ++ (f ++ b ∷ r))
unfolding pending
pending-move id b l f r apart = ground (
  arith,
  pending-join id (l ++ b ∷ []) (f ++ r),
  pending-append id l b,
  pending-join id l (f ++ b ∷ r),
  pending-join id f (b ∷ r),
  pending-join id f r,
)

pub put_all_lem :
    (l : List Book) (m : Books) (id : String) → put_all l m id ≡ or_else (pending id l) (m id)
unfolding pending
put_all_lem [] m id = refl
put_all_lem (b ∷ l) m id = ground (arith, put_all_lem l (put b.id b m) id)

pub remove_all_lem :
    (l : List Book) (m : Books) (id : String) → remove_all l m id ≡ unless (pending id l) (m id)
unfolding pending
remove_all_lem [] m id = refl
remove_all_lem (b ∷ l) m id = ground (arith, remove_all_lem l (remove b.id m) id)
