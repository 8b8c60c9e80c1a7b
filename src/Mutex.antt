-- ===== src/Mutex.antt =====
-- Goroutines that share a `sync.Mutex`, as the writer of helpers.logging.go and the statistics of
-- api.middlewares.go are shared. While a goroutine holds the lock, its accesses are single steps,
-- between which every other goroutine may try to take the lock; it gets it only once it is free.
pub mod Serial
use demo_redis.Prelude.{◌≡◌, Option, none, some, List, [], ◌∷◌, ◌++◌, Action}

-- What is done under the lock: one access after another, and at the end the value that is returned.
-- What follows an access may depend on the state that the access met.
pub data Section (S A : Type 0) : Type 0 where
  done : A → Section S A
  act : (S → S) → (S → Section S A) → Section S A

-- one access, whose answer the rest is given
abbrev pub call : {S A B : Type 0} → Action S B → (B → Section S A) → Section S A
call m k = act (λ s. (m s).1) (λ s. k (m s).0)

-- The accesses in a row, as when no other goroutine runs.
abbrev pub run : {S A : Type 0} → Section S A → Action S A
run (done a) s = (a, s)
run (act f k) s = run (k s) (f s)

-- The goroutines: the shared state, the section that holds the lock, the calls that wait for the
-- lock, and the answers of those that have given it back, in their order.
pub record Shared (J S A : Type 0) : Type 0 where
  pub state : S
  pub holder : Option (Section S A)
  pub waiting : List J
  pub answers : List A

module _ {J S A : Type 0} (section : J → Section S A) where
  pub data Step (x : Shared J S A) : Shared J S A → Type 0 where
    -- any of those that wait takes the lock
    lock :
        (front back : List J) (j : J)
        → x.holder ≡ none
        → x.waiting ≡ front ++ j ∷ back
        → Step x (record x { holder = some (section j); waiting = front ++ back })
    -- the holder makes its next access
    access :
        (f : S → S) (k : S → Section S A)
        → x.holder ≡ some (act f k)
        → Step x (record x { holder = some (k x.state); state = f x.state })
    -- the holder gives the lock back
    unlock :
        (a : A)
        → x.holder ≡ some (done a)
        → Step x (record x { holder = none; answers = x.answers ++ a ∷ [] })

  pub data Steps (x : Shared J S A) : Shared J S A → Type 0 where
    start : Steps x x
    more : {y z : Shared J S A} → Steps x y → Step y z → Steps x z

  -- All calls wait, and the lock is free.
  abbrev pub at_first : List J → S → Shared J S A
  at_first jobs s = record { state = s; holder = none; waiting = jobs; answers = [] }

  -- whole calls, one after the other
  abbrev pub run_all : List J → Action S (List A)
  run_all [] s = ([], s)
  run_all (j ∷ js) s =
      let (a, s') = run (section j) s in let (rest, s'') = run_all js s' in (a ∷ rest, s'')
