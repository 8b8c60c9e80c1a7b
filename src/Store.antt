-- ===== src/Store.antt =====
-- `BookStorage` of domain.book.go: a record of actions on a state. The child modules hold its
-- contract, and the two implementations with their proofs of it.
pub mod Contract
pub mod Redis
pub mod Bolt
use demo_redis.Prelude.{ℕ, String, Option, none, some, List, Action, ◌==◌, if◌then◌else◌}
use demo_redis.Book.{Book, Error}
use demo_redis.Context.{Context}

pub record BookStorage (S : Type 0) : Type 0 where
  pub add : Context → String → Book → Action S (Option Error)
  pub get_one : Context → String → Action S (Book × Option Error)
  pub delete : Context → String → Action S (Option Error)
  pub update : Context → String → Book → Action S (Book × Option Error)
  pub get_all : Context → Action S (List Book × Option Error)
  -- The number bounds the rounds of the loop in `DeleteAll`; `none` says that they were used up.
  pub delete_all : ℕ → Context → Action S (Option (Option Error))

-- The storage's content as a map from ids to books.
abbrev pub Books : Type 0
Books = String → Option Book

abbrev pub put : String → Book → Books → Books
put id b m j = if id == j then some b else m j

abbrev pub remove : String → Books → Books
remove id m j = if id == j then none else m j
