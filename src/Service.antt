-- ===== src/Service.antt =====
-- api.services.go: the service over the primary storage, the backup storage and the queue.
pub mod Abstract
pub mod Refines
pub mod Read
pub mod Lookup
pub mod Listing
pub mod Clear
use demo_redis.Prelude.{
  ℕ, String, Bool, ◌||◌, Option, none, some, List, [], ◌∷◌, Action, pure, ◌>>=◌, ◌>>◌, true, false,
}
use demo_redis.Book.{Book, zero_book, Error}
use demo_redis.Context.{Context}
use demo_redis.Clock.{Clocker, Time}
use demo_redis.Store.{BookStorage}
use demo_redis.Queue.{Queuer, create_queue, update_queue, delete_queue}

-- The state outside of the program: the redis server, which holds the primary storage and the queues,
-- the bolt database, and the environment.
pub record World (R B E : Type 0) : Type 0 where
  pub redis : R
  pub bolt : B
  pub env : E

module _ {R B E A : Type 0} where
  abbrev pub on_redis : Action R A → Action (World R B E) A
  on_redis m w = let (a, r) = m w.redis in (a, record w { redis = r })

  abbrev pub on_bolt : Action B A → Action (World R B E) A
  on_bolt m w = let (a, b) = m w.bolt in (a, record w { bolt = b })

  abbrev pub on_env : Action E A → Action (World R B E) A
  on_env m w = let (a, e) = m w.env in (a, record w { env = e })

-- `BookService`, without its logger and configuration; `time_string` is `time.Time.String`.
pub record BookService (R B E : Type 0) : Type 0 where
  pub clock : Clocker E
  pub time_string : Time → String
  pub pstorage : BookStorage R
  pub bstorage : BookStorage B
  pub queue : Queuer R

-- `NewBookService`
abbrev pub new_book_service :
    {R B E : Type 0}
    → Clocker E
    → (Time → String)
    → BookStorage R
    → BookStorage B
    → Queuer R
    → BookService R B E
new_book_service clock time_string pstorage bstorage queue = record {
  clock = clock;
  time_string = time_string;
  pstorage = pstorage;
  bstorage = bstorage;
  queue = queue;
}

abbrev is_nil : {A : Type 0} → List A → Bool
is_nil [] = true
is_nil (x ∷ xs) = false

module _ {R B E : Type 0} (bs : BookService R B E) where
  -- `BookService.Add`
  unfoldable pub add : Context → String → Book → Action (World R B E) (Option Error)
  add ctx id book = do
    err ← on_redis (bs.pstorage.add ctx id book)
    elim err [
      | some e ↦ pure (some e)
      | none ↦ do on_redis (bs.queue.push ctx create_queue book); pure none
    ]

  -- `BookService.GetOne`
  unfoldable pub get_one : Context → String → Action (World R B E) (Book × Option Error)
  get_one ctx id = do
    (book, err) ← on_redis (bs.pstorage.get_one ctx id)
    elim err [
      | none ↦ pure (book, none)
      | some _ ↦ do
        (book', err') ← on_bolt (bs.bstorage.get_one ctx id)
        elim err' [
          | some e ↦ pure (book', some e)
          | none ↦ do on_redis (bs.pstorage.add ctx id book'); pure (book', none)
        ]
    ]

  -- `BookService.Delete`
  unfoldable pub delete : Context → String → Action (World R B E) (Option Error)
  delete ctx id = do
    err ← on_redis (bs.pstorage.delete ctx id)
    elim err [
      | some e ↦ pure (some e)
      | none ↦ do
        on_redis (bs.queue.push ctx delete_queue (record zero_book { id = id }))
        pure none
    ]

  -- `BookService.Update`
  unfoldable pub update : Context → String → Book → Action (World R B E) (Book × Option Error)
  update ctx id book = do
    now ← on_env bs.clock.now
    let book' = record book { updated_at = bs.time_string now }
    (b, err) ← on_redis (bs.pstorage.update ctx id book')
    elim err [
      | some e ↦ pure (b, some e)
      | none ↦ do on_redis (bs.queue.push ctx update_queue book'); pure (b, none)
    ]

  -- `BookService.GetAll`
  unfoldable pub get_all : Context → Action (World R B E) (List Book × Option Error)
  get_all ctx = do
    (bbooks, berr) ← on_bolt (bs.bstorage.get_all ctx)
    elim berr [
      | some _ ↦ on_redis (bs.pstorage.get_all ctx)
      | none ↦ elim (is_nil bbooks) [
        | true ↦ on_redis (bs.pstorage.get_all ctx)
        | false ↦ pure (bbooks, none)
      ]
    ]
