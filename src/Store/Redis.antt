-- ===== src/Store/Redis.antt =====
-- repo.redis.go: the storage in the redis hash "books".
pub mod Decode
pub mod Laws
pub mod Fields
pub mod Clear
use demo_redis.Prelude.{
  ℕ, zero, suc, String, true, false, ◌||◌, Option, none, some, List, [], ◌∷◌, ◌++◌, Action, pure,
  ◌>>=◌, ◌>>◌, nat_eq, if◌then◌else◌,
}
use demo_redis.Book.{Book, zero_book, Error, book_not_found, wrap, is_not_found, is_redis_nil}
use demo_redis.Context.{Context}
use demo_redis.Store.{BookStorage}
use demo_redis.Redis.{Json, RedisClient}

-- `HBooks`
abbrev pub h_books : String
h_books = "books"

module _ {V : Type 0} (json : Json V) where
  -- the loop of `GetAll`
  unfoldable pub decode_all : List V → List Book → List Book × Option Error
  decode_all [] books = (books, none)
  decode_all (text ∷ texts) books =
      let (book, err) = json.unmarshal text in
      let rest = decode_all texts (books ++ book ∷ []) in
      elim err [ some e ↦ ([], some e) | none ↦ rest ]

module _ {V R : Type 0} (json : Json V) (client : RedisClient V R) where
  -- `redisBookStorage.Add`
  unfoldable pub add : Context → String → Book → Action R (Option Error)
  add ctx id book =
      let (bytes, err) = json.marshal book in
      elim err [ some e ↦ pure (some e) | none ↦ client.hset ctx h_books id bytes ]

  -- `redisBookStorage.GetOne`
  unfoldable pub get_one : Context → String → Action R (Book × Option Error)
  get_one ctx id = do
    (text, err) ← client.hget ctx h_books id
    if is_redis_nil err
        then pure (zero_book, some book_not_found)
        else elim err [ some e ↦ pure (zero_book, some e) | none ↦ pure (json.unmarshal text) ]

  -- `redisBookStorage.Delete`
  unfoldable pub delete : Context → String → Action R (Option Error)
  delete ctx id = do
    (num_deleted, err) ← client.hdel ctx h_books id
    pure (if nat_eq num_deleted 0 || is_redis_nil err then some book_not_found else err)

  -- `redisBookStorage.Update`
  unfoldable pub update : Context → String → Book → Action R (Book × Option Error)
  update ctx id book =
      let (bytes, err) = json.marshal book in
      elim err [
        | some e ↦ pure (book, some e)
        | none ↦ do err' ← client.hset ctx h_books id bytes; pure (book, err')
      ]

  -- `redisBookStorage.GetAll`
  unfoldable pub get_all : Context → Action R (List Book × Option Error)
  get_all ctx = do
    (texts, err) ← client.hvals ctx h_books
    elim err [ some e ↦ pure ([], some e) | none ↦ pure (decode_all json texts []) ]

  -- the inner loop of `DeleteAll`: every second result is a field
  unfoldable pub delete_fields : Context → List String → Action R (Unit {0})
  delete_fields ctx [] = pure tt
  delete_fields ctx (field ∷ []) = do client.hdel ctx h_books field; pure tt
  delete_fields ctx (field ∷ value ∷ rest) = do
    client.hdel ctx h_books field
    delete_fields ctx rest

  -- the outer loop of `DeleteAll`, in at most as many rounds as the number says
  unfoldable pub delete_from : ℕ → Context → ℕ → Action R (Option (Option Error))
  delete_from zero ctx cursor = pure none
  delete_from (suc rounds) ctx cursor = do
    (results, cursor', err) ← client.hscan ctx h_books cursor "*" 1000
    elim err [
      | some e ↦ pure (some (some (wrap "redis hscan: " e)))
      | none ↦ do
        delete_fields ctx results
        elim (nat_eq cursor' 0) [ true ↦ pure (some none) | false ↦ delete_from rounds ctx cursor' ]
    ]

  -- `redisBookStorage.DeleteAll`
  unfoldable pub delete_all : ℕ → Context → Action R (Option (Option Error))
  delete_all rounds ctx = delete_from rounds ctx 0

  -- `NewRedisBookStorage`
  abbrev pub new_redis_book_storage : BookStorage R
  new_redis_book_storage = record {
    add = add;
    get_one = get_one;
    delete = delete;
    update = update;
    get_all = get_all;
    delete_all = delete_all;
  }
