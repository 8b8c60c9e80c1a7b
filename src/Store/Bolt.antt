-- ===== src/Store/Bolt.antt =====
-- repo.bolt.go: the storage in a bucket of the bolt database.
pub mod Decode
pub mod Laws
use demo_redis.Prelude.{ℕ, String, Option, none, some, List, [], ◌∷◌, ◌++◌, Action, pure, ◌>>=◌}
use demo_redis.Book.{Book, zero_book, Error, book_not_found}
use demo_redis.Context.{Context}
use demo_redis.Store.{BookStorage}
use demo_redis.Redis.{Json}
use demo_redis.Bolt.{BoltClient}

-- the loop of `GetAll`, over what the cursor yields
unfoldable pub decode_entries :
    {V : Type 0} → Json V → List (String × V) → List Book → List Book × Option Error
decode_entries json [] books = (books, none)
decode_entries json ((k, v) ∷ entries) books =
    let (book, err) = json.unmarshal v in
    let rest = decode_entries json entries (books ++ book ∷ []) in
    elim err [ some e ↦ ([], some e) | none ↦ rest ]

-- what `GetOne` does with the value that it found
unfoldable pub found : {V : Type 0} → Json V → Option V → Book × Option Error
found json none = (zero_book, some book_not_found)
found json (some bytes) = json.unmarshal bytes

module _ {V B T : Type 0} (json : Json V) (client : BoltClient V B T) (bucket_name : String) where
  -- `boltBookStorage.Add`
  unfoldable pub add : Context → String → Book → Action B (Option Error)
  add ctx id book =
      let (bytes, err) = json.marshal book in
      elim err [ some e ↦ pure (some e) | none ↦ client.update (client.put bucket_name id bytes) ]

  -- `boltBookStorage.GetOne`
  unfoldable pub get_one : Context → String → Action B (Book × Option Error)
  get_one ctx id b =
      let (tx, err) = client.begin b in
      elim err [
        | some e ↦ ((zero_book, some e), b)
        | none ↦ (found json (client.get bucket_name id tx), b)
      ]

  -- `boltBookStorage.Delete`
  unfoldable pub delete : Context → String → Action B (Option Error)
  delete ctx id = client.update (client.delete bucket_name id)

  -- `boltBookStorage.Update`
  unfoldable pub update : Context → String → Book → Action B (Book × Option Error)
  update ctx id book =
      let (bytes, err) = json.marshal book in
      elim err [
        | some e ↦ pure (book, some e)
        | none ↦ do err' ← client.update (client.put bucket_name id bytes); pure (book, err')
      ]

  -- `boltBookStorage.GetAll`
  unfoldable pub get_all : Context → Action B (List Book × Option Error)
  get_all ctx b =
      let (tx, err) = client.begin b in
      elim err [
        | some e ↦ (([], some e), b)
        | none ↦ (decode_entries json (client.cursor bucket_name tx) [], b)
      ]

  -- `boltBookStorage.DeleteAll`, which is still to be written and deletes nothing
  unfoldable pub delete_all : ℕ → Context → Action B (Option (Option Error))
  delete_all rounds ctx = pure (some none)

  -- `NewBoltBookStorage`
  abbrev pub new_bolt_book_storage : BookStorage B
  new_bolt_book_storage = record {
    add = add;
    get_one = get_one;
    delete = delete;
    update = update;
    get_all = get_all;
    delete_all = delete_all;
  }
