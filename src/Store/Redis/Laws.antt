-- ===== src/Store/Redis/Laws.antt =====
-- repo.redis.go implements the contract of a book storage.
use demo_redis.Prelude.{
  some-ne-none, String, ◌≡◌, ◌≢◌, sym, ap, ◌∙◌, ◌⊎◌, inl, inr, none, some, Option-cases, [], arith,
}
use demo_redis.Book.{Book, book_not_found}
use demo_redis.Context.{Context}
use demo_redis.Store.{Books, put, remove}
use demo_redis.Store.Contract.{Implements, Lists}
use demo_redis.Redis.{Json, JsonLaws, RedisClient, RedisLaws, Keyspace}
use demo_redis.Store.Redis.{
  h_books, add, get_one, delete, update, decode_all, get_all, new_redis_book_storage,
}
use demo_redis.Store.Redis.Decode.{
  decode-some, books_of, books_of-put_field, books_of-drop_field, decode_all_sound,
  decode_all_complete,
}

module _ {V R : Type 0} (json : Json V) (client : RedisClient V R) (contents : R → Keyspace V)
    (json_laws : JsonLaws json) (laws : RedisLaws client contents) where
  -- What the storage holds in a state of the server.
  abbrev pub view : R → Books
  view r = books_of json (contents r)

  add_ok :
      (ctx : Context) (id : String) (b : Book) (r : R)
      → (add json client ctx id b r).0 ≡ none
      → view (add json client ctx id b r).1 ≡ put id b (view r)
  unfolding add
  add_ok ctx id b r =
      rw (json_laws.marshal_ok b, add)
        (λ e.
          rw (laws.hset_ok ctx h_books id (json.marshal b).0 r e)
            (books_of-put_field json json_laws id b (contents r)))

  add_any :
      (ctx : Context) (id : String) (b : Book) (r : R)
      → (view (add json client ctx id b r).1 ≡ view r)
        ⊎ (view (add json client ctx id b r).1 ≡ put id b (view r))
  unfolding add
  add_any ctx id b r =
      rw (json_laws.marshal_ok b, add)
        (elim (laws.hset_any ctx h_books id (json.marshal b).0 r) [
          | inl e ↦ inl (ap (books_of json) e)
          | inr e ↦ inr (ap (books_of json) e ∙ books_of-put_field json json_laws id b (contents r))
        ])

  get_one_keeps :
      (ctx : Context) (id : String) (r : R) → view (get_one json client ctx id r).1 ≡ view r
  unfolding get_one
  get_one_keeps ctx id r = ground (arith, laws.hget_keeps ctx h_books id r)

  get_one_ok :
      (ctx : Context) (id : String) (r : R)
      → (get_one json client ctx id r).0.1 ≡ none
      → view r id ≡ some (get_one json client ctx id r).0.0
  unfolding get_one
  get_one_ok ctx id r = ground (arith, laws.hget_ok ctx h_books id r)

  get_one_missing :
      (ctx : Context) (id : String) (r : R)
      → (get_one json client ctx id r).0.1 ≡ some book_not_found
      → view r id ≡ none
  unfolding get_one
  get_one_missing ctx id r = ground (
    arith,
    laws.hget_nil ctx h_books id r,
    laws.hget_err ctx h_books id r,
    json_laws.unmarshal_err (client.hget ctx h_books id r).0.0,
  )

  delete_ok :
      (ctx : Context) (id : String) (r : R)
      → (delete json client ctx id r).0 ≡ none
      → view (delete json client ctx id r).1 ≡ remove id (view r)
  unfolding delete
  delete_ok ctx id r e =
      rw (laws.hdel_ok ctx h_books id r (ground arith)) (books_of-drop_field json id (contents r))

  delete_any :
      (ctx : Context) (id : String) (r : R)
      → (view (delete json client ctx id r).1 ≡ view r)
        ⊎ (view (delete json client ctx id r).1 ≡ remove id (view r))
  unfolding delete
  delete_any ctx id r = elim (laws.hdel_any ctx h_books id r) [
    | inl e ↦ inl (ap (books_of json) e)
    | inr e ↦ inr (ap (books_of json) e ∙ books_of-drop_field json id (contents r))
  ]

  update_ok :
      (ctx : Context) (id : String) (b : Book) (r : R)
      → (update json client ctx id b r).0.1 ≡ none
      → view (update json client ctx id b r).1 ≡ put id b (view r)
  unfolding update
  update_ok ctx id b r =
      rw (json_laws.marshal_ok b, update)
        (λ e.
          rw (laws.hset_ok ctx h_books id (json.marshal b).0 r e)
            (books_of-put_field json json_laws id b (contents r)))

  update_any :
      (ctx : Context) (id : String) (b : Book) (r : R)
      → (view (update json client ctx id b r).1 ≡ view r)
        ⊎ (view (update json client ctx id b r).1 ≡ put id b (view r))
  unfolding update
  update_any ctx id b r =
      rw (json_laws.marshal_ok b, update)
        (elim (laws.hset_any ctx h_books id (json.marshal b).0 r) [
          | inl e ↦ inl (ap (books_of json) e)
          | inr e ↦ inr (ap (books_of json) e ∙ books_of-put_field json json_laws id b (contents r))
        ])

  update_echo :
      (ctx : Context) (id : String) (b : Book) (r : R) → (update json client ctx id b r).0.0 ≡ b
  unfolding update
  update_echo ctx id b r = ground arith

  get_all_keeps : (ctx : Context) (r : R) → view (get_all json client ctx r).1 ≡ view r
  unfolding get_all
  get_all_keeps ctx r = ground (arith, laws.hvals_keeps ctx h_books r)

  get_all_parts :
      (ctx : Context) (r : R)
      → (get_all json client ctx r).0.1 ≡ none
      → ((client.hvals ctx h_books r).0.1 ≡ none)
        × ((get_all json client ctx r).0 ≡ decode_all json (client.hvals ctx h_books r).0.0 [])
  unfolding get_all
  get_all_parts ctx r e = ground arith

  get_all_ok :
      (ctx : Context) (r : R)
      → (get_all json client ctx r).0.1 ≡ none
      → Lists (view r) (get_all json client ctx r).0.0
  get_all_ok ctx r e =
      let (fetched, same) = get_all_parts ctx r e in
      let ok = rw same at e in
      rw same (record {
        sound = λ b m. elim (decode_all_sound json (client.hvals ctx h_books r).0.0 [] b ok m) [
          | inl nowhere ↦ elim nowhere [ ]
          | inr (v, listed, d) ↦
              let (id, stored) = laws.hvals_sound ctx h_books r v fetched listed in
              (id, rw stored d)
        ];
        complete = λ id b stored.
            let (v, at, d) = decode-some json ((contents r).hash h_books id) b stored in
            decode_all_complete json (client.hvals ctx h_books r).0.0 [] v b ok
              (laws.hvals_complete ctx h_books id r v fetched at) d;
      })

  -- The redis storage, with a client that keeps redis's promises and an encoder that is undone by its
  -- decoder, acts as a map from ids to books: reads answer from the map, successful writes change it
  -- at their id alone, a failed write leaves the old or the new map, and `GetAll` answers with the
  -- books of the map, of which it is not said how often each is listed.
  pub redis-Implements : Implements (new_redis_book_storage json client) view
  redis-Implements = record {
    add_ok = add_ok;
    add_any = add_any;
    get_one_keeps = get_one_keeps;
    get_one_ok = get_one_ok;
    get_one_missing = get_one_missing;
    delete_ok = delete_ok;
    delete_any = delete_any;
    update_ok = update_ok;
    update_any = update_any;
    update_echo = update_echo;
    get_all_keeps = get_all_keeps;
    get_all_ok = get_all_ok;
  }

  -- `Delete` succeeds exactly when redis answered and had the book. In every other case, a failure of
  -- redis included, it reports `ErrBookNotFound`.
  pub delete_outcome :
      (ctx : Context) (id : String) (r : R)
      → ((delete json client ctx id r).0 ≡ none)
          × ((client.hdel ctx h_books id r).0.1 ≡ none)
          × ((contents r).hash h_books id ≢ none)
        ⊎ ((delete json client ctx id r).0 ≡ some book_not_found)
          × (((client.hdel ctx h_books id r).0.1 ≢ none) ⊎ ((contents r).hash h_books id ≡ none))
  unfolding delete
  delete_outcome ctx id r = elim (Option-cases (client.hdel ctx h_books id r).0.1) [
    | inr (e, p) ↦
        inr (ground (arith, laws.hdel_err ctx h_books id r e), inl (λ q. some-ne-none (sym p ∙ q)))
    | inl p ↦ elim (Option-cases ((contents r).hash h_books id)) [
      | inl q ↦ inr (ground (arith, laws.hdel_count ctx h_books id r p), inr q)
      | inr (v, q) ↦ inl (
        ground (arith, laws.hdel_count ctx h_books id r p),
        p,
        λ gone. some-ne-none (sym q ∙ gone),
      )
    ]
  ]
