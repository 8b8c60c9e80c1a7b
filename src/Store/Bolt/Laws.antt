-- ===== src/Store/Bolt/Laws.antt =====
-- repo.bolt.go implements the contract of a book storage.
use demo_redis.Prelude.{
  some-ne-none, String, ◌≡◌, refl, sym, ap, ◌∙◌, fun_ext, ◌⊎◌, inl, inr, ◌==◌, if◌then◌else◌,
  String-cases, eq_refl, Option, none, some, Option-cases, [], arith,
}
use demo_redis.Book.{Book, Error, book_not_found}
use demo_redis.Context.{Context}
use demo_redis.Store.{Books, put, remove}
use demo_redis.Store.Contract.{Implements, Lists}
use demo_redis.Redis.{Json, JsonLaws}
use demo_redis.Bolt.{BoltClient, BoltLaws, Buckets, set_key}
use demo_redis.Store.Redis.Decode.{decode, decode-some, decode_all_sound, decode_all_complete}
use demo_redis.Store.Redis.{decode_all}
use demo_redis.Store.Bolt.{add, found, get_one, delete, update, get_all, new_bolt_book_storage}
use demo_redis.Store.Bolt.Decode.{value_of, decode_entries-eq}
use mathlib.Core.List.{map}
use mathlib.Core.List.Memᴰ

module _ {V : Type 0} (json : Json V) (bucket : String) where
  -- The books of a bucket.
  abbrev pub books_in : Buckets V → Books
  books_in d id = decode json (d bucket id)

  books_in-set_key :
      (id : String) (o : Option V) (d : Buckets V) (j : String)
      → books_in (set_key bucket id o d) j ≡ (if id == j then decode json o else books_in d j)
  books_in-set_key id o d j =
      rw (eq_refl bucket) (elim (String-cases id j) [ inl (e, _) ↦ rw e | inr (e, _) ↦ rw e ])

module _ {V B T : Type 0} (json : Json V) (client : BoltClient V B T) (bucket : String)
    (content : B → Buckets V) (inside : T → Buckets V) (json_laws : JsonLaws json)
    (laws : BoltLaws client content inside) where
  -- What the storage holds in a state of the database.
  abbrev pub view : B → Books
  view b = books_in json bucket (content b)

  put_ok :
      (id : String) (bk : Book) (b : B)
      → (client.update (client.put bucket id (json.marshal bk).0) b).0 ≡ none
      → view (client.update (client.put bucket id (json.marshal bk).0) b).1 ≡ put id bk (view b)
  put_ok id bk b e =
      let (t, begun, fine, ended) = laws.update_ok (client.put bucket id (json.marshal bk).0) b e in
      let ended' = ended ∙ laws.put_ok bucket id (json.marshal bk).0 t fine in
      rw (ended', begun)
        (fun_ext λ j.
          books_in-set_key json bucket id (some (json.marshal bk).0) (content b) j
          ∙ rw (json_laws.unmarshal-marshal bk) refl)

  update_any :
      (f : T → Option Error × T) (b : B) (m : Books)
      → ((client.update f b).0 ≡ none → view (client.update f b).1 ≡ m)
      → (view (client.update f b).1 ≡ view b) ⊎ (view (client.update f b).1 ≡ m)
  update_any f b m ok = elim (Option-cases (client.update f b).0) [
    | inl e ↦ inr (ok e)
    | inr (err, e) ↦ inl (ap (books_in json bucket) (laws.update_err f b err e))
  ]

  add_ok :
      (ctx : Context) (id : String) (bk : Book) (b : B)
      → (add json client bucket ctx id bk b).0 ≡ none
      → view (add json client bucket ctx id bk b).1 ≡ put id bk (view b)
  unfolding add
  add_ok ctx id bk b = rw (json_laws.marshal_ok bk, add) (put_ok id bk b)

  add_any :
      (ctx : Context) (id : String) (bk : Book) (b : B)
      → (view (add json client bucket ctx id bk b).1 ≡ view b)
        ⊎ (view (add json client bucket ctx id bk b).1 ≡ put id bk (view b))
  unfolding add
  add_any ctx id bk b = rw (json_laws.marshal_ok bk, add) (update_any _ b _ (put_ok id bk b))

  update_ok :
      (ctx : Context) (id : String) (bk : Book) (b : B)
      → (update json client bucket ctx id bk b).0.1 ≡ none
      → view (update json client bucket ctx id bk b).1 ≡ put id bk (view b)
  unfolding update
  update_ok ctx id bk b = rw (json_laws.marshal_ok bk, update) (put_ok id bk b)

  update_either :
      (ctx : Context) (id : String) (bk : Book) (b : B)
      → (view (update json client bucket ctx id bk b).1 ≡ view b)
        ⊎ (view (update json client bucket ctx id bk b).1 ≡ put id bk (view b))
  unfolding update
  update_either ctx id bk b =
      rw (json_laws.marshal_ok bk, update) (update_any _ b _ (put_ok id bk b))

  update_echo :
      (ctx : Context) (id : String) (bk : Book) (b : B)
      → (update json client bucket ctx id bk b).0.0 ≡ bk
  unfolding update
  update_echo ctx id bk b = ground arith

  delete_ok :
      (ctx : Context) (id : String) (b : B)
      → (delete json client bucket ctx id b).0 ≡ none
      → view (delete json client bucket ctx id b).1 ≡ remove id (view b)
  unfolding delete
  delete_ok ctx id b e =
      let (t, begun, fine, ended) = laws.update_ok (client.delete bucket id) b e in
      let ended' = ended ∙ laws.delete_ok bucket id t fine in
      rw (ended', begun) (fun_ext λ j. books_in-set_key json bucket id none (content b) j)

  delete_any :
      (ctx : Context) (id : String) (b : B)
      → (view (delete json client bucket ctx id b).1 ≡ view b)
        ⊎ (view (delete json client bucket ctx id b).1 ≡ remove id (view b))
  delete_any ctx id b =
      unfold delete in
      update_any (client.delete bucket id) b (remove id (view b)) (delete_ok ctx id b)

  get_one_keeps :
      (ctx : Context) (id : String) (b : B) → view (get_one json client bucket ctx id b).1 ≡ view b
  unfolding get_one
  get_one_keeps ctx id b = ground arith

  -- A read sees the committed value.
  get-begin :
      (id : String) (b : B)
      → (client.begin b).1 ≡ none
      → client.get bucket id (client.begin b).0 ≡ content b bucket id
  get-begin id b e =
      laws.get_lem bucket id (client.begin b).0
      ∙ ap (λ (d : Buckets V). d bucket id) (laws.begin_ok b e)

  found-decode : (o : Option V) → (found json o).1 ≡ none → decode json o ≡ some (found json o).0
  unfolding found
  found-decode none e = cc
  found-decode (some v) e = ground arith

  found-missing : (o : Option V) → (found json o).1 ≡ some book_not_found → o ≡ none
  unfolding found
  found-missing none e = refl
  found-missing (some v) e = absurd (json_laws.unmarshal_err v e)

  get_one_ok :
      (ctx : Context) (id : String) (b : B)
      → (get_one json client bucket ctx id b).0.1 ≡ none
      → view b id ≡ some (get_one json client bucket ctx id b).0.0
  unfolding get_one
  get_one_ok ctx id b e = elim (Option-cases (client.begin b).1) [
    | inr (err, p) ↦ absurd (some-ne-none (rw (p, get_one) at e))
    | inl p ↦
        rw (p, get_one)
          (ap (decode json) (sym (get-begin id b p))
            ∙ found-decode (client.get bucket id (client.begin b).0) (rw (p, get_one) at e))
  ]

  get_one_missing :
      (ctx : Context) (id : String) (b : B)
      → (get_one json client bucket ctx id b).0.1 ≡ some book_not_found
      → view b id ≡ none
  unfolding get_one
  get_one_missing ctx id b e = elim (Option-cases (client.begin b).1) [
    | inr (err, p) ↦ absurd (laws.begin_err b (p ∙ (rw (p, get_one) at e)))
    | inl p ↦
        let gone = found-missing (client.get bucket id (client.begin b).0) (rw (p, get_one) at e) in
        rw (sym (get-begin id b p) ∙ gone)
  ]

  get_all_keeps : (ctx : Context) (b : B) → view (get_all json client bucket ctx b).1 ≡ view b
  unfolding get_all
  get_all_keeps ctx b = ground arith

  get_all_parts :
      (ctx : Context) (b : B)
      → (get_all json client bucket ctx b).0.1 ≡ none
      → ((client.begin b).1 ≡ none)
        × ((get_all json client bucket ctx b).0
            ≡ decode_all json (map value_of (client.cursor bucket (client.begin b).0)) [])
  unfolding get_all
  get_all_parts ctx b e =
      ground (arith, decode_entries-eq json (client.cursor bucket (client.begin b).0) [])

  get_all_ok :
      (ctx : Context) (b : B)
      → (get_all json client bucket ctx b).0.1 ≡ none
      → Lists (view b) (get_all json client bucket ctx b).0.0
  get_all_ok ctx b e =
      let (fine, same) = get_all_parts ctx b e in
      let ok = rw same at e in
      let entries = client.cursor bucket (client.begin b).0 in
      let begun = laws.begin_ok b fine in
      rw same (record {
        sound = λ bk m. elim (decode_all_sound json (map value_of entries) [] bk ok m) [
          | inl nowhere ↦ elim nowhere [ ]
          | inr (v, listed, d) ↦
              let (entry, at, is) = Memᴰ.of_map value_of entries listed in
              let stored = laws.cursor_sound bucket entry.0 entry.1 (client.begin b).0 at in
              let held =
                sym (ap (λ (m : Buckets V). m bucket entry.0) begun) ∙ stored ∙ ap some is in
              (entry.0, ap (decode json) held ∙ d)
        ];
        complete = λ id bk stored.
            let (v, at, d) = decode-some json (content b bucket id) bk stored in
            decode_all_complete json (map value_of entries) [] v bk ok
              (Memᴰ.map value_of (
                laws.cursor_complete bucket id v (client.begin b).0
                  (ap (λ (m : Buckets V). m bucket id) begun ∙ at)))
              d;
      })

  -- The bolt storage, over a database that keeps bolt's promises and an encoder that is undone by its
  -- decoder, acts as a map from ids to books: reads answer from the map, successful writes change it
  -- at their id alone, a failed write leaves the old or the new map, and `GetAll` answers with the
  -- books of the map, of which it is not said how often each is listed.
  pub bolt-Implements : Implements (new_bolt_book_storage json client bucket) view
  bolt-Implements = record {
    add_ok = add_ok;
    add_any = add_any;
    get_one_keeps = get_one_keeps;
    get_one_ok = get_one_ok;
    get_one_missing = get_one_missing;
    delete_ok = delete_ok;
    delete_any = delete_any;
    update_ok = update_ok;
    update_any = update_either;
    update_echo = update_echo;
    get_all_keeps = get_all_keeps;
    get_all_ok = get_all_ok;
  }
