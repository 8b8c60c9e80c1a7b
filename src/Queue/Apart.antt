-- ===== src/Queue/Apart.antt =====
-- The queues of infra.queues.go and the hash of repo.redis.go are apart on the one server.
use demo_redis.Prelude.{String, ◌≡◌, ap, inl, inr, Option, List, arith}
use demo_redis.Book.{Book}
use demo_redis.Context.{Context}
use demo_redis.Redis.{Json, JsonLaws, RedisClient, RedisLaws, Keyspace}
use demo_redis.Store.{Books}
use demo_redis.Store.Redis.Decode.{decode, books_of}
use demo_redis.Store.Redis.{h_books, add, get_one, delete, update, new_redis_book_storage}
use demo_redis.Queue.{push, pop, new_redis_queue}
use demo_redis.Queue.Contract.{AreApart}
use demo_redis.Queue.Decode.{queued_in, hash-first_of_lists}
use demo_redis.Queue.Laws.{queued}

module _ {V R : Type 0} (json : Json V) (client : RedisClient V R) (contents : R → Keyspace V)
    (json_laws : JsonLaws json) (laws : RedisLaws client contents) where
  view-push :
      (ctx : Context) (qid : String) (b : Book) (r : R)
      → books_of json (contents (push json client ctx qid b r).1) ≡ books_of json (contents r)
  unfolding push
  view-push ctx qid b r =
      rw (json_laws.marshal_ok b, push)
        (elim (laws.rpush_any ctx qid (json.marshal b).0 r) [
          | inl e ↦ ap (books_of json) e
          | inr e ↦ ap (books_of json) e
        ])

  view-pop :
      (ctx : Context) (qids : List String) (r : R)
      → books_of json (contents (pop json client ctx qids r).1) ≡ books_of json (contents r)
  view-pop ctx qids r =
      let same : (pop json client ctx qids r).1 ≡ (client.blpop ctx 0 qids r).1 =
        unfold pop in ground arith in
      let kept : (contents (client.blpop ctx 0 qids r).1).hash ≡ (contents r).hash =
        elim (laws.blpop_any ctx 0 qids r) [
          | inl e ↦ ap (λ (x : Keyspace V). x.hash) e
          | inr (k, v, e) ↦ hash-first_of_lists json qids _ _ k v e
        ] in
      rw same (
        ap {B = Books}
          (λ (h : String → String → Option V) (id : String). decode json (h h_books id)) kept)

  queued-add :
      (ctx : Context) (id : String) (b : Book) (r : R)
      → queued json client contents json_laws laws (add json client ctx id b r).1
        ≡ queued json client contents json_laws laws r
  unfolding add
  queued-add ctx id b r =
      rw (json_laws.marshal_ok b, add)
        (elim (laws.hset_any ctx h_books id (json.marshal b).0 r) [
          | inl e ↦ ap (queued_in json) e
          | inr e ↦ ap (queued_in json) e
        ])

  queued-update :
      (ctx : Context) (id : String) (b : Book) (r : R)
      → queued json client contents json_laws laws (update json client ctx id b r).1
        ≡ queued json client contents json_laws laws r
  unfolding update
  queued-update ctx id b r =
      rw (json_laws.marshal_ok b, update)
        (elim (laws.hset_any ctx h_books id (json.marshal b).0 r) [
          | inl e ↦ ap (queued_in json) e
          | inr e ↦ ap (queued_in json) e
        ])

  queued-delete :
      (ctx : Context) (id : String) (r : R)
      → queued json client contents json_laws laws (delete json client ctx id r).1
        ≡ queued json client contents json_laws laws r
  unfolding delete
  queued-delete ctx id r = elim (laws.hdel_any ctx h_books id r) [
    | inl e ↦ ap (queued_in json) e
    | inr e ↦ ap (queued_in json) e
  ]

  queued-get_one :
      (ctx : Context) (id : String) (r : R)
      → queued json client contents json_laws laws (get_one json client ctx id r).1
        ≡ queued json client contents json_laws laws r
  unfolding get_one
  queued-get_one ctx id r = ground (arith, laws.hget_keeps ctx h_books id r)

  -- Pushes and pops leave the books of the hash alone, and the storage's calls leave the queues alone.
  pub redis-AreApart :
      AreApart
        (new_redis_book_storage json client)
        (new_redis_queue json client)
        (λ r. books_of json (contents r))
        (queued json client contents json_laws laws)
  redis-AreApart = record {
    view-push = view-push;
    view-pop = view-pop;
    queued-add = queued-add;
    queued-get_one = queued-get_one;
    queued-delete = queued-delete;
    queued-update = queued-update;
  }
