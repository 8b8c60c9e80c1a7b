-- ===== src/Queue/Laws.antt =====
-- The redis lists of infra.queues.go implement the queues.
use demo_redis.Prelude.{String, ◌≡◌, refl, ap, ◌∙◌, ◌⊎◌, inl, inr, Option, none, some, List, arith}
use demo_redis.Book.{Book, Error}
use demo_redis.Context.{Context}
use demo_redis.Redis.{Json, JsonLaws, RedisClient, RedisLaws, Keyspace}
use demo_redis.Store.Redis.Decode.{decoded}
use demo_redis.Queue.{push, popped, pop, new_redis_queue}
use demo_redis.Queue.Contract.{Queues, append, first_of, Enqueues}
use demo_redis.Queue.Decode.{queued_in, queued_in-push, first_of-decoded}

module _ {V R : Type 0} (json : Json V) (client : RedisClient V R) (contents : R → Keyspace V)
    (json_laws : JsonLaws json) (laws : RedisLaws client contents) where
  abbrev pub queued : R → Queues
  queued r = queued_in json (contents r)

  push_ok :
      (ctx : Context) (qid : String) (b : Book) (r : R)
      → (push json client ctx qid b r).0 ≡ none
      → queued (push json client ctx qid b r).1 ≡ append qid b (queued r)
  unfolding push
  push_ok ctx qid b r =
      rw (json_laws.marshal_ok b, push)
        (λ e.
          ap (queued_in json) (laws.rpush_ok ctx qid (json.marshal b).0 r e)
          ∙ queued_in-push json json_laws qid b (contents r))

  push_any :
      (ctx : Context) (qid : String) (b : Book) (r : R)
      → (queued (push json client ctx qid b r).1 ≡ queued r)
        ⊎ (queued (push json client ctx qid b r).1 ≡ append qid b (queued r))
  unfolding push
  push_any ctx qid b r =
      rw (json_laws.marshal_ok b, push)
        (elim (laws.rpush_any ctx qid (json.marshal b).0 r) [
          | inl e ↦ inl (ap (queued_in json) e)
          | inr e ↦ inr (ap (queued_in json) e ∙ queued_in-push json json_laws qid b (contents r))
        ])

  popped_parts :
      (qid : String) (r : Book × Option Error)
      → (popped qid r).2 ≡ none
      → (decoded r ≡ some (popped qid r).1) × ((popped qid r).0 ≡ qid)
  unfolding popped
  popped_parts qid (b, none) e = (refl, refl)
  popped_parts qid (b, some err) e = cc

  pop_parts :
      (ctx : Context) (qids : List String) (r : R)
      → (pop json client ctx qids r).0.2 ≡ none
      → ((client.blpop ctx 0 qids r).0.1 ≡ none)
        × (pop json client ctx qids r ≡ (
          popped
              (client.blpop ctx 0 qids r).0.0.0
              (json.unmarshal (client.blpop ctx 0 qids r).0.0.1),
          (client.blpop ctx 0 qids r).1,
        ))
  unfolding pop
  pop_parts ctx qids r e = ground arith

  pop_ok :
      (ctx : Context) (qids : List String) (r : R)
      → (pop json client ctx qids r).0.2 ≡ none
      → first_of qids (queued r)
        ≡ some (
          (pop json client ctx qids r).0.0,
          (pop json client ctx qids r).0.1,
          queued (pop json client ctx qids r).1,
        )
  pop_ok ctx qids r e =
      let (fine, same) = pop_parts ctx qids r e in
      let (book, key) = popped_parts _ _ (rw same at e) in
      rw (same, key)
        (first_of-decoded json qids (contents r) _ _ _ _ (laws.blpop_ok ctx 0 qids r fine) book)

  -- The redis queue takes pushed books in order, and pops the oldest book of the first queue, in the
  -- order of the given ids, that is not empty.
  pub redis-Enqueues : Enqueues (new_redis_queue json client) queued
  redis-Enqueues = record { push_ok = push_ok; push_any = push_any; pop_ok = pop_ok }
