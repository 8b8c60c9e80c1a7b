-- ===== src/Service/Lookup.antt =====
-- What `BookService.GetOne` of api.services.go leaves of the storages, while both have the same book.
use demo_redis.Prelude.{
  String, String-cases, ◌≡◌, refl, sym, ap, ◌∙◌, fun_ext, inl, inr, some, none, Option-cases,
}
use demo_redis.Book.{Book}
use demo_redis.Context.{Context}
use demo_redis.Store.{Books, put}
use demo_redis.Store.Contract.{Implements}
use demo_redis.Queue.Contract.{Queues, AreApart}
use demo_redis.Replica
use demo_redis.Service.{World, BookService, get_one}
use demo_redis.Service.Abstract.{replica_of}
use demo_redis.Service.Read.{hit, miss, refill, behind}

-- A book that is stored again changes nothing.
put-same : (id : String) (b : Book) (m : Books) → m id ≡ some b → put id b m ≡ m
put-same id b m h =
    fun_ext λ k. elim (String-cases id k) [ inl (e, p) ↦ rw e (sym h ∙ ap m p) | inr (e, _) ↦ rw e ]

module _ {R B E : Type 0} (bs : BookService R B E) (pview : R → Books) (bview : B → Books)
    (queued : R → Queues) (pstore : Implements bs.pstorage pview)
    (bstore : Implements bs.bstorage bview)
    (apart : AreApart bs.pstorage bs.queue pview queued) where
  -- Where the backup has what the primary has under the id, `GetOne` leaves the maps and the queues as
  -- they were, although it may store the book of the backup in the primary.
  pub get_one-replica_of :
      (ctx : Context) (id : String) (w : World R B E)
      → bview w.bolt id ≡ pview w.redis id
      → replica_of pview bview queued (get_one bs ctx id w).1 ≡ replica_of pview bview queued w
  get_one-replica_of ctx id w same = elim (Option-cases (bs.pstorage.get_one ctx id w.redis).0.1) [
    | inl p ↦ rw (hit bs ctx id w p) (
        Replica.Replica-eq (pstore.get_one_keeps ctx id w.redis) refl
          (apart.queued-get_one ctx id w.redis))
    | inr (e, p) ↦ elim (Option-cases (bs.bstorage.get_one ctx id w.bolt).0.1) [
      | inr (f, q) ↦ rw (miss bs ctx id w e f p q) (
          Replica.Replica-eq (pstore.get_one_keeps ctx id w.redis)
            (bstore.get_one_keeps ctx id w.bolt) (apart.queued-get_one ctx id w.redis))
      | inl q ↦ rw (refill bs ctx id w e p q) (
          Replica.Replica-eq (restored ctx id w same q) (bstore.get_one_keeps ctx id w.bolt)
            (apart.queued-add ctx id _ _ ∙ apart.queued-get_one ctx id w.redis))
    ]
  ]
    where
      restored :
          (ctx : Context) (id : String) (w : World R B E)
          → bview w.bolt id ≡ pview w.redis id
          → (bs.bstorage.get_one ctx id w.bolt).0.1 ≡ none
          → pview
              (bs.pstorage.add ctx id (behind bs ctx id w) (bs.pstorage.get_one ctx id w.redis).1).1
            ≡ pview w.redis
      restored ctx id w same q =
          let kept = pstore.get_one_keeps ctx id w.redis in
          let found = sym same ∙ bstore.get_one_ok ctx id w.bolt q in
          elim (pstore.add_any ctx id (behind bs ctx id w) (bs.pstorage.get_one ctx id w.redis).1) [
            | inl e ↦ e ∙ kept
            | inr e ↦
                e ∙ ap (put id (behind bs ctx id w)) kept ∙ put-same id _ (pview w.redis) found
          ]
