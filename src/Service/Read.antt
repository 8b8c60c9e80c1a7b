-- ===== src/Service/Read.antt =====
-- `BookService.GetOne` of api.services.go: the primary storage first, the backup behind it.
use demo_redis.Prelude.{
  some-ne-none, String, ◌≡◌, ◌≢◌, refl, sym, ap, ◌∙◌, ◌⊎◌, inl, inr, Option, none, some,
  Option-cases, arith, eq_refl,
}
use demo_redis.Book.{Book, Error, book_not_found}
use demo_redis.Context.{Context}
use demo_redis.Store.{Books}
use demo_redis.Store.Contract.{Implements}
use demo_redis.Queue.{delete_queue}
use demo_redis.Queue.Contract.{Queues, AreApart}
use demo_redis.Replica.Pending.{pending, or_else, unless}
use demo_redis.Replica.Sync.{InSync, drained, drained_lem}
use demo_redis.Service.{World, BookService, get_one}
use demo_redis.Service.Abstract.{replica_of}

module _ {R B E : Type 0} (bs : BookService R B E) where
  pub hit :
      (ctx : Context) (id : String) (w : World R B E)
      → (bs.pstorage.get_one ctx id w.redis).0.1 ≡ none
      → get_one bs ctx id w ≡ (
        ((bs.pstorage.get_one ctx id w.redis).0.0, none),
        record w { redis = (bs.pstorage.get_one ctx id w.redis).1 },
      )
  unfolding get_one
  hit ctx id w p = ground arith

  pub miss :
      (ctx : Context) (id : String) (w : World R B E) (e f : Error)
      → (bs.pstorage.get_one ctx id w.redis).0.1 ≡ some e
      → (bs.bstorage.get_one ctx id w.bolt).0.1 ≡ some f
      → get_one bs ctx id w ≡ (
        ((bs.bstorage.get_one ctx id w.bolt).0.0, some f),
        record w {
          redis = (bs.pstorage.get_one ctx id w.redis).1;
          bolt = (bs.bstorage.get_one ctx id w.bolt).1;
        },
      )
  unfolding get_one
  miss ctx id w e f p q = ground arith

  -- The book of the backup, and the primary's state after the attempt to put it back.
  abbrev pub behind : Context → String → World R B E → Book
  behind ctx id w = (bs.bstorage.get_one ctx id w.bolt).0.0

  pub refill :
      (ctx : Context) (id : String) (w : World R B E) (e : Error)
      → (bs.pstorage.get_one ctx id w.redis).0.1 ≡ some e
      → (bs.bstorage.get_one ctx id w.bolt).0.1 ≡ none
      → get_one bs ctx id w ≡ (
        (behind ctx id w, none),
        record w {
          redis =
              (bs.pstorage.add ctx id (behind ctx id w) (bs.pstorage.get_one ctx id w.redis).1).1;
          bolt = (bs.bstorage.get_one ctx id w.bolt).1;
        },
      )
  unfolding get_one
  refill ctx id w e p q = ground arith

-- What an answer says of the primary's map and the backup's, given the error that the primary storage
-- answered with.
abbrev pub Answered : Books → Books → Option Error → String → Book × Option Error → Type 0
Answered p b perr id (book, none) = (p id ≡ some book) ⊎ (perr ≢ none) × (b id ≡ some book)
Answered p b perr id (book, some book_not_found) = (perr ≢ none) × (b id ≡ none)
Answered p b perr id (book, some _) = perr ≢ none

-- Only a waiting deletion hides a book of the backup.
waiting_delete :
    (d u c o : Option Book) (b : Book)
    → o ≡ some b
    → unless d (or_else u (or_else c o)) ≡ none
    → (t : Book) × (d ≡ some t)
waiting_delete (some t) u c o b e h = (t, refl)
waiting_delete none (some x) c o b e h = cc
waiting_delete none none (some x) o b e h = cc
waiting_delete none none none o b e h = cc

module _ {R B E : Type 0} (bs : BookService R B E) (pview : R → Books) (bview : B → Books)
    (queued : R → Queues) (pstore : Implements bs.pstorage pview)
    (bstore : Implements bs.bstorage bview)
    (apart : AreApart bs.pstorage bs.queue pview queued) where
  Answered-err :
      (ctx : Context) (id : String) (w : World R B E) (p : Option Error) (book : Book) (f : Error)
      → p ≢ none
      → (bs.bstorage.get_one ctx id w.bolt).0.1 ≡ some f
      → Answered (pview w.redis) (bview w.bolt) p id (book, some f)
  Answered-err ctx id w p book book_not_found failed e =
      (failed, bstore.get_one_missing ctx id w.bolt e)
  Answered-err ctx id w p book _ failed e = failed

  -- `GetOne` answers with the primary's book; or, where the primary answered with an error, with the
  -- backup's book; it reports `ErrBookNotFound` only if the primary answered with an error and the
  -- backup has no such book, and any other error only if the primary answered with an error.
  pub get_one-Answered :
      (ctx : Context) (id : String) (w : World R B E)
      → Answered
          (pview w.redis)
          (bview w.bolt)
          (bs.pstorage.get_one ctx id w.redis).0.1
          id
          (get_one bs ctx id w).0
  get_one-Answered ctx id w = elim (Option-cases (bs.pstorage.get_one ctx id w.redis).0.1) [
    | inl p ↦ rw (hit bs ctx id w p) (inl (pstore.get_one_ok ctx id w.redis p))
    | inr (e, p) ↦
        let failed : (bs.pstorage.get_one ctx id w.redis).0.1 ≢ none =
          λ q. some-ne-none (sym p ∙ q) in
        elim (Option-cases (bs.bstorage.get_one ctx id w.bolt).0.1) [
          | inl q ↦ rw (refill bs ctx id w e p q) (inr (failed, bstore.get_one_ok ctx id w.bolt q))
          | inr (f, q) ↦
              rw (miss bs ctx id w e f p q)
                (Answered-err ctx id w _ (behind bs ctx id w) f failed q)
        ]
  ]

  refilled :
      (ctx : Context) (id : String) (w : World R B E)
      → pview w.redis id ≡ none
      → (get_one bs ctx id w).0.1 ≡ none
      → (e : Error) × ((bs.pstorage.get_one ctx id w.redis).0.1 ≡ some e)
        × ((bs.bstorage.get_one ctx id w.bolt).0.1 ≡ none)
  refilled ctx id w gone ok = elim (Option-cases (bs.pstorage.get_one ctx id w.redis).0.1) [
    | inl p ↦ absurd (some-ne-none (sym (pstore.get_one_ok ctx id w.redis p) ∙ gone))
    | inr (e, p) ↦ elim (Option-cases (bs.bstorage.get_one ctx id w.bolt).0.1) [
      | inl q ↦ (e, p, q)
      | inr (f, q) ↦ absurd (some-ne-none (rw (miss bs ctx id w e f p q) at ok))
    ]
  ]

  -- If the primary has no book of the id while the backup is due to agree with it, a `GetOne` that
  -- returns a book has found a deletion of that id still waiting, and it undoes it: once the book is
  -- put back, the primary holds it again and will not agree with the backup.
  pub get_one_undoes_delete :
      (ctx : Context) (id : String) (w : World R B E)
      → InSync (replica_of pview bview queued w)
      → pview w.redis id ≡ none
      → (get_one bs ctx id w).0.1 ≡ none
      → (bs.pstorage.add ctx id (behind bs ctx id w) (bs.pstorage.get_one ctx id w.redis).1).0
        ≡ none
      → ((t : Book) × (pending id (queued w.redis delete_queue) ≡ some t))
        × (pview (get_one bs ctx id w).1.redis id ≡ some (get_one bs ctx id w).0.0)
        × ¬ InSync (replica_of pview bview queued (get_one bs ctx id w).1)
  get_one_undoes_delete ctx id w sync gone ok cached =
      let (e, p, q) = refilled ctx id w gone ok in
      let before = replica_of pview bview queued w in
      let after = replica_of pview bview queued (get_one bs ctx id w).1 in
      let stored = bstore.get_one_ok ctx id w.bolt q in
      let (t, waits) =
        waiting_delete _ _ _ (bview w.bolt id) _ stored
          (sym (drained_lem before id) ∙ sync id ∙ gone) in
      let back : pview (get_one bs ctx id w).1.redis id ≡ some (behind bs ctx id w) =
        rw (refill bs ctx id w e p q)
          (ap (λ (m : Books). m id) (pstore.add_ok ctx id _ _ cached) ∙ rw (eq_refl id)) in
      let same : queued (get_one bs ctx id w).1.redis ≡ queued w.redis =
        rw (refill bs ctx id w e p q)
          (apart.queued-add ctx id _ _ ∙ apart.queued-get_one ctx id w.redis) in
      let waits' : pending id (after.queued delete_queue) ≡ some t = rw same waits in
      let lost : drained after id ≡ none = drained_lem after id ∙ rw waits' in
      ((t, waits), back ∙ rw (refill bs ctx id w e p q), λ h. cc (back, lost, h id))
