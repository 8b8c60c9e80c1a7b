-- ===== src/Replica/Sync.antt =====
-- The backup catches up with the primary: what it will hold once the waiting books are applied is
-- what the primary holds now.
use demo_redis.Prelude.{
  String, String-cases, ◌≡◌, refl, sym, ap, ◌∙◌, Option, none, some, inl, inr, List, [], ◌∷◌,
  eq_refl,
}
use demo_redis.Book.{Book}
use demo_redis.Store.{Books}
use demo_redis.Queue.{create_queue, update_queue, delete_queue}
use demo_redis.Queue.Contract.{Queues, first_of}
use demo_redis.Replica.{Replica, create, update, delete, consume, tombstone, settle, queue_ids}
use demo_redis.Replica.Pending.{
  put_all, remove_all, pending, or_else, unless, pending-append, put_all_lem, remove_all_lem,
}

-- The backup once the consumer has taken every waiting book: creations first, deletions last.
abbrev pub drained : Replica → Books
drained r =
    remove_all (r.queued delete_queue)
      (put_all (r.queued update_queue) (put_all (r.queued create_queue) r.backup))

abbrev pub InSync : Replica → Type 0
InSync r = (id : String) → drained r id ≡ r.primary id

pub drained_lem :
    (r : Replica) (id : String)
    → drained r id
      ≡ unless (pending id (r.queued delete_queue)) (
          or_else
            (pending id (r.queued update_queue))
            (or_else (pending id (r.queued create_queue)) (r.backup id)))
drained_lem r id =
    remove_all_lem (r.queued delete_queue) _ id
    ∙ ap (unless (pending id (r.queued delete_queue))) (
        put_all_lem (r.queued update_queue) _ id
        ∙ ap (or_else (pending id (r.queued update_queue)))
            (put_all_lem (r.queued create_queue) r.backup id))

module _ (r : Replica) (b : Book) where
  pub create-InSync :
      pending b.id (r.queued update_queue) ≡ none
      → pending b.id (r.queued delete_queue) ≡ none
      → InSync r
      → InSync (create b r)
  create-InSync hu hd h id =
      drained_lem (create b r) id
      ∙ rw (pending-append id (r.queued create_queue) b) (elim (String-cases b.id id) [
        | inl (e, p) ↦ rw (e, ← p, hu, hd)
        | inr (e, _) ↦ rw e (sym (drained_lem r id) ∙ h id)
      ])

  pub update-InSync : pending b.id (r.queued delete_queue) ≡ none → InSync r → InSync (update b r)
  update-InSync hd h id =
      drained_lem (update b r) id
      ∙ rw (pending-append id (r.queued update_queue) b) (elim (String-cases b.id id) [
        | inl (e, p) ↦ rw (e, ← p, hd)
        | inr (e, _) ↦ rw e (sym (drained_lem r id) ∙ h id)
      ])

pub delete-InSync : (r : Replica) (gone : String) → InSync r → InSync (delete gone r)
delete-InSync r gone h id =
    drained_lem (delete gone r) id
    ∙ rw (pending-append id (r.queued delete_queue) (tombstone gone)) (elim (String-cases gone id) [
      | inl (e, _) ↦ rw e
      | inr (e, _) ↦ rw e (sym (drained_lem r id) ∙ h id)
    ])

-- A round of the consumer changes nothing of what the backup will hold.
pub drained-consume : (r : Replica) → drained (consume r) ≡ drained r
drained-consume r =
    go (r.queued create_queue) (r.queued update_queue) (r.queued delete_queue) refl refl refl
  where
    go :
        (c u d : List Book)
        → r.queued create_queue ≡ c
        → r.queued update_queue ≡ u
        → r.queued delete_queue ≡ d
        → drained (consume r) ≡ drained r
    go (b ∷ c) u d ec eu ed = rw (ec)
    go [] (b ∷ u) d ec eu ed = rw (ec, eu) (simp ec)
    go [] [] (b ∷ d) ec eu ed = rw (ec, eu, ed) (simp (ec, eu))
    go [] [] [] ec eu ed = let idle : consume r ≡ r = rw (ec, eu, ed) in ap drained idle

primary-settle :
    (r : Replica) (o : Option (String × Book × Queues)) → (settle r o).primary ≡ r.primary
primary-settle r none = refl
primary-settle r (some (qid, b, q)) = refl

pub consume-InSync : (r : Replica) → InSync r → InSync (consume r)
consume-InSync r h id =
    ap (λ (m : Books). m id) (drained-consume r)
    ∙ h id
    ∙ sym (ap (λ (m : Books). m id) (primary-settle r (first_of queue_ids r.queued)))

-- The steps of the service's writers and of the consumer, in any order. A new id has nothing waiting
-- in the queues that are taken after its own, and an update meets no waiting deletion.
pub data Step : Replica → Replica → Type 0 where
  creates :
      (r : Replica) (b : Book)
      → pending b.id (r.queued update_queue) ≡ none
      → pending b.id (r.queued delete_queue) ≡ none
      → Step r (create b r)
  updates :
      (r : Replica) (b : Book) → pending b.id (r.queued delete_queue) ≡ none → Step r (update b r)
  deletes : (r : Replica) (id : String) → Step r (delete id r)
  consumes : (r : Replica) → Step r (consume r)

pub data Reach (r : Replica) : Replica → Type 0 where
  here : Reach r r
  next : {s t : Replica} → Reach r s → Step s t → Reach r t

Step-InSync : {r s : Replica} → Step r s → InSync r → InSync s
Step-InSync (creates r b hu hd) h = create-InSync r b hu hd h
Step-InSync (updates r b hd) h = update-InSync r b hd h
Step-InSync (deletes r id) h = delete-InSync r id h
Step-InSync (consumes r) h = consume-InSync r h

Reach-InSync : {r s : Replica} → Reach r s → InSync r → InSync s
Reach-InSync here h = h
Reach-InSync (next path st) h = Step-InSync st (Reach-InSync path h)

abbrev pub IsQuiet : Replica → Type 0
IsQuiet r =
    (r.queued create_queue ≡ []) × (r.queued update_queue ≡ []) × (r.queued delete_queue ≡ [])

-- From a backup that is in step with the primary, after any interleaving of creations of new ids,
-- updates that meet no waiting deletion, deletions and rounds of the consumer, whenever the queues
-- are empty the backup holds what the primary holds.
pub Reach-agree :
    {r s : Replica} → InSync r → Reach r s → IsQuiet s → (id : String) → s.backup id ≡ s.primary id
Reach-agree {s} h path (ec, eu, ed) id =
    let settled : drained s ≡ s.backup = rw (ec, eu, ed) in
    sym (ap (λ (m : Books). m id) settled) ∙ Reach-InSync path h id

-- An update while a deletion of its id is waiting is lost to the backup: the primary holds the
-- updated book, and the backup will hold none, so the two are not in step.
pub update_after_delete :
    (r : Replica) (b t : Book)
    → pending b.id (r.queued delete_queue) ≡ some t
    → ((update b r).primary b.id ≡ some b)
      × (drained (update b r) b.id ≡ none)
      × ¬ InSync (update b r)
update_after_delete r b t hd =
    let kept : (update b r).primary b.id ≡ some b = rw (eq_refl b.id) in
    let lost : drained (update b r) b.id ≡ none = drained_lem (update b r) b.id ∙ rw hd in
    (kept, lost, λ h. cc (kept, lost, h b.id))
