-- ===== src/Replica/Overlap/Owed.antt =====
-- The pushes that overlapping calls owe, by queue and by id.
use demo_redis.Prelude.{
  String, String-cases, ◌≡◌, refl, sym, ap, ◌∙◌, none, List, [], ◌∷◌, ◌++◌, ◌==◌, inl, inr,
  All-append, All-middle, All-drop, Bool-cases, eq_refl, eq_iff, false,
}
use demo_redis.Book.{Book}
use demo_redis.Store.{Books}
use demo_redis.Queue.{create_queue, update_queue, delete_queue}
use demo_redis.Queue.Contract.{Queues, append}
use demo_redis.Replica.{Replica}
use demo_redis.Replica.Sync.{InSync, drained_lem}
use demo_redis.Replica.Pending.{pending, pending-move}
use mathlib.Core.List.{append_assoc, append-nil}
use mathlib.Core.Path.{subst}
use demo_redis.Replica.Overlap.{Kind, Pushes, queue_of, owed_to, IsFree, AreDistinct}

pub differ_sym : (i j : String) → (i == j) ≡ false → (j == i) ≡ false
differ_sym i j d = elim (String-cases j i) [ inl (e, p) ↦ cc (d, e, p, eq_refl i) | inr (e, n) ↦ e ]

pub owed_to-join :
    (qid : String) (l r : Pushes) → owed_to qid (l ++ r) ≡ owed_to qid l ++ owed_to qid r
unfolding owed_to
owed_to-join qid [] r = refl
owed_to-join qid ((k, b) ∷ l) r = elim (Bool-cases (queue_of k == qid)) [
  | inl e ↦ rw (e, owed_to-join qid l r) refl
  | inr e ↦ rw (e, owed_to-join qid l r) refl
]

pub free-none :
    (id qid : String) (owed : Pushes) → IsFree id owed → pending id (owed_to qid owed) ≡ none
unfolding owed_to pending
free-none id qid [] h = refl
free-none id qid ((k, b) ∷ owed) (d, h) = elim (Bool-cases (queue_of k == qid)) [
  | inl e ↦ rw (e, free-none id qid owed h, d) refl
  | inr e ↦ rw (e, free-none id qid owed h) refl
]

-- The call that leaves was on an id of its own.
pub AreDistinct-drop :
    (front back : Pushes) (k : Kind) (b : Book)
    → AreDistinct (front ++ (k, b) ∷ back)
    → IsFree b.id (front ++ back) × AreDistinct (front ++ back)
AreDistinct-drop [] back k b h = h
AreDistinct-drop ((k', b') ∷ front) back k b (h, hs) =
    let (free, apart) = AreDistinct-drop front back k b hs in
    let d = differ_sym b.id b'.id (All-middle _ front back (k, b) h) in
    ((d, free), (All-drop _ front back (k, b) h, apart))

pub AreDistinct-last :
    (owed : Pushes) (k : Kind) (b : Book)
    → AreDistinct owed
    → IsFree b.id owed
    → AreDistinct (owed ++ (k, b) ∷ [])
AreDistinct-last [] k b h f = (tt, tt)
AreDistinct-last ((k', b') ∷ owed) k b (h, hs) (d, f) =
    (All-append _ owed _ h (differ_sym b'.id b.id d, tt), AreDistinct-last owed k b hs f)

-- Whether two replicas are in step depends on the last waiting books for each id.
pub record Alike (r s : Replica) : Type 0 where
  pub created :
      (id : String) → pending id (r.queued create_queue) ≡ pending id (s.queued create_queue)
  pub updated :
      (id : String) → pending id (r.queued update_queue) ≡ pending id (s.queued update_queue)
  pub deleted :
      (id : String) → pending id (r.queued delete_queue) ≡ pending id (s.queued delete_queue)
  pub backups : r.backup ≡ s.backup
  pub primaries : r.primary ≡ s.primary

pub Alike-InSync : (r s : Replica) → Alike r s → InSync s → InSync r
Alike-InSync r s a h id =
    drained_lem r id
    ∙ rw (a.created id, a.updated id, a.deleted id, ap (λ (m : Books). m id) a.backups)
        (sym (drained_lem s id) ∙ h id)
    ∙ sym (ap (λ (m : Books). m id) a.primaries)

-- What waits or is owed for a queue, after one more push is owed.
pub owed_last :
    (q : Queues) (qid : String) (owed : Pushes) (k : Kind) (b : Book)
    → q qid ++ owed_to qid (owed ++ (k, b) ∷ [])
      ≡ append (queue_of k) b (λ j. q j ++ owed_to j owed) qid
unfolding owed_to
owed_last q qid owed k b = elim (Bool-cases (queue_of k == qid)) [
  | inl e ↦
      rw (owed_to-join qid owed ((k, b) ∷ []), e)
        (sym (append_assoc (q qid) (owed_to qid owed) (b ∷ [])))
  | inr e ↦
      rw (owed_to-join qid owed ((k, b) ∷ []), e)
        (ap (λ (l : List Book). q qid ++ l) (append-nil (owed_to qid owed)))
]

-- What waits or is owed for an id, once one of the pushes that are owed was made.
pub pushed :
    (q : Queues) (qid id : String) (front back : Pushes) (k : Kind) (b : Book)
    → IsFree b.id (front ++ back)
    → pending id (append (queue_of k) b q qid ++ owed_to qid (front ++ back))
      ≡ pending id (q qid ++ owed_to qid (front ++ (k, b) ∷ back))
unfolding owed_to pending
pushed q qid id front back k b free = elim (Bool-cases (queue_of k == qid)) [
  | inl e ↦
      rw (e, owed_to-join qid front back, owed_to-join qid front ((k, b) ∷ back), e)
        (pending-move id b (q qid) (owed_to qid front) (owed_to qid back) λ same.
          ap (pending id) (sym (owed_to-join qid front back))
          ∙ subst (λ (i : String). pending i (owed_to qid (front ++ back)) ≡ none)
              ((eq_iff b.id id).0 same) (free-none b.id qid (front ++ back) free))
  | inr e ↦ rw (e, owed_to-join qid front back, owed_to-join qid front ((k, b) ∷ back), e) refl
]
