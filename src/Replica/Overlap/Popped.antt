-- ===== src/Replica/Overlap/Popped.antt =====
-- A pop of the consumer while calls are under way: what is popped comes before whatever is owed.
use demo_redis.Prelude.{
  String, String-cases, ◌≡◌, ◌≢◌, refl, sym, ap, ◌∙◌, Option, none, some, List, [], ◌∷◌, ◌==◌, inl,
  inr, All, All-map, arith, true, false,
}
use demo_redis.Book.{Book}
use demo_redis.Queue.{create_queue, update_queue, delete_queue}
use demo_redis.Queue.Contract.{Queues, first_of, set_queue}
use demo_redis.Replica.{queue_ids}
use demo_redis.Replica.Pending.{pending, or_else, unless, pending-join}
use demo_redis.Replica.Sync.{drained, drained_lem}
use demo_redis.Replica.Overlap.{
  Kind, creation, updating, deletion, Pushes, Flow, owed_to, finished, settled, pop, IsOrdered,
}
use demo_redis.Replica.Overlap.Kept.{IsKept}
use mathlib.Core.Option.{some-injective}
use mathlib.Core.Path.{subst}

other_id :
    (id : String) (c : Book) (l : List Book)
    → pending c.id l ≡ none
    → pending id l ≢ none
    → (c.id == id) ≡ false
other_id id c l none_waits waits = elim (String-cases c.id id) [
  | inl (e, p) ↦ absurd (waits (subst (λ (i : String). pending i l ≡ none) p none_waits))
  | inr (e, n) ↦ e
]

-- Where an update of an id waits, no creation of it is owed.
update_first :
    (q : Queues) (id : String) (owed : Pushes)
    → All (IsOrdered q) owed
    → pending id (q update_queue) ≢ none
    → pending id (owed_to create_queue owed) ≡ none
unfolding owed_to pending
update_first q id [] h waits = refl
update_first q id ((creation, c) ∷ owed) ((hu, hd), h) waits =
    rw (update_first q id owed h waits, other_id id c (q update_queue) hu waits) refl
update_first q id ((updating, c) ∷ owed) (hd, h) waits = update_first q id owed h waits
update_first q id ((deletion, c) ∷ owed) (o, h) waits = update_first q id owed h waits

-- Where a deletion of an id waits, neither a creation nor an update of it is owed.
delete_first :
    (q : Queues) (id : String) (owed : Pushes)
    → All (IsOrdered q) owed
    → pending id (q delete_queue) ≢ none
    → (pending id (owed_to create_queue owed) ≡ none)
      × (pending id (owed_to update_queue owed) ≡ none)
unfolding owed_to pending
delete_first q id [] h waits = (refl, refl)
delete_first q id ((creation, c) ∷ owed) ((hu, hd), h) waits =
    let (create, update) = delete_first q id owed h waits in
    (rw (create, other_id id c (q delete_queue) hd waits) refl, update)
delete_first q id ((updating, c) ∷ owed) (hd, h) waits =
    let (create, update) = delete_first q id owed h waits in
    (create, rw (update, other_id id c (q delete_queue) hd waits) refl)
delete_first q id ((deletion, c) ∷ owed) (o, h) waits = delete_first q id owed h waits

fewer_IsOrdered :
    (q r : Queues)
    → ((id k : String) → pending id (q k) ≡ none → pending id (r k) ≡ none)
    → (o : Kind × Book) → IsOrdered q o
    → IsOrdered r o
fewer_IsOrdered q r fewer (creation, c) (hu, hd) =
    (fewer c.id update_queue hu, fewer c.id delete_queue hd)
fewer_IsOrdered q r fewer (updating, c) hd = fewer c.id delete_queue hd
fewer_IsOrdered q r fewer (deletion, c) o = tt

-- What the backup will hold of an id, by the last books that wait or are owed for it.
abbrev outcome : String → Queues → Pushes → Option Book → Option Book
outcome id q owed m =
    unless (or_else (pending id (owed_to delete_queue owed)) (pending id (q delete_queue))) (
      or_else (or_else (pending id (owed_to update_queue owed)) (pending id (q update_queue))) (
        or_else (or_else (pending id (owed_to create_queue owed)) (pending id (q create_queue))) m))

finished_lem :
    (x : Flow) (id : String)
    → drained (finished x) id
      ≡ outcome id x.replica.queued x.owed (settled x.held x.replica.backup id)
finished_lem x id =
    drained_lem (finished x) id
    ∙ rw
        (
          pending-join id (x.replica.queued delete_queue) (owed_to delete_queue x.owed),
          pending-join id (x.replica.queued update_queue) (owed_to update_queue x.owed),
          pending-join id (x.replica.queued create_queue) (owed_to create_queue x.owed),
        )
        refl

-- Without its head, a queue has fewer books waiting.
tail_fewer :
    (q : Queues) (qid : String) (b : Book) (c : List Book)
    → q qid ≡ b ∷ c
    → (id k : String) → pending id (q k) ≡ none
    → pending id (set_queue qid c q k) ≡ none
unfolding pending
tail_fewer q qid b c e id k none_waits = elim (String-cases qid k) [
  | inl (same, p) ↦ rw same (
      let there : pending id (b ∷ c) ≡ none =
        ap (pending id) (sym e) ∙ ap (λ (j : String). pending id (q j)) p ∙ none_waits in
      ground (arith, there))
  | inr (differ, n) ↦ rw differ none_waits
]

-- The id of the head is waiting.
head_waits :
    (q : Queues) (qid id : String) (b : Book) (c : List Book)
    → q qid ≡ b ∷ c
    → (b.id == id) ≡ true
    → pending id (q qid) ≢ none
unfolding pending
head_waits q qid id b c e same none_waits =
    let there : pending id (b ∷ c) ≡ none = ap (pending id) (sym e) ∙ none_waits in
    ground (arith, same, there)

module _ (x : Flow) (h : IsKept x) (free : x.held ≡ none) where
  -- A pop keeps the outcome of each id, and takes books away only.
  popped :
      (qid : String) (b : Book) (rest : Queues)
      → ((id : String)
          → outcome id rest x.owed (settled (some (qid, b)) x.replica.backup id)
            ≡ outcome id x.replica.queued x.owed (x.replica.backup id))
      → ((id k : String) → pending id (x.replica.queued k) ≡ none → pending id (rest k) ≡ none)
      → IsKept (pop qid b rest x)
  popped qid b rest same fewer = record {
    sync = λ id.
        finished_lem (pop qid b rest x) id
        ∙ same id
        ∙ ap
            (λ (o : Option (String × Book)).
              outcome id x.replica.queued x.owed (settled o x.replica.backup id))
            (sym free)
        ∙ sym (finished_lem x id)
        ∙ h.sync id;
    order = All-map (fewer_IsOrdered x.replica.queued rest fewer) x.owed h.order;
    apart = h.apart;
  }

  pop-create :
      (b : Book) (c : List Book)
      → x.replica.queued create_queue ≡ b ∷ c
      → IsKept (pop create_queue b (set_queue create_queue c x.replica.queued) x)
  unfolding pending
  pop-create b c ec =
      popped create_queue b _ (λ id. rw ec (ground arith))
        (tail_fewer x.replica.queued create_queue b c ec)

  pop-update :
      (b : Book) (c : List Book)
      → x.replica.queued create_queue ≡ []
      → x.replica.queued update_queue ≡ b ∷ c
      → IsKept (pop update_queue b (set_queue update_queue c x.replica.queued) x)
  unfolding pending
  pop-update b c ec eu =
      popped update_queue b _
        (λ id. elim (String-cases b.id id) [
          | inl (e, p) ↦
              let owed_none =
                update_first x.replica.queued id x.owed h.order
                  (head_waits x.replica.queued update_queue id b c eu e) in
              rw (ec, eu, e, owed_none) (ground arith)
          | inr (e, n) ↦ rw (ec, eu, e) (ground arith)
        ])
        (tail_fewer x.replica.queued update_queue b c eu)

  pop-delete :
      (b : Book) (c : List Book)
      → x.replica.queued create_queue ≡ []
      → x.replica.queued update_queue ≡ []
      → x.replica.queued delete_queue ≡ b ∷ c
      → IsKept (pop delete_queue b (set_queue delete_queue c x.replica.queued) x)
  unfolding pending
  pop-delete b c ec eu ed =
      popped delete_queue b _
        (λ id. elim (String-cases b.id id) [
          | inl (e, p) ↦
              let (create, update) =
                delete_first x.replica.queued id x.owed h.order
                  (head_waits x.replica.queued delete_queue id b c ed e) in
              rw (ec, eu, ed, e, create, update) (ground arith)
          | inr (e, n) ↦ rw (ec, eu, ed, e) (ground arith)
        ])
        (tail_fewer x.replica.queued delete_queue b c ed)

  -- Whatever the consumer pops.
  pub pop-IsKept :
      (qid : String) (b : Book) (rest : Queues)
      → first_of queue_ids x.replica.queued ≡ some (qid, b, rest)
      → IsKept (pop qid b rest x)
  pop-IsKept qid b rest =
      go (x.replica.queued create_queue) (x.replica.queued update_queue)
        (x.replica.queued delete_queue) refl refl refl
    where
      found :
          (t u : String × Book × Queues)
          → some t ≡ some u
          → IsKept (pop t.0 t.1 t.2 x)
          → IsKept (pop u.0 u.1 u.2 x)
      found t u e k =
          subst (λ (v : String × Book × Queues). IsKept (pop v.0 v.1 v.2 x)) (some-injective t u e)
            k

      go :
          (c u d : List Book)
          → x.replica.queued create_queue ≡ c
          → x.replica.queued update_queue ≡ u
          → x.replica.queued delete_queue ≡ d
          → first_of queue_ids x.replica.queued ≡ some (qid, b, rest)
          → IsKept (pop qid b rest x)
      go (a ∷ c) u d ec eu ed e =
          found (create_queue, a, set_queue create_queue c x.replica.queued) (qid, b, rest)
            (sym (rw ec refl) ∙ e) (pop-create a c ec)
      go [] (a ∷ u) d ec eu ed e =
          found (update_queue, a, set_queue update_queue u x.replica.queued) (qid, b, rest)
            (sym (rw (ec, eu) refl) ∙ e) (pop-update a u ec eu)
      go [] [] (a ∷ d) ec eu ed e =
          found (delete_queue, a, set_queue delete_queue d x.replica.queued) (qid, b, rest)
            (sym (rw (ec, eu, ed) refl) ∙ e) (pop-delete a d ec eu ed)
      go [] [] [] ec eu ed e =
          (let idle : first_of queue_ids x.replica.queued ≡ none = rw (ec, eu, ed) refl in
            cc (idle, e))
