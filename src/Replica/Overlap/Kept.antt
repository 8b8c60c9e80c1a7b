-- ===== src/Replica/Overlap/Kept.antt =====
-- Overlapping calls keep the backup in step with the primary, as long as no two of them are on one id.
use demo_redis.Prelude.{
  String, ◌≡◌, refl, sym, ap, ◌∙◌, Option, none, some, [], ◌∷◌, ◌++◌, ◌==◌, inl, inr, All, All-map,
  All-append, All-drop, All-zip, Bool-cases, false,
}
use demo_redis.Book.{Book}
use demo_redis.Queue.{create_queue, update_queue, delete_queue}
use demo_redis.Queue.Contract.{Queues, append}
use demo_redis.Replica.{Replica, tombstone}
use demo_redis.Replica.Pending.{pending, pending-join, pending-append}
use demo_redis.Replica.Sync.{InSync, create-InSync, update-InSync, delete-InSync}
use demo_redis.Replica.Overlap.{
  Kind, creation, updating, deletion, Pushes, Flow, queue_of, owed_to, finished, settled, IsFree,
  AreDistinct, write, push, store, wrote, IsOrdered,
}
use demo_redis.Replica.Overlap.Owed.{
  free-none, AreDistinct-drop, AreDistinct-last, differ_sym, Alike, Alike-InSync, owed_last, pushed,
}
use mathlib.Core.List.{append-nil}
use mathlib.Core.Path.{subst}

pub record IsKept (x : Flow) : Type 0 where
  pub sync : InSync (finished x)
  pub order : All (IsOrdered x.replica.queued) x.owed
  pub apart : AreDistinct x.owed

-- No call is under way, and the consumer holds no book.
abbrev pub idle : Replica → Flow
idle r = record { replica = r; owed = []; held = none }

idle-Alike : (r : Replica) → Alike (finished (idle r)) r
unfolding owed_to
idle-Alike r =
    let same : (qid id : String) → pending id (r.queued qid ++ []) ≡ pending id (r.queued qid) =
      λ qid id. ap (pending id) (append-nil (r.queued qid)) in
    record {
      created = same create_queue;
      updated = same update_queue;
      deleted = same delete_queue;
      backups = refl;
      primaries = refl;
    }

pub idle-IsKept : (r : Replica) → InSync r → IsKept (idle r)
idle-IsKept r h = record {
  sync = Alike-InSync (finished (idle r)) r (idle-Alike r) h;
  order = tt;
  apart = tt;
}

pub IsKept-InSync : (x : Flow) → IsKept x → x.owed ≡ [] → x.held ≡ none → InSync x.replica
IsKept-InSync x h none_owed none_held =
    let sync : InSync (finished (idle x.replica)) =
      subst
        (λ (o : Pushes × Option (String × Book)).
          InSync (finished (record x { owed = o.0; held = o.1 })))
        (λ i. (none_owed i, none_held i)) h.sync in
    let a = idle-Alike x.replica in
    Alike-InSync x.replica (finished (idle x.replica))
      (record {
        created = λ id. sym (a.created id);
        updated = λ id. sym (a.updated id);
        deleted = λ id. sym (a.deleted id);
        backups = refl;
        primaries = refl;
      })
      sync

append-none :
    (q : Queues) (qid id k : String) (b : Book)
    → (b.id == id) ≡ false
    → pending id (q qid) ≡ none
    → pending id (append k b q qid) ≡ none
append-none q qid id k b d none_waits = elim (Bool-cases (k == qid)) [
  | inl e ↦ rw (e, pending-append id (q qid) b, d) none_waits
  | inr e ↦ rw e none_waits
]

push-IsOrdered :
    (q : Queues) (k : Kind) (b : Book) (o : Kind × Book)
    → (o.1.id == b.id) ≡ false
    → IsOrdered q o
    → IsOrdered (append (queue_of k) b q) o
push-IsOrdered q k b (creation, c) d (hu, hd) =
    let d' = differ_sym c.id b.id d in
    (
      append-none q update_queue c.id (queue_of k) b d' hu,
      append-none q delete_queue c.id (queue_of k) b d' hd,
    )
push-IsOrdered q k b (updating, c) d hd =
    append-none q delete_queue c.id (queue_of k) b (differ_sym c.id b.id d) hd
push-IsOrdered q k b (deletion, c) d ordered = tt

module _ (x : Flow) (h : IsKept x) where
  none_owed :
      (id qid : String)
      → IsFree id x.owed
      → pending id (x.replica.queued qid) ≡ none
      → pending id ((finished x).queued qid) ≡ none
  none_owed id qid free none_waits =
      pending-join id (x.replica.queued qid) (owed_to qid x.owed)
      ∙ rw (free-none id qid x.owed free) none_waits

  write-Alike :
      (k : Kind) (b : Book)
      → Alike (finished (write k b x)) (record {
        primary = wrote k b x.replica.primary;
        backup = (finished x).backup;
        queued = append (queue_of k) b (finished x).queued;
      })
  write-Alike k b = record {
    created = λ id. ap (pending id) (owed_last x.replica.queued create_queue x.owed k b);
    updated = λ id. ap (pending id) (owed_last x.replica.queued update_queue x.owed k b);
    deleted = λ id. ap (pending id) (owed_last x.replica.queued delete_queue x.owed k b);
    backups = refl;
    primaries = refl;
  }

  -- A call whose id has no call under way, and after which nothing of the id waits that is popped later.
  write-IsKept_of :
      (k : Kind) (b : Book)
      → InSync (finished (write k b x))
      → IsFree b.id x.owed
      → IsOrdered x.replica.queued (k, b)
      → IsKept (write k b x)
  write-IsKept_of k b sync free ordered = record {
    sync = sync;
    order = All-append _ x.owed _ h.order (ordered, tt);
    apart = AreDistinct-last x.owed k b h.apart free;
  }

  pub create-IsKept :
      (b : Book)
      → IsFree b.id x.owed
      → IsOrdered x.replica.queued (creation, b)
      → IsKept (write creation b x)
  create-IsKept b free (hu, hd) =
      write-IsKept_of creation b
        (Alike-InSync _ _ (write-Alike creation b) (
          create-InSync (finished x) b (none_owed b.id update_queue free hu)
            (none_owed b.id delete_queue free hd) h.sync))
        free (hu, hd)

  pub update-IsKept :
      (b : Book)
      → IsFree b.id x.owed
      → IsOrdered x.replica.queued (updating, b)
      → IsKept (write updating b x)
  update-IsKept b free hd =
      write-IsKept_of updating b
        (Alike-InSync _ _ (write-Alike updating b)
          (update-InSync (finished x) b (none_owed b.id delete_queue free hd) h.sync))
        free hd

  pub delete-IsKept : (id : String) → IsFree id x.owed → IsKept (write deletion (tombstone id) x)
  delete-IsKept id free =
      write-IsKept_of deletion (tombstone id)
        (Alike-InSync _ _ (write-Alike deletion (tombstone id))
          (delete-InSync (finished x) id h.sync))
        free tt

  -- A push that is owed is made.
  pub push-IsKept :
      (k : Kind) (b : Book) (front back : Pushes)
      → x.owed ≡ front ++ (k, b) ∷ back
      → IsKept (push k b (front ++ back) x)
  push-IsKept k b front back e =
      let (free, apart) = AreDistinct-drop front back k b (subst AreDistinct e h.apart) in
      let order =
        All-drop _ front back (k, b) (subst (All (IsOrdered x.replica.queued)) e h.order) in
      let moved : (qid id : String)
          → pending id (append (queue_of k) b x.replica.queued qid ++ owed_to qid (front ++ back))
            ≡ pending id (x.replica.queued qid ++ owed_to qid x.owed) =
        λ qid id.
          pushed x.replica.queued qid id front back k b free
          ∙ ap (λ (o : Pushes). pending id (x.replica.queued qid ++ owed_to qid o)) (sym e) in
      record {
        sync =
            Alike-InSync (finished (push k b (front ++ back) x)) (finished x)
              (record {
                created = moved create_queue;
                updated = moved update_queue;
                deleted = moved delete_queue;
                backups = refl;
                primaries = refl;
              })
              h.sync;
        order =
            All-map (λ o (d, ordered). push-IsOrdered x.replica.queued k b o d ordered)
              (front ++ back) (All-zip _ _ (front ++ back) free order);
        apart = apart;
      }

  -- The consumer writes the book that it holds.
  pub store-IsKept : (qid : String) (b : Book) → x.held ≡ some (qid, b) → IsKept (store qid b x)
  store-IsKept qid b e = record {
    sync =
        Alike-InSync (finished (store qid b x)) (finished x)
          (record {
            created = λ id. refl;
            updated = λ id. refl;
            deleted = λ id. refl;
            backups = ap (λ (o : Option (String × Book)). settled o x.replica.backup) (sym e);
            primaries = refl;
          })
          h.sync;
    order = h.order;
    apart = h.apart;
  }
