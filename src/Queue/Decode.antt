-- ===== src/Queue/Decode.antt =====
-- Redis lists of encoded books as queues of books.
use demo_redis.Prelude.{
  String, ◌≡◌, refl, sym, ap, ◌∙◌, fun_ext, inl, inr, String-cases, Option, none, some,
  Option-cases, List, [], ◌∷◌, ◌++◌,
}
use demo_redis.Book.{Book}
use demo_redis.Redis.{Json, JsonLaws, Keyspace, set_list, first_of_lists}
use demo_redis.Store.Redis.Decode.{decode}
use demo_redis.Queue.Contract.{Queues, append, set_queue, first_of}

abbrev pub cons_some : Option Book → List Book → List Book
cons_some none l = l
cons_some (some b) l = b ∷ l

module _ {V : Type 0} (json : Json V) where
  -- The books of a redis list; what does not decode stands for none.
  abbrev pub decode_list : List V → List Book
  decode_list [] = []
  decode_list (v ∷ vs) = cons_some (decode json (some v)) (decode_list vs)

  abbrev pub queued_in : Keyspace V → Queues
  queued_in d qid = decode_list (d.list qid)

  decode_list-append :
      (json_laws : JsonLaws json) (vs : List V) (b : Book)
      → decode_list (vs ++ (json.marshal b).0 ∷ []) ≡ decode_list vs ++ b ∷ []
  decode_list-append json_laws [] b = rw (json_laws.unmarshal-marshal b)
  decode_list-append json_laws (v ∷ vs) b = elim (Option-cases (decode json (some v))) [
    | inl e ↦ rw e (decode_list-append json_laws vs b)
    | inr (c, e) ↦ rw e (ap (λ l. c ∷ l) (decode_list-append json_laws vs b))
  ]

  queued_in-set_list :
      (qid : String) (vs : List V) (d : Keyspace V)
      → queued_in (set_list qid vs d) ≡ set_queue qid (decode_list vs) (queued_in d)
  queued_in-set_list qid vs d =
      fun_ext λ k. elim (String-cases qid k) [ inl (e, _) ↦ rw e | inr (e, _) ↦ rw e ]

  pub queued_in-push :
      (json_laws : JsonLaws json) (qid : String) (b : Book) (d : Keyspace V)
      → queued_in (set_list qid (d.list qid ++ (json.marshal b).0 ∷ []) d)
        ≡ append qid b (queued_in d)
  queued_in-push json_laws qid b d = fun_ext λ k. elim (String-cases qid k) [
    | inl (e, p) ↦ rw (e, ← p) (decode_list-append json_laws (d.list qid) b)
    | inr (e, _) ↦ rw e
  ]

  -- The first list that is not empty gives the first queue, if its head decodes.
  pub first_of-decoded :
      (ks : List String) (d d' : Keyspace V) (k : String) (v : V) (b : Book)
      → first_of_lists ks d ≡ some (k, v, d')
      → decode json (some v) ≡ some b
      → first_of ks (queued_in d) ≡ some (k, b, queued_in d')
  first_of-decoded [] d d' k v b e h = cc
  first_of-decoded (j ∷ ks) d d' k v b e h =
      go (d.list j) refl (λ e'. first_of-decoded ks d d' k v b e' h)
    where
      go :
          (l : List V)
          → d.list j ≡ l
          → (first_of_lists ks d ≡ some (k, v, d')
              → first_of ks (queued_in d) ≡ some (k, b, queued_in d'))
          → first_of (j ∷ ks) (queued_in d) ≡ some (k, b, queued_in d')
      go [] p ih = rw (p, first_of) (ih (rw (p, first_of_lists) at e))
      go (w ∷ rest) p ih =
          let found : ◌≡◌ {A = Option (String × V × Keyspace V)} (some (j, w, set_list j rest d))
              (some (k, v, d')) =
            rw (p, first_of_lists) at e in
          let key : j ≡ k = cc in
          let value : w ≡ v = cc in
          let left : set_list j rest d ≡ d' = cc in
          let head : decode json (some w) ≡ some b = rw value h in
          let kept = sym (queued_in-set_list j rest d) ∙ ap queued_in left in
          rw (p, head, first_of) (cc (key, kept))

  -- A pop leaves the hashes alone.
  pub hash-first_of_lists :
      (ks : List String) (d d' : Keyspace V) (k : String) (v : V)
      → first_of_lists ks d ≡ some (k, v, d')
      → d'.hash ≡ d.hash
  hash-first_of_lists [] d d' k v e = cc
  hash-first_of_lists (j ∷ ks) d d' k v e =
      go (d.list j) refl (λ e'. hash-first_of_lists ks d d' k v e')
    where
      go :
          (l : List V)
          → d.list j ≡ l
          → (first_of_lists ks d ≡ some (k, v, d') → d'.hash ≡ d.hash)
          → d'.hash ≡ d.hash
      go [] p ih = ih (rw (p, first_of_lists) at e)
      go (w ∷ rest) p ih =
          let found : ◌≡◌ {A = Option (String × V × Keyspace V)} (some (j, w, set_list j rest d))
              (some (k, v, d')) =
            rw (p, first_of_lists) at e in
          let left : set_list j rest d ≡ d' = cc in sym (ap (λ (x : Keyspace V). x.hash) left)
