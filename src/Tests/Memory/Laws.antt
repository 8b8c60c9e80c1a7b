-- ===== src/Tests/Memory/Laws.antt =====
-- The redis server and the bolt database in memory keep the promises of Redis.antt and Bolt.antt.
use demo_redis.Prelude.{
  zero, String, ◌≡◌, ◌≢◌, ◌↔◌, refl, sym, ap, fun_ext, ◌⊎◌, inl, inr, Option, none, some, List,
  Action,
}
use demo_redis.Book.{Book, Error, redis_nil, book_not_found}
use demo_redis.Redis.{RedisLaws, Keyspace, drop_field, first_of_lists}
use demo_redis.Bolt.{BoltLaws, Buckets}
use demo_redis.Tests.Memory.{
  Entries, find, without, find-without, pairs, pairs_sound, pairs_complete, Server, contents,
  server, found_in, popped_from, zero_or_one, values_sound, values_complete, first-hash, database,
  finish,
}

found_in-ok : (o : Option Book) → (found_in o).1 ≡ none → o ≡ some (found_in o).0
found_in-ok none e = cc
found_in-ok (some v) e = refl

found_in-nil : (o : Option Book) → (found_in o).1 ≡ some redis_nil → o ≡ none
found_in-nil none e = refl
found_in-nil (some v) e = cc

found_in-err : (o : Option Book) → (found_in o).1 ≢ some book_not_found
found_in-err none e = cc
found_in-err (some v) e = cc

zero_or_one-zero : (o : Option Book) → (zero_or_one o ≡ zero) ↔ (o ≡ none)
zero_or_one-zero none = (λ e. refl, λ e. refl)
zero_or_one-zero (some v) = (λ e. cc, λ e. cc)

drop-lem :
    (k f : String) (r : Server)
    → contents (record r { entries = without k f r.entries }) ≡ drop_field k f (contents r)
drop-lem k f r =
    ap (λ (h : String → String → Option Book). record { hash = h; list = r.lists })
      (fun_ext λ i. fun_ext λ j. find-without k f r.entries i j)

popped-lists :
    (ks : List String) (r : Server) (k : String) (v : Book) (d : Keyspace Book)
    → first_of_lists ks (contents r) ≡ some (k, v, d)
    → contents (record r { lists = d.list }) ≡ d
popped-lists ks r k v d e =
    ap (λ (h : String → String → Option Book). record { hash = h; list = d.list })
      (sym (first-hash ks (contents r) k v d e))

popped-ok :
    (ks : List String) (r : Server) (o : Option (String × Book × Keyspace Book))
    → first_of_lists ks (contents r) ≡ o
    → (popped_from r o).0.1 ≡ none
    → o ≡ some ((popped_from r o).0.0.0, (popped_from r o).0.0.1, contents (popped_from r o).1)
popped-ok ks r none e p = cc
popped-ok ks r (some (k, v, d)) e p =
    ap (λ (x : Keyspace Book). some (k, v, x)) (sym (popped-lists ks r k v d e))

popped-any :
    (ks : List String) (r : Server) (o : Option (String × Book × Keyspace Book))
    → first_of_lists ks (contents r) ≡ o
    → (contents (popped_from r o).1 ≡ contents r)
      ⊎ ((k : String) × (v : Book) × (o ≡ some (k, v, contents (popped_from r o).1)))
popped-any ks r none e = inl refl
popped-any ks r (some (k, v, d)) e =
    inr (k, v, ap (λ (x : Keyspace Book). some (k, v, x)) (sym (popped-lists ks r k v d e)))

pub server-laws : RedisLaws server contents
server-laws = record {
  hset_ok = λ ctx k f v r e. refl;
  hset_any = λ ctx k f v r. inr refl;
  hget_keeps = λ ctx k f r. refl;
  hget_ok = λ ctx k f r e. found_in-ok (find k f r.entries) e;
  hget_nil = λ ctx k f r e. found_in-nil (find k f r.entries) e;
  hget_err = λ ctx k f r. found_in-err (find k f r.entries);
  hdel_ok = λ ctx k f r e. drop-lem k f r;
  hdel_count = λ ctx k f r e. zero_or_one-zero (find k f r.entries);
  hdel_err = λ ctx k f r e p. cc;
  hdel_any = λ ctx k f r. inr (drop-lem k f r);
  hvals_keeps = λ ctx k r. refl;
  hvals_sound = λ ctx k r v e m.
      let (f, at) = values_sound (pairs k r.entries r.entries) v m in
      (f, pairs_sound k r.entries r.entries f v at);
  hvals_complete = λ ctx k f r v e h.
      values_complete (pairs k r.entries r.entries) f v
        (pairs_complete k r.entries r.entries f v v h h);
  rpush_ok = λ ctx k v r e. refl;
  rpush_any = λ ctx k v r. inr refl;
  blpop_ok = λ ctx n ks r e. popped-ok ks r (first_of_lists ks (contents r)) refl e;
  blpop_any = λ ctx n ks r. popped-any ks r (first_of_lists ks (contents r)) refl;
}

update-ok :
    (f : Action Entries (Option Error)) (b : Entries) (o : Option Error × Entries)
    → f b ≡ o
    → (finish b o).0 ≡ none
    → (o.0 ≡ none) × ((finish b o).1 ≡ o.1)
update-ok f b (none, t) p e = (refl, refl)
update-ok f b (some err, t) p e = cc

update-err :
    (b : Entries) (o : Option Error × Entries) (e : Error)
    → (finish b o).0 ≡ some e
    → (finish b o).1 ≡ b
update-err b (none, t) e p = cc
update-err b (some err, t) e p = refl

abbrev pub bucket_content : Entries → Buckets Book
bucket_content b i j = find i j b

pub database-laws : BoltLaws database bucket_content bucket_content
database-laws = record {
  update_ok = λ f b e.
      let (fine, ended) = update-ok f b (f b) refl e in (b, refl, fine, ap bucket_content ended);
  update_err = λ f b e p. ap bucket_content (update-err b (f b) e p);
  begin_ok = λ b e. refl;
  begin_err = λ b. cc;
  put_ok = λ k f v t e. refl;
  get_lem = λ k f t. refl;
  delete_ok = λ k f t e. fun_ext λ i. fun_ext λ j. find-without k f t i j;
  cursor_sound = λ k f v t m. pairs_sound k t t f v m;
  cursor_complete = λ k f v t h. pairs_complete k t t f v v h h;
}
