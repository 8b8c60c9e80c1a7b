-- ===== src/Tests/Memory.antt =====
-- A redis server and a bolt database in memory, which keep the promises of Redis.antt and Bolt.antt.
-- Both store entries under two names, a key and a field or a bucket and a key.
pub mod Laws
use demo_redis.Prelude.{
  some-ne-none, ℕ, zero, String, ◌≡◌, ◌≢◌, ◌↔◌, refl, sym, ap, ◌∙◌, fun_ext, ◌⊎◌, inl, inr, ◌==◌,
  ◌&&◌, eq_iff, String-cases, Bool-cases, if◌then◌else◌, Bool, true, false, Option, none, some,
  Option-cases, List, [], ◌∷◌, ◌++◌, Action, arith,
}
use demo_redis.Book.{Book, Error, foreign, redis_nil, zero_book, book_not_found}
use demo_redis.Context.{Context}
use demo_redis.Redis.{
  Json, JsonLaws, RedisClient, RedisLaws, Keyspace, put_field, drop_field, set_list, first_of_lists,
}
use demo_redis.Bolt.{BoltClient, BoltLaws, Buckets, set_key}
use mathlib.Core.List.{Memᴰ, map}
use mathlib.Core.List.Memᴰ

-- Books are stored as they are.
abbrev pub plain_json : Json Book
plain_json = record { marshal = λ b. (b, none); unmarshal = λ b. (b, none) }

pub plain_json-laws : JsonLaws plain_json
plain_json-laws = record {
  marshal_ok = λ b. refl;
  unmarshal-marshal = λ b. refl;
  unmarshal_err = λ b e. cc;
}

abbrev pub Entries : Type 0
Entries = List (String × String × Book)

abbrev pub find : String → String → Entries → Option Book
find i j [] = none
find i j ((k, f, v) ∷ es) = if k == i && f == j then some v else find i j es

abbrev pub without : String → String → Entries → Entries
without i j [] = []
without i j ((k, f, v) ∷ es) =
    let rest = without i j es in if k == i && f == j then rest else (k, f, v) ∷ rest

find-without :
    (k f : String) (es : Entries) (i j : String)
    → find i j (without k f es) ≡ (if k == i && f == j then none else find i j es)
find-without k f [] i j = ground arith
find-without k f ((k', f', v) ∷ es) i j = ground (
  arith,
  find-without k f es i j,
  eq_iff k' k,
  eq_iff k' i,
  eq_iff k i,
  eq_iff f' f,
  eq_iff f' j,
  eq_iff f j,
)

abbrev with_field : String → Option Book → List (String × Book) → List (String × Book)
with_field f none l = l
with_field f (some v) l = (f, v) ∷ l

-- The fields of a key with the values that are found for them.
abbrev pub pairs : String → Entries → Entries → List (String × Book)
pairs k all [] = []
pairs k all ((k', f, v) ∷ es) =
    let rest = pairs k all es in if k' == k then with_field f (find k f all) rest else rest

pairs_sound :
    (k : String) (all es : Entries) (f : String) (v : Book)
    → Memᴰ (f, v) (pairs k all es)
    → find k f all ≡ some v
pairs_sound k all [] f v m = elim m [ ]
pairs_sound k all ((k', g, w) ∷ es) f v m = elim (Bool-cases (k' == k)) [
  | inr no_key ↦ pairs_sound k all es f v (rw no_key at m)
  | inl is_key ↦ elim (Option-cases (find k g all)) [
    | inl e ↦ pairs_sound k all es f v (rw (is_key, e) at m)
    | inr (u, e) ↦ elim (Memᴰ.cases_cons (rw (is_key, e) at m)) [
      | inl here ↦
          ap (λ (q : String). find k q all) (ap (λ (q : String × Book). q.0) here)
          ∙ e
          ∙ ap some (sym (ap (λ (q : String × Book). q.1) here))
      | inr later ↦ pairs_sound k all es f v later
    ]
  ]
]

pub pairs_complete :
    (k : String) (all es : Entries) (f : String) (u v : Book)
    → find k f es ≡ some u
    → find k f all ≡ some v
    → Memᴰ (f, v) (pairs k all es)
pairs_complete k all [] f u v e h = cc
pairs_complete k all ((k', g, w) ∷ es) f u v e h = elim (Bool-cases (k' == k)) [
  | inr no_key ↦ rw no_key (pairs_complete k all es f u v (rw no_key at e) h)
  | inl is_key ↦ elim (String-cases g f) [
    | inl (_, same) ↦
        let stored : find k g all ≡ some v = ap (λ (q : String). find k q all) same ∙ h in
        rw (is_key, stored) (Memᴰ.head (ap (λ (q : String). (q, v)) (sym same)))
    | inr (other, _) ↦
        let later = pairs_complete k all es f u v (rw (is_key, other) at e) h in
        elim (Option-cases (find k g all)) [
          | inl gone ↦ rw (is_key, gone) later
          | inr (t, kept) ↦ rw (is_key, kept) (Memᴰ.tail later)
        ]
  ]
]

-- The redis server: hashes as entries, and lists by their keys.
pub record Server : Type 0 where
  pub entries : Entries
  pub lists : String → List Book

abbrev pub contents : Server → Keyspace Book
contents r = record { hash = λ i j. find i j r.entries; list = r.lists }

abbrev zero_or_one : Option Book → ℕ
zero_or_one none = 0
zero_or_one (some _) = 1

abbrev pub values : List (String × Book) → List Book
values [] = []
values ((f, v) ∷ l) = v ∷ values l

abbrev pub scanned : List (String × Book) → List String
scanned [] = []
scanned ((f, v) ∷ l) = f ∷ v.title ∷ scanned l

-- A pop of nothing would wait; here it fails.
abbrev popped_from :
    Server → Option (String × Book × Keyspace Book) → ((String × Book) × Option Error) × Server
popped_from r none = ((("", zero_book), some (foreign "blpop: gave up")), r)
popped_from r (some (k, v, d)) = (((k, v), none), record r { lists = d.list })

abbrev found_in : Option Book → Book × Option Error
found_in none = (zero_book, some redis_nil)
found_in (some v) = (v, none)

abbrev pub server : RedisClient Book Server
server = record {
  hset = λ ctx k f v r. (none, record r { entries = (k, f, v) ∷ r.entries });
  hget = λ ctx k f r. (found_in (find k f r.entries), r);
  hdel = λ ctx k f r.
      ((zero_or_one (find k f r.entries), none), record r { entries = without k f r.entries });
  hvals = λ ctx k r. ((values (pairs k r.entries r.entries), none), r);
  hscan = λ ctx k cursor pattern n r. ((scanned (pairs k r.entries r.entries), 0, none), r);
  rpush = λ ctx k v r.
      (none, record r { lists = λ i. if k == i then r.lists k ++ v ∷ [] else r.lists i });
  blpop = λ ctx n ks r. popped_from r (first_of_lists ks (contents r));
}

values_sound :
    (l : List (String × Book)) (v : Book) → Memᴰ v (values l) → (f : String) × Memᴰ (f, v) l
values_sound [] v m = elim m [ ]
values_sound ((f, w) ∷ l) v m = elim (Memᴰ.cases_cons m) [
  | inl here ↦ (f, Memᴰ.head (ap (λ (b : Book). (f, b)) here))
  | inr later ↦ let (g, at) = values_sound l v later in (g, Memᴰ.tail at)
]

values_complete :
    (l : List (String × Book)) (f : String) (v : Book) → Memᴰ (f, v) l → Memᴰ v (values l)
values_complete [] f v m = elim m [ ]
values_complete ((g, w) ∷ l) f v m = elim (Memᴰ.cases_cons m) [
  | inl here ↦ Memᴰ.head (ap (λ (q : String × Book). q.1) here)
  | inr later ↦ Memᴰ.tail (values_complete l f v later)
]

-- A pop leaves the hashes as they were.
first-hash :
    (ks : List String) (d : Keyspace Book) (k : String) (v : Book) (d' : Keyspace Book)
    → first_of_lists ks d ≡ some (k, v, d')
    → d'.hash ≡ d.hash
first-hash [] d k v d' e = cc
first-hash (j ∷ ks) d k v d' e = go (d.list j) refl (λ e'. first-hash ks d k v d' e')
  where
    go :
        (l : List Book)
        → d.list j ≡ l
        → (first_of_lists ks d ≡ some (k, v, d') → d'.hash ≡ d.hash)
        → d'.hash ≡ d.hash
    go [] p ih = ih (rw (p, first_of_lists) at e)
    go (w ∷ rest) p ih =
        let found : ◌≡◌ {A = Option (String × Book × Keyspace Book)}
            (some (j, w, set_list j rest d)) (some (k, v, d')) =
          rw (p, first_of_lists) at e in
        let left : set_list j rest d ≡ d' = cc in sym (ap (λ (x : Keyspace Book). x.hash) left)

-- The bolt database: a failed transaction is rolled back.
abbrev finish : Entries → Option Error × Entries → Option Error × Entries
finish b (none, t) = (none, t)
finish b (some e, t) = (some e, b)

abbrev pub database : BoltClient Book Entries Entries
database = record {
  update = λ f b. finish b (f b);
  begin = λ b. (b, none);
  put = λ k f v t. (none, (k, f, v) ∷ t);
  get = λ k f t. find k f t;
  delete = λ k f t. (none, without k f t);
  cursor = λ k t. pairs k t t;
}
