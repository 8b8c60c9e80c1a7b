-- ===== src/Tests/Clearing.antt =====
-- `DeleteAll` on the server in memory.
use demo_redis.Prelude.{
  ℕ, String, ◌≢◌, refl, ap, inl, inr, none, Option-cases, List, [], ◌∷◌, length, ◌<◌, arith, All,
}
use demo_redis.Book.{Book}
use demo_redis.Context.{Context, background}
use demo_redis.Redis.Scan.{fields_of, Full, Unfinished, Returned, ScanLaws}
use demo_redis.Store.Redis.Fields.{Answers}
use demo_redis.Tests.Memory.{Server, contents, server, scanned, pairs_complete, find}
use mathlib.Core.List.{Memᴰ}
use mathlib.Core.List.Memᴰ

fields_of-scanned :
    (l : List (String × Book)) (f : String) (v : Book)
    → Memᴰ (f, v) l
    → Memᴰ f (fields_of (scanned l))
fields_of-scanned [] f v m = elim m [ ]
fields_of-scanned ((g, w) ∷ l) f v m = elim (Memᴰ.cases_cons m) [
  | inl here ↦ Memᴰ.head (ap (λ (q : String × Book). q.0) here)
  | inr later ↦ Memᴰ.tail (fields_of-scanned l f v later)
]

-- One call of HSCAN returns the whole hash.
whole_hash :
    (ctx : Context) (k : String) (n : ℕ) (f : String) (rs : List Server)
    → Full server contents ctx k "*" n 0 rs
    → All (λ r. (contents r).hash k f ≢ none) rs
    → Returned server contents ctx k "*" n f 0 rs
whole_hash ctx k n f [] full there = elim full [ ]
whole_hash ctx k n f (r ∷ rest) full (there, _) = elim (Option-cases (find k f r.entries)) [
  | inl absent ↦ elim (there absent) [ ]
  | inr (v, e) ↦ inl (fields_of-scanned _ f v (pairs_complete k r.entries r.entries f v v e e))
]

one_round :
    (ctx : Context) (k : String) (n : ℕ) (rs : List Server)
    → Unfinished server contents ctx k "*" n 0 rs
    → length rs < 1
one_round ctx k n [] unfinished = ground arith
one_round ctx k n (r ∷ rest) (_, more, _) = elim (more refl) [ ]

pub server-ScanLaws : ScanLaws server contents (λ r. 1)
server-ScanLaws = record {
  hscan_keeps = λ ctx k cursor pattern n r. refl;
  hscan_complete = whole_hash;
  hscan_ends = λ ctx k n r rs unfinished within. one_round ctx k n rs unfinished;
}

shelf-Answers : Answers server background
shelf-Answers = record { deletes = λ f r. refl; scans = λ cursor r. refl }
