-- ===== src/Store/Redis/Fields.antt =====
-- The inner loop of `DeleteAll` of repo.redis.go takes the fields that it is given away, and no others.
use demo_redis.Prelude.{
  ℕ, String, String-cases, eq_refl, ◌≡◌, refl, ap, ◌∙◌, inl, inr, Option, none, List, [], ◌∷◌,
  arith,
}
use demo_redis.Context.{Context}
use demo_redis.Redis.{Json, RedisClient, RedisLaws, Keyspace}
use demo_redis.Redis.Scan.{fields_of, Within}
use demo_redis.Store.Redis.{h_books, delete_fields}
use mathlib.Core.List.{Memᴰ}
use mathlib.Core.List.Memᴰ

pub Within_trans : {V : Type 0} (a b c : String → Option V) → Within a b → Within b c → Within a c
Within_trans a b c h g f = elim (h f) [
  | inl e ↦ inl e
  | inr e ↦ elim (g f) [ inl q ↦ inl (e ∙ q) | inr q ↦ inr (e ∙ q) ]
]

-- Every call of the client succeeds.
pub record Answers {V R : Type 0} (c : RedisClient V R) (ctx : Context) : Type 0 where
  pub deletes : (f : String) (r : R) → (c.hdel ctx h_books f r).0.1 ≡ none
  pub scans : (cursor : ℕ) (r : R) → (c.hscan ctx h_books cursor "*" 1000 r).0.2 ≡ none

module _ {V R : Type 0} (json : Json V) (c : RedisClient V R) (contents : R → Keyspace V)
    (laws : RedisLaws c contents) (ctx : Context) (up : Answers c ctx) where
  abbrev pub books_at : R → String → Option V
  books_at r = (contents r).hash h_books

  -- A delete takes its field away, and no other.
  deleted :
      (f : String) (r : R)
      → (books_at (c.hdel ctx h_books f r).1 f ≡ none)
        × Within (books_at (c.hdel ctx h_books f r).1) (books_at r)
        × ((contents (c.hdel ctx h_books f r).1).list ≡ (contents r).list)
  deleted f r =
      let e = laws.hdel_ok ctx h_books f r (up.deletes f r) in
      let then_at = λ (g : String). ap (λ (d : Keyspace V). d.hash h_books g) e in
      (
        then_at f ∙ ground (arith, eq_refl h_books, eq_refl f),
        (λ g. elim (String-cases f g) [
          | inl (t, _) ↦ inl (then_at g ∙ ground (arith, eq_refl h_books, t))
          | inr (t, _) ↦ inr (then_at g ∙ ground (arith, eq_refl h_books, t))
        ]),
        ap (λ (d : Keyspace V). d.list) e,
      )

  pub delete_fields-Within :
      (fs : List String) (r : R)
      → Within (books_at (delete_fields json c ctx fs r).1) (books_at r)
        × ((contents (delete_fields json c ctx fs r).1).list ≡ (contents r).list)
  unfolding delete_fields
  delete_fields-Within [] r = ((λ g. inr refl), refl)
  delete_fields-Within (f ∷ []) r = let (_, w, l) = deleted f r in (w, l)
  delete_fields-Within (f ∷ v ∷ rest) r =
      let (_, w, l) = deleted f r in
      let (w', l') = delete_fields-Within rest (c.hdel ctx h_books f r).1 in
      (Within_trans _ _ _ w' w, l' ∙ l)

  pub still_none :
      (r s : R) (g : String)
      → Within (books_at s) (books_at r)
      → books_at r g ≡ none
      → books_at s g ≡ none
  still_none r s g w e = elim (w g) [ inl q ↦ q | inr q ↦ q ∙ e ]

  pub delete_fields-gone :
      (fs : List String) (r : R) (g : String)
      → Memᴰ g (fields_of fs)
      → books_at (delete_fields json c ctx fs r).1 g ≡ none
  unfolding delete_fields
  delete_fields-gone [] r g m = elim m [ ]
  delete_fields-gone (f ∷ []) r g m = elim (Memᴰ.cases_cons m) [
    | inl e ↦ let (gone, _, _) = deleted f r in ap (books_at (c.hdel ctx h_books f r).1) e ∙ gone
    | inr m' ↦ elim m' [ ]
  ]
  delete_fields-gone (f ∷ v ∷ rest) r g m = elim (Memᴰ.cases_cons m) [
    | inl e ↦
        let (gone, _, _) = deleted f r in
        let (w, _) = delete_fields-Within rest (c.hdel ctx h_books f r).1 in
        still_none _ _ g w (ap (books_at (c.hdel ctx h_books f r).1) e ∙ gone)
    | inr m' ↦ delete_fields-gone rest (c.hdel ctx h_books f r).1 g m'
  ]
