-- ===== src/Store/Redis/Decode.antt =====
-- Stored texts as books, and the decoding loop of `GetAll` in repo.redis.go.
use demo_redis.Prelude.{
  some-ne-none, String, ◌≡◌, refl, fun_ext, ◌⊎◌, inl, inr, String-cases, Option, none, some,
  Option-cases, List, [], ◌∷◌, ◌++◌,
}
use demo_redis.Book.{Book, Error}
use demo_redis.Store.{Books, put, remove}
use demo_redis.Redis.{Json, JsonLaws, Keyspace, put_field, drop_field}
use demo_redis.Store.Redis.{h_books, decode_all}
use mathlib.Core.List.{Memᴰ}
use mathlib.Core.List.Memᴰ

abbrev pub decoded : Book × Option Error → Option Book
decoded (b, none) = some b
decoded (b, some e) = none

pub decoded-eq-some : (r : Book × Option Error) (b : Book) → decoded r ≡ some b → b ≡ r.0
decoded-eq-some (a, none) b e = cc
decoded-eq-some (a, some err) b e = cc

module _ {V : Type 0} (json : Json V) where
  -- The book that a stored value stands for.
  abbrev pub decode : Option V → Option Book
  decode none = none
  decode (some v) = decoded (json.unmarshal v)

  pub decode-some :
      (o : Option V) (b : Book)
      → decode o ≡ some b
      → (v : V) × (o ≡ some v) × (decode (some v) ≡ some b)
  decode-some none b e = cc
  decode-some (some v) b e = (v, refl, e)

  -- The books of the hash "books".
  abbrev pub books_of : Keyspace V → Books
  books_of d id = decode (d.hash h_books id)

  module _ (laws : JsonLaws json) where
    pub books_of-put_field :
        (id : String) (b : Book) (d : Keyspace V)
        → books_of (put_field h_books id (json.marshal b).0 d) ≡ put id b (books_of d)
    books_of-put_field id b d = fun_ext λ j. elim (String-cases id j) [
      | inl (e, _) ↦ rw (e, laws.unmarshal-marshal b)
      | inr (e, _) ↦ rw e
    ]

  pub books_of-drop_field :
      (id : String) (d : Keyspace V) → books_of (drop_field h_books id d) ≡ remove id (books_of d)
  books_of-drop_field id d =
      fun_ext λ j. elim (String-cases id j) [ inl (e, _) ↦ rw e | inr (e, _) ↦ rw e ]

  -- The loop of `GetAll` returns the decoded texts behind those it had, or fails.
  pub decode_all_sound :
      (texts : List V) (acc : List Book) (b : Book)
      → (decode_all json texts acc).1 ≡ none
      → Memᴰ b (decode_all json texts acc).0
      → Memᴰ b acc ⊎ ((v : V) × Memᴰ v texts × (decode (some v) ≡ some b))
  unfolding decode_all
  decode_all_sound [] acc b ok m = inl m
  decode_all_sound (t ∷ ts) acc b ok m = elim (Option-cases (json.unmarshal t).1) [
    | inr (e, p) ↦ absurd (some-ne-none (rw (p, decode_all) at ok))
    | inl p ↦
        elim (decode_all_sound ts (acc ++ (json.unmarshal t).0 ∷ []) b (rw (p, decode_all) at ok)
          (rw (p, decode_all) at m)) [
            | inr (v, listed, e) ↦ inr (v, Memᴰ.tail listed, e)
            | inl old ↦ elim (Memᴰ.append_cases acc old) [
              | inl older ↦ inl older
              | inr new ↦ inr (t, Memᴰ.head refl, rw (p, Memᴰ.eq_of_singleton new))
            ]
          ]
  ]

  decode_all-keeps :
      (texts : List V) (acc : List Book) (b : Book)
      → (decode_all json texts acc).1 ≡ none
      → Memᴰ b acc
      → Memᴰ b (decode_all json texts acc).0
  unfolding decode_all
  decode_all-keeps [] acc b ok m = m
  decode_all-keeps (t ∷ ts) acc b ok m = elim (Option-cases (json.unmarshal t).1) [
    | inr (e, p) ↦ absurd (some-ne-none (rw (p, decode_all) at ok))
    | inl p ↦
        rw (p, decode_all)
          (decode_all-keeps ts (acc ++ (json.unmarshal t).0 ∷ []) b (rw (p, decode_all) at ok)
            (Memᴰ.append_left ((json.unmarshal t).0 ∷ []) m))
  ]

  pub decode_all_complete :
      (texts : List V) (acc : List Book) (v : V) (b : Book)
      → (decode_all json texts acc).1 ≡ none
      → Memᴰ v texts
      → decode (some v) ≡ some b
      → Memᴰ b (decode_all json texts acc).0
  unfolding decode_all
  decode_all_complete [] acc v b ok m d = elim m [ ]
  decode_all_complete (t ∷ ts) acc v b ok m d = elim (Option-cases (json.unmarshal t).1) [
    | inr (e, p) ↦ absurd (some-ne-none (rw (p, decode_all) at ok))
    | inl p ↦
        rw (p, decode_all)
          (elim (Memᴰ.cases_cons m) [
            | inl here ↦
                decode_all-keeps ts (acc ++ (json.unmarshal t).0 ∷ []) b (rw (p, decode_all) at ok)
                  (Memᴰ.append_right acc
                    (Memᴰ.head (decoded-eq-some (json.unmarshal t) b (rw here at d))))
            | inr later ↦
                decode_all_complete ts (acc ++ (json.unmarshal t).0 ∷ []) v b
                  (rw (p, decode_all) at ok) later d
          ])
  ]
