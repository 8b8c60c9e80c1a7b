-- ===== src/Store/Redis/Clear.antt =====
-- `DeleteAll` of repo.redis.go ends and empties the hash.
use demo_redis.Prelude.{
  ℕ, zero, suc, String, ◌≡◌, ◌≢◌, refl, sym, ap, ◌∙◌, ◌⊎◌, inl, inr, true, false, Option, none,
  some, Option-cases, some-ne-none, List, [], ◌∷◌, nat_eq, arith, length, Bool-cases, All, All-map,
}
use demo_redis.Book.{Error}
use demo_redis.Context.{Context}
use demo_redis.Redis.{Json, RedisClient, RedisLaws, Keyspace}
use demo_redis.Redis.Scan.{fields_of, Full, Unfinished, Returned, Within, ScanLaws}
use demo_redis.Store.Redis.{h_books, delete_fields, delete_from, delete_all}
use mathlib.Core.List.{Memᴰ}
use mathlib.Core.Path.{subst}
use demo_redis.Store.Redis.Fields.{
  Within_trans, Answers, still_none, delete_fields-Within, delete_fields-gone,
}

module _ {V R : Type 0} (json : Json V) (c : RedisClient V R) (contents : R → Keyspace V)
    (rounds : R → ℕ) (laws : RedisLaws c contents) (scans : ScanLaws c contents rounds)
    (ctx : Context) (up : Answers c ctx) where
  abbrev books_at : R → String → Option V
  books_at r = (contents r).hash h_books

  -- The server after one round of the loop.
  abbrev next : ℕ → R → R
  next cursor r =
      let ((results, _, _), s) = c.hscan ctx h_books cursor "*" 1000 r in
      (delete_fields json c ctx results s).1

  abbrev next_cursor : ℕ → R → ℕ
  next_cursor cursor r = (c.hscan ctx h_books cursor "*" 1000 r).0.1

  next-Within :
      (cursor : ℕ) (r : R)
      → Within (books_at (next cursor r)) (books_at r)
        × ((contents (next cursor r)).list ≡ (contents r).list)
  next-Within cursor r =
      let ((results, _, _), s) = c.hscan ctx h_books cursor "*" 1000 r in
      let kept = scans.hscan_keeps ctx h_books cursor "*" 1000 r in
      let (w, l) = delete_fields-Within json c contents laws ctx up results s in
      (
        subst (λ (d : Keyspace V). Within (books_at (next cursor r)) (d.hash h_books)) kept w,
        l ∙ ap (λ (d : Keyspace V). d.list) kept,
      )

  last_round :
      (n cursor : ℕ) (r : R)
      → nat_eq (next_cursor cursor r) 0 ≡ true
      → delete_from json c (suc n) ctx cursor r ≡ (some none, next cursor r)
  unfolding delete_from
  last_round n cursor r last = rw (up.scans cursor r, last) refl

  other_round :
      (n cursor : ℕ) (r : R)
      → nat_eq (next_cursor cursor r) 0 ≡ false
      → delete_from json c (suc n) ctx cursor r
        ≡ delete_from json c n ctx (next_cursor cursor r) (next cursor r)
  unfolding delete_from
  other_round n cursor r more = rw (up.scans cursor r, more) refl

  -- The server at the calls of HSCAN.
  abbrev visited : ℕ → ℕ → R → List R
  visited zero cursor r = []
  visited (suc n) cursor r = r ∷ (elim (nat_eq (next_cursor cursor r) 0) [
    | true ↦ []
    | false ↦ visited n (next_cursor cursor r) (next cursor r)
  ])

  abbrev final : ℕ → ℕ → R → R
  final n cursor r = (delete_from json c n ctx cursor r).1

  no_round : (cursor : ℕ) (r : R) → delete_from json c zero ctx cursor r ≡ (none, r)
  unfolding delete_from
  no_round cursor r = refl

  -- No new field or value in the hash, and the lists as they were.
  abbrev Below : R → R → Type 0
  Below s r = Within (books_at s) (books_at r) × ((contents s).list ≡ (contents r).list)

  same-Below : (x y : Option (Option Error) × R) (r : R) → x ≡ y → Below y.1 r → Below x.1 r
  same-Below x y r e b = subst (λ (z : Option (Option Error) × R). Below z.1 r) (sym e) b

  final-Within : (n cursor : ℕ) (r : R) → Below (final n cursor r) r
  final-Within zero cursor r = same-Below _ _ r (no_round cursor r) ((λ g. inr refl), refl)
  final-Within (suc n) cursor r = elim (Bool-cases (nat_eq (next_cursor cursor r) 0)) [
    | inl last ↦ same-Below _ _ r (last_round n cursor r last) (next-Within cursor r)
    | inr more ↦
        let (w, l) = next-Within cursor r in
        let (w', l') = final-Within n (next_cursor cursor r) (next cursor r) in
        same-Below _ _ r (other_round n cursor r more) (Within_trans _ _ _ w' w, l' ∙ l)
  ]

  visited-Within :
      (n cursor : ℕ) (r s : R)
      → final n cursor r ≡ s
      → All (λ t. Within (books_at t) (books_at r)) (visited n cursor r)
        × All (λ t. Within (books_at s) (books_at t)) (visited n cursor r)
  visited-Within zero cursor r s e = (tt, tt)
  visited-Within (suc n) cursor r s e =
      let (w, _) = final-Within (suc n) cursor r in
      let v = subst (λ t. Within (books_at t) (books_at r)) e w in
      elim (Bool-cases (nat_eq (next_cursor cursor r) 0)) [
        | inl last ↦ rw last (((λ g. inr refl), tt), (v, tt))
        | inr more ↦
            let (w', _) = next-Within cursor r in
            let same =
              sym (ap (λ (x : Option (Option Error) × R). x.1) (other_round n cursor r more)) in
            let (before, after) =
              visited-Within n (next_cursor cursor r) (next cursor r) s (same ∙ e) in
            rw more
              (((λ g. inr refl), All-map (λ t u. Within_trans _ _ _ u w') _ before), (v, after))
      ]

  -- A key that is not there at the end was not there at some call, or it was there at all of them.
  present_throughout :
      (g : String) (s : R) (rs : List R)
      → All (λ t. Within (books_at s) (books_at t)) rs
      → (books_at s g ≡ none) ⊎ All (λ t. books_at t g ≢ none) rs
  present_throughout g s [] a = inr tt
  present_throughout g s (t ∷ rs) (w, a) = elim (Option-cases (books_at t g)) [
    | inl gone ↦ inl (still_none json c contents laws ctx up t s g w gone)
    | inr (v, e) ↦ elim (present_throughout g s rs a) [
      | inl gone ↦ inl gone
      | inr there ↦ inr ((λ q. some-ne-none (sym e ∙ q)), there)
    ]
  ]

  Full-cons :
      (cursor : ℕ) (r : R) (rs : List R)
      → Full c contents ctx h_books "*" 1000 (next_cursor cursor r) rs
      → Full c contents ctx h_books "*" 1000 cursor (r ∷ rs)
  Full-cons cursor r [] h = elim h [ ]
  Full-cons cursor r (t ∷ ts) h = (up.scans cursor r, h)

  -- The loop ended, and the fields that it read are gone; or it has made all its rounds.
  abbrev Ended : ℕ → Option (Option Error) × R → List R → Type 0
  Ended cursor x rs =
      (x.0 ≡ some none)
      × Full c contents ctx h_books "*" 1000 cursor rs
      × ((g : String)
          → Returned c contents ctx h_books "*" 1000 g cursor rs
          → books_at x.1 g ≡ none)

  abbrev Unended : ℕ → ℕ → List R → Type 0
  Unended n cursor rs = Unfinished c contents ctx h_books "*" 1000 cursor rs × (length rs ≡ n)

  -- What a round returned is gone after it, and so at the end.
  returned-gone :
      (cursor : ℕ) (r : R) (g : String)
      → Memᴰ g (fields_of (c.hscan ctx h_books cursor "*" 1000 r).0.0)
      → books_at (next cursor r) g ≡ none
  returned-gone cursor r g m =
      let ((results, _, _), s) = c.hscan ctx h_books cursor "*" 1000 r in
      delete_fields-gone json c contents laws ctx up results s g m

  zero_cursor : (n : ℕ) → nat_eq n 0 ≡ true → n ≡ 0
  zero_cursor n e = grind arith

  other_cursor : (n : ℕ) → nat_eq n 0 ≡ false → n ≢ 0
  other_cursor n e = grind arith

  loop_ends :
      (n cursor : ℕ) (r : R)
      → Ended cursor (delete_from json c n ctx cursor r) (visited n cursor r)
        ⊎ Unended n cursor (visited n cursor r)
  loop_ends zero cursor r = inr (tt, refl)
  loop_ends (suc n) cursor r = elim (Bool-cases (nat_eq (next_cursor cursor r) 0)) [
    | inl last ↦ inl (
        rw (last_round n cursor r last, last)
          (
            refl,
            (up.scans cursor r, zero_cursor _ last),
            (λ g ret. elim ret [
              | inl m ↦ returned-gone cursor r g m
              | inr none_left ↦ elim none_left [ ]
            ]),
          ))
    | inr more ↦
        let (w, _) = final-Within n (next_cursor cursor r) (next cursor r) in
        elim (loop_ends n (next_cursor cursor r) (next cursor r)) [
          | inl (done, full, gone) ↦ inl (
              rw (other_round n cursor r more, more)
                (
                  done,
                  Full-cons cursor r _ full,
                  (λ g ret. elim ret [
                    | inl m ↦
                        still_none json c contents laws ctx up (next cursor r) _ g w
                          (returned-gone cursor r g m)
                    | inr later ↦ gone g later
                  ]),
                ))
          | inr (unfinished, made) ↦
              inr (rw more ((up.scans cursor r, other_cursor _ more, unfinished), ap suc made))
        ]
  ]

  -- Where redis answers every call, `DeleteAll` ends without an error within the rounds that a full
  -- iteration of the hash can take, no book is left in the hash, and the lists are as they were.
  pub delete_all-empties :
      (r : R)
      → let (result, s) = delete_all json c (rounds r) ctx r in
        (result ≡ some none)
        × ((g : String) → books_at s g ≡ none)
        × ((contents s).list ≡ (contents r).list)
  unfolding delete_all
  delete_all-empties r =
      let (before, after) = visited-Within (rounds r) 0 r _ refl in
      let (_, lists) = final-Within (rounds r) 0 r in
      elim (loop_ends (rounds r) 0 r) [
        | inr (unfinished, made) ↦
            let short = scans.hscan_ends ctx h_books 1000 r _ unfinished before in ground arith
        | inl (done, full, gone) ↦ (
          done,
          (λ g. elim (present_throughout g _ _ after) [
            | inl absent ↦ absent
            | inr there ↦ gone g (scans.hscan_complete ctx h_books 1000 g _ full there)
          ]),
          lists,
        )
      ]
