-- ===== src/Service/Listing.antt =====
-- `BookService.GetAll` of api.services.go: the backup's books, or the primary's.
use demo_redis.Prelude.{
  String, ◌≡◌, ◌≢◌, refl, sym, ap, ◌∙◌, ◌⊎◌, inl, inr, Option, none, some, Option-cases, List, [],
  ◌∷◌, arith,
}
use demo_redis.Book.{Book, Error}
use demo_redis.Context.{Context}
use demo_redis.Store.{Books}
use demo_redis.Store.Contract.{Implements, Lists}
use demo_redis.Service.{World, BookService, get_all}
use mathlib.Core.List.{Memᴰ}
use mathlib.Core.Path.{subst}

-- A list that holds a map is not empty only if the map has a book, and is empty only if it has none.
Lists-none :
    (m : Books) (books : List Book) → Lists m books → books ≡ [] → (id : String) → m id ≡ none
Lists-none m books l e id = elim (Option-cases (m id)) [
  | inl gone ↦ gone
  | inr (b, there) ↦ elim (subst (λ (bs : List Book). Memᴰ b bs) e (l.complete id b there)) [ ]
]

Lists-some :
    (m : Books) (b : Book) (books rest : List Book)
    → Lists m books
    → books ≡ b ∷ rest
    → (id : String) × (m id ≡ some b)
Lists-some m b books rest l e =
    l.sound b (subst (λ (bs : List Book). Memᴰ b bs) (sym e) (Memᴰ.head refl))

List-cases : {A : Type 0} (l : List A) → (l ≡ []) ⊎ ((a : A) × (rest : List A) × (l ≡ a ∷ rest))
List-cases [] = inl refl
List-cases (a ∷ rest) = inr (a, rest, refl)

module _ {R B E : Type 0} (bs : BookService R B E) where
  -- `GetAll`, where the backup fails, where it answers with no book, and where it answers with some.
  failed-get_all :
      (ctx : Context) (w : World R B E) (e : Error)
      → (bs.bstorage.get_all ctx w.bolt).0.1 ≡ some e
      → (get_all bs ctx w).0 ≡ (bs.pstorage.get_all ctx w.redis).0
  unfolding get_all
  failed-get_all ctx w e p = ground arith

  empty-get_all :
      (ctx : Context) (w : World R B E)
      → (bs.bstorage.get_all ctx w.bolt).0.1 ≡ none
      → (bs.bstorage.get_all ctx w.bolt).0.0 ≡ []
      → (get_all bs ctx w).0 ≡ (bs.pstorage.get_all ctx w.redis).0
  unfolding get_all
  empty-get_all ctx w p e = ground arith

  some-get_all :
      (ctx : Context) (w : World R B E) (b : Book) (rest : List Book)
      → (bs.bstorage.get_all ctx w.bolt).0.1 ≡ none
      → (bs.bstorage.get_all ctx w.bolt).0.0 ≡ b ∷ rest
      → (get_all bs ctx w).0 ≡ (bs.bstorage.get_all ctx w.bolt).0
  unfolding get_all
  some-get_all ctx w b rest p e = ground arith

  module _ (pview : R → Books) (bview : B → Books) (pstore : Implements bs.pstorage pview)
      (bstore : Implements bs.bstorage bview) where
    -- `GetAll` prefers the backup, however far it is behind the primary: where the backup answers, and holds
    -- a book, the call succeeds with the very list of the backup, whose members are the backup's books.
    -- Where the backup answers and holds no book, or does not answer, the call ends with the list and the
    -- error of the primary, and where that has no error the members are the primary's books.
    pub get_all_prefers_backup :
        (ctx : Context) (w : World R B E)
        → let backup_err = (bs.bstorage.get_all ctx w.bolt).0.1 in
          let backup_books = (bs.bstorage.get_all ctx w.bolt).0.0 in
          let primary_err = (bs.pstorage.get_all ctx w.redis).0.1 in
          let primary_books = (bs.pstorage.get_all ctx w.redis).0.0 in
          let (books, err) = (get_all bs ctx w).0 in
          (backup_err ≡ none)
            × ((id : String) × (b : Book) × (bview w.bolt id ≡ some b))
            × (err ≡ none)
            × (books ≡ backup_books)
            × Lists (bview w.bolt) books
          ⊎ ((backup_err ≢ none) ⊎ ((id : String) → bview w.bolt id ≡ none))
            × (err ≡ primary_err)
            × (books ≡ primary_books)
            × (err ≡ none → Lists (pview w.redis) books)
    get_all_prefers_backup ctx w = elim (Option-cases (bs.bstorage.get_all ctx w.bolt).0.1) [
      | inr (e, p) ↦
          let (errs, all, lists) = listed (failed-get_all ctx w e p) in
          inr (inl (λ q. cc), errs, all, lists)
      | inl p ↦ elim (List-cases (bs.bstorage.get_all ctx w.bolt).0.0) [
        | inl e ↦
            let (errs, all, lists) = listed (empty-get_all ctx w p e) in
            inr (
              inr (Lists-none (bview w.bolt) _ (bstore.get_all_ok ctx w.bolt p) e),
              errs,
              all,
              lists,
            )
        | inr (b, rest, e) ↦
            let fine = some-get_all ctx w b rest p e in
            let (id, there) =
              Lists-some (bview w.bolt) b _ rest (bstore.get_all_ok ctx w.bolt p) e in
            inl (
              p,
              (id, b, there),
              ap (λ (a : List Book × Option Error). a.1) fine ∙ p,
              ap (λ (a : List Book × Option Error). a.0) fine,
              subst (λ (a : List Book × Option Error). Lists (bview w.bolt) a.0) (sym fine)
                  (bstore.get_all_ok ctx w.bolt p),
            )
      ]
    ]
      where
        listed :
            (get_all bs ctx w).0 ≡ (bs.pstorage.get_all ctx w.redis).0
            → ((get_all bs ctx w).0.1 ≡ (bs.pstorage.get_all ctx w.redis).0.1)
              × ((get_all bs ctx w).0.0 ≡ (bs.pstorage.get_all ctx w.redis).0.0)
              × ((get_all bs ctx w).0.1 ≡ none → Lists (pview w.redis) (get_all bs ctx w).0.0)
        listed e =
            let errs = ap (λ (a : List Book × Option Error). a.1) e in
            (
              errs,
              ap (λ (a : List Book × Option Error). a.0) e,
              λ ok.
                  subst (λ (a : List Book × Option Error). Lists (pview w.redis) a.0) (sym e)
                    (pstore.get_all_ok ctx w.redis (sym errs ∙ ok)),
            )
