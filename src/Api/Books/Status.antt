-- ===== src/Api/Books/Status.antt =====
-- Which status each handler of api.handlers.book.go answers with, and what it does to the world.
use demo_redis.Prelude.{
  some-ne-none, ℕ, ◌≡◌, ◌≢◌, refl, sym, ◌∙◌, ◌⊎◌, inl, inr, Bool, true, false, Bool-cases, Option,
  none, some, Option-cases, arith,
}
use demo_redis.Book.{Book, zero_book, Error, book_not_found}
use demo_redis.Ids.{book_id_prefix}
use mathlib.Core.Path.{subst}
use demo_redis.Response.{book}
use demo_redis.Api.{ApiHandler, Request, Params, by_name, Exchange}
use demo_redis.Api.Reply.{IsFresh, IsLive, Answers, fails, succeeds}
use demo_redis.Api.Books.{get_one_book, delete_found, delete_one_book}

-- The status for what the service answers to a lookup: found, not found, or any other error.
abbrev pub lookup_code : Option Error → ℕ
lookup_code none = 200
lookup_code (some book_not_found) = 404
lookup_code (some _) = 500

module _ {W : Type 0} (api : ApiHandler W) (r : Request) (live : IsLive api r.context)
    (x : Exchange W) (fresh : IsFresh x.writer) where
  abbrev pub known : Params → Bool
  known ps = api.ids_handler.is_valid (by_name "id" ps) book_id_prefix

  -- What the service's `GetOne` answers for the id of the path, and the world after it.
  abbrev pub looked_up : Params → (Book × Option Error) × W
  looked_up ps = api.book_service.get_one r.context (by_name "id" ps) x.world

  abbrev asked : Params → Exchange W
  asked ps = record x { world = (looked_up ps).1 }

  get_one_book-valid :
      (ps : Params) (o : Option Error)
      → known ps ≡ true
      → (looked_up ps).0.1 ≡ o
      → Answers api r.context (lookup_code o) (looked_up ps).1 (get_one_book api r ps x)
  unfolding get_one_book
  get_one_book-valid ps none v e =
      succeeds api r.context live 200 "Book fetched successfully." (book (looked_up ps).0.0)
        (asked ps) _ fresh (ground arith)
  get_one_book-valid ps (some book_not_found) v e =
      fails api r.context live 404 "book does not exist" (book (looked_up ps).0.0) (asked ps) _
        fresh (ground arith)
  get_one_book-valid ps (some _) v e =
      fails api r.context live 500 "failed to create the book" (book (looked_up ps).0.0) (asked ps)
        _ fresh (ground arith)

  -- what `GetOneBook` answers, by the validity of the id and by the service's answer
  abbrev pub GetOneStatus : Params → Type 0
  GetOneStatus ps =
      (known ps ≡ false) × Answers api r.context 400 x.world (get_one_book api r ps x)
      ⊎ (known ps ≡ true)
        × Answers api r.context (lookup_code (looked_up ps).0.1) (looked_up ps).1
            (get_one_book api r ps x)

  get_one_book_status : (ps : Params) → GetOneStatus ps
  unfolding get_one_book
  get_one_book_status ps = elim (Bool-cases (known ps)) [
    | inl v ↦ inr (v, get_one_book-valid ps _ v refl)
    | inr v ↦ inl (
      v,
      fails api r.context live 400 "book id provided is not valid" (book zero_book) x _ fresh
          (ground arith),
    )
  ]

  -- What the service's `Delete` answers after that, and the world after it.
  abbrev pub deleted : Params → Option Error × W
  deleted ps = api.book_service.delete r.context (by_name "id" ps) (looked_up ps).1

  abbrev done : Params → Exchange W
  done ps = record x { world = (deleted ps).1 }

  delete_found-status :
      (ps : Params) (o : Option Error)
      → (deleted ps).0 ≡ o
      → Answers api r.context
          (lookup_code o)
          (deleted ps).1
          (delete_found api r.context (by_name "id" ps) (looked_up ps).0.0 (asked ps))
  unfolding delete_found
  delete_found-status ps none e =
      succeeds api r.context live 200 "Book deleted successfully." (book (looked_up ps).0.0)
        (done ps) _ fresh (ground arith)
  delete_found-status ps (some book_not_found) e =
      fails api r.context live 404 "book does not exist" (book (looked_up ps).0.0) (done ps) _ fresh
        (ground arith)
  delete_found-status ps (some _) e =
      fails api r.context live 500 "failed to delete the book" (book (looked_up ps).0.0) (done ps) _
        fresh (ground arith)

  delete_one_book-absent :
      (ps : Params) (err : Error)
      → known ps ≡ true
      → (looked_up ps).0.1 ≡ some err
      → Answers api r.context (lookup_code (some err)) (looked_up ps).1 (delete_one_book api r ps x)
  unfolding delete_one_book
  delete_one_book-absent ps book_not_found v e =
      fails api r.context live 404 "book does not exist" (book (looked_up ps).0.0) (asked ps) _
        fresh (ground arith)
  delete_one_book-absent ps _ v e =
      fails api r.context live 500 "failed to check if the book exist" (book (looked_up ps).0.0)
        (asked ps) _ fresh (ground arith)

  delete_one_book-present :
      (ps : Params)
      → known ps ≡ true
      → (looked_up ps).0.1 ≡ none
      → delete_one_book api r ps x
        ≡ delete_found api r.context (by_name "id" ps) (looked_up ps).0.0 (asked ps)
  unfolding delete_one_book
  delete_one_book-present ps v e = ground arith

  pub delete_one_book-found :
      (ps : Params) (o : Option Error)
      → known ps ≡ true
      → (looked_up ps).0.1 ≡ none
      → (deleted ps).0 ≡ o
      → Answers api r.context (lookup_code o) (deleted ps).1 (delete_one_book api r ps x)
  delete_one_book-found ps o v e d =
      subst (Answers api r.context (lookup_code o) (deleted ps).1)
        (sym (delete_one_book-present ps v e)) (delete_found-status ps o d)

  -- what `DeleteOneBook` answers, by the validity of the id and by the service's answers
  abbrev pub DeleteOneStatus : Params → Type 0
  DeleteOneStatus ps =
      (known ps ≡ false) × Answers api r.context 400 x.world (delete_one_book api r ps x)
      ⊎ (known ps ≡ true)
        × ((looked_up ps).0.1 ≢ none)
        × Answers api r.context (lookup_code (looked_up ps).0.1) (looked_up ps).1
            (delete_one_book api r ps x)
      ⊎ (known ps ≡ true)
        × ((looked_up ps).0.1 ≡ none)
        × Answers api r.context (lookup_code (deleted ps).0) (deleted ps).1
            (delete_one_book api r ps x)

  delete_one_book_status : (ps : Params) → DeleteOneStatus ps
  unfolding delete_one_book
  delete_one_book_status ps = elim (Bool-cases (known ps)) [
    | inr v ↦ inl (
      v,
      fails api r.context live 400 "book id provided is not valid" (book zero_book) x _ fresh
          (ground arith),
    )
    | inl v ↦ elim (Option-cases (looked_up ps).0.1) [
      | inl e ↦ inr (inr (v, e, delete_one_book-found ps _ v e refl))
      | inr (err, e) ↦
          inr (inl (v, (λ q. some-ne-none (sym e ∙ q)), rw e (delete_one_book-absent ps err v e)))
    ]
  ]

  -- While the request's context is not done, and over a writer to which nothing was sent:
  -- `GetOneBook` answers 400 for an id that is not valid, without asking the service. Else it answers
  -- 200 if the service answers with a book, 404 if with `ErrBookNotFound`, and 500 on another error.
  -- `DeleteOneBook` answers 400 for an id that is not valid, without asking the service; 404 or 500,
  -- without deleting anything, if the book cannot be fetched; and else what the deletion says: 200,
  -- 404 or 500.
  pub one_book_statuses : (ps : Params) → GetOneStatus ps × DeleteOneStatus ps
  one_book_statuses ps = (get_one_book_status ps, delete_one_book_status ps)
