-- ===== src/Api/Books/Write.antt =====
-- Which status `CreateBook` and `UpdateBook` of api.handlers.book.go answer with, and what they do to
-- the world.
use demo_redis.Prelude.{
  some-ne-none, ℕ, String, ◌≡◌, ◌≢◌, refl, sym, ◌∙◌, ◌⊎◌, inl, inr, Option, none, some,
  Option-cases, arith,
}
use demo_redis.Book.{Book, Error, error_text, validate_create, validate_update}
use demo_redis.Book.Valid.{IsComplete, validate_create_iff, validate_update_iff}
use demo_redis.Ids.{book_id_prefix}
use demo_redis.Response.{book, text}
use demo_redis.Api.{ApiHandler, Request, Params, Exchange}
use demo_redis.Api.Decode.{decode_request}
use demo_redis.Api.Reply.{IsFresh, IsLive, Answers, fails, succeeds}
use demo_redis.Api.Books.{create_book, update_book}

-- The status for what the service answers to a write.
abbrev pub write_code : ℕ → Option Error → ℕ
write_code code none = code
write_code code (some _) = 500

module _ {W : Type 0} (api : ApiHandler W) (r : Request) (live : IsLive api r.context)
    (x : Exchange W) (fresh : IsFresh x.writer) where
  abbrev pub submitted : Book
  submitted = (decode_request api r).0

  -- The world in which the service's `Add` is called, and the book that it is called with: the
  -- submitted book under a fresh id, stamped with two readings of the clock.
  abbrev pub w_id : String × W
  w_id = api.ids_handler.generate book_id_prefix x.world

  abbrev pub stamped : Book
  stamped =
      let b = submitted in
      let (first, w) = api.clock.now w_id.1 in
      record b {
        id = w_id.0;
        created_at = api.time_string first;
        updated_at = api.time_string (api.clock.now w).0;
      }

  abbrev pub added : Option Error × W
  added = api.book_service.add r.context w_id.0 stamped (api.clock.now (api.clock.now w_id.1).1).1

  pub create_book-valid :
      (ps : Params) (o : Option Error)
      → (decode_request api r).1 ≡ none
      → validate_create submitted ≡ none
      → added.0 ≡ o
      → Answers api r.context (write_code 201 o) added.1 (create_book api r ps x)
  unfolding create_book
  create_book-valid ps none d v e =
      succeeds api r.context live 201 "Book created successfully." (book stamped)
        (record x { world = added.1 }) _ fresh (ground arith)
  create_book-valid ps (some err) d v e =
      fails api r.context live 500 "failed to create the book" (book stamped)
        (record x { world = added.1 }) _ fresh (ground arith)

  -- what `CreateBook` answers, by the body and by the service's answer
  abbrev pub CreateStatus : Params → Type 0
  CreateStatus ps =
      ((decode_request api r).1 ≢ none) × Answers api r.context 400 x.world (create_book api r ps x)
      ⊎ ((decode_request api r).1 ≡ none)
        × ¬ IsComplete submitted
        × Answers api r.context 400 x.world (create_book api r ps x)
      ⊎ ((decode_request api r).1 ≡ none)
        × IsComplete submitted
        × Answers api r.context (write_code 201 added.0) added.1 (create_book api r ps x)

  create_book_status : (ps : Params) → CreateStatus ps
  unfolding create_book
  create_book_status ps = elim (Option-cases (decode_request api r).1) [
    | inr (err, d) ↦ inl (
      (λ q. some-ne-none (sym d ∙ q)),
      fails api r.context live 400 "failed to create the book" (book submitted) x _ fresh
          (ground arith),
    )
    | inl d ↦ elim (Option-cases (validate_create submitted)) [
      | inl v ↦ inr (inr (d, (validate_create_iff submitted).0 v, create_book-valid ps _ d v refl))
      | inr (err, v) ↦ inr (
          inl (
            d,
            (λ c. some-ne-none (sym v ∙ (validate_create_iff submitted).1 c)),
            fails api r.context live 400 "failed to create the book" (text (error_text err)) x _
                fresh (ground arith),
          ))
    ]
  ]

  -- What the service's `Update` answers for the submitted book, under the id in the body.
  abbrev pub updated : (Book × Option Error) × W
  updated = api.book_service.update r.context submitted.id submitted x.world

  pub update_book-valid :
      (o : Option Error)
      → (decode_request api r).1 ≡ none
      → validate_update submitted ≡ none
      → updated.0.1 ≡ o
      → (ps : Params) → Answers api r.context (write_code 200 o) updated.1 (update_book api r ps x)
  unfolding update_book
  update_book-valid none d v e ps =
      succeeds api r.context live 200 "Book updated successfully." (book updated.0.0)
        (record x { world = updated.1 }) _ fresh (ground arith)
  update_book-valid (some err) d v e ps =
      fails api r.context live 500 "failed to update the book" (book updated.0.0)
        (record x { world = updated.1 }) _ fresh (ground arith)

  -- what `UpdateBook` answers, by the body and by the service's answer
  abbrev pub UpdateStatus : Params → Type 0
  UpdateStatus ps =
      ((decode_request api r).1 ≢ none) × Answers api r.context 400 x.world (update_book api r ps x)
      ⊎ ((decode_request api r).1 ≡ none)
        × ¬ (IsComplete submitted × (submitted.id ≢ "") × (submitted.created_at ≢ ""))
        × Answers api r.context 400 x.world (update_book api r ps x)
      ⊎ ((decode_request api r).1 ≡ none)
        × (IsComplete submitted × (submitted.id ≢ "") × (submitted.created_at ≢ ""))
        × Answers api r.context (write_code 200 updated.0.1) updated.1 (update_book api r ps x)

  update_book_status : (ps : Params) → UpdateStatus ps
  unfolding update_book
  update_book_status ps = elim (Option-cases (decode_request api r).1) [
    | inr (err, d) ↦ inl (
      (λ q. some-ne-none (sym d ∙ q)),
      fails api r.context live 400 "failed to update the book" (book submitted) x _ fresh
          (ground arith),
    )
    | inl d ↦ elim (Option-cases (validate_update submitted)) [
      | inl v ↦ inr (inr (d, (validate_update_iff submitted).0 v, update_book-valid _ d v refl ps))
      | inr (err, v) ↦ inr (
          inl (
            d,
            (λ c. some-ne-none (sym v ∙ (validate_update_iff submitted).1 c)),
            fails api r.context live 400 "failed to update the book" (text (error_text err)) x _
                fresh (ground arith),
          ))
    ]
  ]

  -- While the request's context is not done, and over a writer to which nothing was sent:
  -- `CreateBook` answers 400, without drawing an id or calling the service, if the body does not
  -- decode or a required field is missing. Else it gives the book a fresh id and the current time and
  -- calls the service, and answers 201 if that succeeds and 500 if not. `UpdateBook` answers 400,
  -- without calling the service, if the body does not decode or a required field, the id or the
  -- creation time is missing. Else it updates the book under the id in the body, whatever the id in the
  -- path, and answers 200 if that succeeds and 500 if not.
  pub written_book_statuses : (ps : Params) → CreateStatus ps × UpdateStatus ps
  written_book_statuses ps = (create_book_status ps, update_book_status ps)
