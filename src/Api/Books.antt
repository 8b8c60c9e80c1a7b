-- ===== src/Api/Books.antt =====
-- api.handlers.book.go: the handlers of the books.
pub mod Status
pub mod Write
pub mod Quiet
use demo_redis.Prelude.{
  ℕ, ◌+◌, ◌-◌, String, Bool, true, false, if◌then◌else◌, Option, none, some, List, [], ◌∷◌, Action,
  pure, ◌>>=◌, ◌>>◌, length,
}
use demo_redis.Book.{
  Book, zero_book, Error, missing_field, is_not_found, validate_create, validate_update, error_text,
}
use demo_redis.Context.{Context, get_request_id}
use demo_redis.Ids.{book_id_prefix}
use demo_redis.Response.{
  nothing, book, books, text, new_api_error, generic_response, object, status_object, content_json,
  encode, Writer,
}
use demo_redis.Api.{
  ApiHandler, Request, Params, by_name, Exchange, Outcome, returned, Handle, on_world, on_writer,
  reply_error, reply,
}
use demo_redis.Api.Decode.{decode_request}
use Prim.Native.String

module _ {W : Type 0} (api : ApiHandler W) where
  -- `APIHandler.Status`
  unfoldable pub status : Handle W
  status r ps = do
    let request_id = get_request_id r.context
    on_writer (λ w. (tt, content_json w))
    now ← on_world api.clock.now
    started ← (λ x. (x.stats.started, x))
    let since = api.minutes started now
    on_writer (
        encode api.size (
          status_object (record {
            request_id = request_id;
            status = String.◌++◌ "up & running since " (String.◌++◌ since " mins");
            message = "Hello. Books store api is available. Enjoy :)";
          })))
    pure returned

  -- `APIHandler.CreateBook`, from the decoded book on
  unfoldable pub create_decoded : Context → Book → Action (Exchange W) Outcome
  create_decoded ctx b = elim (validate_create b) [
    | some err ↦
        reply_error api ctx (
          new_api_error (get_request_id ctx) 400 "failed to create the book"
            (text (error_text err)))
    | none ↦ do
      id ← on_world (api.ids_handler.generate book_id_prefix)
      created ← on_world api.clock.now
      updated ← on_world api.clock.now
      let b' = record b {
        id = id;
        created_at = api.time_string created;
        updated_at = api.time_string updated;
      }
      err ← on_world (api.book_service.add ctx b'.id b')
      elim err [
        | some _ ↦
            reply_error api ctx
              (new_api_error (get_request_id ctx) 500 "failed to create the book" (book b'))
        | none ↦
            reply api ctx (
              generic_response (get_request_id ctx) 201 "Book created successfully." none (book b'))
      ]
  ]

  -- `APIHandler.CreateBook`
  unfoldable pub create_book : Handle W
  unfolding create_decoded
  create_book r ps =
      let (b, err) = decode_request api r in
      elim err [
        | some _ ↦
            reply_error api r.context
              (new_api_error (get_request_id r.context) 400 "failed to create the book" (book b))
        | none ↦ create_decoded r.context b
      ]

  -- `APIHandler.GetAllBooks`
  unfoldable pub get_all_books : Handle W
  get_all_books r ps = do
    let ctx = r.context
    now ← on_world api.time_now
    on_world (api.set_write_deadline (now + api.config.server.long_request_write_timeout))
    (bs, err) ← on_world (api.book_service.get_all ctx)
    elim err [
      | some _ ↦
          reply_error api ctx
            (new_api_error (get_request_id ctx) 500 "failed to get all books" (books bs))
      | none ↦ reply api ctx (
          generic_response (get_request_id ctx) 200 "All books fetched successfully."
            (some (length bs)) (books bs))
    ]

  -- `APIHandler.GetOneBook`
  unfoldable pub get_one_book : Handle W
  get_one_book r ps =
      let ctx = r.context in
      let request_id = get_request_id ctx in
      let id = by_name "id" ps in
      if api.ids_handler.is_valid id book_id_prefix
      then (do
        (b, err) ← on_world (api.book_service.get_one ctx id)
        elim err [
          | none ↦
              reply api ctx
                (generic_response request_id 200 "Book fetched successfully." none (book b))
          | some e ↦
              if is_not_found (some e)
              then reply_error api ctx (new_api_error request_id 404 "book does not exist" (book b))
              else reply_error api ctx
                  (new_api_error request_id 500 "failed to create the book" (book b))
        ])
      else reply_error api ctx
          (new_api_error request_id 400 "book id provided is not valid" (book zero_book))

  -- `APIHandler.DeleteOneBook`, from the check that the book exists on
  unfoldable pub delete_found : Context → String → Book → Action (Exchange W) Outcome
  delete_found ctx id b = do
    let request_id = get_request_id ctx
    err ← on_world (api.book_service.delete ctx id)
    elim err [
      | none ↦
          reply api ctx (generic_response request_id 200 "Book deleted successfully." none (book b))
      | some e ↦
          if is_not_found (some e)
          then reply_error api ctx (new_api_error request_id 404 "book does not exist" (book b))
          else reply_error api ctx
              (new_api_error request_id 500 "failed to delete the book" (book b))
    ]

  -- `APIHandler.DeleteOneBook`
  unfoldable pub delete_one_book : Handle W
  unfolding delete_found
  delete_one_book r ps =
      let ctx = r.context in
      let request_id = get_request_id ctx in
      let id = by_name "id" ps in
      if api.ids_handler.is_valid id book_id_prefix
      then (do
        (b, err) ← on_world (api.book_service.get_one ctx id)
        elim err [
          | none ↦ delete_found ctx id b
          | some e ↦
              if is_not_found (some e)
              then reply_error api ctx (new_api_error request_id 404 "book does not exist" (book b))
              else reply_error api ctx
                  (new_api_error request_id 500 "failed to check if the book exist" (book b))
        ])
      else reply_error api ctx
          (new_api_error request_id 400 "book id provided is not valid" (book zero_book))

  -- `APIHandler.UpdateBook`, from the decoded book on
  unfoldable pub update_decoded : Context → Book → Action (Exchange W) Outcome
  update_decoded ctx b = elim (validate_update b) [
    | some err ↦
        reply_error api ctx (
          new_api_error (get_request_id ctx) 400 "failed to update the book"
            (text (error_text err)))
    | none ↦ do
      (b', err) ← on_world (api.book_service.update ctx b.id b)
      elim err [
        | some _ ↦
            reply_error api ctx
              (new_api_error (get_request_id ctx) 500 "failed to update the book" (book b'))
        | none ↦
            reply api ctx (
              generic_response (get_request_id ctx) 200 "Book updated successfully." none (book b'))
      ]
  ]

  -- `APIHandler.UpdateBook`
  unfoldable pub update_book : Handle W
  unfolding update_decoded
  update_book r ps =
      let (b, err) = decode_request api r in
      elim err [
        | some _ ↦
            reply_error api r.context
              (new_api_error (get_request_id r.context) 400 "failed to update the book" (book b))
        | none ↦ update_decoded r.context b
      ]
