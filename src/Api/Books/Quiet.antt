-- ===== src/Api/Books/Quiet.antt =====
-- The handlers of api.handlers.book.go return, and leave the statistics to the middlewares.
use demo_redis.Prelude.{arith}
use demo_redis.Api.{ApiHandler, reply, reply_error}
use demo_redis.Api.Books.{
  create_decoded, create_book, get_all_books, get_one_book, delete_found, delete_one_book,
  update_decoded, update_book,
}
use demo_redis.Api.Middleware.Stack.{IsQuiet}

module _ {W : Type 0} (api : ApiHandler W) where
  get_one_book-IsQuiet : IsQuiet (get_one_book api)
  unfolding get_one_book reply reply_error
  get_one_book-IsQuiet = record { answers = λ r ps x. ground arith; keeps = λ r ps x. ground arith }

  get_all_books-IsQuiet : IsQuiet (get_all_books api)
  unfolding get_all_books reply reply_error
  get_all_books-IsQuiet = record {
    answers = λ r ps x. ground arith;
    keeps = λ r ps x. ground arith;
  }

  delete_one_book-IsQuiet : IsQuiet (delete_one_book api)
  unfolding delete_one_book delete_found reply reply_error
  delete_one_book-IsQuiet = record {
    answers = λ r ps x. ground arith;
    keeps = λ r ps x. ground arith;
  }

  create_book-IsQuiet : IsQuiet (create_book api)
  unfolding create_book create_decoded reply reply_error
  create_book-IsQuiet = record { answers = λ r ps x. ground arith; keeps = λ r ps x. ground arith }

  update_book-IsQuiet : IsQuiet (update_book api)
  unfolding update_book update_decoded reply reply_error
  update_book-IsQuiet = record { answers = λ r ps x. ground arith; keeps = λ r ps x. ground arith }

  -- Every handler of the books returns, whatever the service answers: none panics or ends the process,
  -- and none touches the statistics.
  pub books-IsQuiet :
      IsQuiet (create_book api)
      × IsQuiet (get_all_books api)
      × IsQuiet (get_one_book api)
      × IsQuiet (delete_one_book api)
      × IsQuiet (update_book api)
  books-IsQuiet = (
    create_book-IsQuiet, get_all_books-IsQuiet, get_one_book-IsQuiet, delete_one_book-IsQuiet,
    update_book-IsQuiet,
  )
