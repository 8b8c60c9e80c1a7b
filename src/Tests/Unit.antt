-- ===== src/Tests/Unit.antt =====
-- The cases of tests.handlers.book_test.go, run on the model with the doubles of tests.mocks.go.
use demo_redis.Prelude.{ℕ, String, ◌≡◌, refl, true, false, Option, none, some, List, [], ◌∷◌}
use demo_redis.Book.{Book, zero_book, Error, book_not_found, foreign, validate_create, error_text}
use demo_redis.Context.{get_request_id}
use demo_redis.Service.{World, BookService, new_book_service, on_env}
use demo_redis.Service
use demo_redis.Response.{
  Body, plain, base_of, error, response, new_api_error, generic_response, book, text,
  write_response, write_error_response,
}
use demo_redis.Api.{ApiHandler, panicked, Exchange, reply, reply_error}
use demo_redis.Api.Decode.{decode_request}
use demo_redis.Api.Books.{create_book, create_decoded, delete_one_book, delete_found}
use demo_redis.Doubles.{
  MockBookStorage, mock_book_storage, new_mock_clocker, mock_clocker, new_mock_uid_handler,
  mock_uid_handler, MockQueuer, mock_queuer,
}
use demo_redis.Tests.Requests.{config, no_answer, request, arriving}

abbrev Nowhere : Type 0
Nowhere = World (Unit {0}) (Unit {0}) (Unit {0})

abbrev queue : MockQueuer (Unit {0})
queue = record {
  push_func = λ ctx qid b s. (none, s);
  pop_func = λ ctx qids s. (("", zero_book, none), s);
}

-- A storage that answers with these errors.
abbrev repo : Option Error → Option Error → Option Error → MockBookStorage (Unit {0})
repo adds finds deletes = record {
  add_func = λ ctx id b s. (adds, s);
  get_one_func = λ ctx id s. ((zero_book, finds), s);
  delete_func = λ ctx id s. (deletes, s);
  update_func = λ ctx id b s. ((b, none), s);
  get_all_func = λ ctx s. (([], none), s);
  delete_all_func = λ ctx s. (none, s);
}

abbrev bs : MockBookStorage (Unit {0}) → BookService (Unit {0}) (Unit {0}) (Unit {0})
bs storage =
    new_book_service (mock_clocker new_mock_clocker) (λ t. "2023-07-02 00:00:00 +0000 UTC")
      (mock_book_storage storage) (mock_book_storage storage) (mock_queuer queue)

-- The handler of a test: its identifiers, its storage, and the book that the body decodes to.
abbrev handler : String → MockBookStorage (Unit {0}) → Book → ApiHandler Nowhere
handler uid storage payload = record {
  clock = mock_clocker new_mock_clocker;
  ids_handler = mock_uid_handler (new_mock_uid_handler uid true);
  book_service = record {
    add = Service.add (bs storage);
    get_one = Service.get_one (bs storage);
    delete = Service.delete (bs storage);
    update = Service.update (bs storage);
    get_all = Service.get_all (bs storage);
    delete_all = λ ctx rid w. (tt, w);
  };
  ctx_err = λ ctx w. (none, w);
  expires = λ ctx w. (none, w);
  time_now = λ w. (0, w);
  set_write_deadline = λ n w. (none, w);
  decode_body = λ s. (payload, none);
  size = λ b. 0;
  time_string = λ t. "2023-07-02 00:00:00 +0000 UTC";
  rfc1123 = λ t. "Sun, 02 Jul 2023 00:00:00 UTC";
  minutes = λ s t. "0";
  seconds = λ n. "0";
  nil_logger_error = panicked "nil pointer dereference";
  config = config "8080";
  parse_ip = λ s. false;
  split_host_port = λ s. none;
}

abbrev sent : Exchange Nowhere
sent = record {
  world = record { redis = tt; bolt = tt; env = tt };
  stats = arriving.stats;
  mode = arriving.mode;
  writer = plain no_answer;
}

abbrev test_book : Book
test_book = record zero_book {
  title = "Test book title";
  description = "Test book description";
  author = "Jerome Amon";
  price = "10$";
}

abbrev stored : String → Book
stored id = record test_book {
  id = id;
  created_at = "2023-07-02 00:00:00 +0000 UTC";
  updated_at = "2023-07-02 00:00:00 +0000 UTC";
}

-- The status and the bodies that a handler has sent.
abbrev answer : Exchange Nowhere → Option ℕ × List Body
answer x = ((base_of x.writer).sent, (base_of x.writer).written)

-- "should pass: valid payload"
create_valid_payload :
    answer (create_book (handler "abc" (repo none none none) test_book) request [] sent).1 ≡ (
      some 201,
      response (generic_response "" 201 "Book created successfully." none (book (stored "b:abc")))
          ∷ [],
    )
unfolding create_book create_decoded decode_request validate_create reply write_response
    generic_response get_request_id Service.add
create_valid_payload = refl

-- "should fail: storage insertion failure"
create_storage_failure :
    answer
      (create_book
        (handler "" (repo (some (foreign "storage failure")) none none) test_book)
        request
        []
        sent).1
    ≡ (some 500, error (new_api_error "" 500 "failed to create the book" (book (stored "b:"))) ∷ [])
unfolding create_book create_decoded decode_request validate_create reply_error write_error_response
    new_api_error get_request_id Service.add
create_storage_failure = refl

-- "should fail: required field in payload"
create_required_field :
    answer
      (create_book
        (handler "" (repo none none none) (record test_book { title = "" }))
        request
        []
        sent).1
    ≡ (
      some 400,
      error (new_api_error "" 400 "failed to create the book" (text "title is required")) ∷ [],
    )
unfolding create_book create_decoded decode_request validate_create reply_error write_error_response
    new_api_error get_request_id error_text
create_required_field = refl

-- "during checking"
delete_missing_when_checked :
    answer
      (delete_one_book
        (handler "" (repo none (some book_not_found) none) zero_book)
        request
        []
        sent).1
    ≡ (some 404, error (new_api_error "" 404 "book does not exist" (book zero_book)) ∷ [])
unfolding delete_one_book reply_error write_error_response new_api_error get_request_id
    Service.get_one
delete_missing_when_checked = refl

-- "during deletion"
delete_missing_when_deleted :
    answer
      (delete_one_book
        (handler "" (repo none none (some book_not_found)) zero_book)
        request
        []
        sent).1
    ≡ (some 404, error (new_api_error "" 404 "book does not exist" (book zero_book)) ∷ [])
unfolding delete_one_book delete_found reply_error write_error_response new_api_error get_request_id
    Service.get_one Service.delete
delete_missing_when_deleted = refl
