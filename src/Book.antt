-- ===== src/Book.antt =====
-- domain.book.go: the book; helpers.common.go: the errors, the context and the validation of a
-- request's body.
pub mod Valid
use demo_redis.Prelude.{ℕ, String, Bool, true, false, Option, none, some, ◌==◌, if◌then◌else◌}
use Prim.Native.String

-- `Book` of domain.book.go.
pub record Book : Type 0 where
  pub id : String
  pub title : String
  pub description : String
  pub author : String
  pub price : String
  pub created_at : String
  pub updated_at : String

-- Go's zero value, `Book{}`.
abbrev pub zero_book : Book
zero_book = record {
  id = "";
  title = "";
  description = "";
  author = "";
  price = "";
  created_at = "";
  updated_at = "";
}

-- The errors that the program makes or compares with. `foreign` is any other error of a library;
-- `wrap` is `fmt.Errorf` with a prefix.
pub data Error : Type 0 where
  book_not_found redis_nil deadline_exceeded canceled server_closed : Error
  missing_field new foreign : String → Error
  wrap : String → Error → Error

-- `err == ErrBookNotFound`
abbrev pub is_not_found : Option Error → Bool
is_not_found (some book_not_found) = true
is_not_found _ = false

-- `err == redis.Nil`
abbrev pub is_redis_nil : Option Error → Bool
is_redis_nil (some redis_nil) = true
is_redis_nil _ = false

-- `errors.Is(err, context.DeadlineExceeded)`, for the errors that a context has.
abbrev pub is_deadline : Error → Bool
is_deadline deadline_exceeded = true
is_deadline _ = false

-- `missingFieldError.Error`
unfoldable pub missing_field_text : String → String
missing_field_text m = String.◌++◌ m " is required"

-- `err.Error()`; the texts of the libraries' errors are the libraries'
unfoldable pub error_text : Error → String
unfolding missing_field_text
error_text book_not_found = "book not found"
error_text redis_nil = "redis: nil"
error_text deadline_exceeded = "context deadline exceeded"
error_text canceled = "context canceled"
error_text server_closed = "http: Server closed"
error_text (missing_field m) = missing_field_text m
error_text (new m) = m
error_text (foreign m) = m
error_text (wrap prefix e) = String.◌++◌ prefix (error_text e)

abbrev is_empty : String → Bool
is_empty s = s == ""

-- `ValidateCreateBookRequestBody`
unfoldable pub validate_create : Book → Option Error
validate_create book =
    if is_empty book.title
    then some (missing_field "title")
    else if is_empty book.description
    then some (missing_field "description")
    else if is_empty book.author
    then some (missing_field "author")
    else if is_empty book.price
    then some (missing_field "price")
    else none

-- `ValidateUpdateBookRequestBody`
unfoldable pub validate_update : Book → Option Error
validate_update book = elim (validate_create book) [
  | some err ↦ some err
  | none ↦
      if is_empty book.id
      then some (missing_field "id")
      else if is_empty book.created_at
      then some (missing_field "created_at")
      else none
]
