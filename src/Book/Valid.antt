-- ===== src/Book/Valid.antt =====
-- What the validators of helpers.common.go accept and which field they name.
use demo_redis.Prelude.{◌≡◌, ◌≢◌, ◌↔◌, none, arith, eq_iff}
use demo_redis.Book.{Book, validate_create, validate_update}

-- A book with the fields that a creation request must have.
pub record IsComplete (b : Book) : Type 0 where
  pub title : b.title ≢ ""
  pub description : b.description ≢ ""
  pub author : b.author ≢ ""
  pub price : b.price ≢ ""

pub validate_create_iff : (b : Book) → (validate_create b ≡ none) ↔ IsComplete b
unfolding validate_create
validate_create_iff b =
    ground
      (arith, eq_iff b.title "", eq_iff b.description "", eq_iff b.author "", eq_iff b.price "")

-- An update request is accepted exactly when it is complete and carries an id and a creation time.
pub validate_update_iff :
    (b : Book) → (validate_update b ≡ none) ↔ (IsComplete b × (b.id ≢ "") × (b.created_at ≢ ""))
unfolding validate_update
validate_update_iff b =
    ground (arith, validate_create_iff b, eq_iff b.id "", eq_iff b.created_at "")
