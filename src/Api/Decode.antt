-- ===== src/Api/Decode.antt =====
-- `DecodeCreateOrUpdateBookRequestBody` of helpers.common.go
use demo_redis.Prelude.{Option, none, some}
use demo_redis.Book.{Book, zero_book, Error, new}
use demo_redis.Api.{ApiHandler, Request}

unfoldable pub decode_request : {W : Type 0} → ApiHandler W → Request → Book × Option Error
decode_request api r = elim r.body [
  | none ↦ (zero_book, some (new "invalid create book request body"))
  | some bytes ↦ api.decode_body bytes
]
