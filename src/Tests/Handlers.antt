-- ===== src/Tests/Handlers.antt =====
-- The book handlers and the response writers at concrete requests.
use demo_redis.Prelude.{not, ℕ, ◌≡◌, refl, ◌⊎◌, true, false, none, some, [], ◌∷◌, List}
use demo_redis.Book.{Book}
use demo_redis.Response.{Body, CustomWriter, new_custom_writer, aborted_header, object}
use demo_redis.Response.Laws as Writers
use demo_redis.Response.Laws.{Call, status, send}
use demo_redis.Api.Reply.{IsLive}
use demo_redis.Api.Books.Status as Status
use demo_redis.Api.Books.Write as Write
use demo_redis.Ids.{generate, is_valid}
use demo_redis.Ids.Laws.{generate-is_valid}
use demo_redis.Tests.Requests.{uuid, api, no_answer, request, arriving}

live : IsLive api request.context
live w = refl

abbrev submitted : Book
submitted = Write.submitted api request live arriving refl

one_book_statuses_example :
    Status.GetOneStatus api request live arriving refl (("id", "b:1") ∷ [])
    × Status.DeleteOneStatus api request live arriving refl (("id", "b:1") ∷ [])
one_book_statuses_example =
    Status.one_book_statuses api request live arriving refl (("id", "b:1") ∷ [])

written_book_statuses_example :
    Write.CreateStatus api request live arriving refl []
    × Write.UpdateStatus api request live arriving refl []
written_book_statuses_example = Write.written_book_statuses api request live arriving refl []

abbrev size : Body → ℕ
size b = 7

-- A handler that sends a status, then a body, then another status.
abbrev made : List Call
made = status 404 ∷ send (object []) ∷ status 500 ∷ []

abbrev answered : CustomWriter
answered = Writers.calls size made (new_custom_writer no_answer 3)

calls_tracked_example :
    ((answered.base.sent ≡ some answered.code)
      ⊎ (answered.base.sent ≡ none) × (answered.code ≡ 200))
    × (answered.bytes ≡ Writers.total size answered.base.written)
calls_tracked_example = Writers.calls_tracked size made no_answer 3 refl refl refl

-- A writer through which 404 was sent.
abbrev not_found : CustomWriter
not_found = record {
  base = record no_answer { sent = some 404 };
  conn = 3;
  code = 404;
  bytes = 0;
  wrote = true;
}

-- A writer whose response was aborted for a timeout.
abbrev timed_out : CustomWriter
timed_out = record {
  base = record no_answer { header = (aborted_header, "T") ∷ []; sent = some 504 };
  conn = 3;
  code = 200;
  bytes = 0;
  wrote = false;
}

generate-is_valid_example :
    is_valid uuid (generate uuid "b" arriving.world).0 "b"
    ≡ not (uuid.is_nil (uuid.new_v4 arriving.world).0.0)
generate-is_valid_example = generate-is_valid uuid (λ u. refl) "b" arriving.world
