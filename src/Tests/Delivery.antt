-- ===== src/Tests/Delivery.antt =====
-- Requests that create, update and delete a book over the server and the database in memory.
use demo_redis.Prelude.{ℕ, String, [], ◌∷◌, ◌≢◌, ◌≡◌, refl, true, some}
use demo_redis.Book.{Book, canceled, validate_create, validate_update}
use demo_redis.Context.{background}
use demo_redis.Clock.{new_clock}
use demo_redis.Store.{put, remove}
use demo_redis.Store.Redis
use demo_redis.Queue.{push}
use demo_redis.Replica.{queue_ids}
use demo_redis.Service.{add, get_one, update, delete}
use demo_redis.Consumer.{consume}
use demo_redis.Ids.{generate, is_valid, trim_prefix}
use demo_redis.Book.Valid.{IsComplete, validate_create_iff, validate_update_iff}
use demo_redis.Response.{base_of}
use demo_redis.Api.Decode.{decode_request}
use demo_redis.Api.Books.{create_book, update_book, delete_one_book}
use demo_redis.Tests.Requests.{api, request, arriving, no_answer}
use demo_redis.System.Requests.{Parts, IsOver}
use demo_redis.System.Requests.Arrival
use demo_redis.System.Requests.Arrival.{Arrives}
use demo_redis.Api.{returned, Params}
use demo_redis.Api.Middleware.{cors}
use demo_redis.Api.Routes.Stacks.{stacks}
use demo_redis.Response.{BaseWriter}
use demo_redis.Tests.Memory.{
  plain_json, plain_json-laws, server, database, contents, Server, Entries,
}
use demo_redis.Tests.Memory.Laws.{server-laws, database-laws, bucket_content}
use demo_redis.Tests.Storage.{ulysses}
use demo_redis.Tests.Service.{consumer, pview, bview, full}
use demo_redis.Tests.System.{up}

abbrev parts : Parts Book Server Entries Entries ℕ
parts = record {
  json = plain_json;
  redis_client = server;
  bolt_db_client = database;
  bucket_name = "books";
  clock = new_clock (λ n. (n, n)) true;
  time_string = λ t. "now";
  ctx_err = λ ctx n. (some canceled, n);
  contents = contents;
  content = bucket_content;
  inside = bucket_content;
  json_laws = plain_json-laws;
  redis_laws = server-laws;
  bolt_laws = database-laws;
}

over : IsOver parts api
unfolding new_clock generate
over = record {
  adds = refl;
  looks_up = refl;
  deletes = refl;
  updates = refl;
  clock_keeps = λ w. (refl, refl);
  ids_keep = λ prefix w. (refl, refl);
  contexts_keep = λ c w. (refl, refl);
  deadlines_keep = λ c w. (refl, refl);
}

abbrev new_writer : BaseWriter
new_writer = no_answer

arrives : (ps : Params) → Arrives parts background up api over request ps arriving 3 new_writer
unfolding cors generate
arrives ps = record {
  off = refl;
  conn = refl;
  plain_writer = refl;
  unsent = refl;
  not_aborted = refl;
  in_time = refl;
  live = λ w. refl;
  quiet = (refl, refl, refl);
  sync = λ id. refl;
}

abbrev of_book : String → Params
of_book id = ("id", id) ∷ []

-- The body of the request, as it is decoded.
abbrev sent : Book
sent = record ulysses { description = "a day in Dublin"; price = "10$"; created_at = "then" }

complete : IsComplete sent
unfolding validate_create
complete = (validate_create_iff sent).0 refl

created_reaches_backup_example :
    let y = (stacks api).public (create_book api) request [] arriving in
    (y.0 ≡ returned)
    × ((base_of y.1.writer).sent ≡ some 201)
    × ((id : String)
        → bview (consume consumer 1 background queue_ids y.1.world).1.bolt id
          ≡ put "b:1"
              (record sent { id = "b:1"; created_at = "now"; updated_at = "now" })
              (pview full.redis)
              id)
unfolding add Redis.add push decode_request generate
created_reaches_backup_example =
    Arrival.created_reaches_backup parts background up api over request [] arriving 3 new_writer
      (arrives []) refl complete refl refl

ready : IsComplete sent × (sent.id ≢ "") × (sent.created_at ≢ "")
unfolding validate_update validate_create
ready = (validate_update_iff sent).0 refl

updated_reaches_backup_example :
    let y = (stacks api).public (update_book api) request (of_book "b:2") arriving in
    (y.0 ≡ returned)
    × ((base_of y.1.writer).sent ≡ some 200)
    × ((id : String)
        → bview (consume consumer 1 background queue_ids y.1.world).1.bolt id
          ≡ put "b:1" (record sent { updated_at = "now" }) (pview full.redis) id)
unfolding update Redis.update push decode_request
updated_reaches_backup_example =
    Arrival.updated_reaches_backup parts background up api over request (of_book "b:2") arriving 3
      new_writer (arrives (of_book "b:2")) refl ready refl refl

deleted_reaches_backup_example :
    let y = (stacks api).public (delete_one_book api) request (of_book "b:1") arriving in
    (y.0 ≡ returned)
    × ((base_of y.1.writer).sent ≡ some 200)
    × ((id : String)
        → bview (consume consumer 1 background queue_ids y.1.world).1.bolt id
          ≡ remove "b:1" (pview full.redis) id)
unfolding delete get_one Redis.delete Redis.get_one push is_valid trim_prefix new_clock cors
    generate
deleted_reaches_backup_example =
    Arrival.deleted_reaches_backup parts background up api over request (of_book "b:1") arriving 3
      new_writer (arrives (of_book "b:1")) refl refl refl refl
