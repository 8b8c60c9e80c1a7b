-- ===== src/Tests/Contexts.antt =====
-- The context of a request, as the server and the middlewares fill it.
use demo_redis.Prelude.{◌≡◌, some, [], ◌∷◌}
use demo_redis.Context.{LogFields, get_request_id, get_request_number}
use demo_redis.Context.Values.{
  Values, text, number, logger, gets, get_value_from_context, get_request_number_from_context,
  get_conn_from_context, get_logger_from_context, save_conn_in_context, request_id_context_key,
  empty, saves_conn, sets_id, sets_number, sets_logger, times, accessors_typed,
}

abbrev fields_of_request : LogFields
fields_of_request = record {
  request_id = "r:1";
  number = 7;
  method = "GET";
  path = "/v1/books";
  agent = "curl";
  referer = "";
}

abbrev filled : Values
filled =
    ("request.logger", logger fields_of_request)
    ∷ ("request.number", number 7)
    ∷ ("request.id", text "r:1")
    ∷ save_conn_in_context [] 3

accessors_typed_example :
    (get_value_from_context filled request_id_context_key ≡ gets "r:1")
    × (get_request_number_from_context filled ≡ gets 7)
    × (get_logger_from_context filled ≡ gets (some fields_of_request))
    × (get_conn_from_context filled ≡ gets 3)
unfolding get_request_id get_request_number
accessors_typed_example =
    accessors_typed
      (times (sets_logger (sets_number (sets_id (saves_conn empty 3) "r:1") 7) fields_of_request) 5)
