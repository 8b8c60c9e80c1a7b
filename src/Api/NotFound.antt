-- ===== src/Api/NotFound.antt =====
-- `NotFound` of api.handlers.core.go, the handler of the routes that do not exist.
use demo_redis.Prelude.{[], ◌∷◌, Action, pure, ◌>>=◌, ◌>>◌}
use demo_redis.Ids.{request_id_prefix}
use demo_redis.Response.{content_json, write_header, encode, object}
use demo_redis.Api.{ApiHandler, Request, Exchange, Outcome, returned, on_world, on_writer}
use Prim.Native.String

module _ {W : Type 0} (api : ApiHandler W) where
  -- `APIHandler.NotFound`
  unfoldable pub not_found : Request → Action (Exchange W) Outcome
  not_found r = do
    requestid ← on_world (api.ids_handler.generate request_id_prefix)
    on_writer (λ w. (tt, content_json w))
    on_writer (λ w. (tt, write_header 404 w))
    err ← on_writer (
        encode api.size (
          object (
            ("requestid", requestid)
            ∷ ("message", "route does not exist")
            ∷ ("path", String.◌++◌ r.method (String.◌++◌ " " r.path))
            ∷ [])))
    pure returned
