-- ===== src/Api/Reply.antt =====
-- What a handler's last call, `WriteErrorResponse` or `WriteResponse`, leaves behind.
use demo_redis.Prelude.{ℕ, String, ◌≡◌, refl, sym, false, none, some, arith}
use mathlib.Core.Path.{subst}
use demo_redis.Context.{Context, get_request_id}
use demo_redis.Response.{
  Writer, plain, custom, is_aborted, base_of, ApiError, ApiResponse, Payload, new_api_error,
  generic_response, write_error_response, write_response, custom_write_header, custom_write,
}
use demo_redis.Api.{ApiHandler, Exchange, returned, Outcome, reply_error, reply}

-- Nothing was sent yet, and the request was not aborted.
abbrev pub IsFresh : Writer → Type 0
IsFresh (plain w) = w.sent ≡ none
IsFresh (custom cw) = (cw.base.sent ≡ none) × (cw.wrote ≡ false) × (is_aborted cw.base ≡ false)

-- The context is not done, whenever it is asked.
abbrev pub IsLive : {W : Type 0} → ApiHandler W → Context → Type 0
IsLive {W} api ctx = (w : W) → (api.ctx_err ctx w).0 ≡ none

-- How a handling ended: with this status sent, and with this world but for the context's answer.
pub record Answers {W : Type 0} (api : ApiHandler W) (ctx : Context) (code : ℕ) (w : W)
    (result : Outcome × Exchange W) : Type 0 where
  pub ended : result.0 ≡ returned
  pub status : (base_of result.1.writer).sent ≡ some code
  pub world : result.1.world ≡ (api.ctx_err ctx w).1

module _ {W : Type 0} (api : ApiHandler W) (ctx : Context) (live : IsLive api ctx) where
  sent-error :
      (resp : ApiError) (w : Writer)
      → IsFresh w
      → (base_of (write_error_response api.size none resp w).1).sent ≡ some resp.status
  unfolding write_error_response custom_write_header custom_write
  sent-error resp (plain w) h = ground arith
  sent-error resp (custom cw) h = ground arith

  sent-response :
      (resp : ApiResponse) (w : Writer)
      → IsFresh w
      → (base_of (write_response api.size none resp w).1).sent ≡ some resp.status
  unfolding write_response custom_write_header custom_write
  sent-response resp (plain w) h = ground arith
  sent-response resp (custom cw) h = ground arith

  pub reply_error-Answers :
      (resp : ApiError) (x : Exchange W)
      → IsFresh x.writer
      → Answers api ctx resp.status x.world (reply_error api ctx resp x)
  unfolding reply_error
  reply_error-Answers resp x fresh = record {
    ended = refl;
    status = rw (live x.world) (sent-error resp x.writer fresh);
    world = refl;
  }

  pub reply-Answers :
      (resp : ApiResponse) (x : Exchange W)
      → IsFresh x.writer
      → Answers api ctx resp.status x.world (reply api ctx resp x)
  unfolding reply
  reply-Answers resp x fresh = record {
    ended = refl;
    status = rw (live x.world) (sent-response resp x.writer fresh);
    world = refl;
  }

  abbrev pub failure : ℕ → String → Payload → ApiError
  failure code message payload = new_api_error (get_request_id ctx) code message payload

  abbrev pub success : ℕ → String → Payload → ApiResponse
  success code message payload = generic_response (get_request_id ctx) code message none payload

  pub fails :
      (code : ℕ) (message : String) (payload : Payload) (y : Exchange W)
      (result : Outcome × Exchange W)
      → IsFresh y.writer
      → result ≡ reply_error api ctx (failure code message payload) y
      → Answers api ctx code y.world result
  unfolding new_api_error
  fails code message payload y result f e =
      subst (Answers api ctx code y.world) (sym e)
        (reply_error-Answers (failure code message payload) y f)

  pub succeeds :
      (code : ℕ) (message : String) (payload : Payload) (y : Exchange W)
      (result : Outcome × Exchange W)
      → IsFresh y.writer
      → result ≡ reply api ctx (success code message payload) y
      → Answers api ctx code y.world result
  unfolding generic_response
  succeeds code message payload y result f e =
      subst (Answers api ctx code y.world) (sym e)
        (reply-Answers (success code message payload) y f)
