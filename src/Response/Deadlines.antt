-- ===== src/Response/Deadlines.antt =====
-- The methods of `CustomResponseWriter` of helpers.response.go that net/http's ResponseController and the
-- middlewares call, and the deadlines that they set on the connection.
use demo_redis.Prelude.{ℕ, Option, Action}
use demo_redis.Book.{Error}
use demo_redis.Response.{Header, BaseWriter, CustomWriter}

-- `CustomResponseWriter.Header`, `.Status`, `.Bytes` and `.Unwrap`
abbrev pub header : CustomWriter → Header
header cw = cw.base.header

abbrev pub status : CustomWriter → ℕ
status cw = cw.code

abbrev pub bytes : CustomWriter → ℕ
bytes cw = cw.bytes

abbrev pub unwrap : CustomWriter → BaseWriter
unwrap cw = cw.base

-- What `net.Conn` does with deadlines; `N` is the state of the network.
pub record Conns (N : Type 0) : Type 0 where
  pub set_write_deadline : ℕ → ℕ → Action N (Option Error)
  pub set_read_deadline : ℕ → ℕ → Action N (Option Error)

module _ {N : Type 0} (conns : Conns N) where
  -- `CustomResponseWriter.SetWriteDeadline`
  abbrev pub set_write_deadline : ℕ → CustomWriter → Action N (Option Error)
  set_write_deadline t cw = conns.set_write_deadline cw.conn t

  -- `CustomResponseWriter.SetReadDeadline`
  abbrev pub set_read_deadline : ℕ → CustomWriter → Action N (Option Error)
  set_read_deadline t cw = conns.set_read_deadline cw.conn t
