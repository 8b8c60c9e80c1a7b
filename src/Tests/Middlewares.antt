-- ===== src/Tests/Middlewares.antt =====
-- The middleware stacks and the maintenance mode at concrete requests.
use demo_redis.Prelude.{◌⊎◌, ◌≢◌, ◌+◌, ◌≡◌, refl, true, some, [], ◌∷◌, arith, length}
use demo_redis.Clock.{zero_time}
use demo_redis.Book.{foreign, deadline_exceeded}
use demo_redis.Response.{BaseWriter, plain, new_custom_writer, custom_write, custom_write_header}
use demo_redis.Api.{ApiHandler, Request, Exchange, Handle, returned, crashed}
use demo_redis.Api.Ops.{switch_mode, maintenance}
use demo_redis.Api.Ops.Crashing.{Works, Fails, handed, asked, maintenance_outcome}
use demo_redis.Api.Middleware.{chain, cors, middlewares_ops}
use demo_redis.Api.Middleware.Stack.{IsQuiet}
use demo_redis.Api.Middleware.Panics.{chain_ops-crashed}
use demo_redis.Api.Middleware.Requests.{Call, IsConsistent, serve, serve-IsConsistent}
use demo_redis.Api.Books.{get_one_book}
use demo_redis.Api.Books.Quiet.{books-IsQuiet}
use demo_redis.Tests.Requests.{Outside, api, no_answer, request, arriving}

-- A handler that does nothing.
abbrev idle : Handle Outside
idle r ps x = (returned, x)

abbrev pub closed : Exchange Outside
closed = record arriving {
  mode = record { enabled = true; reason = "upgrade"; started = zero_time };
}

read-IsQuiet : IsQuiet (get_one_book api)
read-IsQuiet = (books-IsQuiet api).2

abbrev incoming : Call Outside
incoming = record {
  request = request;
  params = ("id", "b:1") ∷ [];
  conn = 3;
  handler = get_one_book api;
  over = refl;
  quiet = read-IsQuiet;
}

serve-IsConsistent_example :
    ((serve api (incoming ∷ incoming ∷ []) arriving).stats.called
      ≡ arriving.stats.called + length (incoming ∷ incoming ∷ []))
    × IsConsistent (serve api (incoming ∷ incoming ∷ []) arriving).stats
serve-IsConsistent_example =
    serve-IsConsistent api (incoming ∷ incoming ∷ []) arriving refl (omega arith)

-- A request for the mode over a connection that is gone.
abbrev showing : Request
showing = record request { query = ("status", "show") ∷ [] }

abbrev gone : BaseWriter
gone = record no_answer { broken = some (foreign "broken pipe") }

abbrev cut_off : Exchange Outside
cut_off = record arriving { writer = plain gone }

chain_ops-crashed_example :
    (chain (middlewares_ops api) (maintenance api) showing [] cut_off).0 ≡ crashed
unfolding maintenance switch_mode new_custom_writer custom_write custom_write_header cors
chain_ops-crashed_example =
    chain_ops-crashed api (maintenance api) showing [] cut_off 3 "nil pointer dereference" refl refl

-- A handler whose requests have all run out of time.
abbrev late : ApiHandler Outside
late = record api { expires = λ ctx w. (some deadline_exceeded, w) }

maintenance_outcome_example :
    (Works (handed late 3 showing arriving)
        ⊎ (asked showing ≡ "enable")
        ⊎ (asked showing ≡ "disable"))
      × ((chain (middlewares_ops late) (maintenance late) showing [] arriving).0 ≡ returned)
    ⊎ Fails (handed late 3 showing arriving)
      × (asked showing ≢ "enable")
      × (asked showing ≢ "disable")
      × ((chain (middlewares_ops late) (maintenance late) showing [] arriving).0 ≡ crashed)
maintenance_outcome_example =
    maintenance_outcome late showing arriving 3 "nil pointer dereference" refl refl
