-- ===== src/Tests/Routing.antt =====
-- The routes, the source of a request and the clearing of the cache at concrete inputs.
use demo_redis.Prelude.{String, true, false, ◌≡◌, refl, ℕ, Option, none, some, [], ◌∷◌}
use demo_redis.Book.{Error}
use demo_redis.Service.{BookService}
use demo_redis.Clock.{new_clock}
use demo_redis.Response.{base_of, plain}
use demo_redis.Api.{returned, Request, new_maintenance}
use demo_redis.Api.SourceIp.{split_commas, get_request_source_ip}
use demo_redis.Api.Ops.Runtime.{HttpHandler, Packages}
use demo_redis.Api.Middleware.{chain, middlewares_public}
use demo_redis.Api.Books.{get_all_books}
use demo_redis.Api.Routes.{Route, route, setup_routes, setup_book_routes}
use demo_redis.Api.Routes.Stacks.{under_ops}
use demo_redis.Api.Ops.Switching.{switch, maintenance_window}
use demo_redis.Context.{background}
use demo_redis.Store.Redis.{h_books}
use demo_redis.Service.Clear.{
  timed_out, ticked, line_of, timeout, still_running, completed, delete_all,
}
use demo_redis.Service.Clear.Outcome.{delete_all_outcome}
use demo_redis.System.{book_service}
use demo_redis.System.Clearing.{delete_all_completes}
use demo_redis.Tests.Requests.{Outside, api, no_answer, request, arriving}
use demo_redis.Tests.Memory.{Server, Entries, plain_json, contents, server, database}
use demo_redis.Tests.Memory.Laws.{server-laws}
use demo_redis.Tests.Clearing.{server-ScanLaws}
use demo_redis.Tests.Service.{full}
use demo_redis.Store.Redis.Fields.{Answers}
use demo_redis.Service.Clear.{ops_context}
use mathlib.Core.List.Memᴰ

-- The second part of X-FORWARDED-FOR is the first that is an address.
source_ip_run : get_request_source_ip api request ≡ "10.0.0.1"
unfolding get_request_source_ip split_commas demo_redis.Api.SourceIp.first_ip
source_ip_run = refl

abbrev page : HttpHandler Outside
page r x = (returned, x)

abbrev pub packages : Packages Outside
packages = record {
  gc = λ w. (tt, w);
  free_os_memory = λ w. (tt, w);
  set_goroutines = λ w. (tt, w);
  expvar = page;
  pprof_index = page;
  pprof_profile = page;
  pprof_trace = page;
  pprof_symbol = page;
  pprof_cmdline = page;
  pprof_handler = λ name. page;
  swagger = page;
}

abbrev books_route : Route Outside
books_route = route "GET" "/v1/books" (chain (middlewares_public api) (get_all_books api))

abbrev disabling : Request
disabling = record request { query = ("status", "disable") ∷ [] }

maintenance_window_example :
    let begun = switch api request arriving in
    let (outcome, between) =
      books_route.handle request [] (record begun { writer = plain no_answer }) in
    let over = switch api disabling (record between { writer = plain no_answer }) in
    (begun.mode.enabled ≡ true)
    × (begun.mode.reason ≡ "upgrade")
    × (outcome ≡ returned)
    × ((base_of between.writer).sent ≡ some 503)
    × (between.mode ≡ begun.mode)
    × (over.mode ≡ new_maintenance)
    × (over.stats.called ≡ 6)
unfolding setup_routes setup_book_routes under_ops demo_redis.Ids.strip new_clock
maintenance_window_example =
    maintenance_window api packages books_route request request disabling [] arriving no_answer
      no_answer 3 3 (Memᴰ.tail (Memᴰ.tail (Memᴰ.tail (Memᴰ.head refl)))) refl refl refl refl refl
      refl refl refl

abbrev clearing : BookService Server Entries ℕ
clearing =
    book_service plain_json server database "books" (new_clock (λ n. (n, n)) true) (λ t. "now")

delete_all_outcome_example :
    let (result, redis) = clearing.pstorage.delete_all 1 ops_context full.redis in
    let ((lines, over), w') =
      delete_all clearing 1 (ticked ∷ timed_out ∷ []) background "r:1" full in
    (w' ≡ record full { redis = redis })
    × (result ≡ none → (lines ≡ still_running ∷ timeout ∷ []) × (over ≡ false))
    × ((err : Option Error)
        → result ≡ some err
        → (lines ≡ still_running ∷ timeout ∷ line_of err ∷ []) × (over ≡ true))
delete_all_outcome_example =
    delete_all_outcome clearing 1 (ticked ∷ timed_out ∷ []) background "r:1" full (tt, (tt, tt))

answers : Answers server ops_context
answers = record { deletes = λ f r. refl; scans = λ cursor r. refl }

delete_all_completes_example :
    let (seen, w) =
      delete_all
        (book_service plain_json server database "books"
          (new_clock (λ n. (n, n)) true)
          (λ t. "now"))
        1
        (ticked ∷ [])
        background
        "r:1"
        full in
    (seen ≡ (still_running ∷ completed ∷ [], true))
    × ((id : String) → (contents w.redis).hash h_books id ≡ none)
    × ((contents w.redis).list ≡ (contents full.redis).list)
    × (w.bolt ≡ full.bolt)
    × (w.env ≡ full.env)
delete_all_completes_example =
    delete_all_completes plain_json server database "books" contents (λ r. 1) server-laws
      server-ScanLaws answers (new_clock (λ n. (n, n)) true) (λ t. "now") (ticked ∷ []) background
      "r:1" full (tt, tt)
