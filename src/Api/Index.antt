-- ===== src/Api/Index.antt =====
-- `Index` of api.handlers.book.go, which redirects to the status.
use demo_redis.Prelude.{ℕ, String, ◌==◌, ◌&&◌, ◌||◌, if◌then◌else◌, Action, pure, ◌>>◌}
use demo_redis.Response.{Body, Writer, base_of, get, set_header, write_header, encode, link}
use demo_redis.Api.{ApiHandler, Request, returned, Handle, on_writer}

-- `http.Redirect` of package net/http, to a clean path of the same server
abbrev redirect : (Body → ℕ) → Request → String → ℕ → Action Writer (Unit {0})
redirect size r url code w =
    let no_content = get "Content-Type" (base_of w).header == "" in
    let w1 = set_header "Location" url w in
    let w2 =
      if no_content && (r.method == "GET" || r.method == "HEAD")
      then set_header "Content-Type" "text/html; charset=utf-8" w1
      else w1 in
    let w3 = write_header code w2 in
    if no_content && r.method == "GET" then (tt, (encode size (link url) w3).1) else (tt, w3)

-- `APIHandler.Index`
unfoldable pub index : {W : Type 0} → ApiHandler W → Handle W
index api r ps = do on_writer (redirect api.size r "/status" 303); pure returned
