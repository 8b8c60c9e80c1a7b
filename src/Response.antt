-- ===== src/Response.antt =====
-- helpers.response.go: the response writers, the payloads, and the writing of responses. The base
-- writer is net/http's: what is recorded of it is the headers, the status sent and the payloads
-- written, in their order.
pub mod Laws
pub mod Deadlines
use demo_redis.Prelude.{
  ℕ, zero, suc, ◌+◌, String, Bool, true, false, not, ◌==◌, if◌then◌else◌, Option, none, some, List,
  [], ◌∷◌, ◌++◌, Action, pure, ◌>>=◌, ◌>>◌,
}
use demo_redis.Book.{Book, Error, new, is_deadline}
use demo_redis.Context.{Context}
use demo_redis.Config.{Config}

-- `http.Header`, with canonical keys: the value set last is found first.
abbrev pub Header : Type 0
Header = List (String × String)

abbrev pub get : String → Header → String
get key [] = ""
get key ((k, v) ∷ h) = if k == key then v else get key h

abbrev pub set : String → String → Header → Header
set key v h = (key, v) ∷ h

-- What a response carries beside its message, as `interface{}`.
pub data Payload : Type 0 where
  nothing : Payload
  book : Book → Payload
  books : List Book → Payload
  text : String → Payload
  fields : List (String × String) → Payload

-- `APIError`, and `APIResponse`, which has the total as well
pub record ApiError : Type 0 where
  pub request_id : String
  pub status : ℕ
  pub message : String
  pub payload : Payload

pub record ApiResponse : Type 0 where
  pub request_id : String
  pub status : ℕ
  pub message : String
  pub total : Option ℕ
  pub payload : Payload

-- `NewAPIError`
unfoldable pub new_api_error : String → ℕ → String → Payload → ApiError
new_api_error requestid status message payload = record {
  request_id = requestid;
  status = status;
  message = message;
  payload = payload;
}

-- `GenericResponse`
unfoldable pub generic_response : String → ℕ → String → Option ℕ → Payload → ApiResponse
generic_response requestid status message total payload = record {
  request_id = requestid;
  status = status;
  message = message;
  total = total;
  payload = payload;
}

-- What `GetStatistics` encodes.
pub record Report : Type 0 where
  pub request_id : String
  pub version : String
  pub container : Bool
  pub platform : String
  pub runtime : String
  pub called : ℕ
  pub started : String
  pub uptime : String
  pub enabled : Bool
  pub mode_started : String
  pub reason : String
  pub status : List (ℕ × ℕ)

-- What is written onto a response: values as the JSON encoder is given them, and the
-- page that a redirection writes, a link.
pub data Body : Type 0 where
  error : ApiError → Body
  response : ApiResponse → Body
  object : List (String × String) → Body
  statistics : Report → Body
  configs : Config String ℕ → Body
  link : String → Body

-- `StatusResponse`, which is encoded by its tags
pub record StatusResponse : Type 0 where
  pub request_id : String
  pub status : String
  pub message : String

abbrev pub status_object : StatusResponse → Body
status_object r =
    object (("requestid", r.request_id) ∷ ("status", r.status) ∷ ("message", r.message) ∷ [])

-- net/http's writer: the header map, the status sent, and the bodies written. A writer whose
-- connection is gone fails each write with an error.
pub record BaseWriter : Type 0 where
  pub header : Header
  pub sent : Option ℕ
  pub written : List Body
  pub broken : Option Error

-- A second status is ignored.
abbrev pub base_write_header : ℕ → BaseWriter → BaseWriter
base_write_header code w = elim w.sent [ none ↦ record w { sent = some code } | some _ ↦ w ]

-- The first write sends 200 if no status was sent.
abbrev pub base_write : (Body → ℕ) → Body → Action BaseWriter (ℕ × Option Error)
base_write size b w = elim w.broken [
  | some e ↦ ((0, some e), base_write_header 200 w)
  | none ↦
      let w' = base_write_header 200 w in
      ((size b, none), record w' { written = w'.written ++ b ∷ [] })
]

-- `CustomResponseWriter`, round net/http's writer, as the program always has it.
pub record CustomWriter : Type 0 where
  pub base : BaseWriter
  pub conn : ℕ
  pub code : ℕ
  pub bytes : ℕ
  pub wrote : Bool

abbrev pub aborted_header : String
aborted_header = "X-DRAP-ABORTED"

-- `cw.Header().Get("X-DRAP-ABORTED") != ""`
abbrev pub is_aborted : BaseWriter → Bool
is_aborted w = not (get aborted_header w.header == "")

-- `NewCustomResponseWriter`
unfoldable pub new_custom_writer : BaseWriter → ℕ → CustomWriter
new_custom_writer rw c = record { base = rw; conn = c; code = 200; bytes = 0; wrote = false }

-- `CustomResponseWriter.WriteHeader`
unfoldable pub custom_write_header : ℕ → CustomWriter → CustomWriter
custom_write_header code cw =
    if is_aborted cw.base
    then record cw { code = code; wrote = true }
    else if cw.wrote
    then cw
    else record cw { code = code; wrote = true; base = base_write_header code cw.base }

-- `CustomResponseWriter.Write`
unfoldable pub custom_write : (Body → ℕ) → Body → Action CustomWriter (ℕ × Option Error)
unfolding custom_write_header
custom_write size b cw =
    if is_aborted cw.base
    then ((0, some (new "handler: request timed out or cancelled")), cw)
    else let cw' = if cw.wrote then cw else custom_write_header cw.code cw in
      let ((n, err), base') = base_write size b cw'.base in
      ((n, err), record cw' { base = base'; bytes = cw'.bytes + n })

-- `http.ResponseWriter`: net/http's own writer or the wrapper.
pub data Writer : Type 0 where
  plain : BaseWriter → Writer
  custom : CustomWriter → Writer

abbrev pub base_of : Writer → BaseWriter
base_of (plain w) = w
base_of (custom cw) = cw.base

-- `w.Header().Set(key, value)`
abbrev pub set_header : String → String → Writer → Writer
set_header key value (plain w) = plain (record w { header = set key value w.header })
set_header key value (custom cw) =
    custom (let w = cw.base in record cw { base = record w { header = set key value w.header } })

-- `w.WriteHeader(code)`
abbrev pub write_header : ℕ → Writer → Writer
write_header code (plain w) = plain (base_write_header code w)
write_header code (custom cw) = custom (custom_write_header code cw)

abbrev wrap_write : {A : Type 0} → A × CustomWriter → A × Writer
wrap_write (a, cw) = (a, custom cw)

abbrev plain_write : {A : Type 0} → A × BaseWriter → A × Writer
plain_write (a, w) = (a, plain w)

-- `w.Write`
abbrev pub write : (Body → ℕ) → Body → Action Writer (ℕ × Option Error)
write size b (plain w) = plain_write (base_write size b w)
write size b (custom cw) = wrap_write (custom_write size b cw)

abbrev pub content_json : Writer → Writer
content_json = set_header "Content-Type" "application/json; charset=UTF-8"

-- `json.NewEncoder(w).Encode(v)`, which makes one write and returns its error
abbrev pub encode : (Body → ℕ) → Body → Action Writer (Option Error)
encode size b w = let ((n, err), w') = write size b w in (err, w')

-- The status that a done context is reported with: 504 for a deadline, 499 for a client that left.
abbrev pub done_status : Error → ℕ
done_status e = if is_deadline e then 504 else 499

-- `WriteErrorResponse`, given what `ctx.Err()` answers
unfoldable pub write_error_response :
    (Body → ℕ) → Option Error → ApiError → Action Writer (Option Error)
write_error_response size (some e) resp w = (some e, write_header (done_status e) w)
write_error_response size none resp w =
    encode size (error resp) (write_header resp.status (content_json w))

-- `WriteResponse`, given what `ctx.Err()` answers
unfoldable pub write_response :
    (Body → ℕ) → Option Error → ApiResponse → Action Writer (Option Error)
write_response size (some e) resp w = (some e, write_header (done_status e) w)
write_response size none resp w =
    encode size (response resp) (write_header resp.status (content_json w))
