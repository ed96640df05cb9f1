-- ===== src/Http/Server.antt =====
-- http/HttpServerff.h and http/HttpServerff.cpp: what the server does when bytes have come in. The calls
-- on the connection are listed in order, the newest last; the user's callback is a parameter.
pub mod Close
pub mod Answer
mod Tests
use firey.Prelude.{
  ℕ, Bool, true, false, not, ◌&&◌, ◌||◌, List, [], ◌∷◌, ◌++◌, Option, some, none, if◌then◌else◌,
  ◌>>=◌, Bytes, codes, bytes_eq,
}
use firey.Buffer.{Buffer, initial_size, new, peek, readable_bytes, read_range}
use firey.Http.Request.{HttpRequest, Version, get_header}
use firey.Http.Context.{HttpContext, Outcome, new_context, reset, is_got_all, parse_request}
use firey.Http.Response.{
  HttpResponse, new_response, set_status_code, set_status_message, set_close_connection,
  append_to_buffer,
}

-- Calls on the connection: `send` and `shutdown`.
pub data Call : Type 0 where
  send : Bytes → Call
  shutdown : Call

-- What becomes of a message, as for the parser.
pub data Served : Type 0 where
  stopped spinning : Served
  served : List Call → HttpContext → Buffer → Served

abbrev pub default_http_callback : HttpRequest → HttpResponse → HttpResponse
default_http_callback request response =
    set_close_connection true
      (set_status_message (codes "Not Found") (set_status_code 404 response))

-- `onConnection` sets the context of a connection that is up.
abbrev pub on_connection : Bool → Option HttpContext → Option HttpContext
on_connection connected context = if connected then some new_context else context

unfoldable pub is_http10 : Version → Bool
is_http10 v = elim v [ Version.http10 ↦ true | _ ↦ false ]

-- Whether the connection is closed after the answer, unless the callback says otherwise.
unfoldable pub wants_close : HttpRequest → Bool
wants_close request =
    let connection = get_header request (codes "Connection") in
    bytes_eq connection (codes "close")
    || (is_http10 request.version && not (bytes_eq connection (codes "Keep-Alive")))

abbrev pub bad_request : Bytes
bad_request = codes "HTTP/1.1 400 Bad Request" ++ (13 ∷ 10 ∷ 13 ∷ 10 ∷ [])

module _ (decimal : ℕ → Bytes) (http_callback : HttpRequest → HttpResponse → HttpResponse) where
  unfoldable pub on_request : HttpRequest → Option (List Call)
  on_request request =
      let response = http_callback request (new_response (wants_close request)) in
      do
        fresh ← new initial_size
        buf ← append_to_buffer decimal response fresh
        bytes ← read_range buf.storage (peek buf) (readable_bytes buf)
        some (send bytes ∷ (if response.close_connection then shutdown ∷ [] else []))

  -- After the parser has returned.
  unfoldable pub answer : Bool → HttpContext → Buffer → Served
  unfolding on_request
  answer ok context buffer =
      let refused = if ok then [] else (send bad_request ∷ shutdown ∷ []) in
      if is_got_all context
      then elim (on_request context.request) [
        | none ↦ stopped
        | some calls ↦ served (refused ++ calls) (reset context) buffer
      ]
      else served refused context buffer

  abbrev pub after_parse : Outcome Buffer → Served
  after_parse Outcome.stopped = stopped
  after_parse Outcome.spinning = spinning
  after_parse (Outcome.returned ok context buffer) = answer ok context buffer

  unfoldable pub on_message : HttpContext → Buffer → ℕ → Served
  on_message context buffer time = after_parse (parse_request context buffer time)
