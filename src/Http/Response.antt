-- ===== src/Http/Response.antt =====
-- http/HttpResponseff.h and http/HttpResponseff.cpp: a response and how it is written.
pub mod Written
mod Tests
use firey.Prelude.{
  ℕ, ◌+◌, ◌≡◌, Bool, List, [], ◌∷◌, ◌++◌, Option, some, none, if◌then◌else◌, ◌>>=◌, length, take,
  Bytes, codes, Headers, insert,
}
use firey.Buffer.{Buffer, append}

-- `status_code` is the value of the `HttpStatusCode`.
pub record HttpResponse : Type 0 where
  pub status_code : ℕ
  pub status_message : Bytes
  pub close_connection : Bool
  pub headers : Headers
  pub body : Bytes

unfoldable pub new_response : Bool → HttpResponse
new_response close = record {
  status_code = 0;
  status_message = [];
  close_connection = close;
  headers = [];
  body = [];
}

abbrev pub set_status_code : ℕ → HttpResponse → HttpResponse
set_status_code status r = record r { status_code = status }

abbrev pub set_status_message : Bytes → HttpResponse → HttpResponse
set_status_message message r = record r { status_message = message }

abbrev pub set_close_connection : Bool → HttpResponse → HttpResponse
set_close_connection on r = record r { close_connection = on }

unfoldable pub add_header : Bytes → Bytes → HttpResponse → HttpResponse
add_header field value r = record r { headers = insert field value r.headers }

unfoldable pub set_content_type : Bytes → HttpResponse → HttpResponse
set_content_type type r = add_header (codes "Content-Type") type r

abbrev pub set_body : Bytes → HttpResponse → HttpResponse
set_body body r = record r { body = body }

abbrev pub crlf : Bytes
crlf = 13 ∷ 10 ∷ []

-- `snprintf` into `char buf[32]`, and what `append(buf)` takes of it.
abbrev pub in_buf : Bytes → Bytes
in_buf text = take 31 text

unfoldable pub append_headers : Headers → Buffer → Option Buffer
append_headers [] b = some b
append_headers (h ∷ hs) b = do
  b1 ← append b h.0
  b2 ← append b1 (codes ": ")
  b3 ← append b2 h.1
  b4 ← append b3 crlf
  append_headers hs b4

-- What `%d` and `%zd` of `snprintf` print.
module _ (decimal : ℕ → Bytes) where
  unfoldable pub append_connection : HttpResponse → Buffer → Option Buffer
  append_connection r b =
      if r.close_connection
      then append b (codes "Connection: close" ++ crlf)
      else (append b (in_buf (codes "Content-Length: " ++ (decimal (length r.body) ++ crlf)))
          >>= λ b1. append b1 (codes "Connection: Keep-Alive" ++ crlf))

  unfoldable pub append_to_buffer : HttpResponse → Buffer → Option Buffer
  append_to_buffer r b = do
    b1 ← append b (in_buf (codes "HTTP/1.1 " ++ (decimal r.status_code ++ codes " ")))
    b2 ← append b1 r.status_message
    b3 ← append b2 crlf
    b4 ← append_connection r b3
    b5 ← append_headers r.headers b4
    b6 ← append b5 crlf
    append b6 r.body
