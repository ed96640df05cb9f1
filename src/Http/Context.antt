-- ===== src/Http/Context.antt =====
-- http/HttpContextff.h and http/HttpContextff.cpp: the request parser of a connection.
use firey.Prelude.{
  ℕ, zero, suc, ◌+◌, ◌-◌, Bool, true, false, ◌&&◌, ◌∷◌, Option, some, none, ◌==◌, if◌then◌else◌,
  length, take, drop, Bytes, codes, bytes_eq, cut, ◌>>=◌,
}
use firey.Buffer.{Buffer, peek, find_crlf, read_range, retrieve_until}
use firey.Http.Request.{HttpRequest, Version, empty_request, set_method, add_header}

pub data ParseState : Type 0 where
  expect_request_line expect_headers expect_body got_all : ParseState

pub record HttpContext : Type 0 where
  pub state : ParseState
  pub request : HttpRequest

abbrev pub new_context : HttpContext
new_context = record { state = ParseState.expect_request_line; request = empty_request }

unfoldable pub reset : HttpContext → HttpContext
reset c = record { state = ParseState.expect_request_line; request = empty_request }

unfoldable pub is_got_all : HttpContext → Bool
is_got_all c = elim c.state [ ParseState.got_all ↦ true | _ ↦ false ]

-- `std::equal(first, last, literal)` looks at as many bytes as the range has.
abbrev pub range_equal : Bytes → Bytes → Bool
range_equal range literal = bytes_eq range (take (length range) literal)

-- The last word of the request line. The last comparison is of the two bytes before the last.
unfoldable pub set_version : HttpRequest → Bytes → Bool × HttpRequest
set_version r word =
    let number = take 2 (drop 5 word) in
    if length word == 8 && range_equal (take 5 word) (codes "HTTP/")
    then if range_equal number (codes "1.0")
      then (true, record r { version = Version.http10 })
      else if range_equal number (codes "1.1")
      then (true, record r { version = Version.http11 })
      else if range_equal number (codes "2.0")
      then (true, record r { version = Version.http20 })
      else (false, r)
    else (false, r)

-- The word between the blanks; a query keeps its question mark.
unfoldable pub set_target : HttpRequest → Bytes → HttpRequest
set_target r target = elim (cut b'?' target) [
  | none ↦ record r { path = target }
  | some (path, query) ↦ record r { path = path; query = b'?' ∷ query }
]

unfoldable pub process_target : HttpRequest → Bytes → Bool × HttpRequest
process_target r rest = elim (cut b' ' rest) [
  | none ↦ (false, r)
  | some (target, word) ↦ set_version (set_target r target) word
]

unfoldable pub process_request_line : HttpRequest → Bytes → Option (Bool × HttpRequest)
process_request_line r line = elim (cut b' ' line) [
  | none ↦ some (false, r)
  | some (word, rest) ↦ do
    (good, r') ← set_method r word
    some (if good then process_target r' rest else (false, r'))
]

-- One round of the loop of `parseRequest`: `ok`, `hasMore`, and the two objects.
pub record Round : Type 0 where
  pub ok : Bool
  pub has_more : Bool
  pub context : HttpContext
  pub buffer : Buffer

-- The bytes of the first line, if there is a whole one, and the index of its end.
unfoldable pub first_line : Buffer → Option (Option (Bytes × ℕ))
first_line b = do
  crlf ← find_crlf b
  elim crlf [
    | none ↦ some none
    | some end ↦ do line ← read_range b.storage (peek b) (end - peek b); some (some (line, end))
  ]

unfoldable pub request_line_round :
    Bool → HttpContext → Buffer → ℕ → Option (Bytes × ℕ) → Option Round
request_line_round ok c b time none =
    some (record { ok = ok; has_more = false; context = c; buffer = b })
request_line_round ok c b time (some (line, end)) = do
  (good, r) ← process_request_line c.request line
  b' ← if good then retrieve_until b (end + 2) else some b
  some (
      if good
      then record {
        ok = true;
        has_more = true;
        context = record {
          state = ParseState.expect_headers;
          request = record r { receive_time = time };
        };
        buffer = b';
      }
      else record { ok = false; has_more = false; context = record c { request = r }; buffer = b })

-- A line with no colon ends the headers.
unfoldable pub header_line : HttpContext → Bytes → Bool × HttpContext
header_line c line = elim (cut b':' line) [
  | none ↦ (false, record c { state = ParseState.got_all })
  | some (field, value) ↦ (true, record c { request = add_header c.request field value })
]

unfoldable pub header_round : Bool → HttpContext → Buffer → Option (Bytes × ℕ) → Option Round
header_round ok c b none = some (record { ok = ok; has_more = false; context = c; buffer = b })
header_round ok c b (some (line, end)) = do
  let r = header_line c line
  b' ← retrieve_until b (end + 2)
  some (record { ok = ok; has_more = r.0; context = r.1; buffer = b' })

-- In the last two states no branch of the loop does anything.
unfoldable pub round_in : ParseState → Bool → HttpContext → Buffer → ℕ → Option Round
round_in ParseState.expect_request_line ok c b time =
    first_line b >>= request_line_round ok c b time
round_in ParseState.expect_headers ok c b time = first_line b >>= header_round ok c b
round_in _ ok c b time = some (record { ok = ok; has_more = true; context = c; buffer = b })

pub data Outcome (B : Type 0) : Type 0 where
  -- A failed assertion.
  stopped : Outcome B
  -- The fuel ran out.
  spinning : Outcome B
  returned : Bool → HttpContext → B → Outcome B

unfoldable pub parse_loop : ℕ → Bool → HttpContext → Buffer → ℕ → Outcome Buffer
parse_loop zero ok c b time = Outcome.spinning
parse_loop (suc fuel) ok c b time = elim (round_in c.state ok c b time) [
  | none ↦ Outcome.stopped
  | some r ↦ elim r.has_more [
    | true ↦ parse_loop fuel r.ok r.context r.buffer time
    | false ↦ Outcome.returned r.ok r.context r.buffer
  ]
]

-- The fuel is the number of readable bytes and one: each round but the last takes a line.
unfoldable pub parse_request : HttpContext → Buffer → ℕ → Outcome Buffer
parse_request c b time = parse_loop (suc (b.writer_index - b.reader_index)) true c b time
