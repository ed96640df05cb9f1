-- ===== src/Http/Wire.antt =====
-- A request as a client writes it, and what the parts of http/HttpContextff.cpp make of its parts.
use firey.Prelude.{
  ℕ, ◌+◌, ◌≡◌, ◌≢◌, refl, true, false, Option, none, some, arith, length, Bytes, List, [], ◌∷◌,
  ◌++◌, append-nil, take-append, drop-append, Lacks, bytes_eq, Headers, insert,
}
use firey.Buffer.Search.{search_crlf-Lacks}
use firey.Http.Request.{
  HttpRequest, Method, Version, method_to_string, version_to_string, parse_method, is_valid_method,
  is_space, skip_spaces, trim_end,
}
use firey.Http.Context.{set_version}
use firey.Http.Lines.{split_line}

-- The bytes at either end of a header's value are no white space.
abbrev pub BeginsBlack : Bytes → Type 0
BeginsBlack [] = Unit {0}
BeginsBlack (c ∷ cs) = is_space c ≡ false

abbrev pub EndsBlack : Bytes → Type 0
EndsBlack [] = Unit {0}
EndsBlack (c ∷ []) = is_space c ≡ false
EndsBlack (c ∷ d ∷ ds) = EndsBlack (d ∷ ds)

pub skip_spaces-BeginsBlack : (v : Bytes) → BeginsBlack v → skip_spaces v ≡ v
unfolding skip_spaces
skip_spaces-BeginsBlack [] h = refl
skip_spaces-BeginsBlack (c ∷ cs) h = rw h

pub trim_end-EndsBlack : (v : Bytes) → EndsBlack v → trim_end v ≡ v
unfolding trim_end
trim_end-EndsBlack [] h = refl
trim_end-EndsBlack (c ∷ []) h = rw h
trim_end-EndsBlack (c ∷ d ∷ ds) h = rw (trim_end-EndsBlack (d ∷ ds) h, trim_end)

-- What the client sends. The query stands without its question mark, and need not be there.
pub record Sent : Type 0 where
  pub method : Method
  pub path : Bytes
  pub query : Option Bytes
  pub version : Version
  pub headers : List (Bytes × Bytes)

abbrev pub query_text : Option Bytes → Bytes
query_text none = []
query_text (some query) = b'?' ∷ query

abbrev pub target : Sent → Bytes
target s = s.path ++ query_text s.query

abbrev pub request_line : Sent → Bytes
request_line s =
    method_to_string s.method ++ (b' ' ∷ (target s ++ (b' ' ∷ version_to_string s.version)))

-- The lines of the headers and the empty line, before `rest`.
abbrev pub print_headers : List (Bytes × Bytes) → Bytes → Bytes
print_headers [] rest = b'\r' ∷ b'\n' ∷ rest
print_headers ((field, value) ∷ hs) rest =
    (field ++ (b':' ∷ b' ' ∷ value)) ++ (b'\r' ∷ b'\n' ∷ print_headers hs rest)

abbrev pub print_request : Sent → Bytes → Bytes
print_request s rest = request_line s ++ (b'\r' ∷ b'\n' ∷ print_headers s.headers rest)

abbrev pub HeadersFit : List (Bytes × Bytes) → Type 0
HeadersFit [] = Unit {0}
HeadersFit ((field, value) ∷ hs) =
    Lacks b':' field
    × Lacks b'\r' field
    × Lacks b'\r' value
    × BeginsBlack value
    × EndsBlack value
    × HeadersFit hs

-- The parts can be told apart on the wire.
pub record IsPrintable (s : Sent) : Type 0 where
  pub method_known : is_valid_method s.method ≡ true
  pub version_known : s.version ≢ Version.unknown
  pub path_blank : Lacks b' ' s.path
  pub path_question : Lacks b'?' s.path
  pub path_line : Lacks b'\r' s.path
  pub query_blank : Lacks b' ' (query_text s.query)
  pub query_line : Lacks b'\r' (query_text s.query)
  pub headers_fit : HeadersFit s.headers

-- Later headers of the same name replace earlier ones.
abbrev pub store_headers : List (Bytes × Bytes) → Headers → Headers
store_headers [] m = m
store_headers ((field, value) ∷ hs) m = store_headers hs (insert field value m)

-- The version that the parser reads: it looks at the digit before the dot and at the dot.
abbrev pub read_version : Version → Version
read_version Version.http11 = Version.http10
read_version v = v

abbrev pub received : Sent → ℕ → HttpRequest
received s time = record {
  method = s.method;
  version = read_version s.version;
  path = s.path;
  query = query_text s.query;
  receive_time = time;
  headers = store_headers s.headers [];
}

pub split_line-Lacks :
    (line more : Bytes)
    → Lacks b'\r' line
    → split_line (line ++ (b'\r' ∷ b'\n' ∷ more)) ≡ some (line, more)
unfolding split_line
split_line-Lacks line more h =
    rw (search_crlf-Lacks line more h, split_line)
      (ground (
        arith,
        take-append (length line) 0 line (b'\r' ∷ b'\n' ∷ more),
        append-nil line,
        drop-append (length line + 2) 2 line (b'\r' ∷ b'\n' ∷ more),
      ))

pub method_Lacks : (m : Method) → Lacks b' ' (method_to_string m) × Lacks b'\r' (method_to_string m)
unfolding method_to_string
method_Lacks Method.get = omega arith
method_Lacks Method.post = omega arith
method_Lacks Method.head = omega arith
method_Lacks Method.put = omega arith
method_Lacks Method.delete = omega arith
method_Lacks Method.invalid = omega arith

pub version_Lacks : (v : Version) → Lacks b'\r' (version_to_string v)
unfolding version_to_string
version_Lacks Version.http10 = omega arith
version_Lacks Version.http11 = omega arith
version_Lacks Version.http20 = omega arith
version_Lacks Version.unknown = omega arith

pub parse_method-method_to_string :
    (m : Method) → is_valid_method m ≡ true → parse_method (method_to_string m) ≡ m
unfolding parse_method method_to_string is_valid_method bytes_eq
parse_method-method_to_string Method.get h = refl
parse_method-method_to_string Method.post h = refl
parse_method-method_to_string Method.head h = refl
parse_method-method_to_string Method.put h = refl
parse_method-method_to_string Method.delete h = refl
parse_method-method_to_string Method.invalid h = cc

pub set_version-version_to_string :
    (r : HttpRequest) (v : Version)
    → v ≢ Version.unknown
    → set_version r (version_to_string v) ≡ (true, record r { version = read_version v })
unfolding set_version version_to_string bytes_eq
set_version-version_to_string r Version.http10 h = refl
set_version-version_to_string r Version.http11 h = refl
set_version-version_to_string r Version.http20 h = refl
set_version-version_to_string r Version.unknown h = absurd (h refl)
