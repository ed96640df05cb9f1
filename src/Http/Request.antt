-- ===== src/Http/Request.antt =====
-- http/HttpRequestff.h. A `const char*` range is the list of its bytes.
use firey.Prelude.{
  ℕ, Bool, true, false, not, ◌||◌, ◌&&◌, [], ◌∷◌, Option, some, none, leb, ◌==◌, if◌then◌else◌,
  Bytes, codes, bytes_eq, Headers, insert, lookup, check, ◌>>◌,
}

pub data Method : Type 0 where
  invalid get post head put delete : Method

pub data Version : Type 0 where
  unknown http10 http11 http20 : Version

pub record HttpRequest : Type 0 where
  pub method : Method
  pub version : Version
  pub path : Bytes
  pub query : Bytes
  pub receive_time : ℕ
  pub headers : Headers

abbrev pub empty_request : HttpRequest
empty_request = record {
  method = Method.invalid;
  version = Version.unknown;
  path = [];
  query = [];
  receive_time = 0;
  headers = [];
}

unfoldable pub version_to_string : Version → Bytes
version_to_string Version.http10 = codes "HTTP/1.0"
version_to_string Version.http11 = codes "HTTP/1.1"
version_to_string Version.http20 = codes "HTTP/2.0"
version_to_string Version.unknown = codes "UNKOWN"

unfoldable pub method_to_string : Method → Bytes
method_to_string Method.get = codes "GET"
method_to_string Method.post = codes "POST"
method_to_string Method.head = codes "HEAD"
method_to_string Method.put = codes "PUT"
method_to_string Method.delete = codes "DELETE"
method_to_string Method.invalid = codes "UNKONWN"

unfoldable pub parse_method : Bytes → Method
parse_method word =
    if bytes_eq word (codes "GET")
    then Method.get
    else if bytes_eq word (codes "POST")
    then Method.post
    else if bytes_eq word (codes "HEAD")
    then Method.head
    else if bytes_eq word (codes "PUT")
    then Method.put
    else if bytes_eq word (codes "DELETE")
    then Method.delete
    else Method.invalid

unfoldable pub is_valid_method : Method → Bool
is_valid_method Method.invalid = false
is_valid_method _ = true

-- The assertion wants that no method was set before.
unfoldable pub set_method : HttpRequest → Bytes → Option (Bool × HttpRequest)
unfolding is_valid_method
set_method r word = do
  check (not (is_valid_method r.method))
  let m = parse_method word
  some (is_valid_method m, record r { method = m })

-- `isspace` in the C locale
unfoldable pub is_space : ℕ → Bool
is_space c = c == b' ' || (leb 9 c && leb c 13)

unfoldable pub skip_spaces : Bytes → Bytes
skip_spaces [] = []
skip_spaces (c ∷ cs) = if is_space c then skip_spaces cs else c ∷ cs

unfoldable pub trim_end : Bytes → Bytes
trim_end [] = []
trim_end (c ∷ cs) = elim (trim_end cs) [
  | [] ↦ if is_space c then [] else c ∷ []
  | d ∷ ds ↦ c ∷ d ∷ ds
]

-- The line is cut at its first colon.
unfoldable pub add_header : HttpRequest → Bytes → Bytes → HttpRequest
add_header r field value = record r {
  headers = insert field (trim_end (skip_spaces value)) r.headers;
}

unfoldable pub get_header : HttpRequest → Bytes → Bytes
get_header r field = elim (lookup field r.headers) [ none ↦ [] | some v ↦ v ]
