-- ===== src/Http/Server/Tests.antt =====
-- A request to http/HttpServerff.cpp with the default callback, and the theorem on it.
use firey.Prelude.{
  none, ℕ, ◌+◌, ◌≡◌, refl, [], ◌∷◌, ◌++◌, if◌then◌else◌, ◌==◌, arith, length, Bytes, codes,
}
use firey.Buffer.{Buffer}
use firey.Buffer.Contents.{IsValid, contents}
use firey.Http.Request.{
  Method, Version, is_valid_method, method_to_string, version_to_string, is_space,
}
use firey.Http.Context.{new_context}
use firey.Http.Response.{new_response}
use firey.Http.Response.Written.{print, print_lines, header_lines, connection_lines}
use firey.Http.Wire.{Sent, IsPrintable}
use firey.Http.Server.{default_http_callback, on_message, served}
use firey.Http.Server.Answer.{reply, calls_for, on_message-print}

abbrev text : Bytes
text = codes "GET / HTTP/1.1" ++ (13 ∷ 10 ∷ 13 ∷ 10 ∷ codes "GET")

abbrev input : Buffer
input = record {
  storage = 0 ∷ 0 ∷ 0 ∷ 0 ∷ 0 ∷ 0 ∷ 0 ∷ 0 ∷ text;
  reader_index = 8;
  writer_index = 8 + length text;
}

abbrev root : Sent
root = record {
  method = Method.get;
  path = codes "/";
  query = none;
  version = Version.http11;
  headers = [];
}

input-IsValid : IsValid input
input-IsValid = omega arith

root-IsPrintable : IsPrintable root
unfolding is_valid_method is_space
root-IsPrintable = record {
  method_known = refl;
  version_known = λ e. cc;
  path_blank = omega arith;
  path_question = omega arith;
  path_line = omega arith;
  query_blank = omega arith;
  query_line = omega arith;
  headers_fit = tt;
}

-- The digits of 404 and of 0.
abbrev decimal : ℕ → Bytes
decimal n = if n == 0 then codes "0" else codes "404"

on_message-print_example :
    (b' : Buffer) × (on_message decimal default_http_callback new_context input 5
      ≡ served
          (calls_for decimal default_http_callback (reply decimal default_http_callback root 5))
          new_context
          b')
    × (contents b' ≡ codes "GET")
unfolding new_response print print_lines header_lines connection_lines method_to_string
    version_to_string
on_message-print_example =
    on_message-print decimal default_http_callback root (codes "GET") 5 input-IsValid
      root-IsPrintable refl (omega arith) (omega arith) (omega arith)
