-- ===== src/Http/Tests.antt =====
-- Runs of the parser of http/HttpContextff.cpp, and the theorems at concrete requests.
use firey.Prelude.{
  some, ◌+◌, ◌≡◌, ◌≢◌, refl, [], ◌∷◌, ◌++◌, true, false, inl, arith, length, Bytes, codes, bytes_eq,
  cut,
}
use firey.Buffer.{Buffer, search_crlf}
use firey.Buffer.Contents.{IsValid}
use firey.Buffer.Append.{Appends}
use firey.Http.Request.{
  HttpRequest, Method, Version, empty_request, method_to_string, version_to_string, is_valid_method,
  set_method, parse_method, get_header, is_space,
}
use firey.Prelude.{insert, lookup}
use firey.Http.Context.{
  ParseState, Outcome, new_context, process_request_line, process_target, set_target, set_version,
  parse_request,
}
use firey.Http.Lines.{split_line}
use firey.Http.Total.{Ends, BufferHasNoLine, parse_request-Ends}
use firey.Http.Incremental.{view, resume, parse_request_resumes}
use firey.Http.Refused.{refused_then_stopped}
use firey.Http.RoundTrip.{parse_request-print}
use firey.Http.Versions.{version_of_line}
use firey.Http.Wire.{Sent, IsPrintable, received}

-- A buffer that holds a text.
abbrev holding : Bytes → Buffer
holding text = record {
  storage = 0 ∷ 0 ∷ 0 ∷ 0 ∷ 0 ∷ 0 ∷ 0 ∷ 0 ∷ text;
  reader_index = 8;
  writer_index = 8 + length text;
}

abbrev crlf : Bytes
crlf = 13 ∷ 10 ∷ []

abbrev hello : Sent
hello = record {
  method = Method.get;
  path = codes "/a";
  query = some (codes "x=1");
  version = Version.http11;
  headers = (codes "Host", codes "h") ∷ (codes "Host", codes "i j") ∷ [];
}

abbrev hello_text : Bytes
hello_text =
    codes "GET /a?x=1 HTTP/1.1"
    ++ (crlf
        ++ (codes "Host: h" ++ (crlf ++ (codes "Host: i j" ++ (crlf ++ (crlf ++ codes "rest"))))))

hello-IsValid : IsValid (holding hello_text)
hello-IsValid = omega arith

hello-IsPrintable : IsPrintable hello
unfolding is_valid_method is_space
hello-IsPrintable = record {
  method_known = refl;
  version_known = λ e. cc;
  path_blank = omega arith;
  path_question = omega arith;
  path_line = omega arith;
  query_blank = omega arith;
  query_line = omega arith;
  headers_fit = (
    omega arith,
    omega arith,
    omega arith,
    refl,
    refl,
    (omega arith, omega arith, omega arith, refl, refl, tt),
  );
}

hello_header : get_header (received hello 0) (codes "Host") ≡ codes "i j"
unfolding get_header insert lookup bytes_eq
hello_header = refl

parse_request-print_example :
    view (parse_request new_context (holding hello_text) 5)
    ≡ Outcome.returned true
        (record { state = ParseState.got_all; request = received hello 5 })
        (codes "rest")
unfolding method_to_string version_to_string
parse_request-print_example =
    parse_request-print hello (codes "rest") 5 hello-IsValid hello-IsPrintable refl

parse_request-Ends_example :
    Ends Buffer IsValid BufferHasNoLine (parse_request new_context (holding hello_text) 5)
unfolding is_valid_method
parse_request-Ends_example = parse_request-Ends new_context 5 hello-IsValid (inl (refl, refl))

-- The first piece of a request ends inside a line.
abbrev piece : Bytes
piece = codes "GET / HTTP/1.0" ++ (crlf ++ codes "Ho")

abbrev piece_rest : Bytes
piece_rest = codes "st: h" ++ (crlf ++ crlf)

piece-Appends : Appends (holding piece) piece_rest (holding (piece ++ piece_rest))
piece-Appends = record { valid = omega arith; joined = refl; no_further = omega arith }

parse_request_resumes_example :
    view (parse_request new_context (holding (piece ++ piece_rest)) 5)
    ≡ resume (view (parse_request new_context (holding piece) 5)) piece_rest 5
unfolding is_valid_method
parse_request_resumes_example =
    parse_request_resumes new_context piece_rest 5 (omega arith) (inl (refl, refl)) piece-Appends

-- A request line with a wrong version.
abbrev wrong_line : Bytes
wrong_line = codes "GET / HTTP/9.9"

abbrev got_method : HttpRequest
got_method = record empty_request { method = Method.get; path = codes "/" }

refused_then_stopped_example :
    (view (parse_request new_context (holding (wrong_line ++ crlf)) 5)
      ≡ Outcome.returned false
          (record { state = ParseState.expect_request_line; request = got_method })
          (wrong_line ++ crlf))
    × (parse_request
          (record { state = ParseState.expect_request_line; request = got_method })
          (holding (wrong_line ++ (crlf ++ codes "x")))
          6
        ≡ Outcome.stopped)
unfolding split_line search_crlf process_request_line process_target set_target set_version
    set_method is_valid_method parse_method bytes_eq cut
refused_then_stopped_example =
    refused_then_stopped new_context got_method wrong_line [] (codes "x") 5 6 (omega arith)
      (omega arith) refl refl refl refl refl refl

version_of_line_example :
    ((record empty_request {
      method = Method.get;
      version = Version.http10;
      path = codes "/";
    }).version
      ≢ Version.http11)
    × (set_version empty_request (codes "HTTP/1." ++ (b'x' ∷ []))
        ≡ (true, record empty_request { version = Version.http10 }))
unfolding process_request_line process_target set_target set_version set_method is_valid_method
    parse_method bytes_eq cut
version_of_line_example =
    version_of_line empty_request _ (codes "GET / HTTP/1.1") true b'x' (λ e. cc) refl
