-- ===== src/Http/RoundTrip.antt =====
-- A request that a client writes is what http/HttpContextff.cpp reads.
use firey.Prelude.{
  ℕ, ◌≡◌, refl, ◌∙◌, ap, true, some, arith, Bytes, List, [], ◌∷◌, ◌++◌, Lacks, Lacks-append, cut,
  cut-append, cut-none, append-nil, Option, none, insert, ◌>>=◌, if◌then◌else◌,
}
use firey.Buffer.{Buffer}
use firey.Buffer.Contents.{IsValid, contents}
use firey.Http.Request.{
  HttpRequest, empty_request, method_to_string, version_to_string, set_method, is_space,
  skip_spaces, trim_end, add_header,
}
use firey.Http.Context.{
  ParseState, Outcome, new_context, set_target, process_target, process_request_line, header_line,
  parse_request,
}
use firey.Http.Lines.{Verdict, line_verdict, after_line, parse}
use firey.Http.Refused.{follow_line}
use firey.Http.Incremental.{view, parse_request-view}
use firey.Http.Wire.{
  BeginsBlack, EndsBlack, Sent, IsPrintable, HeadersFit, query_text, target, request_line,
  print_headers, print_request, store_headers, received, read_version, skip_spaces-BeginsBlack,
  trim_end-EndsBlack, split_line-Lacks, method_Lacks, version_Lacks, parse_method-method_to_string,
  set_version-version_to_string,
}

set_target-print :
    (r : HttpRequest) (path : Bytes) (query : Option Bytes)
    → Lacks b'?' path
    → r.query ≡ []
    → set_target r (path ++ query_text query) ≡ record r { path = path; query = query_text query }
unfolding set_target
set_target-print r path (some query) h e = rw (cut-append b'?' path query h, set_target) refl
set_target-print r path none h e =
    ap (set_target r) (append-nil path)
    ∙ rw (cut-none b'?' path h, set_target) (ap (λ q. record r { path = path; query = q }) e)

module _ (s : Sent) (p : IsPrintable s) where
  target-Lacks : Lacks b' ' (target s) × Lacks b'\r' (target s)
  target-Lacks = (
    Lacks-append b' ' s.path (query_text s.query) p.path_blank p.query_blank,
    Lacks-append b'\r' s.path (query_text s.query) p.path_line p.query_line,
  )

  request_line-Lacks : Lacks b'\r' (request_line s)
  request_line-Lacks = Lacks-append b'\r' (method_to_string s.method) _ (method_Lacks s.method).1 (
    (λ e. omega arith),
    Lacks-append b'\r' (target s) _ target-Lacks.1 ((λ e. omega arith), version_Lacks s.version),
  )

  process_target-print :
      (r : HttpRequest)
      → r.query ≡ []
      → process_target r (target s ++ (b' ' ∷ version_to_string s.version)) ≡ (
        true,
        record r { path = s.path; query = query_text s.query; version = read_version s.version },
      )
  unfolding process_target
  process_target-print r e =
      rw
        (
          cut-append b' ' (target s) (version_to_string s.version) target-Lacks.0,
          process_target,
          set_target-print r s.path s.query p.path_question e,
        )
        (set_version-version_to_string _ s.version p.version_known)

  process_request_line-print :
      process_request_line empty_request (request_line s)
      ≡ some (true, record (received s 0) { headers = [] })
  unfolding process_request_line set_method
  process_request_line-print =
      rw
        (
          cut-append b' ' (method_to_string s.method) _ (method_Lacks s.method).0,
          process_request_line,
          parse_method-method_to_string s.method p.method_known,
          p.method_known,
        )
        (ap some (process_target-print _ refl))

module _ (time : ℕ) where
  value_kept :
      (value : Bytes)
      → BeginsBlack value
      → EndsBlack value
      → trim_end (skip_spaces (b' ' ∷ value)) ≡ value
  unfolding skip_spaces is_space
  value_kept value b e = rw (skip_spaces-BeginsBlack value b) (trim_end-EndsBlack value e)

  header_verdict :
      (q : HttpRequest) (field value : Bytes)
      → Lacks b':' field
      → BeginsBlack value
      → EndsBlack value
      → line_verdict ParseState.expect_headers
          (record { state = ParseState.expect_headers; request = q })
          (field ++ (b':' ∷ b' ' ∷ value))
          time
        ≡ some (
          Verdict.goes_on,
          record {
            state = ParseState.expect_headers;
            request = record q { headers = insert field value q.headers };
          },
        )
  unfolding line_verdict header_line add_header
  header_verdict q field value h b e =
      rw (cut-append b':' field (b' ' ∷ value) h, header_line, value_kept value b e)

  print_headers-parse :
      (hs : List (Bytes × Bytes)) (q : HttpRequest) (rest : Bytes)
      → HeadersFit hs
      → parse
          (record { state = ParseState.expect_headers; request = q })
          (print_headers hs rest)
          time
        ≡ Outcome.returned true
            (record {
              state = ParseState.got_all;
              request = record q { headers = store_headers hs q.headers };
            })
            rest
  unfolding after_line line_verdict header_line cut
  print_headers-parse [] q rest f =
      follow_line (record { state = ParseState.expect_headers; request = q }) (b'\r' ∷ b'\n' ∷ rest)
        [] rest _ time (split_line-Lacks [] rest tt) refl
  print_headers-parse ((field, value) ∷ hs) q rest f =
      follow_line (record { state = ParseState.expect_headers; request = q })
        (print_headers ((field, value) ∷ hs) rest) (field ++ (b':' ∷ b' ' ∷ value))
        (print_headers hs rest) _ time
        (split_line-Lacks _ (print_headers hs rest) (
          Lacks-append b'\r' field (b':' ∷ b' ' ∷ value) f.1
            ((λ e. omega arith), ((λ e. omega arith), f.2))))
        (header_verdict q field value f.0 f.3 f.4)
      ∙ print_headers-parse hs (record q { headers = insert field value q.headers }) rest f.5

  parse-print :
      (s : Sent) (rest : Bytes)
      → IsPrintable s
      → parse new_context (print_request s rest) time
        ≡ Outcome.returned true
            (record { state = ParseState.got_all; request = received s time })
            rest
  unfolding after_line line_verdict
  parse-print s rest p =
      follow_line new_context (print_request s rest) (request_line s) (print_headers s.headers rest)
        _ time (split_line-Lacks (request_line s) _ (request_line-Lacks s p))
        (ap
          (λ o. o >>= λ x. some (
            if x.0
            then (
              Verdict.goes_on,
              record {
                state = ParseState.expect_headers;
                request = record (x.1) { receive_time = time };
              },
            )
            else (Verdict.refuses, record new_context { request = x.1 })))
          (process_request_line-print s p))
      ∙ print_headers-parse s.headers _ rest p.headers_fit

-- A request that the buffer holds, written by a client, with a query or without one, is read with its method,
-- path, query and headers, the last value of each; what follows it stays in the buffer. Of the version, 1.1 is
-- read as 1.0.
pub parse_request-print :
    (s : Sent) {b : Buffer} (rest : Bytes) (time : ℕ)
    → IsValid b
    → IsPrintable s
    → contents b ≡ print_request s rest
    → view (parse_request new_context b time)
      ≡ Outcome.returned true
          (record { state = ParseState.got_all; request = received s time })
          rest
parse_request-print s rest time v p e =
    parse_request-view new_context time v tt
    ∙ ap (λ t. parse new_context t time) e
    ∙ parse-print time s rest p
