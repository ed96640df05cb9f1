-- ===== src/Http/Refused.antt =====
-- What http/HttpContextff.cpp does after it has refused a request line.
use firey.Prelude.{ℕ, ◌≡◌, refl, ◌∙◌, ap, true, false, Option, some, none, arith, Bytes, ◌++◌}
use firey.Buffer.{Buffer}
use firey.Buffer.Contents.{IsValid, contents}
use firey.Http.Request.{HttpRequest, set_method, is_valid_method}
use firey.Http.Context.{ParseState, HttpContext, Outcome, process_request_line, parse_request}
use firey.Http.Lines.{
  Verdict, ReadsLines, split_line, line_verdict, advance, after_line, follow, parse,
}
use firey.Http.Refine.{Same, parse_request-Same}
use firey.Http.Progress.{parse_step}
use firey.Http.Incremental.{view, parse_request-view, split_line-append}

-- The method stays set, and the assertion of `setMethod` fails on the line that was not taken out.
process_again :
    (q r : HttpRequest) (line : Bytes)
    → is_valid_method q.method ≡ false
    → process_request_line q line ≡ some (false, r)
    → is_valid_method r.method ≡ true
    → process_request_line r line ≡ none
unfolding process_request_line set_method
process_again q r line m h k = ground arith

Same-stopped :
    {o : Outcome Buffer} {o' : Outcome Bytes}
    → Same o o'
    → o' ≡ Outcome.stopped
    → o ≡ Outcome.stopped
Same-stopped Same.stopped e = refl
Same-stopped Same.spinning e = cc
Same-stopped (Same.returned ok c b bytes v e') e = cc

-- The two verdicts, of a context that reads the request line.
verdict_refuses :
    (c : HttpContext) (r : HttpRequest) (line : Bytes) (time : ℕ)
    → c.state ≡ ParseState.expect_request_line
    → process_request_line c.request line ≡ some (false, r)
    → line_verdict c.state c line time ≡ some (Verdict.refuses, record c { request = r })
unfolding line_verdict
verdict_refuses c r line time s h = rw (s, line_verdict, h) (ground arith)

verdict_stops :
    (c : HttpContext) (line : Bytes) (time : ℕ)
    → c.state ≡ ParseState.expect_request_line
    → process_request_line c.request line ≡ none
    → line_verdict c.state c line time ≡ none
unfolding line_verdict
verdict_stops c line time s h = rw (s, line_verdict, h)

pub follow_line :
    (c : HttpContext) (bytes line rest : Bytes) (o : Option (Verdict × HttpContext)) (time : ℕ)
    → split_line bytes ≡ some (line, rest)
    → line_verdict c.state c line time ≡ o
    → parse c bytes time ≡ follow (after_line c bytes rest o) (λ c' rest'. parse c' rest' time)
unfolding advance
follow_line c bytes line rest o time e h =
    parse_step time c bytes
    ∙ rw (e, advance)
        (ap (λ x. follow (after_line c bytes rest x) (λ c' rest'. parse c' rest' time)) h)

-- A request line with a known method that is refused for its rest leaves the parser in a state in
-- which the next call fails an assertion, as soon as it is made on the same bytes, with or without
-- more behind them: the refused line is still in the buffer, and the method is still set.
pub refused_then_stopped :
    (c : HttpContext) (r : HttpRequest) {b b' : Buffer} (line rest ys : Bytes) (time later : ℕ)
    → IsValid b
    → IsValid b'
    → c.state ≡ ParseState.expect_request_line
    → is_valid_method c.request.method ≡ false
    → split_line (contents b) ≡ some (line, rest)
    → process_request_line c.request line ≡ some (false, r)
    → is_valid_method r.method ≡ true
    → contents b' ≡ contents b ++ ys
    → (view (parse_request c b time)
        ≡ Outcome.returned false (record c { request = r }) (contents b))
      × (parse_request (record c { request = r }) b' later ≡ Outcome.stopped)
unfolding after_line
refused_then_stopped c r {b} {b'} line rest ys time later v v' s m e h k j =
    let c' = record c { request = r } in
    let reads : ReadsLines c.state = rw s tt in
    let e' = split_line-append (contents b) ys line rest e in
    (
      parse_request-view c time v reads
          ∙ follow_line c (contents b) line rest _ time e (verdict_refuses c r line time s h),
      Same-stopped (parse_request-Same later c' v' reads) (
          ap (λ t. parse c' t later) j
          ∙ follow_line c' (contents b ++ ys) line (rest ++ ys) none later e'
              (verdict_stops c' line later s (process_again c.request r line m h k))),
    )
