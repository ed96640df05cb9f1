-- ===== src/Http/Total.antt =====
-- The parser of http/HttpContextff.cpp always ends, and when it fails its assertion.
use firey.Prelude.{
  ℕ, zero, suc, ◌<◌, ◌≡◌, ◌≢◌, refl, ◌∙◌, ap, ◌⊎◌, inl, inr, true, false, some, none, arith, length,
  Bytes,
}
use firey.Buffer.{Buffer}
use firey.Buffer.Contents.{IsValid, contents}
use firey.Http.Request.{HttpRequest, set_method, is_valid_method}
use firey.Http.Context.{
  ParseState, HttpContext, Outcome, process_request_line, header_line, parse_request,
}
use firey.Http.Lines.{Verdict, ReadsLines, split_line, line_verdict, Advance, follow, parse}
use firey.Http.Refine.{Same, parse_request-Same, goes_on-state}
use firey.Http.Progress.{split_line_shorter, Advances, advance_view, parse_step}

-- The parser may be called: its assertion that no method is set yet will hold.
abbrev pub IsReady : HttpContext → Type 0
IsReady c =
    ((c.state ≡ ParseState.expect_request_line) × (is_valid_method c.request.method ≡ false))
    ⊎ (c.state ≡ ParseState.expect_headers)

pub ready-ReadsLines : (c : HttpContext) → IsReady c → ReadsLines c.state
ready-ReadsLines c (inl (e, m)) = rw e tt
ready-ReadsLines c (inr e) = rw e tt

-- How a call ends. `rest` is what stays in the buffer.
pub data Ends (B : Type 0) (kept lacks_line : B → Type 0) : Outcome B → Type 0 where
  waiting :
      (c : HttpContext) (rest : B)
      → IsReady c
      → kept rest
      → lacks_line rest
      → Ends B kept lacks_line (Outcome.returned true c rest)
  complete :
      (c : HttpContext) (rest : B)
      → c.state ≡ ParseState.got_all
      → kept rest
      → Ends B kept lacks_line (Outcome.returned true c rest)
  refused :
      (c : HttpContext) (rest : B)
      → c.state ≡ ParseState.expect_request_line
      → kept rest
      → Ends B kept lacks_line (Outcome.returned false c rest)

abbrev pub AnyBytes : Bytes → Type 0
AnyBytes bytes = Unit {0}

abbrev pub HasNoLine : Bytes → Type 0
HasNoLine bytes = split_line bytes ≡ none

-- The verdicts of the two states, one by one.
process-ne-none :
    (r : HttpRequest) (line : Bytes)
    → is_valid_method r.method ≡ false
    → process_request_line r line ≢ none
unfolding process_request_line set_method
process-ne-none r line m = ground arith

pub verdict-ne-none :
    (s : ParseState) (c : HttpContext) (line : Bytes) (time : ℕ)
    → c.state ≡ s
    → IsReady c
    → line_verdict s c line time ≢ none
unfolding line_verdict
verdict-ne-none ParseState.expect_request_line c line time e r =
    ground (arith, process-ne-none c.request line)
verdict-ne-none _ c line time e r = ground arith

pub finishes-state :
    (s : ParseState) (c c' : HttpContext) (line : Bytes) (time : ℕ)
    → line_verdict s c line time ≡ some (Verdict.finishes, c')
    → c'.state ≡ ParseState.got_all
unfolding line_verdict header_line
finishes-state ParseState.expect_request_line c c' line time h = ground arith
finishes-state _ c c' line time h = ground arith

refuses-state :
    (s : ParseState) (c c' : HttpContext) (line : Bytes) (time : ℕ)
    → c.state ≡ s
    → line_verdict s c line time ≡ some (Verdict.refuses, c')
    → c'.state ≡ ParseState.expect_request_line
unfolding line_verdict header_line
refuses-state ParseState.expect_request_line c c' line time e h = ground arith
refuses-state _ c c' line time e h = absurd (ground arith)

module _ (time : ℕ) where
  follow-Ends :
      (c : HttpContext) (bytes : Bytes) {a : Advance}
      → IsReady c
      → Advances c bytes time a
      → ((c' : HttpContext) (rest : Bytes)
          → length rest < length bytes
          → IsReady c'
          → Ends Bytes AnyBytes HasNoLine (parse c' rest time))
      → Ends Bytes AnyBytes HasNoLine (follow a (λ c' rest. parse c' rest time))
  follow-Ends c bytes r (Advances.goes line rest c' e h) k =
      k c' rest (split_line_shorter bytes line rest e)
        (inr (goes_on-state c.state c c' line time (ready-ReadsLines c r) refl h))
  follow-Ends c bytes r (Advances.waits e) k = Ends.waiting c bytes r tt e
  follow-Ends c bytes r (Advances.stops line rest e h) k =
      absurd (verdict-ne-none c.state c line time refl r h)
  follow-Ends c bytes r (Advances.finishes line rest c' e h) k =
      Ends.complete c' rest (finishes-state c.state c c' line time h) tt
  follow-Ends c bytes r (Advances.refuses line rest c' e h) k =
      Ends.refused c' bytes (refuses-state c.state c c' line time refl h) tt

  pub parse-Ends :
      (f : ℕ) (c : HttpContext) (bytes : Bytes)
      → length bytes < f
      → IsReady c
      → Ends Bytes AnyBytes HasNoLine (parse c bytes time)
  parse-Ends zero c bytes h r = absurd (omega arith)
  parse-Ends (suc f) c bytes h r = rw (parse_step time c bytes) (
      follow-Ends c bytes r (advance_view c bytes time)
        λ c' rest lt r'. parse-Ends f c' rest (omega arith) r')

abbrev pub BufferHasNoLine : Buffer → Type 0
BufferHasNoLine b = HasNoLine (contents b)

Same-Ends :
    {o : Outcome Buffer} {o' : Outcome Bytes}
    → Same o o'
    → Ends Bytes AnyBytes HasNoLine o'
    → Ends Buffer IsValid BufferHasNoLine o
Same-Ends (Same.returned ok c b bytes v e) (Ends.waiting c' rest r k l) =
    Ends.waiting c b r v (ap split_line e ∙ l)
Same-Ends (Same.returned ok c b bytes v e) (Ends.complete c' rest s k) = Ends.complete c b s v
Same-Ends (Same.returned ok c b bytes v e) (Ends.refused c' rest s k) = Ends.refused c b s v
Same-Ends Same.stopped w = elim w [ ]
Same-Ends Same.spinning w = elim w [ ]

-- On a valid buffer a parser that is ready returns: no assertion fails and the loop ends. It has
-- the whole head of a request, or refuses a line, or is ready for more bytes and has left no whole
-- line unread.
pub parse_request-Ends :
    (c : HttpContext) {b : Buffer} (time : ℕ)
    → IsValid b
    → IsReady c
    → Ends Buffer IsValid BufferHasNoLine (parse_request c b time)
parse_request-Ends c {b} time v r =
    Same-Ends (parse_request-Same time c v (ready-ReadsLines c r))
      (parse-Ends time (suc (length (contents b))) c (contents b) (omega arith) r)
