-- ===== src/Http/Refine.antt =====
-- `parseRequest` of http/HttpContextff.cpp on a buffer does what the line machine does on the
-- buffer's readable bytes.
use firey.Prelude.{
  ℕ, zero, suc, ◌+◌, ◌-◌, ◌≡◌, refl, ◌∙◌, ap, inl, inr, Bool, true, false, Option, some, none,
  arith, length, take, Bytes, Option-cases,
}
use mathlib.Core.Option
use firey.Buffer.{Buffer, peek, search_crlf, retrieve_until}
use firey.Buffer.Contents.{IsValid, contents, length-contents, readable_bytes-eq}
use firey.Buffer.Retrieve.{Takes, retrieve_until-Takes, read_range-contents}
use firey.Buffer.Search.{find_crlf_lem, search_crlf_bound}
use firey.Http.Context.{
  ParseState, HttpContext, Round, Outcome, first_line, round_in, request_line_round, header_round,
  header_line, parse_loop, parse_request,
}
use firey.Http.Lines.{
  Verdict, ReadsLines, split_line, line_verdict, advance, after_line, parse_lines, parse,
}

first_line-none :
    {b : Buffer} → IsValid b → search_crlf (contents b) ≡ none → first_line b ≡ some none
unfolding first_line
first_line-none v e = ground (arith, find_crlf_lem v)

first_line-some :
    {b : Buffer} (n : ℕ)
    → IsValid b
    → search_crlf (contents b) ≡ some n
    → first_line b ≡ some (some (take n (contents b), peek b + n))
unfolding first_line
first_line-some {b} n v e =
    let le = search_crlf_bound (contents b) n e in
    let read = read_range-contents v n (omega (arith, length-contents v)) in
    let back : peek b + n - peek b ≡ n = omega arith in ground (arith, find_crlf_lem v, read, back)

-- The round that a verdict on the line leads to: `b'` is the buffer without the line.
abbrev to_round : Buffer → Buffer → Verdict × HttpContext → Round
to_round b b' (Verdict.goes_on, c) = record { ok = true; has_more = true; context = c; buffer = b' }
to_round b b' (Verdict.finishes, c) = record {
  ok = true;
  has_more = false;
  context = c;
  buffer = b';
}
to_round b b' (Verdict.refuses, c) = record {
  ok = false;
  has_more = false;
  context = c;
  buffer = b;
}

round_in-none :
    (s : ParseState) (c : HttpContext) {b : Buffer} (time : ℕ)
    → ReadsLines s
    → first_line b ≡ some none
    → round_in s true c b time
      ≡ some (record { ok = true; has_more = false; context = c; buffer = b })
unfolding round_in request_line_round header_round
round_in-none ParseState.expect_request_line c time r e = rw e
round_in-none ParseState.expect_headers c time r e = rw e
round_in-none ParseState.expect_body c time r e = absurd r
round_in-none ParseState.got_all c time r e = absurd r

round_in-some :
    (s : ParseState) (c : HttpContext) (b b' : Buffer) (time : ℕ) (line : Bytes) (end : ℕ)
    → ReadsLines s
    → first_line b ≡ some (some (line, end))
    → retrieve_until b (end + 2) ≡ some b'
    → round_in s true c b time ≡ Option.map (to_round b b') (line_verdict s c line time)
unfolding round_in request_line_round header_round line_verdict
round_in-some ParseState.expect_request_line c b b' time line end r e k = ground arith
round_in-some ParseState.expect_headers c b b' time line end r e k = ground arith
round_in-some ParseState.expect_body c b b' time line end r e k = absurd r
round_in-some ParseState.got_all c b b' time line end r e k = absurd r

-- The two outcomes correspond: the buffer is left valid, and holds the bytes that are left over.
pub data Same : Outcome Buffer → Outcome Bytes → Type 0 where
  stopped : Same Outcome.stopped Outcome.stopped
  spinning : Same Outcome.spinning Outcome.spinning
  returned :
      (ok : Bool) (c : HttpContext) (b : Buffer) (bytes : Bytes)
      → IsValid b
      → contents b ≡ bytes
      → Same (Outcome.returned ok c b) (Outcome.returned ok c bytes)

-- After a line that asks for more, headers are read.
pub goes_on-state :
    (s : ParseState) (c c' : HttpContext) (line : Bytes) (time : ℕ)
    → ReadsLines s
    → c.state ≡ s
    → line_verdict s c line time ≡ some (Verdict.goes_on, c')
    → c'.state ≡ ParseState.expect_headers
unfolding line_verdict header_line
goes_on-state ParseState.expect_request_line c c' line time r e h = ground arith
goes_on-state ParseState.expect_headers c c' line time r e h = ground arith
goes_on-state ParseState.expect_body c c' line time r e h = absurd r
goes_on-state ParseState.got_all c c' line time r e h = absurd r

pub goes_on-ReadsLines :
    (c c' : HttpContext) (line : Bytes) (time : ℕ)
    → ReadsLines c.state
    → line_verdict c.state c line time ≡ some (Verdict.goes_on, c')
    → ReadsLines c'.state
goes_on-ReadsLines c c' line time r h = rw (goes_on-state c.state c c' line time r refl h) tt

-- Where the next line and the verdict on it are known, so are the rounds of both machines.
module _ (time fuel : ℕ) (c : HttpContext) {b b' : Buffer} (n : ℕ) (v : IsValid b)
    (r : ReadsLines c.state) (found : search_crlf (contents b) ≡ some n)
    (taken : retrieve_until b (peek b + n + 2) ≡ some b') (t : Takes b (n + 2) b') where
  line_round :
      (o : Option (Verdict × HttpContext))
      → line_verdict c.state c (take n (contents b)) time ≡ o
      → round_in c.state true c b time ≡ Option.map (to_round b b') o
  line_round o e =
      round_in-some c.state c b b' time (take n (contents b)) (peek b + n) r
        (first_line-some n v found) taken
      ∙ ap (Option.map (to_round b b')) e

  line-Same :
      (o : Option (Verdict × HttpContext))
      → line_verdict c.state c (take n (contents b)) time ≡ o
      → ((c' : HttpContext)
          → ReadsLines c'.state
          → Same (parse_loop fuel true c' b' time) (parse_lines fuel c' (contents b') time))
      → Same (parse_loop (suc fuel) true c b time) (parse_lines (suc fuel) c (contents b) time)
  unfolding parse_loop parse_lines advance after_line split_line
  line-Same none e k =
      rw (line_round none e, found, e, parse_loop, parse_lines, advance, split_line) Same.stopped
  line-Same (some (Verdict.goes_on, c')) e k =
      rw
        (
          line_round (some (Verdict.goes_on, c')) e,
          found,
          e,
          ← t.rest,
          parse_loop,
          parse_lines,
          advance,
          split_line,
        )
        (k c' (goes_on-ReadsLines c c' (take n (contents b)) time r e))
  line-Same (some (Verdict.finishes, c')) e k =
      rw
        (
          line_round (some (Verdict.finishes, c')) e,
          found,
          e,
          parse_loop,
          parse_lines,
          advance,
          split_line,
        )
        (Same.returned true c' b' _ t.valid t.rest)
  line-Same (some (Verdict.refuses, c')) e k =
      rw
        (
          line_round (some (Verdict.refuses, c')) e,
          found,
          e,
          parse_loop,
          parse_lines,
          advance,
          split_line,
        )
        (Same.returned false c' b _ v refl)

module _ (time : ℕ) where
  loop-Same :
      (fuel : ℕ) (c : HttpContext) {b : Buffer}
      → IsValid b
      → ReadsLines c.state
      → Same (parse_loop fuel true c b time) (parse_lines fuel c (contents b) time)
  unfolding parse_loop parse_lines advance after_line split_line
  loop-Same zero c v r = Same.spinning
  loop-Same (suc fuel) c {b} v r = elim (Option-cases (search_crlf (contents b))) [
    | inl e ↦
        rw
          (
            round_in-none c.state c time r (first_line-none v e),
            e,
            parse_loop,
            parse_lines,
            advance,
            split_line,
          )
          (Same.returned true c b (contents b) v refl)
    | inr (n, e) ↦
        let le = search_crlf_bound (contents b) n e in
        let (b', taken, t) = retrieve_until-Takes v (n + 2) (omega (arith, length-contents v)) in
        let at : peek b + (n + 2) ≡ peek b + n + 2 = omega arith in
        line-Same time fuel c n v r e (rw at at taken) t _ refl
          (λ c' r'. loop-Same fuel c' t.valid r')
  ]

  -- The parser on a valid buffer does what the line machine does on the readable bytes: the same
  -- verdict and the same request, and the bytes that the machine leaves stay in the buffer.
  pub parse_request-Same :
      (c : HttpContext) {b : Buffer}
      → IsValid b
      → ReadsLines c.state
      → Same (parse_request c b time) (parse c (contents b) time)
  unfolding parse_request parse
  parse_request-Same c {b} v r =
      let e : length (contents b) ≡ b.writer_index - b.reader_index =
        length-contents v ∙ readable_bytes-eq v in
      rw e (loop-Same (suc (b.writer_index - b.reader_index)) c v r)
