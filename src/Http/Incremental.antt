-- ===== src/Http/Incremental.antt =====
-- The parser of http/HttpContextff.cpp gets its bytes in pieces, as the network delivers them.
use firey.Prelude.{
  ℕ, zero, suc, ◌+◌, ◌<◌, ◌≡◌, refl, ◌∙◌, sym, ap, inl, inr, false, not, ◌&&◌, Option, some, arith,
  length, Bytes, ◌++◌, if◌then◌else◌, Option-cases, take-append_left, drop-append_left,
}
use firey.Buffer.{Buffer, search_crlf}
use firey.Buffer.Contents.{IsValid, contents}
use firey.Buffer.Append.{Appends}
use firey.Buffer.Search.{search_crlf_bound, search_crlf-append}
use firey.Http.Context.{HttpContext, Outcome, is_got_all, parse_request}
use firey.Http.Lines.{
  Verdict, ReadsLines, split_line, line_verdict, Advance, advance, after_line, follow, parse,
}
use firey.Http.Refine.{Same, parse_request-Same, goes_on-state}
use firey.Http.Progress.{split_line_shorter, Advances, advance_view, parse_step}
use firey.Http.Total.{IsReady, ready-ReadsLines, finishes-state, verdict-ne-none}

pub split_line-append :
    (xs ys line rest : Bytes)
    → split_line xs ≡ some (line, rest)
    → split_line (xs ++ ys) ≡ some (line, rest ++ ys)
unfolding split_line
split_line-append xs ys line rest h = elim (Option-cases (search_crlf xs)) [
  | inl e ↦ absurd (ground (arith, e))
  | inr (n, e) ↦ ground (
    arith,
    e,
    search_crlf-append xs ys n e,
    search_crlf_bound xs n e,
    take-append_left n xs ys,
    drop-append_left (n + 2) xs ys,
  )
]

-- To go on with more bytes, unless the request is complete or refused.
pub resume : Outcome Bytes → Bytes → ℕ → Outcome Bytes
resume Outcome.stopped ys time = Outcome.stopped
resume Outcome.spinning ys time = Outcome.spinning
resume (Outcome.returned ok c rest) ys time =
    if ok && not (is_got_all c)
    then parse c (rest ++ ys) time
    else Outcome.returned ok c (rest ++ ys)

ready_not_got_all : (c : HttpContext) → IsReady c → is_got_all c ≡ false
unfolding is_got_all
ready_not_got_all c (inl (e, m)) = rw (e, is_got_all)
ready_not_got_all c (inr e) = rw (e, is_got_all)

module _ (time : ℕ) (ys : Bytes) where
  -- A line that is there decides the next step, whatever follows.
  pub advance_line :
      (c : HttpContext) (xs line rest : Bytes) (o : Option (Verdict × HttpContext))
      → split_line xs ≡ some (line, rest)
      → line_verdict c.state c line time ≡ o
      → advance c (xs ++ ys) time ≡ after_line c (xs ++ ys) (rest ++ ys) o
  unfolding advance
  advance_line c xs line rest o e h =
      rw (split_line-append xs ys line rest e, advance)
        (ap (after_line c (xs ++ ys) (rest ++ ys)) h)

  resume_advance :
      (c : HttpContext) (xs : Bytes) {a : Advance}
      → IsReady c
      → Advances c xs time a
      → ((c' : HttpContext) (rest : Bytes)
          → length rest < length xs
          → IsReady c'
          → parse c' (rest ++ ys) time ≡ resume (parse c' rest time) ys time)
      → parse c (xs ++ ys) time ≡ resume (follow a (λ c' rest. parse c' rest time)) ys time
  unfolding resume after_line is_got_all
  resume_advance c xs r (Advances.goes line rest c' e h) k =
      rw (parse_step time c (xs ++ ys), advance_line c xs line rest _ e h)
        (k c' rest (split_line_shorter xs line rest e)
          (inr (goes_on-state c.state c c' line time (ready-ReadsLines c r) refl h)))
  resume_advance c xs r (Advances.waits e) k = rw (ready_not_got_all c r)
  resume_advance c xs r (Advances.stops line rest e h) k =
      absurd (verdict-ne-none c.state c line time refl r h)
  resume_advance c xs r (Advances.finishes line rest c' e h) k =
      rw (parse_step time c (xs ++ ys), advance_line c xs line rest _ e h)
        (rw (finishes-state c.state c c' line time h, is_got_all) refl)
  resume_advance c xs r (Advances.refuses line rest c' e h) k =
      rw (parse_step time c (xs ++ ys), advance_line c xs line rest _ e h) refl

  resume_fuel :
      (f : ℕ) (c : HttpContext) (xs : Bytes)
      → length xs < f
      → IsReady c
      → parse c (xs ++ ys) time ≡ resume (parse c xs time) ys time
  resume_fuel zero c xs h r = absurd (omega arith)
  resume_fuel (suc f) c xs h r = rw (parse_step time c xs) (
      resume_advance c xs r (advance_view c xs time)
        λ c' rest lt r'. resume_fuel f c' rest (omega arith) r')

-- An outcome with the readable bytes in place of the buffer.
abbrev pub view : Outcome Buffer → Outcome Bytes
view Outcome.stopped = Outcome.stopped
view Outcome.spinning = Outcome.spinning
view (Outcome.returned ok c b) = Outcome.returned ok c (contents b)

Same-view : {o : Outcome Buffer} {o' : Outcome Bytes} → Same o o' → view o ≡ o'
Same-view Same.stopped = refl
Same-view Same.spinning = refl
Same-view (Same.returned ok c b bytes v e) = ap (Outcome.returned ok c) e

pub parse_request-view :
    (c : HttpContext) {b : Buffer} (time : ℕ)
    → IsValid b
    → ReadsLines c.state
    → view (parse_request c b time) ≡ parse c (contents b) time
parse_request-view c time v r = Same-view (parse_request-Same time c v r)

-- It makes no difference how the bytes of a request are cut into pieces: what the parser says of
-- a buffer to which `ys` are appended is what it says of the buffer without them, gone on with
-- `ys` behind the bytes that it left, if it asked for more, and with `ys` left over too, if the
-- request was complete or refused.
pub parse_request_resumes :
    (c : HttpContext) {b b' : Buffer} (ys : Bytes) (time : ℕ)
    → IsValid b
    → IsReady c
    → Appends b ys b'
    → view (parse_request c b' time) ≡ resume (view (parse_request c b time)) ys time
parse_request_resumes c {b} {b'} ys time v r a =
    let lines = ready-ReadsLines c r in
    parse_request-view c time a.valid lines
    ∙ ap (λ t. parse c t time) a.joined
    ∙ resume_fuel time ys (suc (length (contents b))) c (contents b) (omega arith) r
    ∙ ap (λ o. resume o ys time) (sym (parse_request-view c time v lines))
