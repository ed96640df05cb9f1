-- ===== src/Http/Progress.antt =====
-- The parser of http/HttpContextff.cpp always ends, and when it fails an assertion.
use firey.Prelude.{
  ℕ, zero, suc, ◌+◌, ◌<◌, ◌≡◌, refl, inl, inr, true, false, Option, some, none, arith, length,
  Bytes, Option-cases, length-drop,
}
use firey.Buffer.{search_crlf}
use firey.Buffer.Search.{search_crlf_bound}
use firey.Http.Context.{HttpContext, Outcome}
use firey.Http.Lines.{
  Verdict, split_line, line_verdict, Advance, follow, advance, after_line, parse_lines, parse,
}

pub split_line_shorter :
    (bytes line rest : Bytes) → split_line bytes ≡ some (line, rest) → length rest < length bytes
unfolding split_line
split_line_shorter bytes line rest h = elim (Option-cases (search_crlf bytes)) [
  | inl e ↦ absurd (ground (arith, e))
  | inr (n, e) ↦ ground (arith, e, search_crlf_bound bytes n e, length-drop (n + 2) bytes)
]

-- What `advance` answers, with the reason.
pub data Advances (c : HttpContext) (bytes : Bytes) (time : ℕ) : Advance → Type 0 where
  waits :
      split_line bytes ≡ none → Advances c bytes time (Advance.ends (Outcome.returned true c bytes))
  stops :
      (line rest : Bytes)
      → split_line bytes ≡ some (line, rest)
      → line_verdict c.state c line time ≡ none
      → Advances c bytes time (Advance.ends Outcome.stopped)
  goes :
      (line rest : Bytes) (c' : HttpContext)
      → split_line bytes ≡ some (line, rest)
      → line_verdict c.state c line time ≡ some (Verdict.goes_on, c')
      → Advances c bytes time (Advance.again c' rest)
  finishes :
      (line rest : Bytes) (c' : HttpContext)
      → split_line bytes ≡ some (line, rest)
      → line_verdict c.state c line time ≡ some (Verdict.finishes, c')
      → Advances c bytes time (Advance.ends (Outcome.returned true c' rest))
  refuses :
      (line rest : Bytes) (c' : HttpContext)
      → split_line bytes ≡ some (line, rest)
      → line_verdict c.state c line time ≡ some (Verdict.refuses, c')
      → Advances c bytes time (Advance.ends (Outcome.returned false c' bytes))

module _ (c : HttpContext) (bytes : Bytes) (time : ℕ) where
  after_line_view :
      (line rest : Bytes) (o : Option (Verdict × HttpContext))
      → split_line bytes ≡ some (line, rest)
      → line_verdict c.state c line time ≡ o
      → Advances c bytes time (after_line c bytes rest o)
  unfolding after_line
  after_line_view line rest none e h = Advances.stops line rest e h
  after_line_view line rest (some (Verdict.goes_on, c')) e h = Advances.goes line rest c' e h
  after_line_view line rest (some (Verdict.finishes, c')) e h = Advances.finishes line rest c' e h
  after_line_view line rest (some (Verdict.refuses, c')) e h = Advances.refuses line rest c' e h

  pub advance_view : Advances c bytes time (advance c bytes time)
  unfolding advance
  advance_view = elim (Option-cases (split_line bytes)) [
    | inl e ↦ rw (e, advance) (Advances.waits e)
    | inr (lr, e) ↦ rw (e, advance) (after_line_view lr.0 lr.1 _ e refl)
  ]

-- More fuel than bytes is as good as any more.
module _ (time : ℕ) where
  pub follow_fuel :
      (f g : ℕ) (c : HttpContext) (bytes : Bytes) {a : Advance}
      → Advances c bytes time a
      → ((c' : HttpContext) (rest : Bytes)
          → length rest < length bytes
          → parse_lines f c' rest time ≡ parse_lines g c' rest time)
      → follow a (λ c' rest. parse_lines f c' rest time)
        ≡ follow a (λ c' rest. parse_lines g c' rest time)
  follow_fuel f g c bytes (Advances.goes line rest c' e h) k =
      k c' rest (split_line_shorter bytes line rest e)
  follow_fuel f g c bytes (Advances.waits e) k = refl
  follow_fuel f g c bytes (Advances.stops line rest e h) k = refl
  follow_fuel f g c bytes (Advances.finishes line rest c' e h) k = refl
  follow_fuel f g c bytes (Advances.refuses line rest c' e h) k = refl

  pub parse_lines_fuel :
      (f g : ℕ) (c : HttpContext) (bytes : Bytes)
      → length bytes < f
      → length bytes < g
      → parse_lines f c bytes time ≡ parse_lines g c bytes time
  unfolding parse_lines
  parse_lines_fuel zero g c bytes h k = absurd (omega arith)
  parse_lines_fuel (suc f) zero c bytes h k = absurd (omega arith)
  parse_lines_fuel (suc f) (suc g) c bytes h k =
      follow_fuel f g c bytes (advance_view c bytes time)
        λ c' rest lt. parse_lines_fuel f g c' rest (omega arith) (omega arith)

  -- So `parse` runs on as itself.
  pub parse_step :
      (c : HttpContext) (bytes : Bytes)
      → parse c bytes time ≡ follow (advance c bytes time) (λ c' rest. parse c' rest time)
  unfolding parse parse_lines
  parse_step c bytes = go (advance_view c bytes time)
    where
      go :
          {a : Advance}
          → Advances c bytes time a
          → follow a (λ c' rest. parse_lines (length bytes) c' rest time)
            ≡ follow a (λ c' rest. parse_lines (suc (length rest)) c' rest time)
      go (Advances.goes line rest c' e h) =
          parse_lines_fuel (length bytes) (suc (length rest)) c' rest
            (split_line_shorter bytes line rest e) (omega arith)
      go (Advances.waits e) = refl
      go (Advances.stops line rest e h) = refl
      go (Advances.finishes line rest c' e h) = refl
      go (Advances.refuses line rest c' e h) = refl
