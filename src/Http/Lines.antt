-- ===== src/Http/Lines.antt =====
-- What the parser of http/HttpContextff.cpp means: a machine that reads whole lines of a byte
-- sequence, with no buffer and no index.
use firey.Prelude.{
  ℕ, zero, suc, ◌+◌, true, false, Option, some, none, if◌then◌else◌, take, drop, length, Bytes,
  ◌>>=◌,
}
use firey.Buffer.{search_crlf}
use firey.Http.Context.{ParseState, HttpContext, process_request_line, header_line, Outcome}

-- The first line and what follows its end.
unfoldable pub split_line : Bytes → Option (Bytes × Bytes)
split_line bytes = elim (search_crlf bytes) [
  | none ↦ none
  | some n ↦ some (take n bytes, drop (n + 2) bytes)
]

-- A line asks for more lines, is the last one, or is refused.
pub data Verdict : Type 0 where
  goes_on finishes refuses : Verdict

-- The states in which lines are read.
abbrev pub ReadsLines : ParseState → Type 0
ReadsLines ParseState.expect_request_line = Unit {0}
ReadsLines ParseState.expect_headers = Unit {0}
ReadsLines _ = ⊥

unfoldable pub line_verdict : ParseState → HttpContext → Bytes → ℕ → Option (Verdict × HttpContext)
line_verdict ParseState.expect_request_line c line time = do
  (good, r) ← process_request_line c.request line
  some (
      if good
      then (
        Verdict.goes_on,
        record { state = ParseState.expect_headers; request = record r { receive_time = time } },
      )
      else (Verdict.refuses, record c { request = r }))
line_verdict _ c line time =
    let r = header_line c line in some (if r.0 then Verdict.goes_on else Verdict.finishes, r.1)

-- What the machine does next: it ends, or goes on with the bytes behind a line.
pub data Advance : Type 0 where
  ends : Outcome Bytes → Advance
  again : HttpContext → Bytes → Advance

unfoldable pub after_line : HttpContext → Bytes → Bytes → Option (Verdict × HttpContext) → Advance
after_line c bytes rest none = Advance.ends Outcome.stopped
after_line c bytes rest (some (Verdict.goes_on, c')) = Advance.again c' rest
after_line c bytes rest (some (Verdict.finishes, c')) = Advance.ends (Outcome.returned true c' rest)
after_line c bytes rest (some (Verdict.refuses, c')) =
    Advance.ends (Outcome.returned false c' bytes)

unfoldable pub advance : HttpContext → Bytes → ℕ → Advance
advance c bytes time = elim (split_line bytes) [
  | none ↦ Advance.ends (Outcome.returned true c bytes)
  | some (line, rest) ↦ after_line c bytes rest (line_verdict c.state c line time)
]

abbrev pub follow : Advance → (HttpContext → Bytes → Outcome Bytes) → Outcome Bytes
follow (Advance.ends o) k = o
follow (Advance.again c rest) k = k c rest

unfoldable pub parse_lines : ℕ → HttpContext → Bytes → ℕ → Outcome Bytes
parse_lines zero c bytes time = Outcome.spinning
parse_lines (suc fuel) c bytes time =
    follow (advance c bytes time) (λ c' rest. parse_lines fuel c' rest time)

-- With as much fuel as there can be lines.
unfoldable pub parse : HttpContext → Bytes → ℕ → Outcome Bytes
parse c bytes time = parse_lines (suc (length bytes)) c bytes time
