-- ===== src/Buffer/Search.antt =====
-- `findCRLF` and `findEOL` of net/Bufferff.h.

use mathlib.Core.Option
use firey.Prelude.{
  Lacks, ℕ, zero, suc, ◌+◌, ◌≤◌, ◌≡◌, refl, ◌∙◌, ap, List, [], ◌∷◌, ◌++◌, some, arith, ◌==◌, length,
  take, drop, take-length, ◌&&◌, Bool-cases, inl, inr,
}
use firey.Buffer.{Buffer, peek, readable_bytes, search_crlf, search_byte, find_crlf, find_eol}
use firey.Buffer.Contents.{IsValid, contents, length-contents}
use firey.Buffer.Retrieve.{read_range-contents}

-- The search runs over the readable bytes.
pub find_crlf_lem :
    {b : Buffer}
    → IsValid b
    → find_crlf b ≡ some (Option.map (λ n. peek b + n) (search_crlf (contents b)))
unfolding find_crlf
find_crlf_lem {b} v = ground (
  arith,
  read_range-contents v (readable_bytes b) (omega arith),
  take-length (readable_bytes b) (contents b) (omega (arith, length-contents v)),
)

pub find_eol_lem :
    {b : Buffer}
    → IsValid b
    → find_eol b ≡ some (Option.map (λ n. peek b + n) (search_byte b'\n' (contents b)))
unfolding find_eol
find_eol_lem {b} v = ground (
  arith,
  read_range-contents v (readable_bytes b) (omega arith),
  take-length (readable_bytes b) (contents b) (omega (arith, length-contents v)),
)

-- What is found is a line end.
pub search_crlf_sound :
    (bytes : List ℕ) (n : ℕ)
    → search_crlf bytes ≡ some n
    → bytes ≡ take n bytes ++ (b'\r' ∷ b'\n' ∷ drop (n + 2) bytes)
unfolding search_crlf
search_crlf_sound [] n h = absurd (ground arith)
search_crlf_sound (x ∷ []) n h = absurd (ground arith)
search_crlf_sound (x ∷ y ∷ r) zero h = ground arith
search_crlf_sound (x ∷ y ∷ r) (suc n) h = ground (arith, search_crlf_sound (y ∷ r) n)

-- Any line end is found, or one before it.
pub search_crlf_complete :
    (pre post : List ℕ)
    → (n : ℕ) × (search_crlf (pre ++ (b'\r' ∷ b'\n' ∷ post)) ≡ some n) × (n ≤ length pre)
unfolding search_crlf
search_crlf_complete [] post = (0, refl, omega arith)
search_crlf_complete (x ∷ []) post = (1, ground arith, omega arith)
search_crlf_complete (x ∷ y ∷ pre) post =
    let (n, e, le) = search_crlf_complete (y ∷ pre) post in
    elim (Bool-cases (x == b'\r' && y == b'\n')) [
      | inl found ↦ (0, rw found, omega arith)
      | inr other ↦ (n + 1, rw (other, e), omega arith)
    ]

-- In a valid buffer that holds a line end, `findCRLF` answers with a line end in the readable
-- bytes, and none stands before it; the assertions and the bounds hold.
pub find_crlf_first :
    {b : Buffer} (pre post : List ℕ)
    → IsValid b
    → contents b ≡ pre ++ (b'\r' ∷ b'\n' ∷ post)
    → (n : ℕ) × (find_crlf b ≡ some (some (peek b + n)))
      × (n ≤ length pre)
      × (contents b ≡ take n (contents b) ++ (b'\r' ∷ b'\n' ∷ drop (n + 2) (contents b)))
find_crlf_first {b} pre post v e =
    let (n, found, le) = search_crlf_complete pre post in
    let here = ap search_crlf e ∙ found in
    (
      n,
      find_crlf_lem v ∙ ap (λ r. some (Option.map (λ k. peek b + k) r)) here,
      le,
      search_crlf_sound (contents b) n here,
    )

-- A line end that is found lies inside the bytes.
pub search_crlf_bound : (bytes : List ℕ) (n : ℕ) → search_crlf bytes ≡ some n → n + 2 ≤ length bytes
unfolding search_crlf
search_crlf_bound [] n h = absurd (ground arith)
search_crlf_bound (x ∷ []) n h = absurd (ground arith)
search_crlf_bound (x ∷ y ∷ r) zero h = omega arith
search_crlf_bound (x ∷ y ∷ r) (suc n) h = ground (arith, search_crlf_bound (y ∷ r) n)

-- More bytes behind do not change what is found.
pub search_crlf-append :
    (xs ys : List ℕ) (n : ℕ) → search_crlf xs ≡ some n → search_crlf (xs ++ ys) ≡ some n
unfolding search_crlf
search_crlf-append [] ys n h = absurd (ground arith)
search_crlf-append (x ∷ []) ys n h = absurd (ground arith)
search_crlf-append (x ∷ y ∷ r) ys zero h = ground arith
search_crlf-append (x ∷ y ∷ r) ys (suc n) h = ground (arith, search_crlf-append (y ∷ r) ys n)

-- A text with no carriage return is a whole line before a line end.
pub search_crlf-Lacks :
    (xs ys : List ℕ) → Lacks b'\r' xs → search_crlf (xs ++ (b'\r' ∷ b'\n' ∷ ys)) ≡ some (length xs)
unfolding search_crlf
search_crlf-Lacks [] ys h = refl
search_crlf-Lacks (x ∷ []) ys h = ground arith
search_crlf-Lacks (x ∷ y ∷ r) ys h = ground (arith, search_crlf-Lacks (y ∷ r) ys h.1)
