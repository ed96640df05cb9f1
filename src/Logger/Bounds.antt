-- ===== src/Logger/Bounds.antt =====
-- base/logger/LogStreamff.h and base/logger/LogStreamff.cpp: no write leaves the buffer of fixed size.
use firey.Prelude.{
  ℕ, ◌+◌, ◌≤◌, ◌<◌, ◌≡◌, refl, sym, ap, ◌∙◌, Bool, true, List, [], ◌∷◌, ◌++◌, append_assoc,
  append-nil, Option, some, none, ltb, leb, if◌then◌else◌, ◌>>=◌, arith, length, length-append,
  take, length-take, Bytes, Bool-cases, inl, inr, codes,
}
use mathlib.Core.List.{reverse, reverse-append}
use firey.Logger.Digits.{emit, power, length-emit}
use firey.Logger.Printed.{digit_char, convert_lem, sign}
use firey.Logger.Stream.{
  FixedBuffer, ℤ, pos, negsuc, magnitude, convert, convert_hex, avail, put, digit_hex,
  format_integer, write_pointer, write_double, write_bool, write_char, write_text, max_numeric_size,
  append,
}

length-reverse : (cs : Bytes) → length (reverse cs) ≡ length cs
length-reverse [] = refl
length-reverse (c ∷ cs) =
    ap (λ (t : Bytes). length t) (reverse-append (c ∷ []) cs)
    ∙ omega (arith, length-append (reverse cs) (c ∷ []), length-reverse cs)

few_chars : (v : ℤ) (ds : Bytes) → length ds ≤ 20 → length (sign v ++ reverse ds) ≤ 21
few_chars (pos n) ds h = omega (arith, length-reverse ds)
few_chars (negsuc n) ds h = omega (arith, length-reverse ds)

length-convert :
    (v : ℤ)
    → magnitude v < power 10 20
    → (text : Bytes) × (convert v ≡ some text) × (length text ≤ 21)
length-convert v h =
    let ds = emit 10 digit_char (magnitude v) (magnitude v) in
    let few = length-emit 10 digit_char (λ k n h. omega arith) (magnitude v) 20 (magnitude v) h in
    (sign v ++ reverse ds, convert_lem v, few_chars v ds few)

length-convert_hex : (p : ℕ) → p < power 16 16 → length (convert_hex p) ≤ 16
unfolding convert_hex
length-convert_hex p h = omega (
  arith,
  length-reverse (emit 16 digit_hex p p),
  length-emit 16 digit_hex (λ k n h. omega arith) p 16 p h,
)

-- What the user writes: the integers of the machine are below 10^20 in size, the pointers below 16^16, and
-- `%.12g` prints of a double or a float fewer than 32 bytes.
pub data Write : Type 0 where
  bool : Bool → Write
  char : ℕ → Write
  text : Option Bytes → Write
  integer : (v : ℤ) → magnitude v < power 10 20 → Write
  pointer : (p : ℕ) → p < power 16 16 → Write
  double : (printed : Bytes) → length printed < max_numeric_size → Write

unfoldable pub write : FixedBuffer → Write → Option FixedBuffer
write b (bool v) = some (write_bool b v)
write b (char c) = some (write_char b c)
write b (text t) = some (write_text b t)
write b (integer v h) = format_integer b v
write b (pointer p h) = some (write_pointer b p)
write b (double printed h) = write_double b printed

unfoldable pub write_all : FixedBuffer → List Write → Option FixedBuffer
write_all b [] = some b
write_all b (w ∷ ws) = write b w >>= λ b1. write_all b1 ws

abbrev pub Fits : FixedBuffer → Type 0
Fits b = length b.text ≤ b.size

-- The buffer has grown by some bytes, inside its array.
pub record Extends (b b1 : FixedBuffer) : Type 0 where
  pub fits : Fits b1
  pub same_size : b1.size ≡ b.size
  pub more : Bytes
  pub grown : b1.text ≡ b.text ++ more

abbrev Grows : FixedBuffer → Option FixedBuffer → Type 0
Grows b r = (b1 : FixedBuffer) × (r ≡ some b1) × Extends b b1

put-Extends :
    (b : FixedBuffer) (bytes : Bytes)
    → length b.text + length bytes ≤ b.size
    → Extends b (put b bytes)
put-Extends b bytes h = record {
  fits = omega (arith, length-append b.text bytes);
  same_size = refl;
  more = bytes;
  grown = refl;
}

same-Extends : (b : FixedBuffer) → Fits b → Extends b b
same-Extends b h = record { fits = h; same_size = refl; more = []; grown = sym (append-nil b.text) }

append-Extends : (b : FixedBuffer) (bytes : Bytes) → Fits b → Extends b (append b bytes)
unfolding append
append-Extends b bytes h = elim (Bool-cases (ltb (avail b) (length bytes))) [
  | inl e ↦ rw e (put-Extends b (take (avail b) bytes) (omega (arith, length-take (avail b) bytes)))
  | inr e ↦ rw e (put-Extends b bytes (ground arith))
]

integer-Grows :
    (b : FixedBuffer) (v : ℤ) → magnitude v < power 10 20 → Fits b → Grows b (format_integer b v)
unfolding format_integer
integer-Grows b v small h = elim (Bool-cases (leb max_numeric_size (avail b))) [
  | inl e ↦
      let (chars, made, short) = length-convert v small in
      (put b chars, rw (e, made) refl, put-Extends b chars (ground arith))
  | inr e ↦ (b, rw e refl, same-Extends b h)
]

pointer-Grows :
    (b : FixedBuffer) (p : ℕ) → p < power 16 16 → Fits b → Grows b (some (write_pointer b p))
unfolding write_pointer
pointer-Grows b p small h = elim (Bool-cases (leb max_numeric_size (avail b))) [
  | inl e ↦ (
    put b (b'0' ∷ b'x' ∷ convert_hex p),
    rw e refl,
    put-Extends b (b'0' ∷ b'x' ∷ convert_hex p) (ground (arith, length-convert_hex p small)),
  )
  | inr e ↦ (b, rw e refl, same-Extends b h)
]

double-Grows :
    (b : FixedBuffer) (printed : Bytes)
    → length printed < max_numeric_size
    → Fits b
    → Grows b (write_double b printed)
unfolding write_double
double-Grows b printed short h = elim (Bool-cases (leb max_numeric_size (avail b))) [
  | inl e ↦
      let fits : ltb (length printed) max_numeric_size ≡ true = ground arith in
      (put b printed, rw (e, fits) refl, put-Extends b printed (ground arith))
  | inr e ↦ (b, rw e refl, same-Extends b h)
]

write-Grows : (b : FixedBuffer) (w : Write) → Fits b → Grows b (write b w)
unfolding write write_bool write_char write_text
write-Grows b (bool v) h = (_, refl, append-Extends b (if v then b'1' ∷ [] else b'0' ∷ []) h)
write-Grows b (char c) h = (_, refl, append-Extends b (c ∷ []) h)
write-Grows b (text none) h = (_, refl, append-Extends b (codes "(null)") h)
write-Grows b (text (some t)) h = (_, refl, append-Extends b t h)
write-Grows b (integer v small) h = integer-Grows b v small h
write-Grows b (pointer p small) h = pointer-Grows b p small h
write-Grows b (double printed short) h = double-Grows b printed short h

-- Whatever is written to a stream, in whatever order, its text stays inside the array, and what was
-- there stays in front.
pub write_all-Grows :
    (b : FixedBuffer) (ws : List Write)
    → Fits b
    → (b1 : FixedBuffer) × (write_all b ws ≡ some b1) × Extends b b1
unfolding write_all
write_all-Grows b [] h = (b, refl, same-Extends b h)
write_all-Grows b (w ∷ ws) h =
    let (b1, e1, x1) = write-Grows b w h in
    let (b2, e2, x2) = write_all-Grows b1 ws x1.fits in
    (
      b2,
      rw e1 e2,
      record {
        fits = x2.fits;
        same_size = x2.same_size ∙ x1.same_size;
        more = x1.more ++ x2.more;
        grown = x2.grown ∙ ap (λ t. t ++ x2.more) x1.grown ∙ append_assoc b.text x1.more x2.more;
      },
    )
