-- ===== src/Logger/Printed.antt =====
-- base/logger/LogStreamff.cpp: what the stream writes for a number.
use firey.Prelude.{
  ℕ, zero, suc, ◌+◌, ◌-◌, ◌/◌, ◌%◌, ◌≤◌, ◌<◌, ◌≡◌, refl, ap, ◌∙◌, true, false, [], ◌∷◌, ◌++◌,
  append-nil, Option, some, none, ◌==◌, leb, if◌then◌else◌, ◌>>=◌, arith, Bytes, Bool-cases, inl,
  inr,
}
use mathlib.Core.List.{reverse, reverse-append}
use firey.Logger.Digits.{emit, read_from, read_from-emit}
use firey.Logger.Stream.{
  ℤ, pos, negsuc, neg, quot10, rem10, is_zero, is_negative, magnitude, digits, char_at, zero_at,
  convert_loop, convert, digit_hex, convert_hex,
}

abbrev pub digit_char : ℕ → ℕ
digit_char d = b'0' + d

abbrev pub digit_value : ℕ → Option ℕ
digit_value c = if leb b'0' c then if leb c b'9' then some (c - b'0') else none else none

table_up : (d : ℕ) → d < 10 → char_at digits (9 + d) ≡ some (digit_char d)
table_up zero h = refl
table_up (suc zero) h = refl
table_up (suc (suc zero)) h = refl
table_up (suc (suc (suc zero))) h = refl
table_up (suc (suc (suc (suc zero)))) h = refl
table_up (suc (suc (suc (suc (suc zero))))) h = refl
table_up (suc (suc (suc (suc (suc (suc zero)))))) h = refl
table_up (suc (suc (suc (suc (suc (suc (suc zero))))))) h = refl
table_up (suc (suc (suc (suc (suc (suc (suc (suc zero)))))))) h = refl
table_up (suc (suc (suc (suc (suc (suc (suc (suc (suc zero))))))))) h = refl
table_up (suc (suc (suc (suc (suc (suc (suc (suc (suc (suc d)))))))))) h = absurd (omega arith)

table_down : (d : ℕ) → d < 10 → zero_at (neg d) ≡ some (digit_char d)
unfolding zero_at
table_down zero h = refl
table_down (suc zero) h = refl
table_down (suc (suc zero)) h = refl
table_down (suc (suc (suc zero))) h = refl
table_down (suc (suc (suc (suc zero)))) h = refl
table_down (suc (suc (suc (suc (suc zero))))) h = refl
table_down (suc (suc (suc (suc (suc (suc zero)))))) h = refl
table_down (suc (suc (suc (suc (suc (suc (suc zero))))))) h = refl
table_down (suc (suc (suc (suc (suc (suc (suc (suc zero)))))))) h = refl
table_down (suc (suc (suc (suc (suc (suc (suc (suc (suc zero))))))))) h = refl
table_down (suc (suc (suc (suc (suc (suc (suc (suc (suc (suc d)))))))))) h = absurd (omega arith)

magnitude-neg : (n : ℕ) → magnitude (neg n) ≡ n
magnitude-neg zero = refl
magnitude-neg (suc n) = omega arith

==_false : (n : ℕ) → (n == 0) ≡ false → 0 < n
==_false n h = ground arith

zero_at-rem10 : (i : ℤ) → zero_at (rem10 i) ≡ some (digit_char (magnitude i % 10))
unfolding zero_at
zero_at-rem10 (pos n) = table_up (n % 10) (omega arith)
zero_at-rem10 (negsuc n) = table_down ((n + 1) % 10) (omega arith)

magnitude-quot10 : (i : ℤ) → magnitude (quot10 i) ≡ magnitude i / 10
magnitude-quot10 (pos n) = refl
magnitude-quot10 (negsuc n) = magnitude-neg ((n + 1) / 10)

is_zero-magnitude : (i : ℤ) → is_zero i ≡ (magnitude i == 0)
is_zero-magnitude (pos n) = refl
is_zero-magnitude (negsuc n) = ground arith

-- The loop stays inside its table and makes the digits of the magnitude.
convert_loop-emit :
    (fuel : ℕ) (i : ℤ)
    → magnitude i ≤ fuel
    → convert_loop (suc fuel) i ≡ some (emit 10 digit_char fuel (magnitude i))
unfolding convert_loop emit
convert_loop-emit zero i h =
    let z : is_zero i ≡ true = is_zero-magnitude i ∙ ground arith in rw z refl
convert_loop-emit (suc fuel) i h = elim (Bool-cases (magnitude i == 0)) [
  | inl e ↦ rw (is_zero-magnitude i, e) refl
  | inr e ↦
      let ih =
        convert_loop-emit fuel (quot10 i)
          (omega (arith, magnitude-quot10 i, ==_false (magnitude i) e)) in
      rw (is_zero-magnitude i, e, zero_at-rem10 i, ih, magnitude-quot10 i) refl
]

abbrev pub sign : ℤ → Bytes
sign v = if is_negative v then b'-' ∷ [] else []

reversed :
    (v : ℤ) (cs : Bytes)
    → ◌≡◌ {A = Option Bytes} (some (reverse (cs ++ sign v))) (some (sign v ++ reverse cs))
reversed (pos n) cs = ap (λ t. some (reverse t)) (append-nil cs)
reversed (negsuc n) cs = ap (λ t. some t) (reverse-append cs (b'-' ∷ []))

pub convert_lem :
    (v : ℤ) → convert v ≡ some (sign v ++ reverse (emit 10 digit_char (magnitude v) (magnitude v)))
unfolding convert
convert_lem v =
    rw (convert_loop-emit (magnitude v) v (omega arith))
      (reversed v (emit 10 digit_char (magnitude v) (magnitude v)))

-- A decimal number with its sign, read independently of the code.
unfoldable pub read : Bytes → Option ℤ
read [] = none
read (c ∷ cs) =
    if c == b'-'
    then (read_from 10 digit_value 0 cs >>= λ n. some (neg n))
    else (read_from 10 digit_value 0 (c ∷ cs) >>= λ n. some (pos n))

neg_suc : (n : ℕ) → ◌≡◌ {A = Option ℤ} (some (neg (n + 1))) (some (negsuc n))
neg_suc n = let e : n + 1 ≡ suc n = omega arith in rw e refl

read_pos :
    (text : Bytes) (n : ℕ)
    → read_from 10 digit_value 0 text ≡ some n
    → 0 < n
    → read text ≡ some (pos n)
unfolding read read_from
read_pos [] n h p = ground arith
read_pos (c ∷ cs) n h p = elim (Bool-cases (c == b'-')) [
  | inl e ↦ absurd (ground arith)
  | inr e ↦ rw (e, h) refl
]

read_neg :
    (text : Bytes) (n : ℕ)
    → read_from 10 digit_value 0 text ≡ some (n + 1)
    → read (b'-' ∷ text) ≡ some (negsuc n)
unfolding read
read_neg text n h = rw h (neg_suc n)

digits_read : (n : ℕ) → read_from 10 digit_value 0 (reverse (emit 10 digit_char n n)) ≡ some n
digits_read n =
    read_from-emit 10 digit_char digit_value (λ n. omega arith) (λ n h. omega arith)
      (λ n. ground arith) n n (omega arith)

-- Every number but 0 is printed so that it is read back.
pub read-convert :
    (v : ℤ) → is_zero v ≡ false → (text : Bytes) × (convert v ≡ some text) × (read text ≡ some v)
read-convert (pos n) h = (
  reverse (emit 10 digit_char n n),
  convert_lem (pos n),
  read_pos (reverse (emit 10 digit_char n n)) n (digits_read n) (ground arith),
)
read-convert (negsuc n) h = (
  b'-' ∷ reverse (emit 10 digit_char (n + 1) (n + 1)),
  convert_lem (negsuc n),
  read_neg (reverse (emit 10 digit_char (n + 1) (n + 1))) n (digits_read (n + 1)),
)

abbrev pub hex_value : ℕ → Option ℕ
hex_value c =
    if leb b'0' c
    then (if leb c b'9'
        then some (c - b'0')
        else (if leb b'A' c then (if leb c b'F' then some (c - b'A' + 10) else none) else none))
    else none

-- The digits that are written for a pointer stand for its value.
pub read-convert_hex : (p : ℕ) → read_from 16 hex_value 0 (convert_hex p) ≡ some p
unfolding convert_hex
read-convert_hex p =
    read_from-emit 16 digit_hex hex_value (λ n. omega arith) (λ n h. omega arith)
      (λ n. ground arith) p p (omega arith)
