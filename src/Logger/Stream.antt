-- ===== src/Logger/Stream.antt =====
-- base/logger/LogStreamff.h and base/logger/LogStreamff.cpp: the buffer of fixed size and the stream.
use firey.Prelude.{
  ℕ, zero, suc, ◌+◌, ◌-◌, ◌*◌, ◌/◌, ◌%◌, Bool, true, false, [], ◌∷◌, ◌++◌, Option, some, none, ◌==◌,
  ltb, leb, if◌then◌else◌, ◌>>=◌, length, take, Bytes, codes,
}
use mathlib.Core.List.{reverse}
use firey.Logger.Digits.{emit}

abbrev pub small_buffer : ℕ
small_buffer = 4000

abbrev pub large_buffer : ℕ
large_buffer = 4000 * 1000

-- `size` is the template's parameter, `text` the bytes from `data_` to `cur_`.
pub record FixedBuffer : Type 0 where
  pub size : ℕ
  pub text : Bytes

abbrev pub new_buffer : ℕ → FixedBuffer
new_buffer size = record { size = size; text = [] }

-- `cur_` never passes the end of the array, so the difference is not negative.
abbrev pub avail : FixedBuffer → ℕ
avail b = b.size - length b.text

abbrev pub reset : FixedBuffer → FixedBuffer
reset b = record b { text = [] }

unfoldable pub append : FixedBuffer → Bytes → FixedBuffer
append b bytes = record b {
  text = b.text ++ (if ltb (avail b) (length bytes) then take (avail b) bytes else bytes);
}

-- Bytes written at `curPos()`, then `add`: nothing is checked here.
abbrev pub put : FixedBuffer → Bytes → FixedBuffer
put b bytes = record b { text = b.text ++ bytes }

-- `negsuc n` is -(n + 1).
pub data ℤ : Type 0 where
  pos : ℕ → ℤ
  negsuc : ℕ → ℤ

abbrev pub neg : ℕ → ℤ
neg zero = pos 0
neg (suc n) = negsuc n

-- Division and remainder of C++ go towards 0.
abbrev pub quot10 : ℤ → ℤ
quot10 (pos n) = pos (n / 10)
quot10 (negsuc n) = neg ((n + 1) / 10)

abbrev pub rem10 : ℤ → ℤ
rem10 (pos n) = pos (n % 10)
rem10 (negsuc n) = neg ((n + 1) % 10)

abbrev pub is_zero : ℤ → Bool
is_zero (pos n) = n == 0
is_zero (negsuc n) = false

abbrev pub is_negative : ℤ → Bool
is_negative (pos n) = false
is_negative (negsuc n) = true

-- `digits[]` and `zero[lsd]`: an index into the text, of which `zero` is the tenth character.
abbrev pub digits : Bytes
digits = codes "9876543210123456789"

abbrev pub char_at : Bytes → ℕ → Option ℕ
char_at [] i = none
char_at (c ∷ cs) zero = some c
char_at (c ∷ cs) (suc i) = char_at cs i

unfoldable pub zero_at : ℤ → Option ℕ
zero_at (pos n) = char_at digits (9 + n)
zero_at (negsuc n) = if leb (n + 1) 9 then char_at digits (9 - (n + 1)) else none

-- The loop of `convert`. The fuel is a bound on the number of rounds.
unfoldable pub convert_loop : ℕ → ℤ → Option Bytes
unfolding zero_at
convert_loop zero i = none
convert_loop (suc fuel) i =
    let rest = (zero_at (rem10 i) >>= λ c. convert_loop fuel (quot10 i) >>= λ cs. some (c ∷ cs)) in
    if is_zero i then some [] else rest

abbrev pub magnitude : ℤ → ℕ
magnitude (pos n) = n
magnitude (negsuc n) = n + 1

unfoldable pub convert : ℤ → Option Bytes
unfolding convert_loop
convert v = convert_loop (suc (magnitude v)) v >>= λ cs.
    some (reverse (cs ++ (if is_negative v then b'-' ∷ [] else [])))

abbrev pub digit_hex : ℕ → ℕ
digit_hex n = if ltb n 10 then b'0' + n else b'A' + n - 10

unfoldable pub convert_hex : ℕ → Bytes
unfolding emit
convert_hex n = reverse (emit 16 digit_hex n n)

abbrev pub max_numeric_size : ℕ
max_numeric_size = 32

unfoldable pub format_integer : FixedBuffer → ℤ → Option FixedBuffer
format_integer b v =
    if leb max_numeric_size (avail b) then (convert v >>= λ cs. some (put b cs)) else some b

unfoldable pub write_pointer : FixedBuffer → ℕ → FixedBuffer
write_pointer b p =
    if leb max_numeric_size (avail b) then put b (b'0' ∷ b'x' ∷ convert_hex p) else b

-- `snprintf(curPos(), 32, "%.12g", v)` returns the length of the whole text and writes at most 31
-- bytes of it; `text` is what it prints of `v`.
unfoldable pub write_double : FixedBuffer → Bytes → Option FixedBuffer
write_double b text =
    if leb max_numeric_size (avail b)
    then (if ltb (length text) max_numeric_size then some (put b text) else none)
    else some b

unfoldable pub write_bool : FixedBuffer → Bool → FixedBuffer
unfolding append
write_bool b v = append b (if v then b'1' ∷ [] else b'0' ∷ [])

unfoldable pub write_char : FixedBuffer → ℕ → FixedBuffer
unfolding append
write_char b c = append b (c ∷ [])

-- A null pointer is `none`.
unfoldable pub write_text : FixedBuffer → Option Bytes → FixedBuffer
unfolding append
write_text b none = append b (codes "(null)")
write_text b (some text) = append b text
