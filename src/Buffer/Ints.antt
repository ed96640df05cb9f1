-- ===== src/Buffer/Ints.antt =====
-- The integers of net/Bufferff.h, which travel in network byte order. An integer is its bit
-- pattern, a number below `256 ^ sizeof w`; the host is little-endian.
use mathlib.Core.List.{reverse, reverse-reverse, reverse-cons}
use native.Mathlib.Nat.{pow-suc}
use firey.Prelude.{
  ℕ, zero, suc, ◌+◌, ◌*◌, ◌/◌, ◌%◌, ◌^◌, ◌≤◌, ◌<◌, ◌≡◌, refl, ◌∙◌, ap, List, [], ◌∷◌, ◌++◌, Option,
  some, none, false, arith, length, take, drop, leb, length-append, take-append, drop-append,
  append-nil, check, ◌>>=◌, ◌>>◌,
}
use firey.Buffer.{Buffer, peek, read_range, readable_bytes, append, prepend, retrieve}
use firey.Buffer.Contents.{IsValid, contents, length-contents}
use firey.Buffer.Retrieve.{Takes, retrieve-Takes, read_range-contents}

pub data IntWidth : Type 0 where
  int8 int16 int32 int64 : IntWidth

abbrev pub sizeof : IntWidth → ℕ
sizeof int8 = 1
sizeof int16 = 2
sizeof int32 = 4
sizeof int64 = 8

-- The `k` bytes of a number in memory, and the number that bytes in memory stand for.
unfoldable pub le_bytes : ℕ → ℕ → List ℕ
le_bytes zero x = []
le_bytes (suc k) x = (x % 256) ∷ le_bytes k (x / 256)

unfoldable pub from_le : List ℕ → ℕ
from_le [] = 0
from_le (c ∷ cs) = c + 256 * from_le cs

-- `htobe64` and its like swap the bytes; then the number is copied as it lies in memory.
unfoldable pub be_bytes : IntWidth → ℕ → List ℕ
unfolding le_bytes
be_bytes w x = reverse (le_bytes (sizeof w) x)

unfoldable pub from_be : List ℕ → ℕ
unfolding from_le
from_be bytes = from_le (reverse bytes)

unfoldable pub append_int : IntWidth → Buffer → ℕ → Option Buffer
append_int w b x = append b (be_bytes w x)

unfoldable pub prepend_int : IntWidth → Buffer → ℕ → Option Buffer
prepend_int w b x = prepend b (be_bytes w x)

pub peek_int : IntWidth → Buffer → Option ℕ
peek_int w b = do
  check (leb (sizeof w) (readable_bytes b))
  bytes ← read_range b.storage (peek b) (sizeof w)
  some (from_be bytes)

pub retrieve_int : IntWidth → Buffer → Option Buffer
retrieve_int w b = retrieve b (sizeof w)

pub read_int : IntWidth → Buffer → Option (ℕ × Buffer)
read_int w b = do result ← peek_int w b; b' ← retrieve_int w b; some (result, b')

length-le_bytes : (k x : ℕ) → length (le_bytes k x) ≡ k
unfolding le_bytes
length-le_bytes zero x = refl
length-le_bytes (suc k) x = ap suc (length-le_bytes k (x / 256))

from_le-le_bytes : (k x : ℕ) → x < 256 ^ k → from_le (le_bytes k x) ≡ x
unfolding le_bytes from_le
from_le-le_bytes zero x h = omega arith
from_le-le_bytes (suc k) x h =
    let e : 256 ^ suc k ≡ 256 ^ k * 256 = pow-suc 256 k in
    omega (arith, from_le-le_bytes k (x / 256) (omega arith))

length-reverse : (xs : List ℕ) → length (reverse xs) ≡ length xs
length-reverse [] = refl
length-reverse (x ∷ xs) =
    omega
      (arith, ap length (reverse-cons x xs), length-append (reverse xs) (x ∷ []), length-reverse xs)

pub length-be_bytes : (w : IntWidth) (x : ℕ) → length (be_bytes w x) ≡ sizeof w
unfolding be_bytes
length-be_bytes w x = length-reverse (le_bytes (sizeof w) x) ∙ length-le_bytes (sizeof w) x

pub from_be-be_bytes : (w : IntWidth) (x : ℕ) → x < 256 ^ sizeof w → from_be (be_bytes w x) ≡ x
unfolding be_bytes from_be
from_be-be_bytes w x h =
    ap from_le (reverse-reverse (le_bytes (sizeof w) x)) ∙ from_le-le_bytes (sizeof w) x h

-- What is read is what the first bytes stand for, whatever was written; with too few bytes the assertion
-- fails.
pub read_int_lem :
    (w : IntWidth) {b : Buffer}
    → IsValid b
    → sizeof w ≤ readable_bytes b
    → (b' : Buffer) × (read_int w b ≡ some (from_be (take (sizeof w) (contents b)), b'))
      × Takes b (sizeof w) b'
unfolding read_int peek_int retrieve_int
read_int_lem w {b} v room =
    let (b', taken, t) = retrieve-Takes v (sizeof w) room in
    (b', ground (arith, read_range-contents v (sizeof w) room, taken), t)

pub read_int-none : (w : IntWidth) (b : Buffer) → readable_bytes b < sizeof w → read_int w b ≡ none
unfolding read_int peek_int
read_int-none w b h = let e : leb (sizeof w) (readable_bytes b) ≡ false = ground arith in rw e refl

-- An integer at the front of the readable bytes is read, and taken out.
pub read_int-front :
    (w : IntWidth) {b : Buffer} (x : ℕ) (rest : List ℕ)
    → IsValid b
    → x < 256 ^ sizeof w
    → contents b ≡ be_bytes w x ++ rest
    → (b' : Buffer) × (read_int w b ≡ some (x, b')) × IsValid b' × (contents b' ≡ rest)
unfolding read_int peek_int retrieve_int
read_int-front w {b} x rest v h e =
    let len = length-be_bytes w x in
    let room : sizeof w ≤ readable_bytes b =
      omega (arith, length-contents v, ap length e, length-append (be_bytes w x) rest, len) in
    let (b', taken, t) = retrieve-Takes v (sizeof w) room in
    let front : take (sizeof w) (contents b) ≡ be_bytes w x =
      ap (take (sizeof w)) e
      ∙ take-append (sizeof w) 0 (be_bytes w x) rest (omega (arith, len))
      ∙ append-nil (be_bytes w x) in
    let value : from_be (take (sizeof w) (contents b)) ≡ x =
      ap from_be front ∙ from_be-be_bytes w x h in
    (
      b',
      ground (arith, read_range-contents v (sizeof w) room, taken, value),
      t.valid,
      t.rest
          ∙ ap (drop (sizeof w)) e
          ∙ drop-append (sizeof w) 0 (be_bytes w x) rest (omega (arith, len)),
    )
