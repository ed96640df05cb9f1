-- ===== src/Buffer/ReadFd.antt =====
-- `Bufferff::readFd` of net/Bufferff.cpp. The kernel's `readv` is a parameter: a function of the
-- bytes that the two pieces of memory hold together.
use firey.Prelude.{
  ℕ, ◌+◌, ◌≤◌, ◌<◌, ◌≡◌, refl, ◌∙◌, ap, inl, inr, Bool-cases, List, [], ◌++◌, append_assoc,
  append-nil, sym, Option, some, arith, ltb, leb, if◌then◌else◌, length, take, drop,
  take-append-drop, length-take, length-drop, length-overwrite, add_size, check, ◌>>=◌, ◌>>◌,
}
use firey.Buffer.{Buffer, max_size, copy_in, writable_bytes, append}
use firey.Buffer.Contents.{IsValid, contents}
use firey.Buffer.Append.{Appends, append-Appends, append_in_place}

-- `sizeof extrabuf`
abbrev pub extra_size : ℕ
extra_size = 65536

-- What `readv` answers: an error with its `errno`, or the bytes it has put into the memory.
pub data ReadResult : Type 0 where
  failed : ℕ → ReadResult
  got : List ℕ → ReadResult

-- The length of the memory that is offered: one piece if the buffer's own is large.
unfoldable pub iov_length : Buffer → ℕ
iov_length b =
    if ltb (writable_bytes b) extra_size then writable_bytes b + extra_size else writable_bytes b

-- The bytes have filled the writable part, and the others lie in `extrabuf`.
spill : Buffer → List ℕ → Option Buffer
spill b bytes = do
  let writable = writable_bytes b
  check (leb (length (drop writable bytes)) extra_size)
  s ← copy_in b.storage b.writer_index (take writable bytes)
  append (record b { storage = s; writer_index = length s }) (drop writable bytes)

fill : Buffer → List ℕ → Option Buffer
fill b bytes = do
  s ← copy_in b.storage b.writer_index bytes
  some (record b { storage = s; writer_index = add_size b.writer_index (length bytes) })

store_read : Buffer → ReadResult → Option Buffer
store_read b (failed errno) = some b
store_read b (got bytes) =
    if leb (length bytes) (writable_bytes b) then fill b bytes else spill b bytes

-- The answer, of which the source returns the length or sets `savedErrno`, and the buffer.
pub read_fd : Buffer → (ℕ → ReadResult) → Option (ReadResult × Buffer)
read_fd b readv = do let result = readv (iov_length b); b' ← store_read b result; some (result, b')

-- `readv` puts no more bytes than the memory holds.
abbrev pub IsBounded : (ℕ → ReadResult) → Type 0
IsBounded readv = (cap : ℕ) (bytes : List ℕ) → readv cap ≡ got bytes → length bytes ≤ cap

fill-Appends :
    {b : Buffer} (bytes : List ℕ)
    → IsValid b
    → length bytes ≤ writable_bytes b
    → (b' : Buffer) × (fill b bytes ≡ some b') × Appends b bytes b'
unfolding fill
fill-Appends {b} bytes v h = (_, ground arith, append_in_place bytes v h)

spill-Appends :
    {b : Buffer} (bytes : List ℕ)
    → IsValid b
    → writable_bytes b < length bytes
    → length bytes ≤ writable_bytes b + extra_size
    → b.writer_index + length bytes ≤ max_size
    → (b' : Buffer) × (spill b bytes ≡ some b') × Appends b bytes b'
unfolding spill
spill-Appends {b} bytes v h k fits =
    let first = take (writable_bytes b) bytes in
    let n₁ : length first ≡ writable_bytes b =
      omega (arith, length-take (writable_bytes b) bytes) in
    let n₂ = length-drop (writable_bytes b) bytes in
    let a₁ = append_in_place first v (omega arith) in
    let s = length-overwrite b.storage b.writer_index first (omega arith) in
    let (b', e, a₂) = append-Appends (drop (writable_bytes b) bytes) a₁.valid (omega arith) in
    (
      b',
      ground (arith, s, n₁, n₂, e),
      record {
        valid = a₂.valid;
        joined =
            a₂.joined
            ∙ ap (λ t. t ++ drop (writable_bytes b) bytes) a₁.joined
            ∙ append_assoc (contents b) first (drop (writable_bytes b) bytes)
            ∙ ap (λ t. contents b ++ t) (take-append-drop (writable_bytes b) bytes);
        no_further = omega (arith, a₂.no_further);
      },
    )

abbrev pub got_bytes : ReadResult → List ℕ
got_bytes (failed errno) = []
got_bytes (got bytes) = bytes

store_read-Appends :
    {b : Buffer} (r : ReadResult)
    → IsValid b
    → length (got_bytes r) ≤ iov_length b
    → length b.storage + extra_size ≤ max_size
    → (b' : Buffer) × (store_read b r ≡ some b') × Appends b (got_bytes r) b'
unfolding store_read iov_length
store_read-Appends {b} (failed errno) v h k = (
  b,
  refl,
  record { valid = v; joined = sym (append-nil (contents b)); no_further = omega arith },
)
store_read-Appends {b} (got bytes) v h k =
    elim (Bool-cases (leb (length bytes) (writable_bytes b))) [
      | inl e ↦ rw e (fill-Appends bytes v (ground arith))
      | inr e ↦ rw e (spill-Appends bytes v (ground arith) (ground arith) (ground arith))
    ]

-- A `readv` that keeps to the memory it is offered adds exactly its bytes to the readable ones, on
-- an error none; the answer is passed on, no assertion fails and nothing outside the vector and
-- `extrabuf` is written.
pub read_fd-Appends :
    {b : Buffer} (readv : ℕ → ReadResult)
    → IsValid b
    → IsBounded readv
    → length b.storage + extra_size ≤ max_size
    → (b' : Buffer) × (read_fd b readv ≡ some (readv (iov_length b), b'))
      × Appends b (got_bytes (readv (iov_length b))) b'
unfolding read_fd
read_fd-Appends {b} readv v bounded k =
    let (b', e, a) = store_read-Appends (readv (iov_length b)) v (small _ refl) k in (b', rw e, a)
  where
    small : (r : ReadResult) → readv (iov_length b) ≡ r → length (got_bytes r) ≤ iov_length b
    small (failed errno) e = omega arith
    small (got bytes) e = bounded (iov_length b) bytes e
