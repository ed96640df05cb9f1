-- ===== src/Buffer.antt =====
-- net/Bufferff.h and net/Bufferff.cpp: the byte buffer of a connection. `storage` is the vector;
-- a `const char*` into it is an index. A method returns `none` where an `assert` fails, where the
-- vector throws, and where it would touch a byte outside the vector.
pub mod Contents
pub mod Room
pub mod Append
pub mod Retrieve
pub mod Fresh
pub mod Ints
pub mod ReadFd
pub mod Search
pub mod Fifo
pub mod Codec
mod Tests
use mathlib.Core.Option
use firey.Prelude.{
  ℕ, ◌+◌, ◌-◌, ◌%◌, ◌^◌, ◌&&◌, List, [], ◌∷◌, ◌++◌, Option, none, some, ltb, leb, ◌==◌,
  if◌then◌else◌, length, take, drop, replicate, overwrite, add_size, sub_size, check, ◌>>=◌, ◌>>◌,
}

pub record Buffer : Type 0 where
  pub storage : List ℕ
  pub reader_index : ℕ
  pub writer_index : ℕ

abbrev pub cheap_prepend : ℕ
cheap_prepend = 8

abbrev pub initial_size : ℕ
initial_size = 1024

-- `std::vector<char>::max_size()`
abbrev pub max_size : ℕ
max_size = 2 ^ 63 - 1

-- `std::vector::resize`: new bytes are zero, and a length above the limit throws.
abbrev pub resize : List ℕ → ℕ → Option (List ℕ)
resize s n = if leb n max_size then some (take n s ++ replicate (n - length s) 0) else none

-- `std::copy` into the vector at index `i`.
abbrev pub copy_in : List ℕ → ℕ → List ℕ → Option (List ℕ)
copy_in s i bytes = if leb (i + length bytes) (length s) then some (overwrite s i bytes) else none

-- The `n` bytes from index `i` on.
abbrev pub read_range : List ℕ → ℕ → ℕ → Option (List ℕ)
read_range s i n = if leb (i + n) (length s) then some (take n (drop i s)) else none

abbrev pub readable_bytes : Buffer → ℕ
readable_bytes b = sub_size b.writer_index b.reader_index

abbrev pub writable_bytes : Buffer → ℕ
writable_bytes b = sub_size (length b.storage) b.writer_index

abbrev pub prependable_bytes : Buffer → ℕ
prependable_bytes b = b.reader_index

abbrev pub peek : Buffer → ℕ
peek b = b.reader_index

-- Nothing to read, and all behind `cheap_prepend` to write.
abbrev pub fresh : List ℕ → Buffer
fresh s = record { storage = s; reader_index = cheap_prepend; writer_index = cheap_prepend }

pub new : ℕ → Option Buffer
new size = do
  s ← resize [] (add_size cheap_prepend size)
  let b = fresh s
  check (readable_bytes b == 0)
  check (writable_bytes b == size)
  check (prependable_bytes b == cheap_prepend)
  some b

-- `std::search` for "\r\n": the offset of the first one.
unfoldable pub search_crlf : List ℕ → Option ℕ
search_crlf [] = none
search_crlf (x ∷ []) = none
search_crlf (x ∷ y ∷ r) =
    if x == b'\r' && y == b'\n' then some 0 else Option.map (λ n. n + 1) (search_crlf (y ∷ r))

-- `memchr`
pub search_byte : ℕ → List ℕ → Option ℕ
search_byte c [] = none
search_byte c (x ∷ r) = if x == c then some 0 else Option.map (λ n. n + 1) (search_byte c r)

-- The inner option is `NULL`.
pub find_crlf_from : Buffer → ℕ → Option (Option ℕ)
find_crlf_from b start = do
  check (leb (peek b) start)
  check (leb start b.writer_index)
  bytes ← read_range b.storage start (b.writer_index - start)
  some (Option.map (λ n. start + n) (search_crlf bytes))

pub find_crlf : Buffer → Option (Option ℕ)
find_crlf b = do
  bytes ← read_range b.storage (peek b) (readable_bytes b)
  some (Option.map (λ n. peek b + n) (search_crlf bytes))

pub find_eol_from : Buffer → ℕ → Option (Option ℕ)
find_eol_from b start = do
  check (leb (peek b) start)
  check (leb start b.writer_index)
  bytes ← read_range b.storage start (b.writer_index - start)
  some (Option.map (λ n. start + n) (search_byte b'\n' bytes))

pub find_eol : Buffer → Option (Option ℕ)
find_eol b = do
  bytes ← read_range b.storage (peek b) (readable_bytes b)
  some (Option.map (λ n. peek b + n) (search_byte b'\n' bytes))

pub retrieve_all : Buffer → Buffer
retrieve_all b = record b { reader_index = cheap_prepend; writer_index = cheap_prepend }

pub retrieve : Buffer → ℕ → Option Buffer
retrieve b len = do
  check (leb len (readable_bytes b))
  some (
      if ltb len (readable_bytes b)
      then record b { reader_index = add_size b.reader_index len }
      else retrieve_all b)

pub retrieve_until : Buffer → ℕ → Option Buffer
retrieve_until b end = do
  check (leb (peek b) end)
  check (leb end b.writer_index)
  retrieve b (sub_size end (peek b))

pub retrieve_as_string : Buffer → ℕ → Option (List ℕ × Buffer)
retrieve_as_string b len = do
  check (leb len (readable_bytes b))
  result ← read_range b.storage (peek b) len
  b' ← retrieve b len
  some (result, b')

pub retrieve_all_as_string : Buffer → Option (List ℕ × Buffer)
retrieve_all_as_string b = retrieve_as_string b (readable_bytes b)

-- The length goes through `int`: one that turns negative is an impossible string length.
pub to_string : Buffer → Option (List ℕ)
to_string b = do
  let n = readable_bytes b % 2 ^ 32
  check (ltb n (2 ^ 31))
  read_range b.storage (peek b) n

pub has_written : Buffer → ℕ → Option Buffer
has_written b len = do
  check (leb len (writable_bytes b))
  some (record b { writer_index = add_size b.writer_index len })

pub unwrite : Buffer → ℕ → Option Buffer
unwrite b len = do
  check (leb len (readable_bytes b))
  some (record b { writer_index = sub_size b.writer_index len })

-- Grow the vector, or move the readable bytes down to `cheap_prepend`.
grow : Buffer → ℕ → Option Buffer
grow b len = do s ← resize b.storage (add_size b.writer_index len); some (record b { storage = s })

move_down : Buffer → Option Buffer
move_down b = do
  check (ltb cheap_prepend b.reader_index)
  let readable = readable_bytes b
  bytes ← read_range b.storage b.reader_index (b.writer_index - b.reader_index)
  s ← copy_in b.storage cheap_prepend bytes
  let b' = record b {
    storage = s;
    reader_index = cheap_prepend;
    writer_index = add_size cheap_prepend readable;
  }
  check (readable == readable_bytes b')
  some b'

make_space : Buffer → ℕ → Option Buffer
make_space b len =
    if ltb (add_size (writable_bytes b) (prependable_bytes b)) (add_size len cheap_prepend)
    then grow b len
    else move_down b

pub ensure_writable_bytes : Buffer → ℕ → Option Buffer
ensure_writable_bytes b len = do
  b' ← if ltb (writable_bytes b) len then make_space b len else some b
  check (leb len (writable_bytes b'))
  some b'

pub append : Buffer → List ℕ → Option Buffer
append b bytes = do
  b' ← ensure_writable_bytes b (length bytes)
  s ← copy_in b'.storage b'.writer_index bytes
  has_written (record b' { storage = s }) (length bytes)

pub prepend : Buffer → List ℕ → Option Buffer
prepend b bytes = do
  check (leb (length bytes) (prependable_bytes b))
  let r = sub_size b.reader_index (length bytes)
  s ← copy_in b.storage r bytes
  some (record b { storage = s; reader_index = r })

-- The `swap` at the end leaves the new buffer in place of this one.
pub shrink : Buffer → ℕ → Option Buffer
shrink b reserve = do
  other ← new initial_size
  roomy ← ensure_writable_bytes other (add_size (readable_bytes b) reserve)
  bytes ← to_string b
  append roomy bytes
