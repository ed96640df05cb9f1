-- ===== src/Buffer/Tests.antt =====
-- Runs of the methods of net/Bufferff.h, and the theorems at concrete buffers.
use firey.Prelude.{
  ℕ, ◌^◌, ◌+◌, ◌≡◌, refl, List, [], ◌∷◌, ◌++◌, some, none, arith, ◌>>=◌, ◌-◌, length, length-take,
  ap, take, drop, ◌≤◌,
}
use firey.Buffer.{
  Buffer, writable_bytes, ensure_writable_bytes, make_space, move_down, grow, has_written,
  find_eol_from, find_crlf_from, new, append, shrink, find_crlf, search_crlf, search_byte,
}
use firey.Buffer.Contents.{IsValid, contents}
use firey.Buffer.Append.{Appends, append-Appends}
use firey.Buffer.Fresh.{shrink_lem}
use firey.Buffer.Fifo.{
  Call, appends, appends_int, reads_int, takes, takes_all, unwrites, run, queue_step, step,
  run_refines,
}
use firey.Buffer.Ints.{
  int16, int32, int64, prepend_int, read_int, be_bytes, from_be, from_le, le_bytes,
}
use firey.Buffer.Codec.{
  append_message, read_message, read-append_message, read-prepend_int, Message,
}
use firey.Buffer.ReadFd.{
  ReadResult, got, read_fd, iov_length, IsBounded, got_bytes, read_fd-Appends,
}
use firey.Buffer.Search.{find_crlf_first}

-- "abc" behind eight free bytes, and one free byte behind it.
abbrev small : Buffer
small = record {
  storage = 0 ∷ 0 ∷ 0 ∷ 0 ∷ 0 ∷ 0 ∷ 0 ∷ 0 ∷ 97 ∷ 98 ∷ 99 ∷ 0 ∷ [];
  reader_index = 8;
  writer_index = 11;
}

small-IsValid : IsValid small
small-IsValid = omega arith

-- One byte of "abc" is taken; there is no room for two more but in front.
abbrev shifted : Buffer
shifted = record small { reader_index = 10 }

shifted-IsValid : IsValid shifted
shifted-IsValid = omega arith

append_moves_down :
    append shifted (1 ∷ 2 ∷ [])
    ≡ some (record {
      storage = 0 ∷ 0 ∷ 0 ∷ 0 ∷ 0 ∷ 0 ∷ 0 ∷ 0 ∷ 99 ∷ 1 ∷ 2 ∷ 0 ∷ [];
      reader_index = 8;
      writer_index = 11;
    })
unfolding append ensure_writable_bytes make_space move_down has_written
append_moves_down = refl

append_grows :
    append small (1 ∷ 2 ∷ [])
    ≡ some (record {
      storage = 0 ∷ 0 ∷ 0 ∷ 0 ∷ 0 ∷ 0 ∷ 0 ∷ 0 ∷ 97 ∷ 98 ∷ 99 ∷ 1 ∷ 2 ∷ [];
      reader_index = 8;
      writer_index = 13;
    })
unfolding append ensure_writable_bytes make_space grow has_written
append_grows = refl

-- "ab\r\nc\n"
abbrev lines : Buffer
lines = record {
  storage = 0 ∷ 0 ∷ 0 ∷ 0 ∷ 0 ∷ 0 ∷ 0 ∷ 0 ∷ 97 ∷ 98 ∷ 13 ∷ 10 ∷ 99 ∷ 10 ∷ [];
  reader_index = 8;
  writer_index = 14;
}

lines-IsValid : IsValid lines
lines-IsValid = omega arith

find_crlf_from-lines :
    (find_crlf_from lines 9 ≡ some (some 10))
    × (find_crlf_from lines 11 ≡ some none)
    × (find_crlf_from lines 15 ≡ none)
unfolding find_crlf_from search_crlf
find_crlf_from-lines = (refl, refl, refl)

find_eol_from-lines : (find_eol_from lines 12 ≡ some (some 13)) × (find_eol_from lines 7 ≡ none)
unfolding find_eol_from search_byte
find_eol_from-lines = (refl, refl)

abbrev calls : List Call
calls =
    appends (1 ∷ 2 ∷ 3 ∷ [])
    ∷ takes 2
    ∷ appends (4 ∷ [])
    ∷ unwrites 1
    ∷ takes_all
    ∷ appends_int int16 258
    ∷ reads_int int16
    ∷ []

queue_calls :
    run queue_step [] calls ≡ some ([] ∷ (1 ∷ 2 ∷ []) ∷ [] ∷ [] ∷ (3 ∷ []) ∷ [] ∷ (258 ∷ []) ∷ [])
unfolding run queue_step be_bytes from_be from_le le_bytes
queue_calls = refl

run_refines_example : (new 2 >>= λ b. run step b calls) ≡ run queue_step [] calls
run_refines_example = run_refines calls 2 (omega arith) (omega arith)

append-Appends_example :
    (b : Buffer) × (append shifted (1 ∷ 2 ∷ []) ≡ some b) × Appends shifted (1 ∷ 2 ∷ []) b
append-Appends_example = append-Appends (1 ∷ 2 ∷ []) shifted-IsValid (omega arith)

shrink_lem_example :
    (b : Buffer) × (shrink small 5 ≡ some b)
    × IsValid b
    × (contents b ≡ 97 ∷ 98 ∷ 99 ∷ [])
    × (5 ≤ writable_bytes b)
shrink_lem_example = shrink_lem 5 small-IsValid (omega arith) (omega arith)

find_crlf_first_example :
    (n : ℕ) × (find_crlf lines ≡ some (some (8 + n)))
    × (n ≤ 2)
    × (contents lines ≡ take n (contents lines) ++ (13 ∷ 10 ∷ drop (n + 2) (contents lines)))
find_crlf_first_example = find_crlf_first (97 ∷ 98 ∷ []) (99 ∷ 10 ∷ []) lines-IsValid refl

abbrev message : Message
message = (int16, 258) ∷ (int32, 2 ^ 32 - 1) ∷ []

network_order : be_bytes int32 0x01020304 ≡ 1 ∷ 2 ∷ 3 ∷ 4 ∷ []
unfolding be_bytes
network_order = refl

read-append_message_example :
    (b : Buffer) × ((new 4 >>= λ b₀.
    append_message b₀ message >>= λ b₁. read_message b₁ (int16 ∷ int32 ∷ []))
      ≡ some (258 ∷ (2 ^ 32 - 1) ∷ [], b))
    × (contents b ≡ [])
read-append_message_example =
    read-append_message message 4 (omega arith) (omega arith) (omega arith)

read-prepend_int_example :
    (b : Buffer) × ((prepend_int int64 small 7 >>= read_int int64) ≡ some (7, b))
    × IsValid b
    × (contents b ≡ 97 ∷ 98 ∷ 99 ∷ [])
read-prepend_int_example = read-prepend_int int64 7 small-IsValid (omega arith) (omega arith)

-- Three bytes have arrived, and as many are read as there is memory for.
abbrev three_bytes : ℕ → ReadResult
three_bytes n = got (take n (1 ∷ 2 ∷ 3 ∷ []))

three_bytes-IsBounded : IsBounded three_bytes
three_bytes-IsBounded n bytes e =
    omega (arith, ap length (ap got_bytes e), length-take {A = ℕ} n (1 ∷ 2 ∷ 3 ∷ []))

read_fd-Appends_example :
    (b : Buffer) × (read_fd small three_bytes ≡ some (got (1 ∷ 2 ∷ 3 ∷ []), b))
    × Appends small (1 ∷ 2 ∷ 3 ∷ []) b
unfolding iov_length
read_fd-Appends_example =
    read_fd-Appends three_bytes small-IsValid three_bytes-IsBounded (omega arith)
