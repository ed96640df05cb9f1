-- ===== src/Logger/Async.antt =====
-- base/logger/AsyncLoggingff.h and base/logger/AsyncLoggingff.cpp: the threads that log fill buffers, and
-- one thread writes them to the files. Each critical section is one step, and so is what the writing
-- thread does between two of them, since no other thread sees it. A buffer is the bytes in it.
pub mod Invariant
pub mod Order
pub mod Safety
mod Tests
use firey.Prelude.{
  ℕ, ◌+◌, ◌-◌, ◌≡◌, Bool, true, false, not, ◌&&◌, ◌||◌, List, [], ◌∷◌, ◌++◌, Option, some, none,
  ◌==◌, ltb, leb, if◌then◌else◌, check, ◌>>=◌, ◌>>◌, length, take, Bytes,
}

-- A unique pointer to a buffer; `none` is null.
abbrev pub BufferPtr : Type 0
BufferPtr = Option Bytes

-- What the threads share under the mutex. `size` is `kLargeBuffer`.
pub record Shared : Type 0 where
  pub size : ℕ
  pub current : BufferPtr
  pub next : BufferPtr
  pub buffers : List BufferPtr

-- The variables of `threadFunc` between two rounds, and what was written to the file so far.
pub record Writer : Type 0 where
  pub new1 : BufferPtr
  pub new2 : BufferPtr
  pub to_write : List BufferPtr
  pub file : List Bytes

pub record Log : Type 0 where
  pub shared : Shared
  pub writer : Writer

unfoldable pub new_log : ℕ → Log
new_log size = record {
  shared = record { size = size; current = some []; next = some []; buffers = [] };
  writer = record { new1 = some []; new2 = some []; to_write = []; file = [] };
}

-- `FixedBufferff::append` and `avail` of a large buffer.
abbrev pub fill : ℕ → Bytes → Bytes → Bytes
fill size b line =
    b ++ (if ltb (size - length b) (length line) then take (size - length b) line else line)

-- The other branch of `append`: a buffer that is full goes to the list.
unfoldable pub rotate : Shared → Bytes → Bytes → Option Shared
rotate s b line =
    let fresh : Bytes = elim s.next [ none ↦ [] | some n ↦ n ] in
    check (leb (length line) (s.size - length fresh))
    >> some (record s {
      buffers = s.buffers ++ (some b ∷ []);
      next = none;
      current = some (fill s.size fresh line);
    })

unfoldable pub append_to : Shared → BufferPtr → Bytes → Option Shared
unfolding rotate
append_to s none line = none
append_to s (some b) line =
    if ltb (length line) (s.size - length b)
    then some (record s { current = some (fill s.size b line) })
    else rotate s b line

unfoldable pub append : Shared → Bytes → Option Shared
unfolding append_to
append s line = append_to s s.current line

abbrev pub is_empty : BufferPtr → Bool
is_empty none = false
is_empty (some b) = length b == 0

-- The round's critical section, after the wait.
unfoldable pub swap : Log → Option Log
swap g = do
  check (is_empty g.writer.new1)
  check (is_empty g.writer.new2)
  check (length g.writer.to_write == 0)
  some (record {
    shared = record g.shared {
      buffers = [];
      current = g.writer.new1;
      next = elim g.shared.next [ none ↦ g.writer.new2 | some n ↦ some n ];
    };
    writer = record g.writer {
      new1 = none;
      new2 = elim g.shared.next [ none ↦ none | some n ↦ g.writer.new2 ];
      to_write = g.shared.buffers ++ (g.shared.current ∷ []);
    };
  })

-- `outputFile.append(buffer->data(), …)` for each buffer.
unfoldable pub contents_of : List BufferPtr → Option (List Bytes)
contents_of [] = some []
contents_of (none ∷ bs) = none
contents_of (some b ∷ bs) = contents_of bs >>= λ cs. some (b ∷ cs)

-- `back()` and `pop_back()`.
unfoldable pub pop_back : List BufferPtr → Option (BufferPtr × List BufferPtr)
pop_back [] = none
pop_back (b ∷ []) = some (b, [])
pop_back (b ∷ (c ∷ bs)) = pop_back (c ∷ bs) >>= λ r. some (r.0, b ∷ r.1)

-- An empty pointer is filled from the written buffers, which `reset` empties.
unfoldable pub refill : BufferPtr → List BufferPtr → Option (BufferPtr × List BufferPtr)
unfolding pop_back
refill (some b) bs = some (some b, bs)
refill none bs = pop_back bs >>= λ r. elim r.0 [ none ↦ none | some b ↦ some (some [], r.1) ]

abbrev pub max_pending : ℕ
max_pending = 25

-- More than 25 buffers are dropped, but for the first two; `notice` is the line about it.
unfoldable pub kept : Bytes → List BufferPtr → List Bytes × List BufferPtr
kept notice bs = if ltb max_pending (length bs) then (notice ∷ [], take 2 bs) else ([], bs)

-- The rest of a round.
unfoldable pub write_round : Bytes → Writer → Option Writer
unfolding kept contents_of refill
write_round notice t = do
  check (not (length t.to_write == 0))
  let k = kept notice t.to_write
  written ← contents_of k.1
  r1 ← refill t.new1 (take 2 k.1)
  r2 ← refill t.new2 r1.1
  some (record { new1 = r1.0; new2 = r2.0; to_write = []; file = t.file ++ (k.0 ++ written) })

-- What the writing thread does next: its critical section, or the rest of its round.
unfoldable pub turn : Bytes → Log → Option Log
turn notice g =
    if length g.writer.to_write == 0
    then swap g
    else write_round notice g.writer >>= λ t. some (record g { writer = t })

-- Any interleaving: lines from the threads that log, and the turns of the writing thread. `lines` is
-- what was logged, oldest first, and `lost` tells whether buffers were dropped.
pub data Reach (size : ℕ) : (lost : Bool) → (lines : List Bytes) → Log → Type 0 where
  starts : Reach size false [] (new_log size)
  logs :
      {lost : Bool} {lines : List Bytes} {g : Log} (line : Bytes) (s : Shared)
      → Reach size lost lines g
      → append g.shared line ≡ some s
      → Reach size lost (lines ++ (line ∷ [])) (record g { shared = s })
  turns :
      {lost : Bool} {lines : List Bytes} {g : Log} (notice : Bytes) (g1 : Log)
      → Reach size lost lines g
      → turn notice g ≡ some g1
      → Reach size (lost || ltb max_pending (length g.writer.to_write)) lines g1
