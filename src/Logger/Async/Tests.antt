-- ===== src/Logger/Async/Tests.antt =====
-- A run of base/logger/AsyncLoggingff.cpp with buffers of four bytes, and the theorems on it.
use firey.Prelude.{◌≡◌, refl, false, List, [], ◌∷◌, some, none, arith, Bytes}
use firey.Logger.Async.{
  Shared, Log, new_log, append, rotate, swap, turn, Reach, starts, logs, turns,
}
use firey.Logger.Async.Invariant.{held}
use firey.Logger.Async.Safety.{append-turn_lem, held-Reach}

-- Two lines, the second of which wants a new buffer; a turn; and a third line.
abbrev pending : Log
pending = record {
  shared = record { size = 4; current = some (6 ∷ []); next = some []; buffers = [] };
  writer = record {
    new1 = none;
    new2 = none;
    to_write = some (1 ∷ 2 ∷ 3 ∷ []) ∷ some (4 ∷ 5 ∷ []) ∷ [];
    file = [];
  };
}

abbrev lines : List Bytes
lines = (1 ∷ 2 ∷ 3 ∷ []) ∷ (4 ∷ 5 ∷ []) ∷ (6 ∷ []) ∷ []

abbrev swapped : Log
swapped = record pending {
  shared = record { size = 4; current = some []; next = some []; buffers = [] };
}

abbrev one_line : Shared
one_line = record { size = 4; current = some (1 ∷ 2 ∷ 3 ∷ []); next = some []; buffers = [] }

abbrev two_lines : Shared
two_lines = record {
  size = 4;
  current = some (4 ∷ 5 ∷ []);
  next = none;
  buffers = some (1 ∷ 2 ∷ 3 ∷ []) ∷ [];
}

pending-Reach : Reach 4 false lines pending
unfolding new_log append rotate turn swap
pending-Reach =
    logs (6 ∷ []) pending.shared
      (turns [] swapped
        (logs (4 ∷ 5 ∷ []) two_lines (logs (1 ∷ 2 ∷ 3 ∷ []) one_line starts refl) refl) refl)
      refl

-- A line of four bytes into the buffer that has one, and the write.
append-turn_lem_example :
    ((s : Shared) × (append pending.shared (7 ∷ 7 ∷ 7 ∷ 7 ∷ []) ≡ some s))
    × ((g1 : Log) × (turn [] pending ≡ some g1))
append-turn_lem_example = append-turn_lem (7 ∷ 7 ∷ 7 ∷ 7 ∷ []) [] pending-Reach (omega arith)

held-Reach_example : held pending ≡ 1 ∷ 2 ∷ 3 ∷ 4 ∷ 5 ∷ 6 ∷ []
held-Reach_example = held-Reach pending-Reach
