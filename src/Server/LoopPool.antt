-- ===== src/Server/LoopPool.antt =====
-- net/EventLoopThreadPoolff.h and net/EventLoopThreadPoolff.cpp: the loops of a server. A loop is named by its
-- address, and `start_loop` gives the one that the thread with a number starts.
pub mod Rounds
pub mod Ready
use firey.Prelude.{
  ℕ, zero, suc, ◌+◌, ◌%◌, Bool, true, false, not, List, [], ◌∷◌, Option, some, none, ◌==◌, leb,
  if◌then◌else◌, check, ◌>>=◌, ◌>>◌, length,
}

pub record LoopPool : Type 0 where
  pub base_loop : ℕ
  pub started : Bool
  pub num_threads : ℕ
  pub next : ℕ
  pub loops : List ℕ

abbrev pub new_pool : ℕ → LoopPool
new_pool base = record { base_loop = base; started = false; num_threads = 0; next = 0; loops = [] }

abbrev pub set_thread_num : LoopPool → ℕ → LoopPool
set_thread_num p n = record p { num_threads = n }

-- Of `n` threads, those that are left to start.
unfoldable pub start_loops : (ℕ → ℕ) → (i n : ℕ) → List ℕ
start_loops start_loop i zero = []
start_loops start_loop i (suc n) = start_loop (i + 1) ∷ start_loops start_loop (i + 1) n

-- Without threads, the callback is for the base loop: `some` of it, if it is called.
unfoldable pub start : (ℕ → ℕ) → LoopPool → (has_callback : Bool) → Option (Option ℕ × LoopPool)
unfolding start_loops
start start_loop p has_callback =
    check (not p.started)
    >> some (
      if p.num_threads == 0 then (if has_callback then some p.base_loop else none) else none,
      record p { started = true; loops = start_loops start_loop 0 p.num_threads },
    )

-- `loops_[i]`: an access outside the vector fails.
abbrev pub at : List ℕ → ℕ → Option ℕ
at [] i = none
at (l ∷ ls) zero = some l
at (l ∷ ls) (suc i) = at ls i

abbrev pub advance : ℕ → ℕ → ℕ
advance next size = if leb size (next + 1) then 0 else next + 1

abbrev pub is_empty : List ℕ → Bool
is_empty [] = true
is_empty (l ∷ ls) = false

unfoldable pub get_next_loop : LoopPool → Option (ℕ × LoopPool)
get_next_loop p =
    check p.started
    >> (if not (is_empty p.loops)
        then (at p.loops p.next >>= λ l.
            some (l, record p { next = advance p.next (length p.loops) }))
        else some (p.base_loop, p))

unfoldable pub get_loop_for_hash : LoopPool → ℕ → Option ℕ
get_loop_for_hash p hash =
    if not (is_empty p.loops) then at p.loops (hash % length p.loops) else some p.base_loop

unfoldable pub get_all_loops : LoopPool → Option (List ℕ)
get_all_loops p = check p.started >> some (if is_empty p.loops then p.base_loop ∷ [] else p.loops)
