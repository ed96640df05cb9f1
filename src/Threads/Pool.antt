-- ===== src/Threads/Pool.antt =====
-- base/thread/ThreadPoolff.h and base/thread/ThreadPoolff.cpp. Each critical section is one step, from taking
-- the mutex, or from waking up with it, until it is released or waited with. A task is a name.
pub mod Safety
pub mod Sections
pub mod System
use firey.Prelude.{
  ℕ, zero, suc, ◌+◌, Bool, true, false, not, ◌&&◌, List, [], ◌∷◌, ◌++◌, Option, some, none, ◌==◌,
  ltb, leb, if◌then◌else◌, check, ◌>>◌, length,
}

pub record ThreadPool : Type 0 where
  pub threads : ℕ
  pub max_queue_size : ℕ
  pub running : Bool
  pub queue : List ℕ

abbrev pub new_pool : ThreadPool
new_pool = record { threads = 0; max_queue_size = 0; running = false; queue = [] }

abbrev pub set_max_queue_size : ThreadPool → ℕ → ThreadPool
set_max_queue_size p n = record p { max_queue_size = n }

unfoldable pub start : ThreadPool → ℕ → Option ThreadPool
start p n = check (p.threads == 0) >> some (record p { running = true; threads = n })

abbrev pub is_full : ThreadPool → Bool
is_full p = ltb 0 p.max_queue_size && leb p.max_queue_size (length p.queue)

-- What one passage through the critical section of `run` comes to.
pub data Answer : Type 0 where
  full refused : Answer
  accepted : ThreadPool → Answer

unfoldable pub run_locked : ThreadPool → ℕ → Option Answer
run_locked p task =
    if is_full p && p.running
    then some full
    else if not p.running
    then some refused
    else (check (not (is_full p)) >> some (accepted (record p { queue = p.queue ++ (task ∷ []) })))

-- The same of `take`.
pub data Taken : Type 0 where
  empty nothing : Taken
  took : (task : ℕ) → ThreadPool → Taken

abbrev pub pop_front : ThreadPool → List ℕ → Taken
pop_front p [] = nothing
pop_front p (t ∷ ts) = took t (record p { queue = ts })

abbrev pub is_empty : List ℕ → Bool
is_empty [] = true
is_empty (t ∷ ts) = false

unfoldable pub take_locked : ThreadPool → Taken
take_locked p = if is_empty p.queue && p.running then empty else pop_front p p.queue

abbrev pub stop_locked : ThreadPool → ThreadPool
stop_locked p = record p { running = false }

-- The threads in `wait` on a condition, and those of them that were notified and have not got the mutex.
pub record Waiters : Type 0 where
  pub waiting : ℕ
  pub notified : ℕ

abbrev pub notify_one : (waiting notified : ℕ) → Waiters
notify_one zero n = record { waiting = 0; notified = n }
notify_one (suc w) n = record { waiting = w; notified = n + 1 }

abbrev pub notify : Waiters → Waiters
notify w = notify_one w.waiting w.notified

abbrev pub notify_all : Waiters → Waiters
notify_all w = record { waiting = 0; notified = w.notified + w.waiting }

abbrev pub wait : Waiters → Waiters
wait w = record w { waiting = w.waiting + 1 }

-- The end of `take`: only a bounded queue has anyone waiting for room.
abbrev pub notify_room : ThreadPool → Waiters → Waiters
notify_room p w = if ltb 0 p.max_queue_size then notify w else w
