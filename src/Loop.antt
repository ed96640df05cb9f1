-- ===== src/Loop.antt =====
-- net/EventLoopff.h and net/EventLoopff.cpp: the functors that are queued for the thread of a loop, the
-- descriptor that wakes it up, and `quit`.
pub mod System
use firey.Prelude.{
  ℕ, ◌+◌, Bool, true, false, not, ◌||◌, List, [], ◌∷◌, ◌++◌, Option, some, none, if◌then◌else◌,
  check, ◌>>=◌, ◌>>◌,
}

-- `ticks` is the counter of the eventfd. A functor is a name.
pub record EventLoop : Type 0 where
  pub looping : Bool
  pub quit : Bool
  pub event_handling : Bool
  pub calling_pending_functors : Bool
  pub pending_functors : List ℕ
  pub ticks : ℕ

abbrev pub new_loop : EventLoop
new_loop = record {
  looping = false;
  quit = false;
  event_handling = false;
  calling_pending_functors = false;
  pending_functors = [];
  ticks = 0;
}

-- The write adds to the counter, and the read takes all of it.
abbrev pub wakeup : EventLoop → EventLoop
wakeup l = record l { ticks = l.ticks + 1 }

abbrev pub handle_wakeup_read : EventLoop → EventLoop
handle_wakeup_read l = record l { ticks = 0 }

-- The critical section of `queueInLoop`, and what comes after it.
abbrev pub push_functor : EventLoop → ℕ → EventLoop
push_functor l f = record l { pending_functors = l.pending_functors ++ (f ∷ []) }

abbrev pub wakes : EventLoop → (is_in_loop_thread : Bool) → Bool
wakes l is_in_loop_thread = not is_in_loop_thread || l.calling_pending_functors

unfoldable pub queue_in_loop : EventLoop → (is_in_loop_thread : Bool) → ℕ → EventLoop
queue_in_loop l is_in_loop_thread f =
    let l1 = push_functor l f in if wakes l1 is_in_loop_thread then wakeup l1 else l1

-- Whether the functor is called at once.
unfoldable pub run_in_loop : EventLoop → (is_in_loop_thread : Bool) → ℕ → Option ℕ × EventLoop
unfolding queue_in_loop
run_in_loop l is_in_loop_thread f =
    if is_in_loop_thread then (some f, l) else (none, queue_in_loop l is_in_loop_thread f)

-- `quit`, without the wakeup of another thread's call.
unfoldable pub set_quit : EventLoop → Option EventLoop
set_quit l = check (not l.quit) >> some (record l { quit = true })

unfoldable pub quit_loop : EventLoop → (is_in_loop_thread : Bool) → Option EventLoop
unfolding set_quit
quit_loop l is_in_loop_thread =
    set_quit l >>= λ l1. some (if not is_in_loop_thread then wakeup l1 else l1)

-- `loop` up to the first test, and behind the last.
unfoldable pub start_loop : EventLoop → Option EventLoop
start_loop l = check (not l.looping) >> some (record l { looping = true })

abbrev pub stop_loop : EventLoop → EventLoop
stop_loop l = record l { looping = false }

abbrev pub handling : Bool → EventLoop → EventLoop
handling b l = record l { event_handling = b }

-- `doPendingFunctors`: the functors that are taken, and the end.
abbrev pub take_functors : EventLoop → List ℕ × EventLoop
take_functors l =
    (l.pending_functors, record l { calling_pending_functors = true; pending_functors = [] })

abbrev pub end_functors : EventLoop → EventLoop
end_functors l = record l { calling_pending_functors = false }
