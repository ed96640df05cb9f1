-- ===== src/Timers/Tests.antt =====
-- A run of net/TimerQueueff.cpp, and the theorems at concrete queues.
use firey.Prelude.{
  ℕ, ◌+◌, ◌*◌, ◌≤◌, ◌<◌, ◌≡◌, refl, Bool, true, false, List, [], ◌∷◌, Option, some, none, arith,
  ltb, ◌==◌, if◌then◌else◌,
}
use mathlib.Core.Path.{subst}
use mathlib.Core.Option.{some-injective}
use firey.Timers.PairSet.{Pair, insert, erase, has}
use firey.Timers.{
  Result, ok, throws, fails, Interval, Timer, Kernel, Setting, Heap, TimerQueue, new_queue,
  new_timer, Command, add, cancel, handle_timerfd_read, get_expired_timer, lower_bound,
  erase_expired, run_expired, commands, command, add_timer, insert_timer, cancel_in_loop, reset,
  reset_expired, how_much_time_from_now,
}
use firey.Timers.Links.{Linked}
use firey.Timers.Steps.{Holds, done, Documented, Ready, command-Ready}
use firey.Timers.Expired.{due, callbacks, Took, get_expired_timer-Ready}
use firey.Timers.Fires.{idle, frame, handle_timerfd_read-Ready}
use firey.Timers.Alarm.{Settable}
use firey.Timers.Runs.{Event, calls, fires, run, run-Linked, new_queue-Settled}
use firey.Timers.Delay.{how_much_time_from_now_lem}
use firey.Timers.Cancelled.{Gone, OthersLeft, cancel_in_loop-Gone, reset_expired-StaysOut}

-- Memory for two timers.
abbrev second : Option Timer → Option ℕ
second none = some 101
second (some t) = none

abbrev first : Heap → Option Timer → Option ℕ
first heap none = some 100
first heap (some t) = second (heap 101)

abbrev alloc : Heap → Option ℕ
alloc heap = first heap (heap 100)

second_lem :
    (heap : Heap) (a : ℕ) (o : Option Timer)
    → heap 101 ≡ o
    → second o ≡ some a
    → (heap a ≡ none) × (a < 102)
second_lem heap a none e h = (
  subst (λ x. heap x ≡ none) (some-injective 101 a h) e,
  subst (λ x. x < 102) (some-injective 101 a h) (omega arith),
)
second_lem heap a (some t) e h = cc

first_lem :
    (heap : Heap) (a : ℕ) (o : Option Timer)
    → heap 100 ≡ o
    → first heap o ≡ some a
    → (heap a ≡ none) × (a < 102)
first_lem heap a none e h = (
  subst (λ x. heap x ≡ none) (some-injective 100 a h) e,
  subst (λ x. x < 102) (some-injective 100 a h) (omega arith),
)
first_lem heap a (some t) e h = second_lem heap a (heap 101) refl h

alloc-Documented : Documented alloc
alloc-Documented = record {
  is_free = λ heap a e. (first_lem heap a (heap 100) refl e).0;
  below = λ heap a e. omega (arith, (first_lem heap a (heap 100) refl e).1);
}

abbrev once : Interval
once = record { positive = false; micros = 0 }

abbrev often : Interval
often = record { positive = true; micros = 10 }

abbrev quiet : TimerQueue → ℕ → List Command
quiet q callback = []

-- A repeated timer cancels itself when it runs.
abbrev self_cancel : TimerQueue → ℕ → List Command
self_cancel q callback = if callback == 8 then cancel (101, 2) ∷ [] else []

abbrev events : List Event
events =
    calls (add 7 5 once)
    ∷ calls (add 8 3 often)
    ∷ fires true 4 (omega arith) quiet
    ∷ fires true 20 (omega arith) self_cancel
    ∷ calls (cancel (100, 1))
    ∷ []

-- The clock goes on by two microseconds from call to call.
abbrev kernel : Kernel
kernel = record { clock = λ n. n + n; takes = λ seconds nanoseconds. ltb nanoseconds 1000000000 }

-- The state at the end, but for the heap.
abbrev view : Result TimerQueue → Option (List Pair × List Pair × Option Setting × List ℕ)
view (ok q) = some (q.timers, q.active_timers, q.armed, q.ran)
view throws = none
view fails = none

ran_in_order : view (run alloc (new_queue kernel 0) events) ≡ some ([], [], none, 8 ∷ 7 ∷ 8 ∷ [])
unfolding run handle_timerfd_read get_expired_timer lower_bound erase_expired run_expired commands
    command add_timer reset reset_expired insert erase has insert_timer cancel_in_loop
ran_in_order = refl

run-Linked_example :
    Holds true (λ q. Linked q.heap q.timers q.active_timers) (run alloc (new_queue kernel 0) events)
run-Linked_example = run-Linked alloc kernel 0 events alloc-Documented

abbrev one_timer : TimerQueue
one_timer = record (new_queue kernel 0) {
  heap = λ a. if a == 100 then some (new_timer 0 7 5 often) else none;
  created = 1;
  timers = (5, 100) ∷ [];
  active_timers = (100, 1) ∷ [];
  resets = 1;
  armed = some (record { set_at = 0; seconds = 0; nanoseconds = 100000 });
}

of_holds : {A : Type 0} {P : A → Type 0} {b : Bool} {a : A} → Holds b P (ok a) → P a
of_holds (done p) = p

one_timer-Ready : Ready (idle []) one_timer
unfolding command add_timer insert_timer insert how_much_time_from_now
one_timer-Ready = of_holds (
    command-Ready alloc (new_queue kernel 0) (add 7 5 often) (idle []) alloc-Documented
      (new_queue-Settled {Works = Settable kernel} kernel 0 λ works. works).ready)

handle_timerfd_read-Ready_example :
    Holds true
      (Ready (idle (callbacks one_timer.heap (due 9 one_timer.timers))))
      (handle_timerfd_read alloc self_cancel one_timer 9)
handle_timerfd_read-Ready_example =
    handle_timerfd_read-Ready alloc self_cancel one_timer 9 alloc-Documented one_timer-Ready

-- A second timer, for an earlier time, and the first is cancelled.
abbrev two_timers : TimerQueue
two_timers = record one_timer {
  heap = λ a.
      if a == 101
      then some (new_timer 1 8 3 once)
      else if a == 100
      then some (new_timer 0 7 5 often)
      else none;
  created = 2;
  timers = (3, 101) ∷ (5, 100) ∷ [];
  active_timers = (100, 1) ∷ (101, 2) ∷ [];
  resets = 2;
  armed = some (record { set_at = 2; seconds = 0; nanoseconds = 100000 });
}

two_timers-Ready : Ready (idle []) two_timers
unfolding command add_timer insert_timer insert how_much_time_from_now
two_timers-Ready =
    of_holds
      (command-Ready alloc one_timer (add 8 3 once) (idle []) alloc-Documented one_timer-Ready)

cancel_in_loop-Gone_example :
    Holds false
      (λ q1.
        Gone (100, 1) two_timers.active_timers q1.active_timers
        × OthersLeft (100, 1) two_timers.timers q1.timers
        × Linked q1.heap q1.timers q1.active_timers)
      (cancel_in_loop two_timers (100, 1))
cancel_in_loop-Gone_example = cancel_in_loop-Gone two_timers (100, 1) two_timers-Ready

-- The repeated timer is taken out, and cancelled meanwhile.
abbrev taken_out : TimerQueue
taken_out = record one_timer { timers = []; active_timers = []; canceling_timers = (100, 1) ∷ [] }

taken_out-Ready : Ready (frame ((5, 100) ∷ []) (7 ∷ []) []) taken_out
unfolding get_expired_timer lower_bound erase_expired erase
taken_out-Ready =
    let took : Took one_timer 9 []
        ((5, 100) ∷ [], record one_timer { timers = []; active_timers = [] }) =
      of_holds {b = false} (get_expired_timer-Ready one_timer 9 [] one_timer-Ready) in
    record {
      linked = took.2.linked;
      pending = took.2.pending;
      named = took.2.named;
      same_ran = took.2.same_ran;
    }

reset_expired-StaysOut_example :
    Holds false
      (λ q1. Ready (idle []) q1 × (has (100, 1) q1.active_timers ≡ false))
      (reset_expired taken_out 9 ((5, 100) ∷ []))
unfolding has
reset_expired-StaysOut_example =
    reset_expired-StaysOut taken_out 9 ((5, 100) ∷ []) (7 ∷ []) [] (100, 1) taken_out-Ready refl
      refl

-- A time that is over.
how_much_time_from_now_lem_example :
    ((how_much_time_from_now 5 9).1 < 1000000000)
    × (100000 ≤ (how_much_time_from_now 5 9).0 * 1000000000 + (how_much_time_from_now 5 9).1)
    × (5 * 1000
        ≤ 9 * 1000 + ((how_much_time_from_now 5 9).0 * 1000000000 + (how_much_time_from_now 5 9).1))
how_much_time_from_now_lem_example = how_much_time_from_now_lem 5 9
