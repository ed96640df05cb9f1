-- ===== src/Timers.antt =====
-- net/Timerff.h, net/Timerff.cpp, net/TimerIdff.h, net/TimerQueueff.h and net/TimerQueueff.cpp in the thread of
-- the loop. A `Timerff*` is an address of the heap, a `TimerIdff` an address with a sequence number, and a
-- time is in microseconds.
pub mod PairSet
pub mod Links
pub mod Pending
pub mod Steps
pub mod Expired
pub mod Fires
pub mod After
pub mod Alarm
pub mod Runs
pub mod Cancelled
pub mod Delay
mod Tests
use firey.Prelude.{
  ℕ, ◌+◌, ◌-◌, ◌*◌, ◌/◌, ◌%◌, ◌^◌, Bool, true, false, not, ◌&&◌, List, [], ◌∷◌, ◌++◌, Option, some,
  none, ◌==◌, ltb, if◌then◌else◌, length,
}
use PairSet.{Pair, pair_lt, insert, erase, has}

-- What a call comes to: `throws` is std::bad_alloc, and `fails` a failed assertion or the use of a timer
-- that was deleted.
pub data Result (A : Type 0) : Type 0 where
  ok : A → Result A
  throws fails : Result A

infixl 5 ◌>>=◌ ◌>>◌
abbrev pub ◌>>=◌ : {A B : Type 0} → Result A → (A → Result B) → Result B
ok a >>= f = f a
throws >>= f = throws
fails >>= f = fails

abbrev pub ◌>>◌ : {B : Type 0} → Result (Unit {0}) → Result B → Result B
m >> k = m >>= λ u. k

abbrev pub check : Bool → Result (Unit {0})
check true = ok tt
check false = fails

-- A `double` of seconds: whether it is above 0, and what `addTime` makes of it.
pub record Interval : Type 0 where
  pub positive : Bool
  pub micros : ℕ

-- `callback` names a callback.
pub record Timer : Type 0 where
  pub callback : ℕ
  pub interval : Interval
  pub is_repeat : Bool
  pub expire_time : ℕ
  pub sequence : ℕ

-- `created` is `timerCreated_` before.
abbrev pub new_timer : ℕ → ℕ → ℕ → Interval → Timer
new_timer created callback when interval = record {
  callback = callback;
  interval = interval;
  is_repeat = interval.positive;
  expire_time = when;
  sequence = (created + 1) % 2 ^ 64;
}

abbrev pub restart : Timer → ℕ → Timer
restart t now = record t { expire_time = if t.is_repeat then now + t.interval.micros else 0 }

abbrev pub Heap : Type 0
Heap = ℕ → Option Timer

abbrev pub write : Heap → ℕ → Option Timer → Heap
write heap a v = λ x. if x == a then v else heap x

abbrev pub load : Heap → ℕ → Result Timer
load heap a = elim (heap a) [ none ↦ fails | some t ↦ ok t ]

-- What timerfd_settime was called with, and what the clock read then, in microseconds.
pub record Setting : Type 0 where
  pub set_at : ℕ
  pub seconds : ℕ
  pub nanoseconds : ℕ

-- What `Timestampff::now` answers to the calls of `howMuchTimeFromNow`, by their number, and whether
-- timerfd_settime takes a delay.
pub record Kernel : Type 0 where
  pub clock : ℕ → ℕ
  pub takes : (seconds nanoseconds : ℕ) → Bool

-- `armed` is the setting of the timer descriptor, `resets` counts the calls of `resetTimerfd`, and `ran` are
-- the callbacks so far.
pub record TimerQueue : Type 0 where
  pub heap : Heap
  pub created : ℕ
  pub timers : List Pair
  pub active_timers : List Pair
  pub calling_expired_timers : Bool
  pub canceling_timers : List Pair
  pub kernel : Kernel
  pub resets : ℕ
  pub armed : Option Setting
  pub ran : List ℕ

abbrev pub new_queue : Kernel → ℕ → TimerQueue
new_queue kernel created = record {
  kernel = kernel;
  resets = 0;
  heap = λ a. none;
  created = created;
  timers = [];
  active_timers = [];
  calling_expired_timers = false;
  canceling_timers = [];
  armed = none;
  ran = [];
}

abbrev pub sizes_match : List Pair → List Pair → Bool
sizes_match timers active = length timers == length active

-- The pair that `howMuchTimeFromNow` gives: seconds and nanoseconds.
unfoldable pub how_much_time_from_now : ℕ → ℕ → ℕ × ℕ
how_much_time_from_now when now =
    let micros = if ltb (when - now) 100 then 100 else when - now in
    (micros / 1000000, micros % 1000000 * 1000)

abbrev pub setting : TimerQueue → ℕ → Setting
setting q when =
    let now = q.kernel.clock q.resets in
    let delay = how_much_time_from_now when now in
    record { set_at = now; seconds = delay.0; nanoseconds = delay.1 }

-- A call of timerfd_settime that fails is logged, and leaves the descriptor as it is.
abbrev pub reset_timerfd : TimerQueue → ℕ → TimerQueue
reset_timerfd q when = record q {
  resets = q.resets + 1;
  armed =
      if q.kernel.takes (setting q when).seconds (setting q when).nanoseconds
      then some (setting q when)
      else q.armed;
}

abbrev pub is_earliest : ℕ → List Pair → Bool
is_earliest when [] = true
is_earliest when (n ∷ ns) = ltb when n.0

unfoldable pub insert_timer : TimerQueue → ℕ → Result (Bool × TimerQueue)
insert_timer q a = do
  check (sizes_match q.timers q.active_timers)
  t ← load q.heap a
  let timers = insert (t.expire_time, a) q.timers
  let active = insert (a, t.sequence) q.active_timers
  check (sizes_match timers active)
  ok (is_earliest t.expire_time q.timers, record q { timers = timers; active_timers = active })

unfoldable pub add_timer_in_loop : TimerQueue → ℕ → Result TimerQueue
unfolding insert_timer
add_timer_in_loop q a = do
  r ← insert_timer q a
  t ← load q.heap a
  ok (if r.0 then reset_timerfd r.1 t.expire_time else r.1)

unfoldable pub cancel_in_loop : TimerQueue → Pair → Result TimerQueue
cancel_in_loop q id = do
  check (sizes_match q.timers q.active_timers)
  q1 ←
      (if has id q.active_timers
        then (load q.heap id.0 >>= λ t. ok (record q {
          timers = erase (t.expire_time, id.0) q.timers;
          heap = write q.heap id.0 none;
          active_timers = erase id q.active_timers;
        }))
        else ok (
            if q.calling_expired_timers
            then record q { canceling_timers = insert id q.canceling_timers }
            else q))
  check (sizes_match q1.timers q1.active_timers)
  ok q1

-- `lower_bound`: what is below the sentry, and the rest.
unfoldable pub lower_bound : Pair → List Pair → List Pair × List Pair
lower_bound sentry [] = ([], [])
lower_bound sentry (n ∷ ns) =
    if pair_lt n sentry
    then (n ∷ (lower_bound sentry ns).0, (lower_bound sentry ns).1)
    else ([], n ∷ ns)

-- `UINTPTR_MAX`
abbrev pub max_address : ℕ
max_address = 2 ^ 64 - 1

abbrev pub starts_after : ℕ → List Pair → Bool
starts_after now [] = true
starts_after now (n ∷ ns) = ltb now n.0

unfoldable pub erase_expired : Heap → List Pair → List Pair → Result (List Pair)
erase_expired heap [] active = ok active
erase_expired heap (n ∷ ns) active =
    load heap n.1 >>= λ t. erase_expired heap ns (erase (n.1, t.sequence) active)

unfoldable pub get_expired_timer : TimerQueue → ℕ → Result (List Pair × TimerQueue)
get_expired_timer q now = do
  check (sizes_match q.timers q.active_timers)
  let split = lower_bound (now, max_address) q.timers
  check (starts_after now split.1)
  active ← erase_expired q.heap split.0 q.active_timers
  check (sizes_match split.1 active)
  ok (split.0, record q { timers = split.1; active_timers = active })

unfoldable pub reset_expired : TimerQueue → ℕ → List Pair → Result TimerQueue
reset_expired q now [] = ok q
reset_expired q now (n ∷ ns) = do
  t ← load q.heap n.1
  q1 ←
      (if t.is_repeat && not (has (n.1, t.sequence) q.canceling_timers)
        then (insert_timer (record q { heap = write q.heap n.1 (some (restart t now)) }) n.1
            >>= λ r. ok r.1)
        else ok (record q { heap = write q.heap n.1 none }))
  reset_expired q1 now ns

-- The end of `reset`: a time of 0 is not valid.
abbrev pub arm_next : TimerQueue → List Pair → TimerQueue
arm_next q [] = q
arm_next q (n ∷ ns) = if n.0 == 0 then q else reset_timerfd q n.0

unfoldable pub reset : TimerQueue → List Pair → ℕ → Result TimerQueue
unfolding reset_expired
reset q expired now = reset_expired q now expired >>= λ q1. ok (arm_next q1 q1.timers)

-- What a callback or another user in the thread of the loop calls: `addTimer` and `cancel`.
pub data Command : Type 0 where
  add : (callback when : ℕ) → Interval → Command
  cancel : Pair → Command

-- `addTimer` with what operator new gives.
unfoldable pub add_timer_at : TimerQueue → ℕ → ℕ → Interval → Option ℕ → Result (Pair × TimerQueue)
unfolding add_timer_in_loop
add_timer_at q callback when interval none = throws
add_timer_at q callback when interval (some a) =
    let t = new_timer q.created callback when interval in
    add_timer_in_loop (record q { heap = write q.heap a (some t); created = t.sequence }) a
    >>= λ q1. ok ((a, t.sequence), q1)

-- `alloc` is operator new: an address that is free, or none. A callback calls what `behaviour` says, which
-- may depend on all of the state.
module _ (alloc : Heap → Option ℕ) where
  unfoldable pub add_timer : TimerQueue → ℕ → ℕ → Interval → Result (Pair × TimerQueue)
  unfolding add_timer_at
  add_timer q callback when interval = add_timer_at q callback when interval (alloc q.heap)

  unfoldable pub command : TimerQueue → Command → Result TimerQueue
  unfolding add_timer cancel_in_loop
  command q (add callback when interval) = add_timer q callback when interval >>= λ r. ok r.1
  command q (cancel id) = cancel_in_loop q id

  unfoldable pub commands : TimerQueue → List Command → Result TimerQueue
  unfolding command
  commands q [] = ok q
  commands q (c ∷ cs) = command q c >>= λ q1. commands q1 cs

  module _ (behaviour : TimerQueue → ℕ → List Command) where
    unfoldable pub run_expired : TimerQueue → List Pair → Result TimerQueue
    unfolding commands
    run_expired q [] = ok q
    run_expired q (n ∷ ns) = do
      t ← load q.heap n.1
      q1 ← commands (record q { ran = q.ran ++ (t.callback ∷ []) }) (behaviour q t.callback)
      run_expired q1 ns

    unfoldable pub handle_timerfd_read : TimerQueue → ℕ → Result TimerQueue
    unfolding get_expired_timer run_expired reset
    handle_timerfd_read q now = do
      r ← get_expired_timer q now
      q1 ← run_expired (record r.1 { calling_expired_timers = true; canceling_timers = [] }) r.0
      reset (record q1 { calling_expired_timers = false }) r.0 now
