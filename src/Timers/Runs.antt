-- ===== src/Timers/Runs.antt =====
-- Any use of a queue of net/TimerQueueff.cpp, in the thread of its loop.
use firey.Prelude.{ℕ, ◌<◌, ◌≡◌, refl, Bool, true, List, [], ◌∷◌, Option, some, none, if◌then◌else◌}
use firey.Timers.PairSet.{Pair, has}
use firey.Timers.{
  Result, ok, throws, fails, ◌>>=◌, Heap, Kernel, Setting, TimerQueue, new_queue, Command, command,
  handle_timerfd_read,
}
use firey.Timers.Links.{Linked}
use firey.Timers.Steps.{Holds, done, threw, Holds-bind, Holds-map, Ready, Documented, command-Ready}
use firey.Timers.Fires.{idle, handle_timerfd_read-Ready}
use firey.Timers.After.{IsEarly, After, after, after_throw, after_fail}
use firey.Timers.Alarm.{Alarm, Settable, command-Alarm}
use firey.Timers.Alarm.Round.{handle_timerfd_read-Alarm}

-- A call, or that the descriptor is readable: `gone` tells whether it went off and is not set any more.
-- The clock is past 1970.
pub data Event : Type 0 where
  calls : Command → Event
  fires : (gone : Bool) (now : ℕ) → 0 < now → (TimerQueue → ℕ → List Command) → Event

abbrev pub step : (Heap → Option ℕ) → TimerQueue → Event → Result TimerQueue
step alloc q (calls c) = command alloc q c
step alloc q (fires gone now late behaviour) =
    handle_timerfd_read alloc behaviour (record q { armed = if gone then none else q.armed }) now

unfoldable pub run : (Heap → Option ℕ) → TimerQueue → List Event → Result TimerQueue
run alloc q [] = ok q
run alloc q (e ∷ es) = step alloc q e >>= λ q1. run alloc q1 es

-- The timer descriptor is set, and early enough for the first timer.
abbrev pub IsArmed : Option Setting → List Pair → Type 0
IsArmed armed [] = Unit {0}
IsArmed armed (n ∷ ns) = (d : Setting) × (armed ≡ some d) × IsEarly d n.0

of_after : {P : TimerQueue → Type 0} {q : TimerQueue} → After P (ok q) → P q
of_after (after p) = p

-- Between two events. `Works` is what the alarm relies on.
pub record Settled (Works : Type 0) (q : TimerQueue) : Type 0 where
  pub ready : Ready (idle q.ran) q
  pub alarm : (b : ℕ) → Works → Alarm b q

given :
    {Works : Type 0} {Q : TimerQueue → Type 0} (m : Result TimerQueue)
    → (Works → After Q m)
    → After (λ q. Works → Q q) m
given (ok q) h = after λ works. of_after (h works)
given throws h = after_throw
given fails h = after_fail

every :
    {P : TimerQueue → Type 0} {Q : ℕ → TimerQueue → Type 0} (m : Result TimerQueue)
    → Holds true P m
    → ((b : ℕ) → After (Q b) m)
    → Holds true (λ q. P q × ((b : ℕ) → Q b q)) m
every _ (done p) h = done (p, λ b. of_after (h b))
every _ (threw e) h = threw e

settle :
    {Works : Type 0} (ran : List ℕ) (q : TimerQueue)
    → Ready (idle ran) q
    → ((b : ℕ) → Works → Alarm b q)
    → Settled Works q
settle ran q h alarm = record {
  ready = record { linked = h.linked; pending = tt; named = tt; same_ran = refl };
  alarm = alarm;
}

step-Settled :
    {Works : Type 0} (alloc : Heap → Option ℕ) (q : TimerQueue) (e : Event)
    → Documented alloc
    → Settled Works q
    → Holds true (Settled Works) (step alloc q e)
step-Settled {Works} alloc q (calls c) doc h =
    Holds-map _ (λ q1 k. settle q.ran q1 k.0 k.1)
      (every {Q = λ b q1. Works → Alarm b q1} _ (command-Ready alloc q c (idle q.ran) doc h.ready)
        λ b. given _ λ works. command-Alarm alloc b q c (h.alarm b works))
step-Settled {Works} alloc q (fires gone now late behaviour) doc h =
    let set : Ready (idle q.ran) (record q { armed = if gone then none else q.armed }) = record {
      linked = h.ready.linked;
      pending = tt;
      named = tt;
      same_ran = refl;
    } in
    Holds-map _ (λ q1 k. settle _ q1 k.0 k.1)
      (every {Q = λ b q1. Works → Alarm b q1} _
        (handle_timerfd_read-Ready alloc behaviour
          (record q { armed = if gone then none else q.armed }) now doc set)
        λ b. given _ λ works.
          handle_timerfd_read-Alarm alloc behaviour b
            (record q { armed = if gone then none else q.armed }) now late
            (h.alarm 0 works).settable h.ready.linked.timers_sorted)

run-Settled :
    {Works : Type 0} (alloc : Heap → Option ℕ) (q : TimerQueue) (es : List Event)
    → Documented alloc
    → Settled Works q
    → Holds true (Settled Works) (run alloc q es)
unfolding run
run-Settled alloc q [] doc h = done h
run-Settled alloc q (e ∷ es) doc h =
    Holds-bind _ _ (step-Settled alloc q e doc h) λ q1 k. run-Settled alloc q1 es doc k

pub new_queue-Settled :
    {Works : Type 0} (kernel : Kernel) (created : ℕ)
    → (Works → Settable kernel)
    → Settled Works (new_queue kernel created)
unfolding has
new_queue-Settled kernel created settable = record {
  ready = record {
    linked = record {
      timers_sorted = tt;
      active_sorted = tt;
      same_size = refl;
      of_timers = λ w a h. absurd (has_none (w, a) h);
      of_active = λ a s h. absurd (has_none (a, s) h);
    };
    pending = tt;
    named = tt;
    same_ran = refl;
  };
  alarm = λ b works. record { settable = settable works; sorted = tt; set = tt };
}
  where
    has_none : (x : Pair) → has x [] ≡ true → ⊥
    has_none x h = cc

-- Whatever is added, cancelled and run, in any order, by anyone in the thread of the loop, the callbacks
-- included: no assertion fails and no deleted timer is used, and between two events the two sets and the
-- heap belong together. operator new is as documented; when it throws, the run ends there.
pub run-Linked :
    (alloc : Heap → Option ℕ) (kernel : Kernel) (created : ℕ) (es : List Event)
    → Documented alloc
    → Holds true
        (λ q. Linked q.heap q.timers q.active_timers)
        (run alloc (new_queue kernel created) es)
run-Linked alloc kernel created es doc =
    Holds-map _ (λ q h. h.ready.linked)
      (run-Settled {Works = ⊥} alloc (new_queue kernel created) es doc
        (new_queue-Settled kernel created λ never. absurd never))
