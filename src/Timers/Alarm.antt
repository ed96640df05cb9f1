-- ===== src/Timers/Alarm.antt =====
-- The timer descriptor of net/TimerQueueff.cpp is set early enough for the first timer.
pub mod Round
use firey.Prelude.{
  ℕ, ◌<◌, ◌≡◌, refl, sym, ap, ◌∙◌, Bool, true, false, not, ◌&&◌, List, [], ◌∷◌, ◌++◌, Option, some,
  none, ◌==◌, ltb→lt, if◌then◌else◌, arith, Bool-cases, inl, inr, ==_iff,
}
use mathlib.Core.Path.{subst}
use mathlib.Core.Option.{some-injective}
use firey.Timers.Steps.{written}
use firey.Timers.PairSet.{Pair, pair_lt, insert, has, IsSorted, insert-IsSorted, erase-IsSorted}
use firey.Timers.{
  Result, ok, throws, fails, ◌>>=◌, ◌>>◌, check, Interval, Timer, new_timer, restart, Heap, write,
  load, Kernel, Setting, setting, TimerQueue, sizes_match, reset_timerfd, is_earliest, insert_timer,
  add_timer_in_loop, cancel_in_loop, lower_bound, starts_after, max_address, erase_expired,
  get_expired_timer, reset_expired, arm_next, reset, Command, add, cancel, add_timer, add_timer_at,
  command, commands, run_expired, handle_timerfd_read,
}
use firey.Timers.Delay.{how_much_time_from_now_lem, how_much_time_from_now_late}
use firey.Timers.After.{
  After, After-bind, After-check, After-if, After-load, ArmedUpTo-erase, ArmedUpTo-insert,
  ArmedUpTo-insert_late, ArmedUpTo, IsEarly, after, after_throw, after_fail,
}

-- timerfd_settime takes every delay with fewer nanoseconds than a second, as its manual says.
abbrev pub Settable : Kernel → Type 0
Settable k =
    (seconds nanoseconds : ℕ) → nanoseconds < 1000000000 → k.takes seconds nanoseconds ≡ true

pub setting-IsEarly : (q : TimerQueue) (when : ℕ) → IsEarly (setting q when) when
setting-IsEarly q when = how_much_time_from_now_late when (q.kernel.clock q.resets)

-- The descriptor is set then.
pub reset_timerfd-armed :
    (q : TimerQueue) (when : ℕ)
    → Settable q.kernel
    → (reset_timerfd q when).armed ≡ some (setting q when)
reset_timerfd-armed q when k =
    rw
      (k (setting q when).seconds (setting q when).nanoseconds
        (how_much_time_from_now_lem when (q.kernel.clock q.resets)).0)
      refl

-- With the times in order.
pub record Alarm (b : ℕ) (q : TimerQueue) : Type 0 where
  pub settable : Settable q.kernel
  pub sorted : IsSorted q.timers
  pub set : ArmedUpTo b q.armed q.timers

-- What `insertTimer` does to the times.
abbrev pub Inserted : TimerQueue → ℕ → Bool × TimerQueue → Type 0
Inserted q a r =
    (t : Timer) × (q.heap a ≡ some t)
    × (r.0 ≡ is_earliest t.expire_time q.timers)
    × (r.1.timers ≡ insert (t.expire_time, a) q.timers)
    × (r.1.armed ≡ q.armed)
    × (r.1.kernel ≡ q.kernel)

pub insert_timer-Inserted : (q : TimerQueue) (a : ℕ) → After (Inserted q a) (insert_timer q a)
unfolding insert_timer
insert_timer-Inserted q a =
    After-check (sizes_match q.timers q.active_timers) (load q.heap a >>= λ t. inserting q a t) λ e.
      After-load q.heap a (inserting q a) λ t k.
        After-check
          (sizes_match (insert (t.expire_time, a) q.timers)
            (insert (a, t.sequence) q.active_timers))
          (ok (is_earliest t.expire_time q.timers, with_timer q a t))
          λ e1. after (t, k, refl, refl, refl, refl)
  where
    with_timer : TimerQueue → ℕ → Timer → TimerQueue
    with_timer q a t = record q {
      timers = insert (t.expire_time, a) q.timers;
      active_timers = insert (a, t.sequence) q.active_timers;
    }

    inserting : TimerQueue → ℕ → Timer → Result (Bool × TimerQueue)
    inserting q a t =
        check (
          sizes_match (insert (t.expire_time, a) q.timers) (insert (a, t.sequence) q.active_timers))
        >> ok (is_earliest t.expire_time q.timers, with_timer q a t)

armed_if :
    (b e : Bool) (q : TimerQueue) (when bound : ℕ)
    → b ≡ e
    → Settable q.kernel
    → ArmedUpTo bound (if e then some (setting q when) else q.armed) q.timers
    → IsSorted q.timers
    → Alarm bound (if b then reset_timerfd q when else q)
armed_if true true q when bound same k h s = record {
  settable = k;
  sorted = s;
  set = subst (λ o. ArmedUpTo bound o q.timers) (sym (reset_timerfd-armed q when k)) h;
}
armed_if false false q when bound same k h s = record { settable = k; sorted = s; set = h }
armed_if true false q when bound same k h s = cc
armed_if false true q when bound same k h s = cc

add_timer_in_loop-Alarm :
    (b : ℕ) (q : TimerQueue) (a : ℕ) → Alarm b q → After (Alarm b) (add_timer_in_loop q a)
unfolding add_timer_in_loop
add_timer_in_loop-Alarm b q a h =
    After-bind _ _ (insert_timer-Inserted q a) λ r (t, e, first, timers, armed, kernel).
      After-load q.heap a _ λ t1 e1.
        let same : t ≡ t1 = some-injective t t1 (sym e ∙ e1) in
        after (
          armed_if r.0 (is_earliest t1.expire_time q.timers) r.1 t1.expire_time b
            (first ∙ ap (λ x. is_earliest x.expire_time q.timers) same)
            (subst Settable (sym kernel) h.settable)
            (subst
              (λ l.
                ArmedUpTo b
                  (if is_earliest t1.expire_time q.timers
                    then some (setting r.1 t1.expire_time)
                    else r.1.armed)
                  l)
              (sym (timers ∙ ap (λ x. insert (x.expire_time, a) q.timers) same))
              (subst
                (λ o.
                  ArmedUpTo b
                    (if is_earliest t1.expire_time q.timers
                      then some (setting r.1 t1.expire_time)
                      else o)
                    (insert (t1.expire_time, a) q.timers))
                (sym armed)
                (ArmedUpTo-insert b t1.expire_time a (setting r.1 t1.expire_time) q.armed q.timers
                  (setting-IsEarly r.1 t1.expire_time) h.set)))
            (subst IsSorted (sym timers) (insert-IsSorted (t.expire_time, a) q.timers h.sorted)))

pub same-Alarm :
    (b : ℕ) (q q1 : TimerQueue)
    → q1.timers ≡ q.timers
    → q1.armed ≡ q.armed
    → q1.kernel ≡ q.kernel
    → Alarm b q
    → Alarm b q1
same-Alarm b q q1 e f k h = record {
  settable = subst Settable (sym k) h.settable;
  sorted = subst IsSorted (sym e) h.sorted;
  set = subst (λ o. ArmedUpTo b o q1.timers) (sym f) (subst (ArmedUpTo b q.armed) (sym e) h.set);
}

add_timer_at-Alarm :
    (b : ℕ) (q : TimerQueue) (callback when : ℕ) (interval : Interval) (o : Option ℕ)
    → Alarm b q
    → After (λ r. Alarm b r.1) (add_timer_at q callback when interval o)
unfolding add_timer_at
add_timer_at-Alarm b q callback when interval none h = after_throw
add_timer_at-Alarm b q callback when interval (some a) h =
    let t = new_timer q.created callback when interval in
    After-bind
      (add_timer_in_loop (record q { heap = write q.heap a (some t); created = t.sequence }) a) _
      (add_timer_in_loop-Alarm b (record q { heap = write q.heap a (some t); created = t.sequence })
        a (same-Alarm b q _ refl refl refl h))
      λ q1 k. after k

noted-Alarm :
    (b : ℕ) (c : Bool) (q : TimerQueue) (ids : List Pair)
    → Alarm b q
    → Alarm b (if c then record q { canceling_timers = ids } else q)
noted-Alarm b true q ids h = same-Alarm b q _ refl refl refl h
noted-Alarm b false q ids h = h

cancel_in_loop-Alarm :
    (b : ℕ) (q : TimerQueue) (id : Pair) → Alarm b q → After (Alarm b) (cancel_in_loop q id)
unfolding cancel_in_loop
cancel_in_loop-Alarm b q id h = After-check (sizes_match q.timers q.active_timers) _ λ e.
    After-bind {P = Alarm b} _ _
      (After-if (has id q.active_timers) _ _
        (λ known. After-load q.heap id.0 _ λ t k. after (record {
          settable = h.settable;
          sorted = erase-IsSorted (t.expire_time, id.0) q.timers h.sorted;
          set = ArmedUpTo-erase b (t.expire_time, id.0) q.armed q.timers h.sorted h.set;
        }))
        (λ unknown.
          after (noted-Alarm b q.calling_expired_timers q (insert id q.canceling_timers) h)))
      λ q1 k. After-check (sizes_match q1.timers q1.active_timers) _ λ e1. after k

pub command-Alarm :
    (alloc : Heap → Option ℕ) (b : ℕ) (q : TimerQueue) (c : Command)
    → Alarm b q
    → After (Alarm b) (command alloc q c)
unfolding command add_timer
command-Alarm alloc b q (add callback when interval) h =
    After-bind _ _ (add_timer_at-Alarm b q callback when interval (alloc q.heap) h) λ r k. after k
command-Alarm alloc b q (cancel id) h = cancel_in_loop-Alarm b q id h

pub commands-Alarm :
    (alloc : Heap → Option ℕ) (b : ℕ) (q : TimerQueue) (cs : List Command)
    → Alarm b q
    → After (Alarm b) (commands alloc q cs)
unfolding commands
commands-Alarm alloc b q [] h = after h
commands-Alarm alloc b q (c ∷ cs) h =
    After-bind _ _ (command-Alarm alloc b q c h) λ q1 k. commands-Alarm alloc b q1 cs k

pub run_expired-Alarm :
    (alloc : Heap → Option ℕ) (behaviour : TimerQueue → ℕ → List Command) (b : ℕ) (q : TimerQueue)
    (ns : List Pair)
    → Alarm b q
    → After (Alarm b) (run_expired alloc behaviour q ns)
unfolding run_expired
run_expired-Alarm alloc behaviour b q [] h = after h
run_expired-Alarm alloc behaviour b q (n ∷ ns) h = After-load q.heap n.1 _ λ t e.
    After-bind _ _
      (commands-Alarm alloc b (record q { ran = q.ran ++ (t.callback ∷ []) })
        (behaviour q t.callback) (same-Alarm b q _ refl refl refl h))
      λ q1 k. run_expired-Alarm alloc behaviour b q1 ns k
