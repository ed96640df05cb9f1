-- ===== src/Timers/Alarm/Round.antt =====
-- The alarm of net/TimerQueueff.cpp through `handleTimerfdRead`.
use firey.Prelude.{
  ℕ, ◌<◌, ◌≡◌, refl, sym, ◌∙◌, Bool, true, false, not, ◌&&◌, List, [], ◌∷◌, Option, some, ◌==◌,
  ltb→lt, if◌then◌else◌, arith, Bool-cases, inl, inr, ==_iff,
}
use mathlib.Core.Path.{subst}
use mathlib.Core.Option.{some-injective}
use firey.Timers.Steps.{written}
use firey.Timers.PairSet.{Pair, pair_lt, has, IsSorted, insert-IsSorted}
use firey.Timers.{
  Result, ok, throws, fails, Timer, restart, Heap, write, Setting, setting, TimerQueue, sizes_match,
  reset_timerfd, lower_bound, starts_after, max_address, erase_expired, get_expired_timer,
  reset_expired, arm_next, reset, Command, handle_timerfd_read,
}
use firey.Timers.After.{
  After, After-bind, After-check, After-if, After-load, ArmedUpTo-insert_late, ArmedUpTo, after,
  after_throw, after_fail,
}
use firey.Timers.Alarm.{
  Settable, Alarm, setting-IsEarly, reset_timerfd-armed, insert_timer-Inserted, same-Alarm,
  run_expired-Alarm,
}

lower_bound-IsSorted :
    (sentry : Pair) (l : List Pair) → IsSorted l → IsSorted (lower_bound sentry l).1
unfolding lower_bound
lower_bound-IsSorted sentry [] s = tt
lower_bound-IsSorted sentry (n ∷ l) s = elim (Bool-cases (pair_lt n sentry)) [
  | inl e ↦ rw e (lower_bound-IsSorted sentry l s.1)
  | inr e ↦ rw e s
]

starts_after-ArmedUpTo :
    (now : ℕ) (armed : Option Setting) (l : List Pair)
    → starts_after now l ≡ true
    → ArmedUpTo 0 armed l
starts_after-ArmedUpTo now armed [] e = tt
starts_after-ArmedUpTo now armed (n ∷ l) e = λ le. absurd (omega (arith, ltb→lt now n.0 e, le))

-- What is left is later than now, so none of it is at time 0.
get_expired_timer-Alarm :
    (q : TimerQueue) (now : ℕ)
    → Settable q.kernel
    → IsSorted q.timers
    → After (λ r. Alarm 0 r.1) (get_expired_timer q now)
unfolding get_expired_timer
get_expired_timer-Alarm q now k s = After-check (sizes_match q.timers q.active_timers) _ λ e.
    After-check (starts_after now (lower_bound (now, max_address) q.timers).1) _ λ e1.
      After-bind {P = λ x. Unit {0}}
        (erase_expired q.heap (lower_bound (now, max_address) q.timers).0 q.active_timers) _
        (any_After _)
        λ active u.
          After-check (sizes_match (lower_bound (now, max_address) q.timers).1 active) _ λ e2.
            after (record {
              settable = k;
              sorted = lower_bound-IsSorted (now, max_address) q.timers s;
              set = starts_after-ArmedUpTo now q.armed _ e1;
            })
  where
    any_After : {A : Type 0} (m : Result A) → After (λ x. Unit {0}) m
    any_After (ok a) = after tt
    any_After throws = after_throw
    any_After fails = after_fail

and-first : (b c : Bool) → (b && c) ≡ true → b ≡ true
and-first b c h = ground arith

restart_late :
    (t : Timer) (now : ℕ) → 0 < now → t.is_repeat ≡ true → 0 < (restart t now).expire_time
restart_late t now late e = rw e (omega (arith, late))

reset_expired-Alarm :
    (q : TimerQueue) (now : ℕ) (ns : List Pair)
    → 0 < now
    → Alarm 0 q
    → After (Alarm 0) (reset_expired q now ns)
unfolding reset_expired
reset_expired-Alarm q now [] late h = after h
reset_expired-Alarm q now (n ∷ ns) late h = After-load q.heap n.1 _ λ t e.
    After-bind {P = Alarm 0} _ _
      (After-if (t.is_repeat && not (has (n.1, t.sequence) q.canceling_timers)) _ _
        (λ again.
          After-bind _ _
            (insert_timer-Inserted (record q { heap = write q.heap n.1 (some (restart t now)) })
              n.1)
            λ r (t1, e1, first, timers, armed, kernel).
              let same : t1 ≡ restart t now =
                some-injective t1 (restart t now)
                  (sym e1 ∙ written q.heap n.1 (some (restart t now))) in
              let is_late : 0 < t1.expire_time =
                subst (λ x. 0 < x.expire_time) (sym same)
                  (restart_late t now late (and-first _ _ again)) in
              after (record {
                settable = subst Settable (sym kernel) h.settable;
                sorted =
                    subst IsSorted (sym timers)
                      (insert-IsSorted (t1.expire_time, n.1) q.timers h.sorted);
                set =
                    subst (λ o. ArmedUpTo 0 o r.1.timers) (sym armed)
                      (subst (ArmedUpTo 0 q.armed) (sym timers) (
                        ArmedUpTo-insert_late 0 t1.expire_time n.1 q.armed q.timers is_late h.set));
              }))
        (λ over. after (same-Alarm 0 q _ refl refl refl h)))
      λ q1 k. reset_expired-Alarm q1 now ns late k

-- The end of `reset` sets the descriptor for the first timer.
arm_first :
    (b : ℕ) (q : TimerQueue) (n : Pair) (ns : List Pair) (c : Bool)
    → q.timers ≡ n ∷ ns
    → (n.0 == 0) ≡ c
    → Alarm 0 q
    → Alarm b (if c then q else reset_timerfd q n.0)
arm_first b q n ns true e zero_first h =
    let z : n.0 ≡ 0 = (==_iff n.0 0).0 zero_first in
    let set : ArmedUpTo 0 q.armed (n ∷ ns) = subst (ArmedUpTo 0 q.armed) e h.set in
    record {
      settable = h.settable;
      sorted = h.sorted;
      set = subst (ArmedUpTo b q.armed) (sym e) (λ le. set (omega (arith, z)));
    }
arm_first b q n ns false e zero_first h = record {
  settable = h.settable;
  sorted = h.sorted;
  set =
      subst (ArmedUpTo b (reset_timerfd q n.0).armed) (sym e)
        λ le. (setting q n.0, reset_timerfd-armed q n.0 h.settable, setting-IsEarly q n.0);
}

arm_next-Alarm :
    (b : ℕ) (q : TimerQueue) (l : List Pair) → q.timers ≡ l → Alarm 0 q → Alarm b (arm_next q l)
arm_next-Alarm b q [] e h = record {
  settable = h.settable;
  sorted = h.sorted;
  set = subst (ArmedUpTo b q.armed) (sym e) tt;
}
arm_next-Alarm b q (n ∷ ns) e h = arm_first b q n ns (n.0 == 0) e refl h

pub handle_timerfd_read-Alarm :
    (alloc : Heap → Option ℕ) (behaviour : TimerQueue → ℕ → List Command) (b : ℕ) (q : TimerQueue)
    (now : ℕ)
    → 0 < now
    → Settable q.kernel
    → IsSorted q.timers
    → After (Alarm b) (handle_timerfd_read alloc behaviour q now)
unfolding handle_timerfd_read reset
handle_timerfd_read-Alarm alloc behaviour b q now late settable s =
    After-bind (get_expired_timer q now) _ (get_expired_timer-Alarm q now settable s) λ r k.
      After-bind _ _
        (run_expired-Alarm alloc behaviour 0
          (record r.1 { calling_expired_timers = true; canceling_timers = [] }) r.0
          (same-Alarm 0 r.1 _ refl refl refl k))
        λ q1 k1.
          After-bind _ _
            (reset_expired-Alarm (record q1 { calling_expired_timers = false }) now r.0 late
              (same-Alarm 0 q1 _ refl refl refl k1))
            λ q2 k2. after (arm_next-Alarm b q2 q2.timers refl k2)
