-- ===== src/Timers/Fires.antt =====
-- `handleTimerfdRead` of net/TimerQueueff.cpp, and any use of a timer queue in the thread of its loop.
use firey.Prelude.{
  ℕ, ◌≡◌, sym, ap, ◌∙◌, Bool, true, false, not, ◌&&◌, List, [], ◌∷◌, ◌++◌, append-nil, append_assoc,
  Option, some, none, ◌==◌, if◌then◌else◌,
}
use mathlib.Core.Path.{subst}
use firey.Timers.PairSet.{Pair, has}
use firey.Timers.{
  restart, Heap, write, TimerQueue, reset_timerfd, reset_expired, arm_next, Command, run_expired,
  handle_timerfd_read,
}
use firey.Timers.Pending.{Names}
use firey.Timers.Steps.{
  Holds, done, Holds-bind, Holds-load, Holds-if, Holds-map, Frame, Ready, Documented,
  insert_timer-Ready, write-Ready, written, commands-Ready,
}
use firey.Timers.Expired.{due, callbacks, get_expired_timer-Ready}

abbrev pub frame : List Pair → List ℕ → List ℕ → Frame
frame ns cs ran = record { out = ns; names = cs; ran = ran }

-- Nothing is taken out.
abbrev pub idle : List ℕ → Frame
idle ran = frame [] [] ran

ran-Ready :
    (f : Frame) (q : TimerQueue) (ran : List ℕ)
    → f.ran ≡ ran
    → Ready f q
    → Ready (record f { ran = ran }) q
ran-Ready f q ran e h = record {
  linked = h.linked;
  pending = h.pending;
  named = h.named;
  same_ran = h.same_ran ∙ e;
}

named_ran :
    (f : Frame) (q : TimerQueue) (c c1 : ℕ)
    → c ≡ c1
    → Ready f q
    → Ready (record f { ran = f.ran ++ (c1 ∷ []) }) (record q { ran = q.ran ++ (c ∷ []) })
named_ran f q c c1 e h = record {
  linked = h.linked;
  pending = h.pending;
  named = h.named;
  same_ran = ap (λ x. x ++ (c ∷ [])) h.same_ran ∙ ap (λ x. f.ran ++ (x ∷ [])) e;
}

-- The callbacks run in order, whatever they call.
run_expired-Ready :
    (alloc : Heap → Option ℕ) (behaviour : TimerQueue → ℕ → List Command) (q : TimerQueue)
    (f : Frame) (ns : List Pair) (cs : List ℕ)
    → Documented alloc
    → ((heap : Heap) → Names heap f.out f.names → Names heap ns cs)
    → Ready f q
    → Holds true (Ready (record f { ran = f.ran ++ cs })) (run_expired alloc behaviour q ns)
unfolding run_expired
run_expired-Ready alloc behaviour q f [] [] doc sub h =
    done (ran-Ready f q (f.ran ++ []) (sym (append-nil f.ran)) h)
run_expired-Ready alloc behaviour q f [] (c ∷ cs) doc sub h = absurd (sub q.heap h.named)
run_expired-Ready alloc behaviour q f (n ∷ ns) [] doc sub h = absurd (sub q.heap h.named)
run_expired-Ready alloc behaviour q f (n ∷ ns) (c ∷ cs) doc sub h =
    let t = (sub q.heap h.named).0.0 in
    Holds-load q.heap n.1 t _ (sub q.heap h.named).0.1 (
      Holds-bind _ _
        (commands-Ready alloc (record q { ran = q.ran ++ (t.callback ∷ []) })
          (behaviour q t.callback) (record f { ran = f.ran ++ (c ∷ []) }) doc
          (named_ran f q t.callback c (sub q.heap h.named).0.2 h))
        λ q1 k.
          Holds-map _ (λ q2. ran-Ready _ q2 (f.ran ++ (c ∷ cs)) (append_assoc f.ran (c ∷ []) cs))
            (run_expired-Ready alloc behaviour q1 (record f { ran = f.ran ++ (c ∷ []) }) ns cs doc
              (λ heap names. (sub heap names).1) k))

-- One timer less is taken out.
tail-Ready :
    (n : Pair) (ns : List Pair) (c : ℕ) (cs ran : List ℕ) (q : TimerQueue)
    → Ready (frame (n ∷ ns) (c ∷ cs) ran) q
    → Ready (frame ns cs ran) q
tail-Ready n ns c cs ran q h = record {
  linked = h.linked;
  pending = h.pending.4;
  named = h.named.1;
  same_ran = h.same_ran;
}

pub reset_expired-Ready :
    {may : Bool} (q : TimerQueue) (now : ℕ) (ns : List Pair) (cs ran : List ℕ)
    → Ready (frame ns cs ran) q
    → Holds may (Ready (idle ran)) (reset_expired q now ns)
unfolding reset_expired
reset_expired-Ready q now [] [] ran h = done h
reset_expired-Ready q now [] (c ∷ cs) ran h = absurd h.named
reset_expired-Ready q now (n ∷ ns) [] ran h = absurd h.named
reset_expired-Ready q now (n ∷ ns) (c ∷ cs) ran h =
    let (t, e) = h.pending.0 in
    let rest = tail-Ready n ns c cs ran q h in
    Holds-load q.heap n.1 t _ e (
      Holds-bind {P = Ready (frame ns cs ran)} _ _
        (Holds-if (t.is_repeat && not (has (n.1, t.sequence) q.canceling_timers)) _ _
          (λ again.
            Holds-bind _ _
              (insert_timer-Ready (record q { heap = write q.heap n.1 (some (restart t now)) }) n.1
                (restart t now) (frame ns cs ran)
                (write-Ready q n.1 (some (restart t now)) q.created (frame ns cs ran) rest
                  h.pending.1 h.pending.3)
                (written q.heap n.1 (some (restart t now))) h.pending.2 h.pending.1 h.pending.3)
              λ r k. done k)
          (λ over.
            done (write-Ready q n.1 none q.created (frame ns cs ran) rest h.pending.1 h.pending.3)))
        λ q1 k. reset_expired-Ready q1 now ns cs ran k)

arm_next-Ready : (f : Frame) (q : TimerQueue) (l : List Pair) → Ready f q → Ready f (arm_next q l)
arm_next-Ready f q [] h = h
arm_next-Ready f q (n ∷ ns) h = arm_if (n.0 == 0)
  where
    arm_if : (b : Bool) → Ready f (if b then q else reset_timerfd q n.0)
    arm_if true = h
    arm_if false = record {
      linked = h.linked;
      pending = h.pending;
      named = h.named;
      same_ran = h.same_ran;
    }

calling-Ready :
    (f : Frame) (q : TimerQueue) (b : Bool) (ids : List Pair)
    → Ready f q
    → Ready f (record q { calling_expired_timers = b; canceling_timers = ids })
calling-Ready f q b ids h = record {
  linked = h.linked;
  pending = h.pending;
  named = h.named;
  same_ran = h.same_ran;
}

-- In a queue between two calls, whose two sets and heap belong together, `handleTimerfdRead` runs the
-- callbacks of exactly the timers that are due, in order of time, whatever these callbacks add or cancel;
-- no assertion fails, no deleted timer is used, and the sets and the heap belong together again. The only
-- other end is that operator new throws, which is as documented.
pub handle_timerfd_read-Ready :
    (alloc : Heap → Option ℕ) (behaviour : TimerQueue → ℕ → List Command) (q : TimerQueue) (now : ℕ)
    → Documented alloc
    → Ready (idle q.ran) q
    → Holds true
        (Ready (idle (q.ran ++ callbacks q.heap (due now q.timers))))
        (handle_timerfd_read alloc behaviour q now)
unfolding handle_timerfd_read
handle_timerfd_read-Ready alloc behaviour q now doc h =
    Holds-bind _ _ (get_expired_timer-Ready q now q.ran h) λ r took.
      Holds-bind _ _
        (run_expired-Ready alloc behaviour
          (record r.1 { calling_expired_timers = true; canceling_timers = [] })
          (frame r.0 (callbacks q.heap r.0) q.ran) r.0 (callbacks q.heap r.0) doc
          (λ heap names. names) (calling-Ready _ r.1 true [] took.2))
        λ q1 k.
          Holds-bind _ _
            (reset_expired-Ready (record q1 { calling_expired_timers = false }) now r.0
              (callbacks q.heap r.0) (q.ran ++ callbacks q.heap r.0)
              (calling-Ready _ q1 false q1.canceling_timers k))
            λ q2 k2. done (
              arm_next-Ready _ q2 q2.timers
                (subst (λ x. Ready (idle (q.ran ++ callbacks q.heap x)) q2) took.0 k2))
