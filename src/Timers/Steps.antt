-- ===== src/Timers/Steps.antt =====
-- What each step of net/TimerQueueff.cpp keeps: the two sets and the heap belong together, and no
-- assertion fails.
use firey.Prelude.{
  ℕ, ◌<◌, ◌≡◌, refl, sym, ◌∙◌, Bool, true, false, List, [], ◌∷◌, Option, some, none, if◌then◌else◌,
  length, ==_iff,
}
use mathlib.Core.Path.{subst}
use firey.Timers.PairSet.{Pair, insert, erase, has, pair_eq_refl, has-erase}
use firey.Timers.{
  Result, ok, throws, fails, ◌>>=◌, ◌>>◌, check, Interval, Timer, new_timer, Heap, write, load,
  TimerQueue, sizes_match, reset_timerfd, insert_timer, add_timer_in_loop, cancel_in_loop,
  max_address, Command, add, cancel, add_timer, add_timer_at, command, commands,
}
use firey.Timers.Links.{
  Linked, IsLoose, IsLoose-free, IsLoose-timer, write-Linked, insert-Linked, erase-Linked,
}
use firey.Timers.Pending.{
  Apart, Pending, Names, Names-write, Pending-write, Pending-insert, Pending-erase, free_Apart,
  known_Apart,
}

-- A call that neither fails an assertion nor uses a deleted timer, and what holds after it; it throws only
-- if it may.
pub data Holds {A : Type 0} (may_throw : Bool) (P : A → Type 0) : Result A → Type 0 where
  done : {a : A} → P a → Holds may_throw P (ok a)
  threw : may_throw ≡ true → Holds may_throw P throws

pub Holds-bind :
    {may : Bool} {A B : Type 0} {P : A → Type 0} {Q : B → Type 0} (m : Result A) (f : A → Result B)
    → Holds may P m
    → ((a : A) → P a → Holds may Q (f a))
    → Holds may Q (m >>= f)
Holds-bind _ f (done {a} p) h = h a p
Holds-bind _ f (threw e) h = threw e

pub Holds-check :
    {may : Bool} {B : Type 0} {Q : B → Type 0} (b : Bool) (m : Result B)
    → b ≡ true
    → Holds may Q m
    → Holds may Q (check b >> m)
Holds-check true m e h = h
Holds-check false m e h = cc

pub Holds-load :
    {may : Bool} {B : Type 0} {Q : B → Type 0} (heap : Heap) (a : ℕ) (t : Timer)
    (f : Timer → Result B)
    → heap a ≡ some t
    → Holds may Q (f t)
    → Holds may Q (load heap a >>= f)
Holds-load {may} {Q = Q} heap a t f e h =
    subst (λ o. Holds may Q ((elim o [ none ↦ fails | some t ↦ ok t ]) >>= f)) (sym e) h

pub Holds-if :
    {may : Bool} {B : Type 0} {Q : B → Type 0} (b : Bool) (m m1 : Result B)
    → (b ≡ true → Holds may Q m)
    → (b ≡ false → Holds may Q m1)
    → Holds may Q (if b then m else m1)
Holds-if true m m1 h h1 = h refl
Holds-if false m m1 h h1 = h1 refl

pub Holds-map :
    {may : Bool} {A : Type 0} {P Q : A → Type 0} (m : Result A)
    → ((a : A) → P a → Q a)
    → Holds may P m
    → Holds may Q m
Holds-map _ h (done {a} p) = done (h a p)
Holds-map _ h (threw e) = threw e

-- What a step leaves alone: the timers that are taken out, with the names of their callbacks, and what
-- was run so far.
pub record Frame : Type 0 where
  pub out : List Pair
  pub names : List ℕ
  pub ran : List ℕ

-- Between two steps.
pub record Ready (f : Frame) (q : TimerQueue) : Type 0 where
  pub linked : Linked q.heap q.timers q.active_timers
  pub pending : Pending q.heap q.active_timers f.out
  pub named : Names q.heap f.out f.names
  pub same_ran : q.ran ≡ f.ran

pub sizes-eq :
    (timers active : List Pair) → length timers ≡ length active → sizes_match timers active ≡ true
sizes-eq timers active e = (==_iff (length timers) (length active)).1 e

pub insert_timer-Ready :
    {may : Bool} (q : TimerQueue) (a : ℕ) (t : Timer) (f : Frame)
    → Ready f q
    → q.heap a ≡ some t
    → a < max_address
    → IsLoose a q.active_timers
    → Apart a f.out
    → Holds may (λ r. Ready f r.1) (insert_timer q a)
unfolding insert_timer
insert_timer-Ready q a t f h e small loose apart =
    let linked = insert-Linked h.linked a t e small loose in
    Holds-check (sizes_match q.timers q.active_timers) _ (sizes-eq _ _ h.linked.same_size) (
      Holds-load q.heap a t _ e (
        Holds-check
          (sizes_match (insert (t.expire_time, a) q.timers)
            (insert (a, t.sequence) q.active_timers))
          _ (sizes-eq _ _ linked.same_size)
          (done (record {
            linked = linked;
            pending = Pending-insert q.heap a t.sequence q.active_timers f.out apart h.pending;
            named = h.named;
            same_ran = h.same_ran;
          }))))

armed-Ready :
    (b : Bool) (q : TimerQueue) (when : ℕ) (f : Frame)
    → Ready f q
    → Ready f (if b then reset_timerfd q when else q)
armed-Ready true q when f h = record {
  linked = h.linked;
  pending = h.pending;
  named = h.named;
  same_ran = h.same_ran;
}
armed-Ready false q when f h = h

pub add_timer_in_loop-Ready :
    (q : TimerQueue) (a : ℕ) (t : Timer) (f : Frame)
    → Ready f q
    → q.heap a ≡ some t
    → a < max_address
    → IsLoose a q.active_timers
    → Apart a f.out
    → Holds true (Ready f) (add_timer_in_loop q a)
unfolding add_timer_in_loop
add_timer_in_loop-Ready q a t f h e small loose apart =
    Holds-bind (insert_timer q a) _ (insert_timer-Ready q a t f h e small loose apart)
      λ r k. Holds-load q.heap a t _ e (done (armed-Ready r.0 r.1 t.expire_time f k))

-- operator new, if it returns.
pub record Documented (alloc : Heap → Option ℕ) : Type 0 where
  pub is_free : (heap : Heap) (a : ℕ) → alloc heap ≡ some a → heap a ≡ none
  pub below : (heap : Heap) (a : ℕ) → alloc heap ≡ some a → a < max_address

pub written : (heap : Heap) (a : ℕ) (v : Option Timer) → write heap a v a ≡ v
written heap a v = subst (λ b. (if b then v else heap a) ≡ v) (sym ((==_iff a a).1 refl)) refl

-- A loose timer is written or deleted.
pub write-Ready :
    (q : TimerQueue) (a : ℕ) (v : Option Timer) (created : ℕ) (f : Frame)
    → Ready f q
    → IsLoose a q.active_timers
    → Apart a f.out
    → Ready f (record q { heap = write q.heap a v; created = created })
write-Ready q a v created f h loose apart = record {
  linked = write-Linked h.linked a v loose;
  pending = Pending-write q.heap a v q.active_timers f.out apart h.pending;
  named = Names-write q.heap a v f.out f.names apart h.named;
  same_ran = h.same_ran;
}

allocated-Ready :
    (q : TimerQueue) (a : ℕ) (t : Timer) (f : Frame)
    → Ready f q
    → q.heap a ≡ none
    → a < max_address
    → Holds true
        (Ready f)
        (add_timer_in_loop (record q { heap = write q.heap a (some t); created = t.sequence }) a)
allocated-Ready q a t f h is_free small =
    let loose = IsLoose-free h.linked a is_free in
    let apart = free_Apart q.heap a q.active_timers f.out is_free h.pending in
    add_timer_in_loop-Ready (record q { heap = write q.heap a (some t); created = t.sequence }) a t
      f (write-Ready q a (some t) t.sequence f h loose apart) (written q.heap a (some t)) small
      loose apart

add_timer_at-Ready :
    (q : TimerQueue) (callback when : ℕ) (interval : Interval) (o : Option ℕ) (f : Frame)
    → ((a : ℕ) → o ≡ some a → q.heap a ≡ none)
    → ((a : ℕ) → o ≡ some a → a < max_address)
    → Ready f q
    → Holds true (λ r. Ready f r.1) (add_timer_at q callback when interval o)
unfolding add_timer_at
add_timer_at-Ready q callback when interval none f is_free small h = threw refl
add_timer_at-Ready q callback when interval (some a) f is_free small h =
    Holds-bind _ _
      (allocated-Ready q a (new_timer q.created callback when interval) f h (is_free a refl)
        (small a refl))
      λ q1 k. done k

pub add_timer-Ready :
    (alloc : Heap → Option ℕ) (q : TimerQueue) (callback when : ℕ) (interval : Interval) (f : Frame)
    → Documented alloc
    → Ready f q
    → Holds true (λ r. Ready f r.1) (add_timer alloc q callback when interval)
unfolding add_timer
add_timer-Ready alloc q callback when interval f doc h =
    add_timer_at-Ready q callback when interval (alloc q.heap) f (doc.is_free q.heap)
      (doc.below q.heap) h

-- A timer that the sets know is taken out and deleted.
pub cancelled-Ready :
    (q : TimerQueue) (id : Pair) (t : Timer) (f : Frame)
    → Ready f q
    → has id q.active_timers ≡ true
    → q.heap id.0 ≡ some t
    → t.sequence ≡ id.1
    → Ready f (record q {
      timers = erase (t.expire_time, id.0) q.timers;
      heap = write q.heap id.0 none;
      active_timers = erase id q.active_timers;
    })
cancelled-Ready q id t f h known e same =
    let known1 : has (id.0, t.sequence) q.active_timers ≡ true =
      subst (λ s. has (id.0, s) q.active_timers ≡ true) (sym same) known in
    let linked =
      subst
        (λ s.
          Linked q.heap (erase (t.expire_time, id.0) q.timers) (erase (id.0, s) q.active_timers))
        same (erase-Linked h.linked id.0 t e known1) in
    let loose = IsLoose-timer linked id.0 t e (
      subst (λ s. has (id.0, s) (erase id q.active_timers) ≡ false) (sym same)
        (has-erase id id q.active_timers h.linked.active_sorted ∙ rw (pair_eq_refl id) refl)) in
    let apart = known_Apart q.heap id.0 id.1 q.active_timers f.out known h.pending in
    record {
      linked = write-Linked linked id.0 none loose;
      pending =
          Pending-write q.heap id.0 none (erase id q.active_timers) f.out apart
            (Pending-erase q.heap id q.active_timers f.out h.linked.active_sorted h.pending);
      named = Names-write q.heap id.0 none f.out f.names apart h.named;
      same_ran = h.same_ran;
    }

pub noted-Ready :
    (b : Bool) (q : TimerQueue) (ids : List Pair) (f : Frame)
    → Ready f q
    → Ready f (if b then record q { canceling_timers = ids } else q)
noted-Ready true q ids f h = record {
  linked = h.linked;
  pending = h.pending;
  named = h.named;
  same_ran = h.same_ran;
}
noted-Ready false q ids f h = h

pub cancel_in_loop-Ready :
    (q : TimerQueue) (id : Pair) (f : Frame)
    → Ready f q
    → Holds true (Ready f) (cancel_in_loop q id)
unfolding cancel_in_loop
cancel_in_loop-Ready q id f h =
    Holds-check (sizes_match q.timers q.active_timers) _ (sizes-eq _ _ h.linked.same_size) (
      Holds-bind {P = Ready f} _ _
        (Holds-if (has id q.active_timers) _ _
          (λ known.
            let (t, e, same, there) = h.linked.of_active id.0 id.1 known in
            Holds-load q.heap id.0 t _ e (done (cancelled-Ready q id t f h known e same)))
          (λ unknown.
            done (noted-Ready q.calling_expired_timers q (insert id q.canceling_timers) f h)))
        λ q1 k.
          Holds-check (sizes_match q1.timers q1.active_timers) _ (sizes-eq _ _ k.linked.same_size)
            (done k))

pub command-Ready :
    (alloc : Heap → Option ℕ) (q : TimerQueue) (c : Command) (f : Frame)
    → Documented alloc
    → Ready f q
    → Holds true (Ready f) (command alloc q c)
unfolding command
command-Ready alloc q (add callback when interval) f doc h =
    Holds-bind _ _ (add_timer-Ready alloc q callback when interval f doc h) λ r k. done k
command-Ready alloc q (cancel id) f doc h = cancel_in_loop-Ready q id f h

pub commands-Ready :
    (alloc : Heap → Option ℕ) (q : TimerQueue) (cs : List Command) (f : Frame)
    → Documented alloc
    → Ready f q
    → Holds true (Ready f) (commands alloc q cs)
unfolding commands
commands-Ready alloc q [] f doc h = done h
commands-Ready alloc q (c ∷ cs) f doc h =
    Holds-bind _ _ (command-Ready alloc q c f doc h) λ q1 k. commands-Ready alloc q1 cs f doc k
