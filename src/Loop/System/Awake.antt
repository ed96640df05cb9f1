-- ===== src/Loop/System/Awake.antt =====
-- No wakeup of a loop of net/EventLoopff.cpp is lost.
use firey.Prelude.{
  ℕ, ◌+◌, ◌<◌, ◌≡◌, ◌≢◌, refl, sym, ◌∙◌, Bool, true, false, not, ◌||◌, ◌&&◌, List, [], ◌∷◌, some,
  if◌then◌else◌, check, >>=-eq-some, arith,
}
use mathlib.Core.Path.{subst}
use mathlib.Core.Option.{some-injective}
use firey.Loop.{EventLoop, wakeup, push_functor, queue_in_loop, set_quit, start_loop}
use firey.Loop.System.{
  Place, System, Step, outside_queues, begins, goes_on, ends, polled, reads, handler_queues,
  handled, calls, functor_queues, called, quits, other_pushes, other_quits, other_wakes, Reach,
  here, next,
}

abbrev pub is_empty : List ℕ → Bool
is_empty [] = true
is_empty (f ∷ fs) = false

-- Whether functors wait that a wakeup came with, or is to come with.
abbrev pub is_announced : EventLoop → (unwoken : Bool) → Bool
is_announced l unwoken = not (is_empty l.pending_functors) && not unwoken

-- Whether the loop may not block in `poll`, or will not before it wakes up.
abbrev pub is_needed : Place → EventLoop → (unwoken : Bool) → Bool
is_needed Place.outside l u = is_announced l u
is_needed Place.at_test l u = is_announced l u
is_needed Place.in_poll l u = is_announced l u || l.quit
is_needed Place.in_handlers l u = false
is_needed (Place.in_functors fs) l u = is_announced l u

abbrev pub IsCalling : Place → EventLoop → Type 0
IsCalling Place.outside l = Unit {0}
IsCalling Place.at_test l = Unit {0}
IsCalling Place.in_poll l = Unit {0}
IsCalling Place.in_handlers l = Unit {0}
IsCalling (Place.in_functors fs) l = l.calling_pending_functors ≡ true

pub record Awake (l : EventLoop) (p : Place) (waking : ℕ) (unwoken : Bool) : Type 0 where
  pub woken : is_needed p l unwoken ≡ true → 0 < l.ticks + waking
  pub is_called : IsCalling p l

same-IsCalling :
    (p : Place) (l l1 : EventLoop)
    → l1.calling_pending_functors ≡ l.calling_pending_functors
    → IsCalling p l
    → IsCalling p l1
same-IsCalling Place.outside l l1 e h = tt
same-IsCalling Place.at_test l l1 e h = tt
same-IsCalling Place.in_poll l l1 e h = tt
same-IsCalling Place.in_handlers l l1 e h = tt
same-IsCalling (Place.in_functors fs) l l1 e h = e ∙ h

pub set_quit_lem : (l l1 : EventLoop) → set_quit l ≡ some l1 → record l { quit = true } ≡ l1
unfolding set_quit
set_quit_lem l l1 e = let (u, c, k) = >>=-eq-some (check (not l.quit)) _ e in some-injective _ _ k

pub start_loop_lem : (l l1 : EventLoop) → start_loop l ≡ some l1 → record l { looping = true } ≡ l1
unfolding start_loop
start_loop_lem l l1 e =
    let (u, c, k) = >>=-eq-some (check (not l.looping)) _ e in some-injective _ _ k

if_true : (b : Bool) (x y : EventLoop) → b ≡ true → (if b then x else y) ≡ x
if_true true x y e = refl
if_true false x y e = cc

or_left : (b c : Bool) → (b || c) ≡ true → c ≡ false → b ≡ true
or_left b c e f = ground arith

-- A functor that the loop's own thread queues in `doPendingFunctors` wakes it up.
queue_calling :
    (l : EventLoop) (f : ℕ)
    → l.calling_pending_functors ≡ true
    → queue_in_loop l true f ≡ wakeup (push_functor l f)
unfolding queue_in_loop
queue_calling l f e = if_true l.calling_pending_functors _ _ e

-- `quit_` does not matter elsewhere than in `poll`.
quit_elsewhere :
    (p : Place) (l : EventLoop) (u : Bool)
    → p ≢ Place.in_poll
    → is_needed p (record l { quit = true }) u ≡ is_needed p l u
quit_elsewhere Place.outside l u h = refl
quit_elsewhere Place.at_test l u h = refl
quit_elsewhere Place.in_poll l u h = absurd (h refl)
quit_elsewhere Place.in_handlers l u h = refl
quit_elsewhere (Place.in_functors fs) l u h = refl

Step-Awake :
    {s s1 : System}
    → Step s s1
    → Awake s.loop s.place s.waking s.unwoken
    → Awake s1.loop s1.place s1.waking s1.unwoken
unfolding queue_in_loop
Step-Awake {s} (outside_queues f e) h =
    subst (λ p. Awake (queue_in_loop s.loop true f) p s.waking true) (sym e)
      (record { woken = λ n. ground arith; is_called = tt })
Step-Awake {s} (begins l e run) h =
    let k = subst (λ p. Awake s.loop p s.waking s.unwoken) e h in
    subst (λ x. Awake x Place.at_test s.waking s.unwoken) (start_loop_lem s.loop l run)
      (record { woken = k.woken; is_called = tt })
Step-Awake {s} (goes_on e quiet) h =
    let k = subst (λ p. Awake s.loop p s.waking s.unwoken) e h in
    record {
      woken = λ n. k.woken (or_left (is_announced s.loop s.unwoken) s.loop.quit n quiet);
      is_called = tt;
    }
Step-Awake {s} (ends e over) h =
    let k = subst (λ p. Awake s.loop p s.waking s.unwoken) e h in
    record { woken = k.woken; is_called = tt }
Step-Awake {s} (polled e) h = record { woken = λ n. cc; is_called = tt }
Step-Awake {s} (reads e) h = rw e (record { woken = λ n. cc; is_called = tt })
Step-Awake {s} (handler_queues f e) h = rw e (record { woken = λ n. cc; is_called = tt })
Step-Awake {s} (handled e) h = record { woken = λ n. cc; is_called = refl }
Step-Awake {s} (calls f fs e) h =
    let k = subst (λ p. Awake s.loop p s.waking s.unwoken) e h in
    record { woken = k.woken; is_called = k.is_called }
Step-Awake {s} (functor_queues f fs e) h =
    let k = subst (λ p. Awake s.loop p s.waking s.unwoken) e h in
    subst (λ x. Awake x s.place s.waking s.unwoken) (sym (queue_calling s.loop f k.is_called))
      (record {
        woken = λ n. omega arith;
        is_called = same-IsCalling s.place s.loop _ refl h.is_called;
      })
Step-Awake {s} (called e) h =
    let k = subst (λ p. Awake s.loop p s.waking s.unwoken) e h in
    record { woken = k.woken; is_called = tt }
Step-Awake {s} (quits l run ne) h =
    subst (λ x. Awake x s.place s.waking s.unwoken) (set_quit_lem s.loop l run)
      (record {
        woken = λ n. h.woken (sym (quit_elsewhere s.place s.loop s.unwoken ne) ∙ n);
        is_called = same-IsCalling s.place s.loop _ refl h.is_called;
      })
Step-Awake {s} (other_pushes f) h = record {
  woken = λ n. omega arith;
  is_called = same-IsCalling s.place s.loop _ refl h.is_called;
}
Step-Awake {s} (other_quits l run) h =
    subst (λ x. Awake x s.place (s.waking + 1) s.unwoken) (set_quit_lem s.loop l run)
      (record {
        woken = λ n. omega arith;
        is_called = same-IsCalling s.place s.loop _ refl h.is_called;
      })
Step-Awake {s} (other_wakes n e) h = record {
  woken = λ m. omega arith;
  is_called = same-IsCalling s.place s.loop _ refl h.is_called;
}

Reach-Awake : {s : System} → Reach s → Awake s.loop s.place s.waking s.unwoken
Reach-Awake here = record { woken = λ n. cc; is_called = tt }
Reach-Awake (next r st) = Step-Awake st (Reach-Awake r)

-- Whenever the thread of the loop is in `poll` while a functor waits, or after `quit`, the descriptor that
-- ends `poll` is readable, or another thread is about to make it so; but for functors alone this holds only
-- if the loop's own thread has queued none outside `loop` since functors were taken last.
pub poll-Awake :
    {s : System}
    → Reach s
    → s.place ≡ Place.in_poll
    → (is_announced s.loop s.unwoken || s.loop.quit) ≡ true
    → 0 < s.loop.ticks + s.waking
poll-Awake {s} r e n = (subst (λ p. Awake s.loop p s.waking s.unwoken) e (Reach-Awake r)).woken n
