-- ===== src/Loop/System/Order.antt =====
-- The order of the functors of a loop of net/EventLoopff.cpp.
use firey.Prelude.{
  ℕ, ◌≡◌, refl, sym, ap, ◌∙◌, Bool, true, false, List, [], ◌∷◌, ◌++◌, append-nil, append_assoc,
  if◌then◌else◌,
}
use mathlib.Core.Path.{subst}
use firey.Loop.{EventLoop, wakeup, push_functor, wakes, queue_in_loop}
use firey.Loop.System.{
  Place, System, queue_here, Step, outside_queues, begins, goes_on, ends, polled, reads,
  handler_queues, handled, calls, functor_queues, called, quits, other_pushes, other_quits,
  other_wakes, Reach, here, next,
}
use firey.Loop.System.Awake.{set_quit_lem, start_loop_lem}

-- The functors that were taken and are still to be called.
abbrev pub left : Place → List ℕ
left Place.outside = []
left Place.at_test = []
left Place.in_poll = []
left Place.in_handlers = []
left (Place.in_functors fs) = fs

pushed_if :
    (b : Bool) (l : EventLoop) → (if b then wakeup l else l).pending_functors ≡ l.pending_functors
pushed_if true l = refl
pushed_if false l = refl

queue_in_loop_lem :
    (l : EventLoop) (b : Bool) (f : ℕ)
    → (queue_in_loop l b f).pending_functors ≡ l.pending_functors ++ (f ∷ [])
unfolding queue_in_loop
queue_in_loop_lem l b f = pushed_if (wakes (push_functor l f) b) (push_functor l f)

-- One more at the end.
snoc :
    (ran taken pending queued : List ℕ) (f : ℕ)
    → ran ++ (taken ++ pending) ≡ queued
    → ran ++ (taken ++ (pending ++ (f ∷ []))) ≡ queued ++ (f ∷ [])
snoc ran taken pending queued f h =
    ap (λ x. ran ++ x) (sym (append_assoc taken pending (f ∷ [])))
    ∙ (sym (append_assoc ran (taken ++ pending) (f ∷ [])) ∙ ap (λ x. x ++ (f ∷ [])) h)

InOrder : System → Type 0
InOrder s = s.ran ++ (left s.place ++ s.loop.pending_functors) ≡ s.queued

queued_here : (s : System) (f : ℕ) → InOrder s → InOrder (queue_here s f)
unfolding InOrder
queued_here s f h =
    ap (λ x. s.ran ++ (left s.place ++ x)) (queue_in_loop_lem s.loop true f)
    ∙ snoc s.ran (left s.place) s.loop.pending_functors s.queued f h

Step-InOrder : {s s1 : System} → Step s s1 → InOrder s → InOrder s1
unfolding InOrder
Step-InOrder {s} (outside_queues f e) h = queued_here s f h
Step-InOrder {s} (begins l e run) h =
    ap (λ x. s.ran ++ x.pending_functors) (sym (start_loop_lem s.loop l run))
    ∙ subst (λ p. s.ran ++ (left p ++ s.loop.pending_functors) ≡ s.queued) e h
Step-InOrder {s} (goes_on e quiet) h =
    subst (λ p. s.ran ++ (left p ++ s.loop.pending_functors) ≡ s.queued) e h
Step-InOrder {s} (ends e over) h =
    subst (λ p. s.ran ++ (left p ++ s.loop.pending_functors) ≡ s.queued) e h
Step-InOrder {s} (polled e) h =
    subst (λ p. s.ran ++ (left p ++ s.loop.pending_functors) ≡ s.queued) e h
Step-InOrder {s} (reads e) h = h
Step-InOrder {s} (handler_queues f e) h = queued_here s f h
Step-InOrder {s} (handled e) h =
    ap (λ x. s.ran ++ x) (append-nil s.loop.pending_functors)
    ∙ subst (λ p. s.ran ++ (left p ++ s.loop.pending_functors) ≡ s.queued) e h
Step-InOrder {s} (calls f fs e) h =
    append_assoc s.ran (f ∷ []) (fs ++ s.loop.pending_functors)
    ∙ subst (λ p. s.ran ++ (left p ++ s.loop.pending_functors) ≡ s.queued) e h
Step-InOrder {s} (functor_queues f fs e) h = queued_here s f h
Step-InOrder {s} (called e) h =
    subst (λ p. s.ran ++ (left p ++ s.loop.pending_functors) ≡ s.queued) e h
Step-InOrder {s} (quits l run ne) h =
    ap (λ x. s.ran ++ (left s.place ++ x.pending_functors)) (sym (set_quit_lem s.loop l run)) ∙ h
Step-InOrder {s} (other_pushes f) h = snoc s.ran (left s.place) s.loop.pending_functors s.queued f h
Step-InOrder {s} (other_quits l run) h =
    ap (λ x. s.ran ++ (left s.place ++ x.pending_functors)) (sym (set_quit_lem s.loop l run)) ∙ h
Step-InOrder {s} (other_wakes n e) h = h

-- In any interleaving, the functors that were called, those that were taken to be called and those that
-- wait are, in this order, the ones that were queued: none is lost, called twice or overtaken.
pub ran-queued :
    {s : System} → Reach s → s.ran ++ (left s.place ++ s.loop.pending_functors) ≡ s.queued
unfolding InOrder
ran-queued here = refl
ran-queued (next r st) = Step-InOrder st (ran-queued r)
