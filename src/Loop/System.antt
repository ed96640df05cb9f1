-- ===== src/Loop/System.antt =====
-- The thread of a loop of net/EventLoopff.cpp and any other threads that queue functors for it or end it, in
-- any interleaving. What lies between two critical sections or system calls is one step.
pub mod Awake
pub mod Order
mod Tests
use firey.Prelude.{ℕ, suc, ◌+◌, ◌≡◌, ◌≢◌, Bool, true, false, List, [], ◌∷◌, ◌++◌, Option, some}
use firey.Loop.{
  EventLoop, new_loop, wakeup, handle_wakeup_read, push_functor, queue_in_loop, set_quit,
  start_loop, stop_loop, handling, take_functors, end_functors,
}

-- Where the thread of the loop is: before or after `loop`, at the test of `while`, in `poll`, in the
-- handlers, or in `doPendingFunctors` with these functors left.
pub data Place : Type 0 where
  outside at_test in_poll in_handlers : Place
  in_functors : List ℕ → Place

-- `waking` counts the other threads that have pushed a functor or set `quit_` and not yet woken the loop up.
-- `queued` and `ran` are the functors that were queued and that were called, oldest first. `unwoken`: since
-- functors were taken last, the loop's own thread has queued one outside `loop`, which wakes nobody up.
pub record System : Type 0 where
  pub loop : EventLoop
  pub place : Place
  pub waking : ℕ
  pub unwoken : Bool
  pub queued : List ℕ
  pub ran : List ℕ

abbrev pub new_system : System
new_system = record {
  loop = new_loop;
  place = Place.outside;
  waking = 0;
  unwoken = false;
  queued = [];
  ran = [];
}

abbrev queue_here : System → ℕ → System
queue_here s f = record s { loop = queue_in_loop s.loop true f; queued = s.queued ++ (f ∷ []) }

pub data Step (s : System) : System → Type 0 where
  -- the thread of the loop
  outside_queues :
      (f : ℕ)
      → s.place ≡ Place.outside
      → Step s (record s {
        loop = queue_in_loop s.loop true f;
        unwoken = true;
        queued = s.queued ++ (f ∷ []);
      })
  begins :
      (l : EventLoop)
      → s.place ≡ Place.outside
      → start_loop s.loop ≡ some l
      → Step s (record s { loop = l; place = Place.at_test })
  goes_on :
      s.place ≡ Place.at_test → s.loop.quit ≡ false → Step s (record s { place = Place.in_poll })
  ends :
      s.place ≡ Place.at_test
      → s.loop.quit ≡ true
      → Step s (record s { loop = stop_loop s.loop; place = Place.outside })
  polled :
      s.place ≡ Place.in_poll
      → Step s (record s { loop = handling true s.loop; place = Place.in_handlers })
  reads : s.place ≡ Place.in_handlers → Step s (record s { loop = handle_wakeup_read s.loop })
  handler_queues : (f : ℕ) → s.place ≡ Place.in_handlers → Step s (queue_here s f)
  handled :
      s.place ≡ Place.in_handlers
      → Step s (record s {
        loop = (take_functors (handling false s.loop)).1;
        place = Place.in_functors (take_functors (handling false s.loop)).0;
        unwoken = false;
      })
  calls :
      (f : ℕ) (fs : List ℕ)
      → s.place ≡ Place.in_functors (f ∷ fs)
      → Step s (record s { place = Place.in_functors fs; ran = s.ran ++ (f ∷ []) })
  functor_queues : (f : ℕ) (fs : List ℕ) → s.place ≡ Place.in_functors fs → Step s (queue_here s f)
  called :
      s.place ≡ Place.in_functors []
      → Step s (record s { loop = end_functors s.loop; place = Place.at_test })
  quits :
      (l : EventLoop)
      → set_quit s.loop ≡ some l
      → s.place ≢ Place.in_poll
      → Step s (record s { loop = l })
  -- other threads
  other_pushes :
      (f : ℕ)
      → Step s (record s {
        loop = push_functor s.loop f;
        waking = s.waking + 1;
        queued = s.queued ++ (f ∷ []);
      })
  other_quits :
      (l : EventLoop)
      → set_quit s.loop ≡ some l
      → Step s (record s { loop = l; waking = s.waking + 1 })
  other_wakes : (n : ℕ) → s.waking ≡ suc n → Step s (record s { loop = wakeup s.loop; waking = n })

pub data Reach : System → Type 0 where
  here : Reach new_system
  next : {s s1 : System} → Reach s → Step s s1 → Reach s1
