-- ===== src/Loop/System/Tests.antt =====
-- A functor that another thread queues for a loop in `poll`, and the theorems on it.
use firey.Prelude.{◌+◌, ◌<◌, ◌≡◌, refl, true, false, [], ◌∷◌, some, none}
use firey.Loop.{EventLoop, new_loop, start_loop, queue_in_loop, run_in_loop, quit_loop, set_quit}
use firey.Loop.System.{
  Place, System, outside_queues, begins, goes_on, polled, reads, handled, calls, functor_queues,
  other_pushes, other_wakes, Reach, here, next,
}
use firey.Loop.System.Awake.{poll-Awake}
use firey.Loop.System.Order.{ran-queued}

abbrev started : EventLoop
started = record new_loop { looping = true }

abbrev waiting : System
waiting = record {
  loop = record started { pending_functors = 7 ∷ [] };
  place = Place.in_poll;
  waking = 1;
  unwoken = false;
  queued = 7 ∷ [];
  ran = [];
}

waiting-Reach : Reach waiting
unfolding start_loop
waiting-Reach =
    next (next (next here (begins started refl refl)) (goes_on refl refl)) (other_pushes 7)

poll-Awake_example : 0 < waiting.loop.ticks + waiting.waking
poll-Awake_example = poll-Awake waiting-Reach refl refl

-- The functor 7 queues 8, which waits for the next round.
abbrev in_round : System
in_round = record {
  loop = record started { calling_pending_functors = true; pending_functors = 8 ∷ []; ticks = 1 };
  place = Place.in_functors [];
  waking = 0;
  unwoken = false;
  queued = 7 ∷ 8 ∷ [];
  ran = 7 ∷ [];
}

in_round-Reach : Reach in_round
unfolding queue_in_loop
in_round-Reach =
    next
      (next
        (next (next (next (next waiting-Reach (other_wakes 0 refl)) (polled refl)) (reads refl))
          (handled refl))
        (calls 7 [] refl))
      (functor_queues 8 [] refl)

ran-queued_example : 7 ∷ 8 ∷ [] ≡ in_round.queued
ran-queued_example = ran-queued in_round-Reach

-- A second `quit` fails its assertion.
quit_twice : quit_loop (record started { quit = true }) false ≡ none
unfolding quit_loop set_quit
quit_twice = refl

-- The thread of the loop calls at once, another queues.
run_here : run_in_loop started true 7 ≡ (some 7, started)
unfolding run_in_loop
run_here = refl

run_there :
    run_in_loop started false 7 ≡ (none, record started { pending_functors = 7 ∷ []; ticks = 1 })
unfolding run_in_loop queue_in_loop
run_there = refl

-- A functor that the loop's own thread queues before `loop` waits while the descriptor is not readable.
abbrev unheard : System
unheard = record {
  loop = record started { pending_functors = 7 ∷ [] };
  place = Place.in_poll;
  waking = 0;
  unwoken = true;
  queued = 7 ∷ [];
  ran = [];
}

unheard-Reach : Reach unheard
unfolding queue_in_loop start_loop
unheard-Reach =
    next
      (next (next here (outside_queues 7 refl))
        (begins (record started { pending_functors = 7 ∷ [] }) refl refl))
      (goes_on refl refl)
