-- ===== src/Threads/Tests.antt =====
-- Runs of base/thread, and the theorems at concrete data.
use firey.Prelude.{
  ℕ, refl, false, inl, inr, ◌++◌, length, ◌≤◌, true, ◌∷◌, [], ◌⊎◌, ◌+◌, ◌*◌, ◌<◌, ◌≡◌, ◌↔◌, arith,
}
use firey.Threads.Pool.{Waiters, run_locked, take_locked}
use firey.Threads.Pool.System.{
  System, Reach, here, next, run_waits, run_refused, run_accepted, take_waits, take_task, stops,
}
use firey.Threads.Pool.Safety.{Covered, Filled, Reach-safe}
use firey.Threads.Condition.{deadline, deadline-whole_seconds}

deadline-whole_seconds_example :
    (((deadline 10 600000000 (3 * 1000000000)).1 < 1000000000) ↔ (600000000 < 500000000))
    × ((deadline 10 600000000 (3 * 1000000000)).0 ≡ 10 + 3)
    × ((deadline 10 600000000 (3 * 1000000000)).1 ≡ 600000000 + 600000000)
deadline-whole_seconds_example = deadline-whole_seconds 10 600000000 3 (omega arith)

-- One thread waits for a task, a second thread gives two, waits for room for a third, and is refused after `stop`.
abbrev waiter : (waiting notified : ℕ) → Waiters
waiter waiting notified = record { waiting = waiting; notified = notified }

abbrev pool_bound : ℕ
pool_bound = 2

abbrev afterwards : System
afterwards = record {
  pool = record { threads = 1; max_queue_size = 2; running = false; queue = 8 ∷ 9 ∷ [] };
  not_empty = waiter 0 0;
  not_full = waiter 0 0;
  given = 7 ∷ 8 ∷ 9 ∷ [];
  begun = 7 ∷ [];
}

pool_run : Reach 0 2 afterwards
unfolding run_locked take_locked
pool_run =
    let waits : Reach 0 2 _ = next here (take_waits (waiter 0 0) (refl, inl refl) refl) in
    let gives : Reach 0 2 _ = next waits (run_accepted 7 (waiter 0 0) _ (refl, inl refl) refl) in
    let gives_two : Reach 0 2 _ =
      next gives (run_accepted 8 (waiter 0 0) _ (refl, inl refl) refl) in
    let full_now : Reach 0 2 _ = next gives_two (run_waits 9 (waiter 0 0) (refl, inl refl) refl) in
    let takes : Reach 0 2 _ = next full_now (take_task 7 (waiter 0 0) _ (refl, inr refl) refl) in
    let has_room : Reach 0 2 _ = next takes (run_accepted 9 (waiter 0 0) _ (refl, inr refl) refl) in
    let stopped : Reach 0 2 _ = next has_room stops in
    next stopped (run_refused 10 (waiter 0 0) (refl, inl refl) refl)

Reach-safe_example :
    (afterwards.begun ++ afterwards.pool.queue ≡ afterwards.given)
    × ((pool_bound ≡ 0) ⊎ (length afterwards.pool.queue ≤ pool_bound))
    × Covered afterwards.not_empty (length afterwards.pool.queue)
    × Filled afterwards.not_full (length afterwards.pool.queue) pool_bound
    × ((afterwards.pool.running ≡ true)
        ⊎ ((afterwards.not_empty.waiting ≡ 0) × (afterwards.not_full.waiting ≡ 0)))
Reach-safe_example = Reach-safe pool_run
