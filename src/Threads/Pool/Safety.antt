-- ===== src/Threads/Pool/Safety.antt =====
-- What holds of a pool of base/thread/ThreadPoolff.cpp at all times: the order of the tasks, the bound of the
-- queue, and that no thread waits for what is there.
use firey.Prelude.{
  ℕ, zero, suc, ◌+◌, ◌≤◌, ◌≡◌, refl, sym, ap, ◌∙◌, ◌⊎◌, inl, inr, Bool, true, false, List, [], ◌∷◌,
  ◌++◌, append_assoc, length, length-append, ltb, Bool-cases, arith,
}
use mathlib.Core.Path.{subst}
use firey.Threads.Pool.{ThreadPool, Waiters, notify_one, notify, notify_room}
use firey.Threads.Pool.Sections.{
  run_full, run_refused_lem, run_accepted_lem, take_empty, take_nothing_lem, take_task_lem,
}
use firey.Threads.Pool.System.{
  System, Enters, Step, run_waits, run_refused, run_accepted, take_waits, take_nothing, take_task,
  stops, spurious_empty, spurious_full, Reach, here, next,
}

-- Whoever waits does so for lack of `n` of something, or as many as there are were notified.
abbrev pub Covered : Waiters → (there : ℕ) → Type 0
Covered w there = (w.waiting ≡ 0) ⊎ (there ≤ w.notified)

-- Nobody waits for room, or those that were notified and the queue together fill the bound.
abbrev pub Filled : Waiters → (queued bound : ℕ) → Type 0
Filled w queued bound = (w.waiting ≡ 0) ⊎ (bound ≤ queued + w.notified)

-- Nobody waits in a pool that was stopped.
abbrev Quiet : Bool → Waiters → Type 0
Quiet running w = running ≡ false → w.waiting ≡ 0

record Sound (bound : ℕ) (s : System) : Type 0 where
  in_order : s.begun ++ s.pool.queue ≡ s.given
  same_bound : s.pool.max_queue_size ≡ bound
  bounded : (bound ≡ 0) ⊎ (length s.pool.queue ≤ bound)
  covered : Covered s.not_empty (length s.pool.queue)
  filled : Filled s.not_full (length s.pool.queue) bound
  empty_quiet : Quiet s.pool.running s.not_empty
  full_quiet : Quiet s.pool.running s.not_full

notify_covers :
    (w k n : ℕ)
    → (w ≡ 0) ⊎ (n ≤ k)
    → ((notify_one w k).waiting ≡ 0) ⊎ (n + 1 ≤ (notify_one w k).notified)
notify_covers zero k n h = inl refl
notify_covers (suc w) k n h = inr (ground arith)

notify_fills :
    (w k n b : ℕ)
    → (w ≡ 0) ⊎ (b ≤ (n + 1) + k)
    → ((notify_one w k).waiting ≡ 0) ⊎ (b ≤ n + (notify_one w k).notified)
notify_fills zero k n b h = inl refl
notify_fills (suc w) k n b h = inr (ground arith)

notify_quiet : (w k : ℕ) → w ≡ 0 → (notify_one w k).waiting ≡ 0
notify_quiet zero k h = refl
notify_quiet (suc w) k h = ground arith

leaves_Covered : (w w1 : Waiters) (n : ℕ) → Enters w w1 → Covered w (n + 1) → Covered w1 n
leaves_Covered w w1 n e h = ground arith

leaves_Filled : (w w1 : Waiters) (n b : ℕ) → Enters w w1 → Filled w n b → Filled w1 (n + 1) b
leaves_Filled w w1 n b e h = ground arith

-- `take` notifies for room in a bounded queue.
room_Filled :
    (p : ThreadPool) (w : Waiters) (n b : ℕ)
    → p.max_queue_size ≡ b
    → Filled w (n + 1) b
    → Filled (notify_room p w) n b
room_Filled p w n b e h = elim (Bool-cases (ltb 0 p.max_queue_size)) [
  | inl t ↦ rw t (notify_fills w.waiting w.notified n b h)
  | inr t ↦ rw t (inr (ground arith))
]

room_Quiet : (p : ThreadPool) (w : Waiters) → w.waiting ≡ 0 → (notify_room p w).waiting ≡ 0
room_Quiet p w h = elim (Bool-cases (ltb 0 p.max_queue_size)) [
  | inl t ↦ rw t (notify_quiet w.waiting w.notified h)
  | inr t ↦ rw t h
]

length-snoc : (q : List ℕ) (t : ℕ) → length (q ++ (t ∷ [])) ≡ length q + 1
length-snoc q t = length-append q (t ∷ [])

Step-Sound : {bound : ℕ} {s s1 : System} → Step s s1 → Sound bound s → Sound bound s1
Step-Sound {bound} {s} (run_waits task w e run) h =
    let (filled, on) = run_full s.pool task run in
    record {
      in_order = h.in_order;
      same_bound = h.same_bound;
      bounded = h.bounded;
      covered = h.covered;
      filled = inr (ground arith);
      empty_quiet = h.empty_quiet;
      full_quiet = λ off. cc;
    }
Step-Sound {bound} {s} (run_refused task w e run) h =
    let quiet : w.waiting ≡ 0 = e.0 ∙ h.full_quiet (run_refused_lem s.pool task run) in
    record {
      in_order = h.in_order;
      same_bound = h.same_bound;
      bounded = h.bounded;
      covered = h.covered;
      filled = inl quiet;
      empty_quiet = h.empty_quiet;
      full_quiet = λ off. quiet;
    }
Step-Sound {bound} {s} (run_accepted task w p e run) h =
    let (room, on, same) = run_accepted_lem s.pool p task run in
    subst
      (λ x. Sound bound (record s {
        pool = x;
        not_full = w;
        not_empty = notify s.not_empty;
        given = s.given ++ (task ∷ []);
      }))
      (sym same)
      (record {
        in_order =
            sym (append_assoc s.begun s.pool.queue (task ∷ []))
            ∙ ap (λ x. x ++ (task ∷ [])) h.in_order;
        same_bound = h.same_bound;
        bounded = rw (length-snoc s.pool.queue task) (ground arith);
        covered = rw (length-snoc s.pool.queue task) (
            notify_covers s.not_empty.waiting s.not_empty.notified (length s.pool.queue) h.covered);
        filled =
            rw (length-snoc s.pool.queue task)
              (leaves_Filled s.not_full w (length s.pool.queue) bound e h.filled);
        empty_quiet = λ off. cc;
        full_quiet = λ off. cc;
      })
Step-Sound {bound} {s} (take_waits w e take) h =
    let (none_left, on) = take_empty s.pool take in
    record {
      in_order = h.in_order;
      same_bound = h.same_bound;
      bounded = h.bounded;
      covered = rw none_left (inr (ground arith));
      filled = h.filled;
      empty_quiet = λ off. cc;
      full_quiet = h.full_quiet;
    }
Step-Sound {bound} {s} (take_nothing w e take) h =
    let quiet : w.waiting ≡ 0 = e.0 ∙ h.empty_quiet (take_nothing_lem s.pool take).1 in
    record {
      in_order = h.in_order;
      same_bound = h.same_bound;
      bounded = h.bounded;
      covered = inl quiet;
      filled = h.filled;
      empty_quiet = λ off. quiet;
      full_quiet = h.full_quiet;
    }
Step-Sound {bound} {s} (take_task task w p e take) h =
    let (front, same) = take_task_lem s.pool p task take in
    let count : length s.pool.queue ≡ length p.queue + 1 = ap length front ∙ omega arith in
    subst
      (λ x. Sound bound (record s {
        pool = x;
        not_empty = w;
        not_full = notify_room x s.not_full;
        begun = s.begun ++ (task ∷ []);
      }))
      (sym same)
      (record {
        in_order =
            append_assoc s.begun (task ∷ []) p.queue
            ∙ (ap (λ x. s.begun ++ x) (sym front) ∙ h.in_order);
        same_bound = h.same_bound;
        bounded = ground arith;
        covered =
            leaves_Covered s.not_empty w (length p.queue) e
              (subst (Covered s.not_empty) count h.covered);
        filled =
            room_Filled (record s.pool { queue = p.queue }) s.not_full (length p.queue) bound
              h.same_bound (subst (λ n. Filled s.not_full n bound) count h.filled);
        empty_quiet = λ off. e.0 ∙ h.empty_quiet off;
        full_quiet =
            λ off. room_Quiet (record s.pool { queue = p.queue }) s.not_full (h.full_quiet off);
      })
Step-Sound {bound} {s} stops h = record {
  in_order = h.in_order;
  same_bound = h.same_bound;
  bounded = h.bounded;
  covered = inl refl;
  filled = inl refl;
  empty_quiet = λ off. refl;
  full_quiet = λ off. refl;
}
Step-Sound {bound} {s} (spurious_empty n e) h = record {
  in_order = h.in_order;
  same_bound = h.same_bound;
  bounded = h.bounded;
  covered = ground arith;
  filled = h.filled;
  empty_quiet = λ off. ground arith;
  full_quiet = h.full_quiet;
}
Step-Sound {bound} {s} (spurious_full n e) h = record {
  in_order = h.in_order;
  same_bound = h.same_bound;
  bounded = h.bounded;
  covered = h.covered;
  filled = ground arith;
  empty_quiet = h.empty_quiet;
  full_quiet = λ off. ground arith;
}

Reach-Sound : {more bound : ℕ} {s : System} → Reach more bound s → Sound bound s
Reach-Sound here = record {
  in_order = refl;
  same_bound = refl;
  bounded = inr (ground arith);
  covered = inl refl;
  filled = inl refl;
  empty_quiet = λ off. refl;
  full_quiet = λ off. refl;
}
Reach-Sound (next r st) = Step-Sound st (Reach-Sound r)

-- In every interleaving of threads that give a started pool tasks, take them, wait, wake up, or stop it: the
-- tasks are taken in the order in which they were accepted, and those not taken are in the queue; a bounded
-- queue is never longer than its bound; while a thread waits for a task that was not notified, there are no
-- more tasks than threads that were notified and have not come yet; while a thread waits for room that was
-- not notified, the tasks and those that were notified fill the bound; and when the pool was stopped nobody
-- waits.
pub Reach-safe :
    {more bound : ℕ} {s : System}
    → Reach more bound s
    → (s.begun ++ s.pool.queue ≡ s.given)
      × ((bound ≡ 0) ⊎ (length s.pool.queue ≤ bound))
      × Covered s.not_empty (length s.pool.queue)
      × Filled s.not_full (length s.pool.queue) bound
      × ((s.pool.running ≡ true) ⊎ ((s.not_empty.waiting ≡ 0) × (s.not_full.waiting ≡ 0)))
Reach-safe {s = s} r =
    let h = Reach-Sound r in
    let quiet : (s.pool.running ≡ true) ⊎ ((s.not_empty.waiting ≡ 0) × (s.not_full.waiting ≡ 0)) =
      elim (Bool-cases s.pool.running) [
        | inl on ↦ inl on
        | inr off ↦ inr (h.empty_quiet off, h.full_quiet off)
      ] in
    (h.in_order, h.bounded, h.covered, h.filled, quiet)
