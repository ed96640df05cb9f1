-- ===== src/Threads/Pool/System.antt =====
-- The threads of a pool of base/thread/ThreadPoolff.cpp and those that give it tasks, in any interleaving.
use firey.Prelude.{ℕ, suc, ◌+◌, ◌≡◌, ◌⊎◌, true, List, [], ◌∷◌, ◌++◌, some}
use firey.Threads.Pool.{
  ThreadPool, full, refused, accepted, run_locked, empty, nothing, took, take_locked, stop_locked,
  Waiters, notify, notify_all, wait, notify_room,
}

-- `given` are the tasks that were accepted and `begun` those that were taken, oldest first.
pub record System : Type 0 where
  pub pool : ThreadPool
  pub not_empty : Waiters
  pub not_full : Waiters
  pub given : List ℕ
  pub begun : List ℕ

-- A thread comes to the mutex of its own, or wakes up after a notification.
abbrev pub Enters : Waiters → Waiters → Type 0
Enters w w1 =
    (w1.waiting ≡ w.waiting) × ((w1.notified ≡ w.notified) ⊎ (w1.notified + 1 ≡ w.notified))

-- After `setMaxQueueSize` and `start` with one thread and `more`: without threads, `run` calls the task itself.
abbrev pub new_system : (more max_queue_size : ℕ) → System
new_system more max_queue_size = record {
  pool = record { threads = more + 1; max_queue_size = max_queue_size; running = true; queue = [] };
  not_empty = record { waiting = 0; notified = 0 };
  not_full = record { waiting = 0; notified = 0 };
  given = [];
  begun = [];
}

pub data Step (s : System) : System → Type 0 where
  run_waits :
      (task : ℕ) (w : Waiters)
      → Enters s.not_full w
      → run_locked s.pool task ≡ some full
      → Step s (record s { not_full = wait w })
  run_refused :
      (task : ℕ) (w : Waiters)
      → Enters s.not_full w
      → run_locked s.pool task ≡ some refused
      → Step s (record s { not_full = w })
  run_accepted :
      (task : ℕ) (w : Waiters) (p : ThreadPool)
      → Enters s.not_full w
      → run_locked s.pool task ≡ some (accepted p)
      → Step s (record s {
        pool = p;
        not_full = w;
        not_empty = notify s.not_empty;
        given = s.given ++ (task ∷ []);
      })
  take_waits :
      (w : Waiters)
      → Enters s.not_empty w
      → take_locked s.pool ≡ empty
      → Step s (record s { not_empty = wait w })
  take_nothing :
      (w : Waiters)
      → Enters s.not_empty w
      → take_locked s.pool ≡ nothing
      → Step s (record s { not_empty = w })
  take_task :
      (task : ℕ) (w : Waiters) (p : ThreadPool)
      → Enters s.not_empty w
      → take_locked s.pool ≡ took task p
      → Step s (record s {
        pool = p;
        not_empty = w;
        not_full = notify_room p s.not_full;
        begun = s.begun ++ (task ∷ []);
      })
  stops : Step s (record s {
    pool = stop_locked s.pool;
    not_empty = notify_all s.not_empty;
    not_full = notify_all s.not_full;
  })
  -- a wait may end without a notification
  spurious_empty :
      (n : ℕ)
      → s.not_empty.waiting ≡ suc n
      → Step s
          (record s { not_empty = record { waiting = n; notified = s.not_empty.notified + 1 } })
  spurious_full :
      (n : ℕ)
      → s.not_full.waiting ≡ suc n
      → Step s (record s { not_full = record { waiting = n; notified = s.not_full.notified + 1 } })

pub data Reach (more max_queue_size : ℕ) : System → Type 0 where
  here : Reach more max_queue_size (new_system more max_queue_size)
  next : {s s1 : System} → Reach more max_queue_size s → Step s s1 → Reach more max_queue_size s1
