-- ===== src/Threads/Pool/Sections.antt =====
-- What the critical sections of base/thread/ThreadPoolff.cpp have seen when they answer.
use firey.Prelude.{
  ℕ, ◌≤◌, ◌<◌, ◌≡◌, refl, ap, ◌⊎◌, Bool, true, false, not, ◌&&◌, List, [], ◌∷◌, ◌++◌, Option, some,
  if◌then◌else◌, check, ◌>>◌, length, arith,
}
use mathlib.Core.Path.{subst}
use firey.Threads.Pool.{
  ThreadPool, Answer, full, refused, accepted, run_locked, Taken, empty, nothing, took, pop_front,
  is_empty, is_full, take_locked,
}

abbrev pub enqueue : ThreadPool → ℕ → ThreadPool
enqueue p task = record p { queue = p.queue ++ (task ∷ []) }

abbrev run_at : (full_now running : Bool) → ThreadPool → Option Answer
run_at f r p =
    if f && r
    then some full
    else if not r
    then some refused
    else (check (not f) >> some (accepted p))

full_at : (f r : Bool) (p : ThreadPool) → run_at f r p ≡ some full → (f ≡ true) × (r ≡ true)
full_at true true p e = (refl, refl)
full_at true false p e = cc
full_at false true p e = cc
full_at false false p e = cc

refused_at : (f r : Bool) (p : ThreadPool) → run_at f r p ≡ some refused → r ≡ false
refused_at true true p e = cc
refused_at f false p e = refl
refused_at false true p e = cc

accepted_at :
    (f r : Bool) (p p1 : ThreadPool)
    → run_at f r p ≡ some (accepted p1)
    → (f ≡ false) × (r ≡ true) × (p1 ≡ p)
accepted_at true true p p1 e = cc
accepted_at true false p p1 e = cc
accepted_at false false p p1 e = cc
accepted_at false true p p1 e = (refl, refl, cc)

is_full_lem : (p : ThreadPool) → is_full p ≡ true → p.max_queue_size ≤ length p.queue
is_full_lem p e = ground arith

room_lem :
    (p : ThreadPool)
    → is_full p ≡ false
    → (p.max_queue_size ≡ 0) ⊎ (length p.queue < p.max_queue_size)
room_lem p e = ground arith

pub run_full :
    (p : ThreadPool) (task : ℕ)
    → run_locked p task ≡ some full
    → (p.max_queue_size ≤ length p.queue) × (p.running ≡ true)
unfolding run_locked
run_full p task e =
    let (f, r) = full_at (is_full p) p.running (enqueue p task) e in (is_full_lem p f, r)

pub run_refused_lem :
    (p : ThreadPool) (task : ℕ) → run_locked p task ≡ some refused → p.running ≡ false
unfolding run_locked
run_refused_lem p task e = refused_at (is_full p) p.running (enqueue p task) e

pub run_accepted_lem :
    (p p1 : ThreadPool) (task : ℕ)
    → run_locked p task ≡ some (accepted p1)
    → ((p.max_queue_size ≡ 0) ⊎ (length p.queue < p.max_queue_size))
      × (p.running ≡ true)
      × (p1 ≡ enqueue p task)
unfolding run_locked
run_accepted_lem p p1 task e =
    let (f, r, q) = accepted_at (is_full p) p.running (enqueue p task) p1 e in (room_lem p f, r, q)

abbrev take_at : (running : Bool) → ThreadPool → List ℕ → Taken
take_at r p q = if is_empty q && r then empty else pop_front p q

empty_at : (r : Bool) (p : ThreadPool) (q : List ℕ) → take_at r p q ≡ empty → (q ≡ []) × (r ≡ true)
empty_at true p [] e = (refl, refl)
empty_at false p [] e = cc
empty_at r p (t ∷ q) e = cc

nothing_at :
    (r : Bool) (p : ThreadPool) (q : List ℕ) → take_at r p q ≡ nothing → (q ≡ []) × (r ≡ false)
nothing_at true p [] e = cc
nothing_at false p [] e = (refl, refl)
nothing_at r p (t ∷ q) e = cc

took_at :
    (r : Bool) (p p1 : ThreadPool) (q : List ℕ) (task : ℕ)
    → take_at r p q ≡ took task p1
    → (q ≡ task ∷ p1.queue) × (p1 ≡ record p { queue = p1.queue })
took_at true p p1 [] task e = cc
took_at false p p1 [] task e = cc
took_at r p p1 (t ∷ q) task e =
    let same : record p { queue = q } ≡ p1 = cc in
    let name : t ≡ task = cc in
    subst (λ x. (t ∷ q ≡ task ∷ x.queue) × (x ≡ record p { queue = x.queue })) same
      (ap (λ n. n ∷ q) name, refl)

pub take_empty : (p : ThreadPool) → take_locked p ≡ empty → (p.queue ≡ []) × (p.running ≡ true)
unfolding take_locked
take_empty p e = empty_at p.running p p.queue e

pub take_nothing_lem :
    (p : ThreadPool) → take_locked p ≡ nothing → (p.queue ≡ []) × (p.running ≡ false)
unfolding take_locked
take_nothing_lem p e = nothing_at p.running p p.queue e

pub take_task_lem :
    (p p1 : ThreadPool) (task : ℕ)
    → take_locked p ≡ took task p1
    → (p.queue ≡ task ∷ p1.queue) × (p1 ≡ record p { queue = p1.queue })
unfolding take_locked
take_task_lem p p1 task e = took_at p.running p p1 p.queue task e
