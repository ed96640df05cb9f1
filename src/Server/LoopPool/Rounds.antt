-- ===== src/Server/LoopPool/Rounds.antt =====
-- `getNextLoop` of net/EventLoopThreadPoolff.cpp goes round the loops.
use firey.Prelude.{
  ℕ, zero, suc, ◌+◌, ◌%◌, ◌<◌, ◌≡◌, refl, sym, ap, ◌∙◌, Bool, true, false, List, [], ◌∷◌, Option,
  some, ◌==◌, leb, leb→le, if◌then◌else◌, ◌>>=◌, length, arith, Bool-cases, inl, inr,
}
use mathlib.Core.Path.{ap₂}
use native.Mathlib.Nat.{mod-lt, mod-add-mod, mod_self, mod-eq_of_lt, zero-mod}
use firey.Server.LoopPool.{
  LoopPool, new_pool, set_thread_num, start_loops, start, at, advance, get_next_loop,
}

-- The loops that `n` connections get, one after the other.
unfoldable pub assign : LoopPool → ℕ → Option (List ℕ)
assign p zero = some []
assign p (suc n) = get_next_loop p >>= λ r. assign r.1 n >>= λ ls. some (r.0 ∷ ls)

-- What they should get: the loops of `n` threads in turn, or the base loop if there is none.
abbrev pub loop_for : (base : ℕ) → (ℕ → ℕ) → (n i : ℕ) → ℕ
loop_for base start_loop n i = if n == 0 then base else start_loop (i % n + 1)

abbrev pub in_turn : (ℕ → ℕ) → (i k : ℕ) → List ℕ
in_turn loop i zero = []
in_turn loop i (suc k) = loop i ∷ in_turn loop (i + 1) k

at-start_loops :
    (start_loop : ℕ → ℕ) (i n k : ℕ)
    → k < n
    → at (start_loops start_loop i n) k ≡ some (start_loop (i + k + 1))
unfolding start_loops
at-start_loops start_loop i zero k h = absurd (omega arith)
at-start_loops start_loop i (suc n) zero h = ap (λ x. some (start_loop x)) (omega arith)
at-start_loops start_loop i (suc n) (suc k) h =
    at-start_loops start_loop (i + 1) n k (omega arith)
    ∙ ap (λ x. some (start_loop x)) (omega arith)

length-start_loops : (start_loop : ℕ → ℕ) (i n : ℕ) → length (start_loops start_loop i n) ≡ n
unfolding start_loops
length-start_loops start_loop i zero = refl
length-start_loops start_loop i (suc n) = ap suc (length-start_loops start_loop (i + 1) n)

advance-mod : (i size : ℕ) → 0 < size → advance (i % size) size ≡ (i + 1) % size
advance-mod i size h = elim (Bool-cases (leb size (i % size + 1))) [
  | inl e ↦
      let full : i % size + 1 ≡ size = omega (arith, mod-lt i h, leb→le size (i % size + 1) e) in
      rw e (sym (mod_self size) ∙ (ap (λ x. x % size) (sym full) ∙ mod-add-mod i size 1))
  | inr e ↦
      let room : i % size + 1 < size = ground arith in
      rw e (sym (mod-eq_of_lt room) ∙ mod-add-mod i size 1)
]

-- The pool after `start`, when `i` connections have been given away.
abbrev after_start : (base : ℕ) → (ℕ → ℕ) → (n i : ℕ) → LoopPool
after_start base start_loop n i = record {
  base_loop = base;
  started = true;
  num_threads = n;
  next = if n == 0 then 0 else i % n;
  loops = start_loops start_loop 0 n;
}

nonzero : (n : ℕ) → (suc n == 0) ≡ false
nonzero n = ground arith

zero-lt-suc : (n : ℕ) → 0 < suc n
zero-lt-suc n = omega arith

get_next_loop_lem :
    (base : ℕ) (start_loop : ℕ → ℕ) (n i : ℕ)
    → get_next_loop (after_start base start_loop n i)
      ≡ some (loop_for base start_loop n i, after_start base start_loop n (i + 1))
unfolding get_next_loop start_loops
get_next_loop_lem base start_loop zero i = refl
get_next_loop_lem base start_loop (suc n) i =
    let first = at-start_loops start_loop 0 (suc n) (i % suc n) (mod-lt i (zero-lt-suc n)) in
    let size = length-start_loops start_loop 0 (suc n) in
    rw (nonzero n) (
      rw first (
        ap₂ (λ l x. some (l, with_next (after_start base start_loop (suc n) i) x))
          (ap start_loop (omega arith))
          (ap (advance (i % suc n)) size ∙ advance-mod i (suc n) (zero-lt-suc n))))
  where
    with_next : LoopPool → ℕ → LoopPool
    with_next p x = record p { next = x }

assign-in_turn :
    (base : ℕ) (start_loop : ℕ → ℕ) (n i k : ℕ)
    → assign (after_start base start_loop n i) k ≡ some (in_turn (loop_for base start_loop n) i k)
unfolding assign
assign-in_turn base start_loop n i zero = refl
assign-in_turn base start_loop n i (suc k) =
    rw (get_next_loop_lem base start_loop n i)
      (rw (assign-in_turn base start_loop n (i + 1) k) refl)

-- After `start`, connections get the loops of the threads in turn, or all the base loop if there are no
-- threads; `start` and `getNextLoop` succeed.
pub start-assign :
    (base : ℕ) (start_loop : ℕ → ℕ) (n : ℕ) (has_callback : Bool) (k : ℕ)
    → (start start_loop (set_thread_num (new_pool base) n) has_callback >>= λ r. assign r.1 k)
      ≡ some (in_turn (loop_for base start_loop n) 0 k)
unfolding start
start-assign base start_loop zero has_callback k = assign-in_turn base start_loop 0 0 k
start-assign base start_loop (suc n) has_callback k =
    ap (λ x. assign (with_next x) k) (rw (nonzero n) (sym (zero-mod (suc n))))
    ∙ assign-in_turn base start_loop (suc n) 0 k
  where
    with_next : ℕ → LoopPool
    with_next x = record {
      base_loop = base;
      started = true;
      num_threads = suc n;
      next = x;
      loops = start_loops start_loop 0 (suc n);
    }
