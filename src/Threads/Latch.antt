-- ===== src/Threads/Latch.antt =====
-- base/thread/CountDownLatchff.h and base/thread/CountDownLatchff.cpp. A critical section is one step, and the
-- count an `int` of 32 bits.
use firey.Prelude.{
  ℕ, ◌+◌, ◌-◌, ◌≡◌, refl, ◌⊎◌, inl, inr, Bool, true, false, ◌&&◌, ltb, ◌==◌, if◌then◌else◌, arith,
  Bool-cases,
}
use firey.Threads.Pool.{Waiters, notify_all, wait}
use firey.Threads.Pool.System.{Enters}

pub record Latch : Type 0 where
  pub count : ℕ
  pub condition : Waiters

abbrev pub new_latch : ℕ → Latch
new_latch count = record { count = count; condition = record { waiting = 0; notified = 0 } }

-- `count_ > 0`
abbrev pub is_positive : ℕ → Bool
is_positive count = ltb 0 count && ltb count 2147483648

abbrev pub decrement : ℕ → ℕ
decrement count = if count == 0 then 4294967295 else (count - 1)

abbrev pub count_down : Latch → Latch
count_down l =
    let left = decrement l.count in
    record { count = left; condition = if left == 0 then notify_all l.condition else l.condition }

-- Threads count down and wait, in any order.
pub data Step (l : Latch) : Latch → Type 0 where
  counts_down : Step l (count_down l)
  waits :
      (w : Waiters)
      → Enters l.condition w
      → is_positive l.count ≡ true
      → Step l (record l { condition = wait w })
  passes :
      (w : Waiters)
      → Enters l.condition w
      → is_positive l.count ≡ false
      → Step l (record l { condition = w })
  spurious :
      (n : ℕ)
      → l.condition.waiting ≡ n + 1
      → Step l
          (record l { condition = record { waiting = n; notified = l.condition.notified + 1 } })

pub data Reach (count : ℕ) : Latch → Type 0 where
  here : Reach count (new_latch count)
  next : {l l1 : Latch} → Reach count l → Step l l1 → Reach count l1

StillClosed : Latch → Type 0
StillClosed l = (l.condition.waiting ≡ 0) ⊎ (is_positive l.count ≡ true)

decrement_lem :
    (c : ℕ) → is_positive c ≡ true → (decrement c == 0) ≡ false → is_positive (decrement c) ≡ true
decrement_lem c p z = ground arith

still_closed :
    (waiting c : ℕ)
    → (decrement c == 0) ≡ false
    → (waiting ≡ 0) ⊎ (is_positive c ≡ true)
    → (waiting ≡ 0) ⊎ (is_positive (decrement c) ≡ true)
still_closed waiting c z (inl none_waits) = inl none_waits
still_closed waiting c z (inr p) = inr (decrement_lem c p z)

Step-StillClosed : {l l1 : Latch} → Step l l1 → StillClosed l → StillClosed l1
unfolding StillClosed
Step-StillClosed {l} counts_down h = elim (Bool-cases (decrement l.count == 0)) [
  | inl z ↦ rw z (inl refl)
  | inr z ↦ rw z (still_closed l.condition.waiting l.count z h)
]
Step-StillClosed {l} (waits w e p) h = inr p
Step-StillClosed {l} (passes w e p) h = ground arith
Step-StillClosed {l} (spurious n e) h = ground arith

-- While the count of a latch is not positive, nobody waits at it.
pub Reach-StillClosed :
    {count : ℕ} {l : Latch}
    → Reach count l
    → (l.condition.waiting ≡ 0) ⊎ (is_positive l.count ≡ true)
unfolding StillClosed
Reach-StillClosed here = inl refl
Reach-StillClosed (next r st) = Step-StillClosed st (Reach-StillClosed r)
