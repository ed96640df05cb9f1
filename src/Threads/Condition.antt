-- ===== src/Threads/Condition.antt =====
-- `waitForSeconds` of base/thread/Conditionff.h.
use firey.Prelude.{ℕ, ◌+◌, ◌*◌, ◌/◌, ◌%◌, ◌<◌, ◌≡◌, ◌↔◌, arith}

-- The time that pthread_cond_timedwait is given, as seconds and nanoseconds: from the clock's, with the
-- wait in nanoseconds.
unfoldable pub deadline : (seconds nanos wait : ℕ) → ℕ × ℕ
deadline seconds nanos wait =
    (seconds + (nanos + wait) / 1000000000, nanos + (nanos + wait) % 1000000000)

-- A wait of whole seconds gets a time that pthread_cond_timedwait accepts, one with fewer nanoseconds than
-- a second, exactly in the first half of each second of the clock; then it lies later than it should by
-- the clock's nanoseconds.
pub deadline-whole_seconds :
    (seconds nanos wait : ℕ)
    → nanos < 1000000000
    → (((deadline seconds nanos (wait * 1000000000)).1 < 1000000000) ↔ (nanos < 500000000))
      × ((deadline seconds nanos (wait * 1000000000)).0 ≡ seconds + wait)
      × ((deadline seconds nanos (wait * 1000000000)).1 ≡ nanos + nanos)
unfolding deadline
deadline-whole_seconds seconds nanos wait h =
    ((λ k. omega (arith, k), λ k. omega (arith, k)), omega arith, omega arith)
