-- ===== src/Timers/Delay.antt =====
-- `howMuchTimeFromNow` of net/TimerQueueff.cpp.
use firey.Prelude.{
  ℕ, ◌+◌, ◌-◌, ◌*◌, ◌/◌, ◌%◌, ◌<◌, ◌≤◌, ◌≡◌, Bool-cases, ltb→lt, ◌⊎◌, inl, inr, ltb, arith,
}
use firey.Timers.{how_much_time_from_now}

split_lem :
    (m : ℕ)
    → (m % 1000000 * 1000 < 1000000000) × (m / 1000000 * 1000000000 + m % 1000000 * 1000 ≡ m * 1000)
split_lem m = (omega arith, omega arith)

-- The nanoseconds are fewer than a second's, as timerfd_settime asks; the delay is never 0, which would
-- turn the descriptor off, and never ends before the time that was asked for.
pub how_much_time_from_now_lem :
    (when now : ℕ)
    → ((how_much_time_from_now when now).1 < 1000000000)
      × (100000
          ≤ (how_much_time_from_now when now).0 * 1000000000 + (how_much_time_from_now when now).1)
      × (when * 1000
          ≤ now * 1000
            + ((how_much_time_from_now when now).0 * 1000000000
                + (how_much_time_from_now when now).1))
unfolding how_much_time_from_now
how_much_time_from_now_lem when now = elim (Bool-cases (ltb (when - now) 100)) [
  | inl e ↦ rw e (omega arith, omega arith, omega (arith, ltb→lt (when - now) 100 e))
  | inr e ↦
      let late : 100 ≤ when - now = ground arith in
      rw e (
        (split_lem (when - now)).0,
        omega (arith, late, (split_lem (when - now)).1),
        omega (arith, late, (split_lem (when - now)).1),
      )
]

-- Nor does it end later than the time asked for, unless it is the least delay.
pub how_much_time_from_now_late :
    (when now : ℕ)
    → (now * 1000
          + ((how_much_time_from_now when now).0 * 1000000000 + (how_much_time_from_now when now).1)
        ≤ when * 1000)
      ⊎ (now * 1000
            + ((how_much_time_from_now when now).0 * 1000000000
                + (how_much_time_from_now when now).1)
          ≤ now * 1000 + 100000)
unfolding how_much_time_from_now
how_much_time_from_now_late when now = elim (Bool-cases (ltb (when - now) 100)) [
  | inl e ↦ rw e (inr (omega arith))
  | inr e ↦
      let late : 100 ≤ when - now = ground arith in
      rw e (inl (omega (arith, late, (split_lem (when - now)).1)))
]
