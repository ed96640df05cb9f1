-- ===== src/Logger/LogFile/Rolled.antt =====
-- base/logger/LogFileff.cpp: how large a log file gets.
use firey.Prelude.{
  ℕ, ◌+◌, ◌-◌, ◌≤◌, ◌≡◌, refl, ◌⊎◌, inl, inr, false, not, some, ◌==◌, ltb, leb, ltb→lt, ◌<◌, arith,
  Bool-cases, length, Bytes,
}
use firey.Logger.AppendFile.Complete.{Documented, append-Written}
use firey.Logger.LogFile.{LogFile, period_of, roll_file, check_time, after_write, append_unlocked}

-- After a line that makes the file `count` bytes long by the program's own count, `was` being the time of the
-- roll before: a new and empty file was begun, or the file goes on, small enough or begun no earlier than the
-- clock reads.
pub data Rolled {F : Type 0} (open_at : ℕ → F) (was now count : ℕ) (l : LogFile F) : Type 0 where
  begun :
      was < now
      → l.file.fp ≡ open_at now
      → l.file.written_bytes ≡ 0
      → l.last_roll ≡ now
      → Rolled open_at was now count l
  goes_on :
      l.file.written_bytes ≡ count
      → l.last_roll ≡ was
      → (count ≤ l.roll_size) ⊎ (now ≤ was)
      → Rolled open_at was now count l

not_lt : (a b : ℕ) → ltb a b ≡ false → b ≤ a
not_lt a b e = ground arith

module _ {F : Type 0} (open_at : ℕ → F) (fwrite : F → Bytes → F × ℕ) (flush : F → F) where
  roll_file-Rolled :
      (l : LogFile F) (now : ℕ)
      → Rolled open_at l.last_roll now l.file.written_bytes (roll_file open_at fwrite flush l now).1
  unfolding roll_file
  roll_file-Rolled l now = elim (Bool-cases (ltb l.last_roll now)) [
    | inl e ↦ rw e (Rolled.begun (ltb→lt l.last_roll now e) refl refl refl)
    | inr e ↦ rw e (Rolled.goes_on refl refl (inr (not_lt l.last_roll now e)))
  ]

  check_time-Rolled :
      (l : LogFile F) (now roll_now : ℕ)
      → l.file.written_bytes ≤ l.roll_size
      → Rolled open_at l.last_roll roll_now l.file.written_bytes
          (check_time open_at fwrite flush l now roll_now)
  unfolding check_time
  check_time-Rolled l now roll_now small =
      elim (Bool-cases (not (period_of now == l.start_of_period))) [
        | inl e ↦ rw e (roll_file-Rolled l roll_now)
        | inr e ↦ rw e (elim (Bool-cases (ltb l.flush_interval (now - l.last_flush))) [
          | inl e2 ↦ rw e2 (Rolled.goes_on refl refl (inl small))
          | inr e2 ↦ rw e2 (Rolled.goes_on refl refl (inl small))
        ])
      ]

  after_write-Rolled :
      (l : LogFile F) (now roll_now : ℕ)
      → Rolled open_at l.last_roll roll_now l.file.written_bytes
          (after_write open_at fwrite flush l now roll_now)
  unfolding after_write
  after_write-Rolled l now roll_now = elim (Bool-cases (ltb l.roll_size l.file.written_bytes)) [
    | inl e ↦ rw e (roll_file-Rolled l roll_now)
    | inr e ↦
        let small = not_lt l.roll_size l.file.written_bytes e in
        rw e (elim (Bool-cases (leb l.check_every_n (l.count + 1))) [
          | inl e2 ↦ rw e2 (check_time-Rolled (record l { count = 0 }) now roll_now small)
          | inr e2 ↦ rw e2 (Rolled.goes_on refl refl (inl small))
        ])
  ]

  -- `append_unlocked` always succeeds, and counts the line. After it the file has at most `rollSize_` bytes
  -- by the program's own count, or a new and empty one was begun, or the file was begun in this second or
  -- later, when `rollFile` declines to begin another.
  pub append_unlocked-Rolled :
      {content : F → Bytes} (l : LogFile F) (line : Bytes) (now roll_now : ℕ)
      → Documented content fwrite
      → (l1 : LogFile F) × (append_unlocked open_at fwrite flush l line now roll_now ≡ some l1)
        × Rolled open_at l.last_roll roll_now (l.file.written_bytes + length line) l1
  unfolding append_unlocked
  append_unlocked-Rolled l line now roll_now doc =
      let (fp1, run, h) = append-Written doc l.file line in
      let l0 = record l {
        file = record { fp = fp1; written_bytes = l.file.written_bytes + length line };
      } in
      (
        after_write open_at fwrite flush l0 now roll_now,
        rw run refl,
        after_write-Rolled l0 now roll_now,
      )
