-- ===== src/Logger/LogFile.antt =====
-- base/logger/LogFileff.h and base/logger/LogFileff.cpp: when a log file is flushed, and when a new one is
-- begun. `open_at` makes the file of a time, `fwrite` and `flush` are those of the stream. The locked `append`
-- is `append_unlocked` as one step. Times are seconds.
pub mod Rolled
mod Tests
use firey.Prelude.{
  ℕ, ◌+◌, ◌-◌, ◌*◌, ◌/◌, Bool, true, false, not, Option, some, ◌==◌, ltb, leb, if◌then◌else◌, ◌>>=◌,
  Bytes,
}
use firey.Logger.AppendFile.{AppendFile}
use firey.Logger.AppendFile

pub record LogFile (F : Type 0) : Type 0 where
  pub roll_size : ℕ
  pub flush_interval : ℕ
  pub check_every_n : ℕ
  pub count : ℕ
  pub start_of_period : ℕ
  pub last_roll : ℕ
  pub last_flush : ℕ
  pub file : AppendFile F

abbrev pub roll_per_second : ℕ
roll_per_second = 60 * 60 * 24

abbrev pub period_of : ℕ → ℕ
period_of now = now / roll_per_second * roll_per_second

module _ {F : Type 0} (open_at : ℕ → F) (fwrite : F → Bytes → F × ℕ) (flush : F → F) where
  unfoldable pub roll_file : LogFile F → ℕ → Bool × LogFile F
  roll_file l now =
      if ltb l.last_roll now
      then (
        true,
        record l {
          last_roll = now;
          last_flush = now;
          start_of_period = period_of now;
          file = record { fp = open_at now; written_bytes = 0 };
        },
      )
      else (false, l)

  -- The check of every so many lines, at the time `now`; `roll_now` is what `rollFile` reads.
  unfoldable pub check_time : LogFile F → ℕ → ℕ → LogFile F
  unfolding roll_file
  check_time l now roll_now =
      if not (period_of now == l.start_of_period)
      then (roll_file l roll_now).1
      else if ltb l.flush_interval (now - l.last_flush)
      then record l { last_flush = now; file = record l.file { fp = flush l.file.fp } }
      else l

  unfoldable pub after_write : LogFile F → ℕ → ℕ → LogFile F
  unfolding check_time
  after_write l now roll_now =
      if ltb l.roll_size l.file.written_bytes
      then (roll_file l roll_now).1
      else if leb l.check_every_n (l.count + 1)
      then check_time (record l { count = 0 }) now roll_now
      else record l { count = l.count + 1 }

  unfoldable pub append_unlocked : LogFile F → Bytes → ℕ → ℕ → Option (LogFile F)
  append_unlocked l line now roll_now = AppendFile.append fwrite l.file line >>= λ f.
      some (after_write (record l { file = f }) now roll_now)
