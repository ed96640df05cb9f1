-- ===== src/Logger/AppendFile.antt =====
-- The class AppendFileff of base/logger/FileUtilff.h and base/logger/FileUtilff.cpp: the file that log
-- lines go to. `fwrite_unlocked` is a parameter: it gives the stream after it and the number of bytes.
pub mod Complete
mod Tests
use firey.Prelude.{
  ℕ, suc, zero, ◌+◌, Option, some, none, ◌==◌, if◌then◌else◌, ◌>>=◌, length, drop, Bytes,
}

pub record AppendFile (F : Type 0) : Type 0 where
  pub fp : F
  pub written_bytes : ℕ

module _ {F : Type 0} (fwrite : F → Bytes → F × ℕ) where
  -- The loop over what is left. The fuel is a bound on the number of rounds.
  unfoldable pub write_rest : ℕ → F → Bytes → Option F
  write_rest zero fp rest = none
  write_rest (suc fuel) fp rest =
      let next = write_rest fuel (fwrite fp rest).0 (drop (fwrite fp rest).1 rest) in
      if length rest == 0
      then some fp
      else if (fwrite fp rest).1 == 0
      then some (fwrite fp rest).0
      else next

  -- `len` is counted, whatever was written.
  unfoldable pub append : AppendFile F → Bytes → Option (AppendFile F)
  append f line =
      write_rest (suc (length line)) (fwrite f.fp line).0 (drop (fwrite f.fp line).1 line) >>= λ fp.
      some (record { fp = fp; written_bytes = f.written_bytes + length line })
