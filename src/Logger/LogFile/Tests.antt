-- ===== src/Logger/LogFile/Tests.antt =====
-- Log files without limit, and the theorem of base/logger/LogFileff.cpp on one.
use firey.Prelude.{ℕ, ◌≡◌, refl, [], ◌∷◌, ◌++◌, some, arith, length, take-length, ap, sym, Bytes}
use firey.Logger.AppendFile
use firey.Logger.AppendFile.{write_rest}
use firey.Logger.AppendFile.Complete.{Documented}
use firey.Logger.LogFile.{LogFile, append_unlocked, after_write, roll_file}
use firey.Logger.LogFile.Rolled.{Rolled, append_unlocked-Rolled}

abbrev open_at : ℕ → Bytes
open_at now = []

abbrev fwrite : Bytes → Bytes → Bytes × ℕ
fwrite disk bytes = (disk ++ bytes, length bytes)

abbrev content : Bytes → Bytes
content disk = disk

abbrev flush : Bytes → Bytes
flush disk = disk

fwrite-Documented : Documented content fwrite
fwrite-Documented = record {
  within = λ disk bytes. omega arith;
  goes_on =
      λ disk bytes. ap (λ x. disk ++ x) (sym (take-length (length bytes) bytes (omega arith)));
}

abbrev log : LogFile Bytes
log = record {
  roll_size = 3;
  flush_interval = 3;
  check_every_n = 1024;
  count = 0;
  start_of_period = 0;
  last_roll = 7;
  last_flush = 7;
  file = record { fp = 1 ∷ 2 ∷ []; written_bytes = 2 };
}

-- The file is too large then, and a second later a new one is begun.
rolled :
    append_unlocked open_at fwrite flush log (3 ∷ 4 ∷ []) 8 8
    ≡ some
        (record log { last_roll = 8; last_flush = 8; file = record { fp = []; written_bytes = 0 } })
unfolding append_unlocked AppendFile.append write_rest after_write roll_file
rolled = refl

append_unlocked-Rolled_example :
    (l1 : LogFile Bytes) × (append_unlocked open_at fwrite flush log (3 ∷ 4 ∷ []) 8 8 ≡ some l1)
    × Rolled open_at 7 8 4 l1
append_unlocked-Rolled_example =
    append_unlocked-Rolled open_at fwrite flush log (3 ∷ 4 ∷ []) 8 8 fwrite-Documented
