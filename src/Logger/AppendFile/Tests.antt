-- ===== src/Logger/AppendFile/Tests.antt =====
-- A file that takes four bytes, at most two in one call.
use firey.Prelude.{ℕ, ◌-◌, ◌≡◌, refl, [], ◌∷◌, ◌++◌, some, arith, min, length, take, Bytes}
use firey.Logger.AppendFile.{AppendFile, append, write_rest}
use firey.Logger.AppendFile.Complete.{Documented, Written, append-Written}

abbrev fits : Bytes → Bytes → ℕ
fits disk bytes = min (4 - length disk) (min 2 (length bytes))

abbrev fwrite : Bytes → Bytes → Bytes × ℕ
fwrite disk bytes = (disk ++ take (fits disk bytes) bytes, fits disk bytes)

abbrev content : Bytes → Bytes
content disk = disk

fwrite-Documented : Documented content fwrite
fwrite-Documented = record { within = λ disk bytes. omega arith; goes_on = λ disk bytes. refl }

abbrev empty_file : AppendFile Bytes
empty_file = record { fp = []; written_bytes = 0 }

-- Six bytes are counted, and four are in the file.
full :
    append fwrite empty_file (1 ∷ 2 ∷ 3 ∷ 4 ∷ 5 ∷ 6 ∷ [])
    ≡ some (record { fp = 1 ∷ 2 ∷ 3 ∷ 4 ∷ []; written_bytes = 6 })
unfolding append write_rest
full = refl

append-Written_example :
    (fp1 : Bytes) × (append fwrite empty_file (1 ∷ 2 ∷ 3 ∷ 4 ∷ 5 ∷ 6 ∷ [])
      ≡ some (record { fp = fp1; written_bytes = 6 }))
    × Written fwrite-Documented [] (1 ∷ 2 ∷ 3 ∷ 4 ∷ 5 ∷ 6 ∷ []) fp1
append-Written_example = append-Written fwrite-Documented empty_file (1 ∷ 2 ∷ 3 ∷ 4 ∷ 5 ∷ 6 ∷ [])
