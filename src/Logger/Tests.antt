-- ===== src/Logger/Tests.antt =====
-- Runs of base/logger, and the theorems at concrete data.
use firey.Prelude.{◌≡◌, refl, true, [], ◌∷◌, List, some, none, arith, Bytes, codes}
use firey.Logger.Digits.{emit, read_from}
use firey.Logger.Stream.{
  FixedBuffer, pos, negsuc, convert, convert_hex, new_buffer, append, format_integer, write_pointer,
  write_bool, write_text, write_double,
}
use firey.Logger.Printed.{read, read-convert, hex_value, read-convert_hex}
use firey.Logger.Bounds.{
  Write, bool, text, integer, pointer, double, write, write_all, Extends, write_all-Grows,
}

convert_minus : convert (negsuc 1024) ≡ some (codes "-1025")
unfolding convert emit
convert_minus = refl

-- Nothing is printed for 0.
convert_zero : convert (pos 0) ≡ some []
unfolding convert
convert_zero = refl

convert_hex_ff : convert_hex 0x1AF ≡ codes "1AF"
unfolding convert_hex emit
convert_hex_ff = refl

read-convert_example :
    (t : Bytes) × (convert (negsuc 1024) ≡ some t) × (read t ≡ some (negsuc 1024))
read-convert_example = read-convert (negsuc 1024) refl

read-convert_hex_example : read_from 16 hex_value 0 (convert_hex 431) ≡ some 431
read-convert_hex_example = read-convert_hex 431

-- The second text is cut, and the last number finds no room.
abbrev writes : List Write
writes =
    text (some (codes "fd="))
    ∷ double (codes "0.5") (omega arith)
    ∷ integer (pos 17) (omega arith)
    ∷ text none
    ∷ pointer 4096 (omega arith)
    ∷ bool true
    ∷ []

write_all-Grows_example :
    (b : FixedBuffer) × (write_all (new_buffer 40) writes ≡ some b) × Extends (new_buffer 40) b
write_all-Grows_example = write_all-Grows (new_buffer 40) writes (omega arith)

written :
    write_all (new_buffer 40) writes ≡ some (record { size = 40; text = codes "fd=0.517(null)1" })
unfolding write_all write write_text write_double append format_integer convert write_pointer
    write_bool emit
written = refl
