-- ===== src/Buffer/Append.antt =====
-- `append` of net/Bufferff.h.
use firey.Prelude.{
  ℕ, ltb, leb, true, false, ◌+◌, ◌≤◌, ◌≡◌, refl, List, ◌++◌, some, ◌>>=◌, arith, length, overwrite,
  length-overwrite,
}
use firey.Buffer.{
  Buffer, max_size, copy_in, writable_bytes, has_written, ensure_writable_bytes, append,
}
use firey.Buffer.Contents.{IsValid, contents, contents-overwrite}
use firey.Buffer.Room.{ensure_writable_bytes-MakesRoom}

-- What a call that adds `bytes` to the readable bytes leaves.
pub record Appends (b : Buffer) (bytes : List ℕ) (b' : Buffer) : Type 0 where
  pub valid : IsValid b'
  pub joined : contents b' ≡ contents b ++ bytes
  pub no_further : b'.writer_index ≤ b.writer_index + length bytes

-- A write into room that is there.
pub append_in_place :
    {b : Buffer} (bytes : List ℕ)
    → IsValid b
    → length bytes ≤ writable_bytes b
    → Appends b bytes (record b {
      storage = overwrite b.storage b.writer_index bytes;
      writer_index = b.writer_index + length bytes;
    })
append_in_place {b} bytes v h = record {
  valid = omega (arith, length-overwrite b.storage b.writer_index bytes);
  joined =
      contents-overwrite b.storage b.reader_index b.writer_index _ bytes v.ordered v.inside refl;
  no_further = omega arith;
}

module _ {b : Buffer} (bytes : List ℕ) (v : IsValid b) where
  write_in_room :
      length bytes ≤ writable_bytes b
      → (copy_in b.storage b.writer_index bytes >>= λ s.
          has_written (record b { storage = s }) (length bytes))
        ≡ some (record b {
          storage = overwrite b.storage b.writer_index bytes;
          writer_index = b.writer_index + length bytes;
        })
  unfolding has_written
  write_in_room h = ground (arith, length-overwrite b.storage b.writer_index bytes)

module _ {b : Buffer} (bytes : List ℕ) (v : IsValid b) where
  -- While the vector may still grow, `append` adds the bytes behind the readable ones.
  pub append-Appends :
      b.writer_index + length bytes ≤ max_size
      → (b' : Buffer) × (append b bytes ≡ some b') × Appends b bytes b'
  unfolding append
  append-Appends h =
      let (r, made, m) = ensure_writable_bytes-MakesRoom v (length bytes) h in
      let a = append_in_place bytes m.valid m.room in
      (
        _,
        rw made (write_in_room bytes m.valid m.room),
        record { valid = a.valid; joined = rw (← m.same) a.joined; no_further = omega arith },
      )

  -- With room for the bytes, they take up just that much of it.
  pub append-in_room :
      length bytes ≤ writable_bytes b
      → (b' : Buffer) × (append b bytes ≡ some b')
        × Appends b bytes b'
        × (writable_bytes b' + length bytes ≡ writable_bytes b)
  unfolding append ensure_writable_bytes
  append-in_room h =
      let enough : ltb (writable_bytes b) (length bytes) ≡ false = ground arith in
      let there : leb (length bytes) (writable_bytes b) ≡ true = ground arith in
      (
        _,
        rw (enough, there) (write_in_room bytes v h),
        append_in_place bytes v h,
        omega (arith, length-overwrite b.storage b.writer_index bytes, v.ordered, v.inside),
      )
