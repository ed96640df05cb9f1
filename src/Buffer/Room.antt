-- ===== src/Buffer/Room.antt =====
-- `ensureWritableBytes` and `makeSpace` of net/Bufferff.h.
use firey.Prelude.{
  ℕ, ◌+◌, ◌-◌, ◌≤◌, ◌<◌, ◌≡◌, refl, ap, sym, ◌∙◌, List, ◌++◌, some, inl, inr, ltb, Bool-cases,
  add_size, arith, length, take, drop, replicate, overwrite, length-take, length-drop, drop-take,
  length-overwrite, length-take_le, drop-length,
}
use firey.Buffer.{
  Buffer, cheap_prepend, max_size, writable_bytes, prependable_bytes, grow, move_down, make_space,
  ensure_writable_bytes,
}
use firey.Buffer.Contents.{IsValid, contents, take-resize, length-resize, contents-overwrite}

-- What a call that makes room for `len` bytes leaves: the same contents, and the room.
pub record MakesRoom (b : Buffer) (len : ℕ) (b' : Buffer) : Type 0 where
  pub valid : IsValid b'
  pub same : contents b' ≡ contents b
  pub room : len ≤ writable_bytes b'
  pub no_further : b'.writer_index ≤ b.writer_index

abbrev grown : Buffer → ℕ → Buffer
grown b n = record b { storage = take n b.storage ++ replicate (n - length b.storage) 0 }

-- The readable bytes, as `move_down` reads them.
abbrev readable_range : Buffer → List ℕ
readable_range b = take (b.writer_index - b.reader_index) (drop b.reader_index b.storage)

abbrev moved : Buffer → Buffer
moved b = record {
  storage = overwrite b.storage cheap_prepend (readable_range b);
  reader_index = cheap_prepend;
  writer_index = cheap_prepend + (b.writer_index - b.reader_index);
}

module _ {b : Buffer} (v : IsValid b) where
  readable_range-eq : readable_range b ≡ contents b
  readable_range-eq = sym (
      drop-take b.writer_index b.reader_index (b.writer_index - b.reader_index) b.storage
        (omega arith))

  length-readable_range : length (readable_range b) ≡ b.writer_index - b.reader_index
  length-readable_range =
      length-take_le (b.writer_index - b.reader_index) (drop b.reader_index b.storage)
        (omega (arith, length-drop b.reader_index b.storage))

module _ {b : Buffer} (v : IsValid b) (len : ℕ) (fits : b.writer_index + len ≤ max_size) where
  grow-eq : grow b len ≡ some (grown b (b.writer_index + len))
  unfolding grow
  grow-eq = ground arith

  length-grown :
      writable_bytes b < len
      → length (grown b (b.writer_index + len)).storage ≡ b.writer_index + len
  length-grown h = length-resize b.storage (b.writer_index + len) (omega arith)

  grown-MakesRoom : writable_bytes b < len → MakesRoom b len (grown b (b.writer_index + len))
  grown-MakesRoom h = record {
    valid = omega (arith, length-grown h);
    same =
        ap (drop b.reader_index)
          (take-resize b.storage b.writer_index (b.writer_index + len) v.inside (omega arith));
    room = omega (arith, length-grown h);
    no_further = omega arith;
  }

  move_down-eq :
      writable_bytes b < len
      → len + cheap_prepend ≤ writable_bytes b + prependable_bytes b
      → move_down b ≡ some (moved b)
  unfolding move_down
  move_down-eq h k = ground (arith, length-readable_range v)

  moved-MakesRoom :
      writable_bytes b < len
      → len + cheap_prepend ≤ writable_bytes b + prependable_bytes b
      → MakesRoom b len (moved b)
  moved-MakesRoom h k = record {
    valid = omega (arith, length-moved);
    same =
        contents-overwrite b.storage 8 8 _ (readable_range b) (omega arith) v.reserve
          (omega (arith, length-readable_range v))
        ∙ rw (drop-length 8 (take 8 b.storage) (omega (arith, length-take 8 b.storage)))
            (readable_range-eq v);
    room = omega (arith, length-moved);
    no_further = omega arith;
  }
    where
      length-moved : length (moved b).storage ≡ length b.storage
      length-moved =
          length-overwrite b.storage cheap_prepend (readable_range b)
            (omega (arith, length-readable_range v))

  -- Either branch of `make_space` succeeds, its assertions included.
  make_space-MakesRoom :
      writable_bytes b < len → (b' : Buffer) × (make_space b len ≡ some b') × MakesRoom b len b'
  unfolding make_space
  make_space-MakesRoom h =
      elim (Bool-cases
        (ltb (add_size (writable_bytes b) (prependable_bytes b)) (add_size len cheap_prepend))) [
          | inl e ↦ (grown b (b.writer_index + len), rw (make_space, e) grow-eq, grown-MakesRoom h)
          | inr e ↦ (
            moved b,
            rw (make_space, e) (move_down-eq h (ground arith)),
            moved-MakesRoom h (ground arith),
          )
        ]

  pub ensure_writable_bytes-MakesRoom :
      (b' : Buffer) × (ensure_writable_bytes b len ≡ some b') × MakesRoom b len b'
  unfolding ensure_writable_bytes
  ensure_writable_bytes-MakesRoom = elim (Bool-cases (ltb (writable_bytes b) len)) [
    | inl e ↦
        let (b', made, m) = make_space-MakesRoom (ground arith) in
        (b', rw (e, made) (ground (arith, m.room)), m)
    | inr e ↦ (
      b,
      rw e (ground arith),
      record { valid = v; same = refl; room = ground arith; no_further = omega arith },
    )
  ]
