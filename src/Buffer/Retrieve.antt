-- ===== src/Buffer/Retrieve.antt =====
-- The methods of net/Bufferff.h that take bytes out, look at them, or put some in front.
use Prim.Native.Nat.{max}
use firey.Prelude.{
  ℕ, ◌+◌, ◌-◌, ◌^◌, ◌≤◌, ◌<◌, ◌≡◌, refl, ap, sym, ◌∙◌, inl, inr, Bool-cases, ltb, List, ◌++◌, some,
  none, arith, length, take, drop, overwrite, length-take, take-take, take-length, drop-take,
  length-overwrite, drop-length, drop-drop,
}
use firey.Buffer.{
  Buffer, cheap_prepend, read_range, readable_bytes, prependable_bytes, retrieve_all, retrieve,
  retrieve_until, retrieve_as_string, retrieve_all_as_string, to_string, unwrite, prepend, peek,
}
use firey.Buffer.Contents.{IsValid, contents, length-contents, contents-overwrite_front}

-- What a call that takes the first `n` readable bytes leaves.
pub record Takes (b : Buffer) (n : ℕ) (b' : Buffer) : Type 0 where
  pub valid : IsValid b'
  pub rest : contents b' ≡ drop n (contents b)
  pub no_further : b'.writer_index ≤ max b.writer_index cheap_prepend

pub retrieve_all-Takes :
    (b : Buffer) (n : ℕ) → IsValid b → readable_bytes b ≤ n → Takes b n (retrieve_all b)
unfolding retrieve_all
retrieve_all-Takes b n v h = record {
  valid = omega arith;
  rest =
      drop-length 8 (take 8 b.storage) (omega (arith, length-take 8 b.storage))
      ∙ sym (drop-length n (contents b) (omega (arith, length-contents v)));
  no_further = omega arith;
}

advance-Takes :
    (b : Buffer) (n : ℕ)
    → IsValid b
    → n < readable_bytes b
    → Takes b n (record b { reader_index = b.reader_index + n })
advance-Takes b n v h = record {
  valid = omega arith;
  rest = sym (drop-drop (b.reader_index + n) b.reader_index n (take b.writer_index b.storage) refl);
  no_further = omega arith;
}

module _ (b : Buffer) where
  -- More than there is fails the assertion.
  pub retrieve_as_string-none : (n : ℕ) → readable_bytes b < n → retrieve_as_string b n ≡ none
  unfolding retrieve_as_string
  retrieve_as_string-none n h = ground arith

  pub retrieve-none : (n : ℕ) → readable_bytes b < n → retrieve b n ≡ none
  unfolding retrieve
  retrieve-none n h = ground arith

  pub unwrite-none : (n : ℕ) → readable_bytes b < n → unwrite b n ≡ none
  unfolding unwrite
  unwrite-none n h = ground arith

module _ {b : Buffer} (v : IsValid b) where
  pub retrieve-Takes :
      (n : ℕ) → n ≤ readable_bytes b → (b' : Buffer) × (retrieve b n ≡ some b') × Takes b n b'
  unfolding retrieve
  retrieve-Takes n h = elim (Bool-cases (ltb n (readable_bytes b))) [
    | inl e ↦ (
      record b { reader_index = b.reader_index + n },
      ground arith,
      advance-Takes b n v (ground arith),
    )
    | inr e ↦ (retrieve_all b, ground arith, retrieve_all-Takes b n v (ground arith))
  ]

  -- The readable bytes, as `std::string(peek(), n)` reads them.
  pub read_range-contents :
      (n : ℕ) → n ≤ readable_bytes b → read_range b.storage (peek b) n ≡ some (take n (contents b))
  read_range-contents n h =
      let e : take n (drop b.reader_index b.storage) ≡ take n (contents b) =
        sym (
          take-take n (b.writer_index - b.reader_index) (drop b.reader_index b.storage)
            (omega arith))
        ∙ ap (take n) (
            sym (
              drop-take b.writer_index b.reader_index (b.writer_index - b.reader_index) b.storage
                (omega arith))) in
      ground (arith, e)

  -- The first `n` readable bytes are returned, and the others stay.
  pub retrieve_as_string_lem :
      (n : ℕ)
      → n ≤ readable_bytes b
      → (b' : Buffer) × (retrieve_as_string b n ≡ some (take n (contents b), b')) × Takes b n b'
  unfolding retrieve_as_string
  retrieve_as_string_lem n h =
      let (b', e, t) = retrieve-Takes n h in (b', ground (arith, e, read_range-contents n h), t)

  pub retrieve_all_as_string_lem :
      (b' : Buffer) × (retrieve_all_as_string b ≡ some (contents b, b'))
      × Takes b (readable_bytes b) b'
  unfolding retrieve_all_as_string
  retrieve_all_as_string_lem =
      let (b', e, t) = retrieve_as_string_lem (readable_bytes b) (omega arith) in
      (
        b',
        e
            ∙ ap (λ s. some (s, b'))
                (take-length (readable_bytes b) (contents b) (omega (arith, length-contents v))),
        t,
      )

  -- Up to an index of the readable part.
  pub retrieve_until-Takes :
      (n : ℕ)
      → n ≤ readable_bytes b
      → (b' : Buffer) × (retrieve_until b (peek b + n) ≡ some b') × Takes b n b'
  unfolding retrieve_until
  retrieve_until-Takes n h = let (b', e, t) = retrieve-Takes n h in (b', ground (arith, e), t)

  pub to_string_lem : readable_bytes b < 2 ^ 31 → to_string b ≡ some (contents b)
  unfolding to_string
  to_string_lem h = ground (
    arith,
    read_range-contents (readable_bytes b) (omega arith),
    take-length (readable_bytes b) (contents b) (omega (arith, length-contents v)),
  )

  -- The last `n` readable bytes are given up.
  pub unwrite_lem :
      (n : ℕ)
      → n ≤ readable_bytes b
      → (b' : Buffer) × (unwrite b n ≡ some b')
        × IsValid b'
        × (contents b' ≡ take (readable_bytes b - n) (contents b))
        × (b'.writer_index ≤ b.writer_index)
  unfolding unwrite
  unwrite_lem n h = (
    record b { writer_index = b.writer_index - n },
    ground arith,
    omega arith,
    drop-take (b.writer_index - n) b.reader_index (b.writer_index - n - b.reader_index) b.storage
          (omega arith)
        ∙ sym (
            ap (take (readable_bytes b - n)) (
              drop-take b.writer_index b.reader_index (b.writer_index - b.reader_index) b.storage
                (omega arith))
            ∙ take-take (readable_bytes b - n) (b.writer_index - b.reader_index) _ (omega arith)
            ∙ ap (λ k. take k (drop b.reader_index b.storage)) (omega arith)),
    omega arith,
  )

  -- Bytes that fit in front of the readable ones are put there.
  pub prepend_lem :
      (bytes : List ℕ)
      → length bytes ≤ prependable_bytes b
      → (b' : Buffer) × (prepend b bytes ≡ some b')
        × IsValid b'
        × (contents b' ≡ bytes ++ contents b)
        × (length b'.storage ≡ length b.storage)
  unfolding prepend
  prepend_lem bytes h = (
    record b {
      storage = overwrite b.storage (b.reader_index - length bytes) bytes;
      reader_index = b.reader_index - length bytes;
    },
    ground arith,
    omega (arith, length-overwrite b.storage (b.reader_index - length bytes) bytes),
    contents-overwrite_front b.storage (b.reader_index - length bytes) b.writer_index
          (b.writer_index - b.reader_index) bytes (omega arith) v.inside
        ∙ ap (λ k. bytes ++ drop k (take b.writer_index b.storage)) (omega arith),
    length-overwrite b.storage (b.reader_index - length bytes) bytes (omega arith),
  )
