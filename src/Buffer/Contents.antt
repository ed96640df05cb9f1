-- ===== src/Buffer/Contents.antt =====
-- What a buffer of net/Bufferff.h holds, as a list of bytes, and what the methods that write do to
-- it.
use firey.Prelude.{
  ap, sym, ◌∙◌, append_assoc, drop-append, drop-take, take-append, ℕ, ◌+◌, ◌-◌, ◌≤◌, ◌≡◌, List,
  ◌++◌, arith, length, take, drop, replicate, overwrite, length-append, length-take, length-drop,
  length-replicate, drop-append_left, take-append_left, take-length, take-overwrite, length-take_le,
}
use firey.Buffer.{Buffer, cheap_prepend, max_size, readable_bytes, writable_bytes}

-- The picture at the top of the class: the three zones lie inside the vector.
pub record IsValid (b : Buffer) : Type 0 where
  pub reserve : cheap_prepend ≤ length b.storage
  pub ordered : b.reader_index ≤ b.writer_index
  pub inside : b.writer_index ≤ length b.storage
  pub small : length b.storage ≤ max_size

-- The readable bytes.
abbrev pub contents : Buffer → List ℕ
contents b = drop b.reader_index (take b.writer_index b.storage)

module _ {b : Buffer} (v : IsValid b) where
  pub readable_bytes-eq : readable_bytes b ≡ b.writer_index - b.reader_index
  readable_bytes-eq = omega arith

  pub writable_bytes-eq : writable_bytes b ≡ length b.storage - b.writer_index
  writable_bytes-eq = omega arith

  pub length-contents : length (contents b) ≡ readable_bytes b
  length-contents = omega (
    arith,
    length-drop b.reader_index (take b.writer_index b.storage),
    length-take b.writer_index b.storage,
  )

-- `resize` to a length above the old one keeps what was there.
pub take-resize :
    (s : List ℕ) (w n : ℕ)
    → w ≤ length s
    → length s ≤ n
    → take w (take n s ++ replicate (n - length s) 0) ≡ take w s
take-resize s w n h k = rw (take-length n s k) (take-append_left w s _ h)

pub length-resize :
    (s : List ℕ) (n : ℕ) → length s ≤ n → length (take n s ++ replicate (n - length s) 0) ≡ n
length-resize s n k = omega (
  arith,
  length-append (take n s) (replicate (n - length s) 0),
  length-take n s,
  length-replicate {A = ℕ} (n - length s) 0,
)

-- A write behind the readable bytes extends them.
pub contents-overwrite :
    (s : List ℕ) (r w k : ℕ) (bytes : List ℕ)
    → r ≤ w
    → w ≤ length s
    → k ≡ w + length bytes
    → drop r (take k (overwrite s w bytes)) ≡ drop r (take w s) ++ bytes
contents-overwrite s r w k bytes h i e =
    rw (take-overwrite s w k bytes i e)
      (drop-append_left r (take w s) bytes (omega (arith, length-take_le w s i)))

-- A write in front of the readable bytes, which begin at `p + length bytes`.
pub contents-overwrite_front :
    (s : List ℕ) (p w n : ℕ) (bytes : List ℕ)
    → w ≡ p + length bytes + n
    → w ≤ length s
    → drop p (take w (overwrite s p bytes)) ≡ bytes ++ drop (p + length bytes) (take w s)
contents-overwrite_front s p w n bytes e h =
    ap (drop p) (
      take-append w n (take p s ++ bytes) (drop (p + length bytes) s)
        (omega (arith, length-append (take p s) bytes, length-take_le p s (omega arith))))
    ∙ ap (drop p) (append_assoc (take p s) bytes _)
    ∙ drop-append p 0 (take p s) _ (omega (arith, length-take_le p s (omega arith)))
    ∙ ap (λ t. bytes ++ t) (sym (drop-take w (p + length bytes) n s e))
