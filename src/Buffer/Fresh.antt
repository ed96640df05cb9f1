-- ===== src/Buffer/Fresh.antt =====
-- The constructor and `shrink` of net/Bufferff.h.
use firey.Prelude.{
  ℕ, ◌+◌, ◌^◌, ◌≤◌, ◌<◌, ◌≡◌, refl, ◌∙◌, ap, List, [], ◌++◌, some, arith, length, take, take-nil,
  replicate, length-replicate, drop-length, length-take, add_size,
}
use firey.Buffer.{
  Buffer, cheap_prepend, max_size, initial_size, fresh, new, readable_bytes, writable_bytes, shrink,
}
use firey.Buffer.Contents.{IsValid, contents, length-contents}
use firey.Buffer.Room.{ensure_writable_bytes-MakesRoom}
use firey.Buffer.Append.{append-in_room}
use firey.Buffer.Retrieve.{to_string_lem}

abbrev zeros : ℕ → List ℕ
zeros n = replicate n 0

-- A new buffer is valid and empty, with `size` bytes to write.
pub new_lem :
    (size : ℕ)
    → cheap_prepend + size ≤ max_size
    → (b : Buffer) × (new size ≡ some b)
      × IsValid b
      × (contents b ≡ [])
      × (writable_bytes b ≡ size)
      × (b.writer_index ≡ cheap_prepend)
unfolding new
new_lem size h =
    let len : length (zeros (cheap_prepend + size)) ≡ cheap_prepend + size =
      length-replicate (cheap_prepend + size) 0 in
    (
      fresh (zeros (cheap_prepend + size)),
      ground (arith, take-nil ℕ (cheap_prepend + size), len),
      omega (arith, len),
      drop-length 8 (take 8 (zeros (cheap_prepend + size)))
          (omega (arith, length-take 8 (zeros (cheap_prepend + size)))),
      omega (arith, len),
      refl,
    )

-- Shrinking keeps the readable bytes and leaves `reserve` bytes to write, while the readable bytes
-- are fewer than an `int` can count.
pub shrink_lem :
    {b : Buffer} (reserve : ℕ)
    → IsValid b
    → readable_bytes b < 2 ^ 31
    → reserve ≤ 2 ^ 62
    → (b' : Buffer) × (shrink b reserve ≡ some b')
      × IsValid b'
      × (contents b' ≡ contents b)
      × (reserve ≤ writable_bytes b')
unfolding shrink
shrink_lem {b} reserve v h k =
    let (other, e, vo, co, wo, po) = new_lem initial_size (omega arith) in
    let (roomy, e', m) =
      ensure_writable_bytes-MakesRoom vo (add_size (readable_bytes b) reserve) (omega arith) in
    let enough : length (contents b) + reserve ≤ writable_bytes roomy =
      omega (arith, m.room, length-contents v) in
    let (b', e'', a, left) = append-in_room (contents b) m.valid (omega (arith, enough)) in
    (
      b',
      ground (arith, e, e', e'', to_string_lem v h),
      a.valid,
      a.joined ∙ ap (λ t. t ++ contents b) (m.same ∙ co),
      omega (arith, left, enough),
    )
