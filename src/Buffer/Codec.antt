-- ===== src/Buffer/Codec.antt =====
-- Messages of integers through the `appendInt` and `readInt` families of net/Bufferff.h.
use firey.Prelude.{
  ℕ, ◌+◌, ◌^◌, ◌≤◌, ◌<◌, ◌≡◌, refl, ◌∙◌, sym, ap, List, [], ◌∷◌, ◌++◌, append-nil, append_assoc,
  Option, some, arith, ◌>>=◌,
}
use mathlib.Core.Option
use firey.Buffer.{Buffer, prependable_bytes, cheap_prepend, max_size, new}
use firey.Buffer.Contents.{IsValid, contents}
use firey.Buffer.Append.{append-Appends}
use firey.Buffer.Fresh.{new_lem}
use firey.Buffer.Retrieve.{prepend_lem}
use firey.Buffer.Ints.{
  IntWidth, sizeof, be_bytes, append_int, prepend_int, read_int, length-be_bytes, read_int-front,
}

-- Integers with their widths.
abbrev pub Message : Type 0
Message = List (IntWidth × ℕ)

pub append_message : Buffer → Message → Option Buffer
append_message b [] = some b
append_message b ((w, x) ∷ m) = append_int w b x >>= λ b'. append_message b' m

-- The reader knows the widths that it expects.
pub read_message : Buffer → List IntWidth → Option (List ℕ × Buffer)
read_message b [] = some ([], b)
read_message b (w ∷ ws) =
    read_int w b >>= λ r. Option.map (λ t. (r.0 ∷ t.0, t.1)) (read_message r.1 ws)

abbrev pub widths : Message → List IntWidth
widths [] = []
widths ((w, x) ∷ m) = w ∷ widths m

abbrev pub values : Message → List ℕ
values [] = []
values ((w, x) ∷ m) = x ∷ values m

abbrev pub size : Message → ℕ
size [] = 0
size ((w, x) ∷ m) = sizeof w + size m

-- Every integer fits its width.
abbrev pub Fits : Message → Type 0
Fits [] = Unit {0}
Fits ((w, x) ∷ m) = (x < 256 ^ sizeof w) × Fits m

encode : Message → List ℕ
encode [] = []
encode ((w, x) ∷ m) = be_bytes w x ++ encode m

append_message_lem :
    (m : Message) {b : Buffer}
    → IsValid b
    → b.writer_index + size m ≤ max_size
    → (b' : Buffer) × (append_message b m ≡ some b')
      × IsValid b'
      × (contents b' ≡ contents b ++ encode m)
unfolding append_message encode append_int
append_message_lem [] {b} v h = (b, refl, v, sym (append-nil (contents b)))
append_message_lem ((w, x) ∷ m) {b} v h =
    let len = length-be_bytes w x in
    let (b₁, e₁, a) = append-Appends (be_bytes w x) v (omega (arith, len)) in
    let (b₂, e₂, v₂, c₂) = append_message_lem m a.valid (omega (arith, a.no_further, len)) in
    (
      b₂,
      rw e₁ e₂,
      v₂,
      c₂ ∙ ap (λ t. t ++ encode m) a.joined ∙ append_assoc (contents b) (be_bytes w x) (encode m),
    )

read_message_lem :
    (m : Message) {b : Buffer} (rest : List ℕ)
    → IsValid b
    → Fits m
    → contents b ≡ encode m ++ rest
    → (b' : Buffer) × (read_message b (widths m) ≡ some (values m, b'))
      × IsValid b'
      × (contents b' ≡ rest)
unfolding read_message encode
read_message_lem [] {b} rest v f e = (b, refl, v, e)
read_message_lem ((w, x) ∷ m) {b} rest v f e =
    let (b₁, e₁, v₁, c₁) =
      read_int-front w x (encode m ++ rest) v f.0
        (e ∙ append_assoc (be_bytes w x) (encode m) rest) in
    let (b₂, e₂, v₂, c₂) = read_message_lem m rest v₁ f.1 c₁ in (b₂, rw (e₁, e₂), v₂, c₂)

-- A message written to a new buffer is read back, value by value, and leaves it empty.
pub read-append_message :
    (m : Message) (n : ℕ)
    → Fits m
    → cheap_prepend + n ≤ max_size
    → cheap_prepend + size m ≤ max_size
    → (b : Buffer) × ((new n >>= λ b₀. append_message b₀ m >>= λ b₁. read_message b₁ (widths m))
        ≡ some (values m, b))
      × (contents b ≡ [])
read-append_message m n f h k =
    let (b₀, e₀, v₀, c₀, _, low) = new_lem n h in
    let (b₁, e₁, v₁, c₁) = append_message_lem m v₀ (omega (arith, low)) in
    let (b₂, e₂, v₂, c₂) =
      read_message_lem m [] v₁ f (c₁ ∙ ap (λ t. t ++ encode m) c₀ ∙ sym (append-nil (encode m))) in
    (b₂, rw (e₀, e₁, e₂), c₂)

-- A header integer that is put in front of the readable bytes is the first thing read back, and
-- the bytes stay as they were.
pub read-prepend_int :
    (w : IntWidth) {b : Buffer} (x : ℕ)
    → IsValid b
    → sizeof w ≤ prependable_bytes b
    → x < 256 ^ sizeof w
    → (b' : Buffer) × ((prepend_int w b x >>= read_int w) ≡ some (x, b'))
      × IsValid b'
      × (contents b' ≡ contents b)
unfolding prepend_int
read-prepend_int w {b} x v room h =
    let (b₁, e₁, v₁, c₁, _) = prepend_lem v (be_bytes w x) (omega (arith, length-be_bytes w x)) in
    let (b₂, e₂, v₂, c₂) = read_int-front w x (contents b) v₁ h c₁ in (b₂, rw (e₁, e₂), v₂, c₂)
