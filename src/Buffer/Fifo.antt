-- ===== src/Buffer/Fifo.antt =====
-- The promise of net/Bufferff.h to its clients that write at the end and read at the front: a queue of bytes. A client calls methods one after
-- another, and sees what they return.
use firey.Prelude.{
  ℕ, ◌+◌, ◌-◌, ◌≤◌, ◌≡◌, refl, ◌∙◌, ap, List, [], ◌∷◌, ◌++◌, Option, some, none, arith, leb,
  if◌then◌else◌, length, take, drop, drop-length, Bool-cases, inl, inr, ◌>>=◌,
}
use mathlib.Core.Option
use firey.Buffer.Fresh.{new_lem}
use firey.Buffer.{
  new, Buffer, cheap_prepend, max_size, readable_bytes, append, retrieve, retrieve_all,
  retrieve_as_string, retrieve_all_as_string, unwrite, ensure_writable_bytes,
}
use firey.Buffer.Ints.{
  IntWidth, sizeof, be_bytes, from_be, append_int, read_int, length-be_bytes, read_int_lem,
  read_int-none,
}
use firey.Buffer.Contents.{IsValid, contents, length-contents}
use firey.Buffer.Room.{ensure_writable_bytes-MakesRoom}
use firey.Buffer.Append.{append-Appends}
use firey.Buffer.Retrieve.{
  retrieve-Takes, retrieve_all-Takes, retrieve_as_string_lem, retrieve_as_string-none,
  retrieve-none, unwrite-none, retrieve_all_as_string_lem, unwrite_lem,
}

pub data Call : Type 0 where
  appends : List ℕ → Call
  reserves : ℕ → Call
  retrieves : ℕ → Call
  takes : ℕ → Call
  takes_all : Call
  drops_all : Call
  unwrites : ℕ → Call
  appends_int : IntWidth → ℕ → Call
  reads_int : IntWidth → Call

abbrev silent {ℓ} : {B : Type ℓ} → B → List ℕ × B
silent b = ([], b)

-- One call, with the bytes that it returns.
pub step : Buffer → Call → Option (List ℕ × Buffer)
step b (appends bytes) = Option.map silent (append b bytes)
step b (reserves n) = Option.map silent (ensure_writable_bytes b n)
step b (retrieves n) = Option.map silent (retrieve b n)
step b (takes n) = retrieve_as_string b n
step b takes_all = retrieve_all_as_string b
step b drops_all = some (silent (retrieve_all b))
step b (unwrites n) = Option.map silent (unwrite b n)
step b (appends_int w x) = Option.map silent (append_int w b x)
step b (reads_int w) = Option.map (λ r. (r.0 ∷ [], r.1)) (read_int w b)

-- The same calls of a queue of bytes, oldest first.
unfoldable pub queue_step : List ℕ → Call → Option (List ℕ × List ℕ)
queue_step q (appends bytes) = some (silent (q ++ bytes))
queue_step q (reserves n) = some (silent q)
queue_step q (retrieves n) = if leb n (length q) then some (silent (drop n q)) else none
queue_step q (takes n) = if leb n (length q) then some (take n q, drop n q) else none
queue_step q takes_all = some (q, [])
queue_step q drops_all = some (silent [])
queue_step q (unwrites n) = if leb n (length q) then some (silent (take (length q - n) q)) else none
queue_step q (appends_int w x) = some (silent (q ++ be_bytes w x))
queue_step q (reads_int w) =
    if leb (sizeof w) (length q)
    then some (from_be (take (sizeof w) q) ∷ [], drop (sizeof w) q)
    else none

-- A client's calls in order. The result is `none` as soon as one call fails.
module _ {ℓ} {S : Type ℓ} (f : S → Call → Option (List ℕ × S)) where
  unfoldable pub run : S → List Call → Option (List (List ℕ))
  run s [] = some []
  run s (c ∷ cs) = f s c >>= λ r. Option.map (λ out. r.0 ∷ out) (run r.1 cs)

-- How far a call may move the write index.
abbrev pub weight : Call → ℕ
weight (appends bytes) = length bytes
weight (reserves n) = n
weight (appends_int w x) = sizeof w
weight c = 0

abbrev pub total_weight : List Call → ℕ
total_weight [] = 0
total_weight (c ∷ cs) = weight c + total_weight cs

-- The outcomes of a call of the buffer and of the queue correspond.
data Agree (top : ℕ) : Option (List ℕ × Buffer) → Option (List ℕ × List ℕ) → Type 0 where
  fail : Agree top none none
  go :
      (out : List ℕ) (b : Buffer) (q : List ℕ)
      → IsValid b
      → contents b ≡ q
      → b.writer_index ≤ top
      → Agree top (some (out, b)) (some (out, q))

module _ {b : Buffer} (v : IsValid b) (top : ℕ) (low : b.writer_index ≤ top)
    (base : cheap_prepend ≤ top) where
  step-Agree :
      (c : Call)
      → top + weight c ≤ max_size
      → Agree (top + weight c) (step b c) (queue_step (contents b) c)
  unfolding step queue_step append_int
  step-Agree (appends bytes) h =
      let (b', e, a) = append-Appends bytes v (omega arith) in
      rw e (go [] b' _ a.valid a.joined (omega (arith, a.no_further)))
  step-Agree (reserves n) h =
      let (b', e, m) = ensure_writable_bytes-MakesRoom v n (omega arith) in
      rw e (go [] b' _ m.valid m.same (omega (arith, m.no_further)))
  step-Agree (retrieves n) h =
      rw (length-contents v) (elim (Bool-cases (leb n (readable_bytes b))) [
        | inl e ↦
            let (b', e', t) = retrieve-Takes v n (ground arith) in
            rw (e, e') (go [] b' _ t.valid t.rest (omega (arith, t.no_further)))
        | inr e ↦ rw (e, retrieve-none b n (ground arith)) fail
      ])
  step-Agree (takes n) h = rw (length-contents v) (elim (Bool-cases (leb n (readable_bytes b))) [
    | inl e ↦
        let (b', e', t) = retrieve_as_string_lem v n (ground arith) in
        rw (e, e') (go _ b' _ t.valid t.rest (omega (arith, t.no_further)))
    | inr e ↦ rw (e, retrieve_as_string-none b n (ground arith)) fail
  ])
  step-Agree takes_all h =
      let (b', e, t) = retrieve_all_as_string_lem v in
      rw e (
        go (contents b) b' [] t.valid
          (t.rest ∙ drop-length (readable_bytes b) (contents b) (omega (arith, length-contents v)))
          (omega (arith, t.no_further)))
  step-Agree drops_all h =
      let t = retrieve_all-Takes b (readable_bytes b) v (omega arith) in
      go [] (retrieve_all b) [] t.valid
        (t.rest ∙ drop-length (readable_bytes b) (contents b) (omega (arith, length-contents v)))
        (omega (arith, t.no_further))
  step-Agree (unwrites n) h = rw (length-contents v) (elim (Bool-cases (leb n (readable_bytes b))) [
    | inl e ↦
        let (b', e', valid, kept, top') = unwrite_lem v n (ground arith) in
        rw (e, e') (go [] b' _ valid kept (omega arith))
    | inr e ↦ rw (e, unwrite-none b n (ground arith)) fail
  ])
  step-Agree (appends_int w x) h =
      let len = length-be_bytes w x in
      let (b', e, a) = append-Appends (be_bytes w x) v (omega (arith, len)) in
      rw e (go [] b' _ a.valid a.joined (omega (arith, a.no_further, len)))
  step-Agree (reads_int w) h =
      rw (length-contents v) (elim (Bool-cases (leb (sizeof w) (readable_bytes b))) [
        | inl e ↦
            let (b', e', t) = read_int_lem w v (ground arith) in
            rw (e, e') (go _ b' _ t.valid t.rest (omega (arith, t.no_further)))
        | inr e ↦ rw (e, read_int-none w b (ground arith)) fail
      ])

module _ (cs : List Call) (top : ℕ) where
  run_next :
      {r : Option (List ℕ × Buffer)} {r' : Option (List ℕ × List ℕ)}
      → Agree top r r'
      → ((b : Buffer)
          → IsValid b
          → b.writer_index ≤ top
          → run step b cs ≡ run queue_step (contents b) cs)
      → (r >>= λ x. Option.map (λ out. x.0 ∷ out) (run step x.1 cs))
        ≡ (r' >>= λ x. Option.map (λ out. x.0 ∷ out) (run queue_step x.1 cs))
  run_next fail k = refl
  run_next (go out b q v e low) k =
      ap (Option.map (λ t. out ∷ t)) (k b v low ∙ ap (λ t. run queue_step t cs) e)

run_to :
    (cs : List Call) (top : ℕ) {b : Buffer}
    → IsValid b
    → b.writer_index ≤ top
    → cheap_prepend ≤ top
    → top + total_weight cs ≤ max_size
    → run step b cs ≡ run queue_step (contents b) cs
unfolding run
run_to [] top v low base h = refl
run_to (c ∷ cs) top v low base h =
    run_next cs (top + weight c) (step-Agree v top low base c (omega arith))
      λ b' v' low'. run_to cs (top + weight c) v' low' (omega arith) (omega arith)

-- Whatever a client calls on a new buffer of the nine methods of `Call` (append, appendInt,
-- ensureWritableBytes, retrieve, retrieveAll, retrieveAsString, retrieveAllAsString, readInt, unwrite), it
-- sees what a queue of bytes would show it: the same bytes in the same order, integers in network order, and
-- a failure exactly where it asks for more than there is, as long as the room that it asks for in all stays
-- within the largest vector.
pub run_refines :
    (cs : List Call) (size : ℕ)
    → cheap_prepend + size ≤ max_size
    → cheap_prepend + total_weight cs ≤ max_size
    → (new size >>= λ b. run step b cs) ≡ run queue_step [] cs
run_refines cs size h k =
    let (b, e, v, empty, room, low) = new_lem size h in
    rw e (
      run_to cs cheap_prepend v (omega (arith, low)) (omega arith) k
      ∙ ap (λ q. run queue_step q cs) empty)
