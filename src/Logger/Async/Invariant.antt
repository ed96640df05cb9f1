-- ===== src/Logger/Async/Invariant.antt =====
-- base/logger/AsyncLoggingff.cpp: the assertions of the two sides never fail.
use firey.Prelude.{
  ℕ, zero, suc, ◌+◌, ◌≤◌, ◌<◌, ◌≡◌, ◌⊎◌, refl, sym, ap, ◌∙◌, Bool, true, false, not, List, [], ◌∷◌,
  ◌++◌, some, none, ◌==◌, ltb, arith, length, take, length-take, Bytes, Bool-cases, ltb→lt,
  append_assoc, inl, inr,
}
use firey.Logger.Async.{
  BufferPtr, Writer, Log, contents_of, pop_back, refill, max_pending, kept, write_round,
}

-- All pointers of a list are set.
abbrev pub AllSet : List BufferPtr → Type 0
AllSet [] = Unit {0}
AllSet (none ∷ bs) = ⊥
AllSet (some b ∷ bs) = AllSet bs

pub AllSet-append : (bs cs : List BufferPtr) → AllSet bs → AllSet cs → AllSet (bs ++ cs)
AllSet-append [] cs hb hc = hc
AllSet-append (some b ∷ bs) cs hb hc = AllSet-append bs cs hb hc
AllSet-append (none ∷ bs) cs hb hc = absurd hb

pub AllSet-take : (n : ℕ) (bs : List BufferPtr) → AllSet bs → AllSet (take n bs)
AllSet-take zero bs h = tt
AllSet-take (suc n) [] h = tt
AllSet-take (suc n) (some b ∷ bs) h = AllSet-take n bs h
AllSet-take (suc n) (none ∷ bs) h = absurd h

-- The bytes of the buffers.
abbrev pub flat : List BufferPtr → Bytes
flat [] = []
flat (none ∷ bs) = flat bs
flat (some b ∷ bs) = b ++ flat bs

abbrev pub concat : List Bytes → Bytes
concat [] = []
concat (b ∷ bs) = b ++ concat bs

-- The spare buffer of the threads that log, and how many full ones there are.
pub data Spare : BufferPtr → List BufferPtr → Type 0 where
  ready : {bs : List BufferPtr} → Spare (some []) bs
  used : {bs : List BufferPtr} → 0 < length bs → Spare none bs

-- The writing thread before its critical section, and after it.
pub data Round : Writer → Type 0 where
  idle :
      {file : List Bytes}
      → Round (record { new1 = some []; new2 = some []; to_write = []; file = file })
  busy :
      {to_write : List BufferPtr} {file : List Bytes}
      → AllSet to_write
      → 0 < length to_write
      → Round (record { new1 = none; new2 = some []; to_write = to_write; file = file })
  short :
      {to_write : List BufferPtr} {file : List Bytes}
      → AllSet to_write
      → 1 < length to_write
      → Round (record { new1 = none; new2 = none; to_write = to_write; file = file })

-- All that was handed over, oldest first: in the file, with the writing thread, and still shared.
abbrev pub held : Log → Bytes
held g =
    concat g.writer.file
    ++ (flat g.writer.to_write ++ flat (g.shared.buffers ++ (g.shared.current ∷ [])))

pub data Inv (size : ℕ) (lost : Bool) (lines : List Bytes) : Log → Type 0 where
  inv :
      (b : Bytes) (next : BufferPtr) (bs : List BufferPtr) (w : Writer)
      → Spare next bs
      → AllSet bs
      → Round w
      → (lost ≡ false
          → held (record {
            shared = record { size = size; current = some b; next = next; buffers = bs };
            writer = w;
          })
            ≡ concat lines)
      → Inv size lost lines (record {
        shared = record { size = size; current = some b; next = next; buffers = bs };
        writer = w;
      })

contents_of_lem :
    (bs : List BufferPtr)
    → AllSet bs
    → (cs : List Bytes) × (contents_of bs ≡ some cs) × (concat cs ≡ flat bs)
unfolding contents_of
contents_of_lem [] h = ([], refl, refl)
contents_of_lem (some b ∷ bs) h =
    let (cs, e, same) = contents_of_lem bs h in (b ∷ cs, rw e refl, ap (λ x. b ++ x) same)
contents_of_lem (none ∷ bs) h = absurd h

-- The last of a list that is not empty, and the others.
pop_back_lem :
    (b : BufferPtr) (bs : List BufferPtr)
    → AllSet (b ∷ bs)
    → (l : Bytes) × (ls : List BufferPtr) × (pop_back (b ∷ bs) ≡ some (some l, ls))
      × AllSet ls
      × (length ls ≡ length bs)
unfolding pop_back
pop_back_lem (some b) [] h = (b, [], refl, tt, refl)
pop_back_lem none bs h = absurd h
pop_back_lem (some b) (c ∷ bs) h =
    let (l, ls, e, set, n) = pop_back_lem c bs h in
    (l, some b ∷ ls, rw e refl, set, omega (arith, n))

pub refill_lem :
    (bs : List BufferPtr)
    → AllSet bs
    → 0 < length bs
    → (ls : List BufferPtr) × (refill none bs ≡ some (some [], ls))
      × AllSet ls
      × (length ls + 1 ≡ length bs)
unfolding refill
refill_lem [] h n = absurd (omega arith)
refill_lem (b ∷ bs) h n =
    let (l, ls, e, set, k) = pop_back_lem b bs h in (ls, rw e refl, set, omega (arith, k))

pub kept_lem :
    (notice : Bytes) (bs : List BufferPtr)
    → AllSet bs
    → AllSet (kept notice bs).1
      × ((length bs ≤ length (kept notice bs).1) ⊎ (2 ≤ length (kept notice bs).1))
unfolding kept
kept_lem notice bs h = elim (Bool-cases (ltb max_pending (length bs))) [
  | inl e ↦
      rw e (
        AllSet-take 2 bs h,
        inr (omega (arith, length-take 2 bs, ltb→lt max_pending (length bs) e)),
      )
  | inr e ↦ rw e (h, inl (omega arith))
]

-- Nothing is dropped of a list that is short enough.
kept-all :
    (notice : Bytes) (bs : List BufferPtr)
    → ltb max_pending (length bs) ≡ false
    → kept notice bs ≡ ([], bs)
unfolding kept
kept-all notice bs e = rw e refl

pub concat-append : (xs ys : List Bytes) → concat (xs ++ ys) ≡ concat xs ++ concat ys
concat-append [] ys = refl
concat-append (x ∷ xs) ys = rw (concat-append xs ys) (sym (append_assoc x (concat xs) (concat ys)))

pub flat-append : (xs ys : List BufferPtr) → flat (xs ++ ys) ≡ flat xs ++ flat ys
flat-append [] ys = refl
flat-append (none ∷ xs) ys = flat-append xs ys
flat-append (some x ∷ xs) ys = rw (flat-append xs ys) (sym (append_assoc x (flat xs) (flat ys)))

-- What the file gets when nothing is dropped.
concat-kept :
    (notice : Bytes) (bs : List BufferPtr) (file cs : List Bytes)
    → concat cs ≡ flat (kept notice bs).1
    → ltb max_pending (length bs) ≡ false
    → concat (file ++ ((kept notice bs).0 ++ cs)) ≡ concat file ++ flat bs
concat-kept notice bs file cs same few =
    concat-append file ((kept notice bs).0 ++ cs)
    ∙ ap (λ x. concat file ++ x)
        (concat-append (kept notice bs).0 cs
          ∙ (ap (λ x. concat (kept notice bs).0 ++ x) same
              ∙ ap (λ x. concat x.0 ++ flat x.1) (kept-all notice bs few)))

not_empty : (bs : List BufferPtr) → 0 < length bs → not (length bs == 0) ≡ true
not_empty bs n = ground arith

pub write_round_lem :
    (notice : Bytes) (new1 new2 : BufferPtr) (bs ls1 ls2 : List BufferPtr) (file : List Bytes)
    → AllSet bs
    → 0 < length bs
    → refill new1 (take 2 (kept notice bs).1) ≡ some (some [], ls1)
    → refill new2 ls1 ≡ some (some [], ls2)
    → (file1 : List Bytes) × (write_round notice
          (record { new1 = new1; new2 = new2; to_write = bs; file = file })
        ≡ some (record { new1 = some []; new2 = some []; to_write = []; file = file1 }))
      × (ltb max_pending (length bs) ≡ false → concat file1 ≡ concat file ++ flat bs)
unfolding write_round
write_round_lem notice new1 new2 bs ls1 ls2 file set n r1 r2 =
    let (cs, e, same) = contents_of_lem (kept notice bs).1 (kept_lem notice bs set).0 in
    (
      file ++ ((kept notice bs).0 ++ cs),
      rw e (rw r1 (rw r2 (rw (not_empty bs n) refl))),
      concat-kept notice bs file cs same,
    )
