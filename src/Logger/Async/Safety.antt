-- ===== src/Logger/Async/Safety.antt =====
-- base/logger/AsyncLoggingff.cpp, in any interleaving of the two sides: no assertion fails, and what is
-- written is in order.
use firey.Prelude.{
  ℕ, ◌+◌, ◌≤◌, ◌<◌, ◌≡◌, refl, sym, ap, ◌∙◌, Bool, true, false, ◌||◌, List, [], ◌∷◌, ◌++◌,
  append-nil, append_assoc, some, none, ◌==◌, ltb, arith, length, length-append, length-take, take,
  Bytes, min, inl, inr,
}
use mathlib.Core.Path.{subst}
use mathlib.Core.Option.{some-injective}
use firey.Logger.Async.{
  BufferPtr, Shared, Log, new_log, append, swap, refill, max_pending, kept, write_round, turn,
  Reach, starts, logs, turns,
}
use firey.Logger.Async.Invariant.{
  AllSet, AllSet-append, AllSet-take, flat, concat, Spare, ready, used, idle, busy, short, held,
  Inv, inv, kept_lem, refill_lem, write_round_lem,
}
use firey.Logger.Async.Order.{append_lem, append-fits}

swap_lem :
    (size : ℕ) (lost : Bool) (lines : List Bytes) (b : Bytes) (next : BufferPtr)
    (bs : List BufferPtr) (file : List Bytes)
    → Spare next bs
    → AllSet bs
    → (lost ≡ false → concat file ++ flat (bs ++ (some b ∷ [])) ≡ concat lines)
    → (g1 : Log) × (swap (record {
      shared = record { size = size; current = some b; next = next; buffers = bs };
      writer = record { new1 = some []; new2 = some []; to_write = []; file = file };
    })
        ≡ some g1)
      × Inv size lost lines g1
unfolding swap
swap_lem size lost lines b _ bs file ready full same = (
  _,
  refl,
  inv [] (some []) []
      (record { new1 = none; new2 = some []; to_write = bs ++ (some b ∷ []); file = file }) ready tt
      (busy (AllSet-append bs (some b ∷ []) full tt)
        (omega (arith, length-append bs (some b ∷ []))))
      (λ all. ap (λ x. concat file ++ x) (append-nil (flat (bs ++ (some b ∷ [])))) ∙ same all),
)
swap_lem size lost lines b _ bs file (used n) full same = (
  _,
  refl,
  inv [] (some []) []
      (record { new1 = none; new2 = none; to_write = bs ++ (some b ∷ []); file = file }) ready tt
      (short (AllSet-append bs (some b ∷ []) full tt)
        (omega (arith, n, length-append bs (some b ∷ []))))
      (λ all. ap (λ x. concat file ++ x) (append-nil (flat (bs ++ (some b ∷ [])))) ∙ same all),
)

take2_lem :
    (notice : Bytes) (bs : List BufferPtr)
    → AllSet bs
    → AllSet (take 2 (kept notice bs).1) × (min 2 (length bs) ≤ length (take 2 (kept notice bs).1))
take2_lem notice bs set =
    let (full, n) = kept_lem notice bs set in
    (
      AllSet-take 2 (kept notice bs).1 full,
      elim n [
        | inl h ↦ omega (arith, h, length-take 2 (kept notice bs).1)
        | inr h ↦ omega (arith, h, length-take 2 (kept notice bs).1)
      ],
    )

refill_busy :
    (notice : Bytes) (bs : List BufferPtr)
    → AllSet bs
    → 0 < length bs
    → (ls : List BufferPtr) × (refill none (take 2 (kept notice bs).1) ≡ some (some [], ls))
      × AllSet ls
      × (min 2 (length bs) ≤ length ls + 1)
refill_busy notice bs set n =
    let (full, k) = take2_lem notice bs set in
    let (ls, e, rest, m) = refill_lem (take 2 (kept notice bs).1) full (omega (arith, k, n)) in
    (ls, e, rest, omega (arith, k, m))

busy_lem :
    (notice : Bytes) (bs : List BufferPtr) (file : List Bytes)
    → AllSet bs
    → 0 < length bs
    → (file1 : List Bytes) × (write_round notice
          (record { new1 = none; new2 = some []; to_write = bs; file = file })
        ≡ some (record { new1 = some []; new2 = some []; to_write = []; file = file1 }))
      × (ltb max_pending (length bs) ≡ false → concat file1 ≡ concat file ++ flat bs)
unfolding refill
busy_lem notice bs file set n =
    let (ls, e, rest, m) = refill_busy notice bs set n in
    write_round_lem notice none (some []) bs ls ls file set n e refl

short_lem :
    (notice : Bytes) (bs : List BufferPtr) (file : List Bytes)
    → AllSet bs
    → 1 < length bs
    → (file1 : List Bytes) × (write_round notice
          (record { new1 = none; new2 = none; to_write = bs; file = file })
        ≡ some (record { new1 = some []; new2 = some []; to_write = []; file = file1 }))
      × (ltb max_pending (length bs) ≡ false → concat file1 ≡ concat file ++ flat bs)
short_lem notice bs file set n =
    let (ls, e, rest, m) = refill_busy notice bs set (omega (arith, n)) in
    let (ls2, e2, rest2, m2) = refill_lem ls rest (omega (arith, n, m)) in
    write_round_lem notice none none bs ls ls2 file set (omega (arith, n)) e e2

or-false : (a b : Bool) → (a || b) ≡ false → (a ≡ false) × (b ≡ false)
or-false false b h = (refl, h)
or-false true b h = cc

-- The end of a round: what was to be written is in the file.
written_lem :
    (size : ℕ) (lost few : Bool) (lines : List Bytes) (b : Bytes) (next : BufferPtr)
    (bs to_write : List BufferPtr) (file file1 : List Bytes)
    → Spare next bs
    → AllSet bs
    → (lost ≡ false → concat file ++ (flat to_write ++ flat (bs ++ (some b ∷ []))) ≡ concat lines)
    → (few ≡ false → concat file1 ≡ concat file ++ flat to_write)
    → Inv size (lost || few) lines (record {
      shared = record { size = size; current = some b; next = next; buffers = bs };
      writer = record { new1 = some []; new2 = some []; to_write = []; file = file1 };
    })
written_lem size lost few lines b next bs to_write file file1 spare full same wrote =
    inv b next bs (record { new1 = some []; new2 = some []; to_write = []; file = file1 }) spare
      full idle
      (λ all.
        let (a, f) = or-false lost few all in
        ap (λ x. x ++ flat (bs ++ (some b ∷ []))) (wrote f)
        ∙ (append_assoc (concat file) (flat to_write) (flat (bs ++ (some b ∷ []))) ∙ same a))

is_busy : (bs : List BufferPtr) → 0 < length bs → (length bs == 0) ≡ false
is_busy bs n = ground arith

or_false_right : (b : Bool) → b ≡ (b || false)
or_false_right true = refl
or_false_right false = refl

-- The writing thread is never stopped, and its turn keeps the invariant.
turn_lem :
    (size : ℕ) (lost : Bool) (lines : List Bytes) (g : Log) (notice : Bytes)
    → Inv size lost lines g
    → (g1 : Log) × (turn notice g ≡ some g1)
      × Inv size (lost || ltb max_pending (length g.writer.to_write)) lines g1
unfolding turn
turn_lem size lost lines _ notice (inv b next bs _ spare full (idle {file}) same) =
    subst
      (λ l.
        (g1 : Log) × (swap (record {
          shared = record { size = size; current = some b; next = next; buffers = bs };
          writer = record { new1 = some []; new2 = some []; to_write = []; file = file };
        })
          ≡ some g1)
        × Inv size l lines g1)
      (or_false_right lost) (swap_lem size lost lines b next bs file spare full same)
turn_lem size lost lines _ notice (inv b next bs _ spare full (busy {to_write} {file} set n) same) =
    let (file1, e, wrote) = busy_lem notice to_write file set n in
    (
      _,
      rw (is_busy to_write n) (rw e refl),
      written_lem size lost (ltb max_pending (length to_write)) lines b next bs to_write file file1
          spare full same wrote,
    )
turn_lem size lost lines _ notice
      (inv b next bs _ spare full (short {to_write} {file} set n) same) =
    let (file1, e, wrote) = short_lem notice to_write file set n in
    (
      _,
      rw (is_busy to_write (omega (arith, n))) (rw e refl),
      written_lem size lost (ltb max_pending (length to_write)) lines b next bs to_write file file1
          spare full same wrote,
    )

Reach-Inv :
    {size : ℕ} {lost : Bool} {lines : List Bytes} {g : Log}
    → Reach size lost lines g
    → Inv size lost lines g
unfolding new_log
Reach-Inv {size} starts =
    inv [] (some []) [] (record { new1 = some []; new2 = some []; to_write = []; file = [] }) ready
      tt idle (λ all. refl)
Reach-Inv {size} (logs {lost} {lines} {g} line s before e) =
    let h = Reach-Inv before in
    let (s1, e1, after) =
      append_lem size lost lines g line h (append-fits size lost lines g line s h e) in
    subst (λ x. Inv size lost (lines ++ (line ∷ [])) (record g { shared = x }))
      (some-injective _ _ (sym e1 ∙ e)) after
Reach-Inv {size} (turns {lost} {lines} {g} notice g2 before e) =
    let (g1, e1, after) = turn_lem size lost lines g notice (Reach-Inv before) in
    subst (λ x. Inv size (lost || ltb max_pending (length g.writer.to_write)) lines x)
      (some-injective _ _ (sym e1 ∙ e)) after

held_of : {size : ℕ} {lines : List Bytes} {g : Log} → Inv size false lines g → held g ≡ concat lines
held_of (inv b next bs w spare full round same) = same refl

-- In every state that lines and turns lead to from the start, in any order, a line that is no longer than
-- a buffer is taken, and the writing thread's next turn succeeds: no assertion of `append` or `threadFunc`
-- fails, no null pointer is read, and the buffers to refill from do not run out.
pub append-turn_lem :
    {size : ℕ} {lost : Bool} {lines : List Bytes} {g : Log} (line notice : Bytes)
    → Reach size lost lines g
    → length line ≤ size
    → ((s : Shared) × (append g.shared line ≡ some s)) × ((g1 : Log) × (turn notice g ≡ some g1))
append-turn_lem {size} {lost} {lines} {g} line notice way fits =
    let (s, e, after) = append_lem size lost lines g line (Reach-Inv way) fits in
    let (g1, e1, after1) = turn_lem size lost lines g notice (Reach-Inv way) in ((s, e), (g1, e1))

-- As long as no buffers were dropped: the bytes in the file, then those that the writing thread holds,
-- then those of the full buffers and of the current one are the lines that were logged, in order.
pub held-Reach :
    {size : ℕ} {lines : List Bytes} {g : Log} → Reach size false lines g → held g ≡ concat lines
held-Reach way = held_of (Reach-Inv way)
