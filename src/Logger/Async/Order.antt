-- ===== src/Logger/Async/Order.antt =====
-- base/logger/AsyncLoggingff.cpp: the steps of the two sides keep the invariant.
use firey.Prelude.{
  ℕ, ◌-◌, ◌≤◌, ◌≡◌, refl, sym, ap, ◌∙◌, Bool, true, false, List, [], ◌∷◌, ◌++◌, append-nil,
  append_assoc, some, none, ltb, leb, if◌then◌else◌, check, arith, length, length-append, Bytes,
  Bool-cases, inl, inr, ltb→lt, leb→le, >>=-eq-some,
}
use mathlib.Core.Path.{subst}
use firey.Logger.Async.{BufferPtr, Shared, Log, fill, rotate, append}
use firey.Logger.Async.Invariant.{
  AllSet-append, flat, concat, flat-append, concat-append, Spare, ready, used, Inv, inv,
}

fill-fits :
    (size : ℕ) (b line : Bytes) → length line ≤ size - length b → fill size b line ≡ b ++ line
fill-fits size b line h = elim (Bool-cases (ltb (size - length b) (length line))) [
  | inl e ↦ absurd (omega (arith, ltb→lt (size - length b) (length line) e))
  | inr e ↦ rw e refl
]

-- A line goes to the end, whether it joins the last buffer or starts one.
concat-line :
    (lines : List Bytes) (line : Bytes) → concat (lines ++ (line ∷ [])) ≡ concat lines ++ line
concat-line lines line =
    concat-append lines (line ∷ []) ∙ ap (λ x. concat lines ++ x) (append-nil line)

flat-last : (bs : List BufferPtr) (b : Bytes) → flat (bs ++ (some b ∷ [])) ≡ flat bs ++ b
flat-last bs b = flat-append bs (some b ∷ []) ∙ ap (λ x. flat bs ++ x) (append-nil b)

flat-joined :
    (bs : List BufferPtr) (b line : Bytes)
    → flat (bs ++ (some (b ++ line) ∷ [])) ≡ flat (bs ++ (some b ∷ [])) ++ line
flat-joined bs b line =
    flat-last bs (b ++ line)
    ∙ (sym (append_assoc (flat bs) b line) ∙ ap (λ x. x ++ line) (sym (flat-last bs b)))

-- `held` of what is at the end.
held-end :
    (lines : List Bytes) (line file written old new : Bytes)
    → new ≡ old ++ line
    → file ++ (written ++ old) ≡ concat lines
    → file ++ (written ++ new) ≡ concat (lines ++ (line ∷ []))
held-end lines line file written old new e h =
    ap (λ x. file ++ (written ++ x)) e
    ∙ (ap (λ x. file ++ x) (sym (append_assoc written old line))
        ∙ (sym (append_assoc file (written ++ old) line)
            ∙ (ap (λ x. x ++ line) h ∙ sym (concat-line lines line))))

-- The two ways of `append`, on a buffer of the invariant.
pub append-room :
    (size : ℕ) (b line : Bytes) (next : BufferPtr) (bs : List BufferPtr)
    → ltb (length line) (size - length b) ≡ true
    → append (record { size = size; current = some b; next = next; buffers = bs }) line
      ≡ some (record { size = size; current = some (b ++ line); next = next; buffers = bs })
unfolding append
append-room size b line next bs e =
    rw e (rw (fill-fits size b line (omega (arith, ltb→lt (length line) (size - length b) e))) refl)

le→leb : (a b : ℕ) → a ≤ b → leb a b ≡ true
le→leb a b h = ground arith

rotate_lem :
    (size : ℕ) (b line : Bytes) (next : BufferPtr) (bs : List BufferPtr)
    → Spare next bs
    → length line ≤ size
    → rotate (record { size = size; current = some b; next = next; buffers = bs }) b line
      ≡ some
          (record { size = size; current = some line; next = none; buffers = bs ++ (some b ∷ []) })
unfolding rotate
rotate_lem size b line _ bs ready fits =
    rw (le→leb (length line) (size - 0) (omega (arith, fits)))
      (rw (fill-fits size [] line (omega (arith, fits))) refl)
rotate_lem size b line _ bs (used n) fits =
    rw (le→leb (length line) (size - 0) (omega (arith, fits)))
      (rw (fill-fits size [] line (omega (arith, fits))) refl)

pub append-full :
    (size : ℕ) (b line : Bytes) (next : BufferPtr) (bs : List BufferPtr)
    → Spare next bs
    → ltb (length line) (size - length b) ≡ false
    → length line ≤ size
    → append (record { size = size; current = some b; next = next; buffers = bs }) line
      ≡ some
          (record { size = size; current = some line; next = none; buffers = bs ++ (some b ∷ []) })
unfolding append
append-full size b line next bs spare e fits = rw e (rotate_lem size b line next bs spare fits)

check-true : (b : Bool) (u : Unit {0}) → check b ≡ some u → b ≡ true
check-true true u e = refl
check-true false u e = cc

rotate-fits :
    (size : ℕ) (b line : Bytes) (next : BufferPtr) (bs : List BufferPtr) (s : Shared)
    → Spare next bs
    → rotate (record { size = size; current = some b; next = next; buffers = bs }) b line ≡ some s
    → length line ≤ size
unfolding rotate
rotate-fits size b line _ bs s ready h =
    let (u, e, r) = >>=-eq-some (check (leb (length line) (size - 0))) _ h in
    omega (arith, leb→le (length line) (size - 0) (check-true _ u e))
rotate-fits size b line _ bs s (used n) h =
    let (u, e, r) = >>=-eq-some (check (leb (length line) (size - 0))) _ h in
    omega (arith, leb→le (length line) (size - 0) (check-true _ u e))

-- A line that is too long stops the program.
pub append-fits :
    (size : ℕ) (lost : Bool) (lines : List Bytes) (g : Log) (line : Bytes) (s : Shared)
    → Inv size lost lines g
    → append g.shared line ≡ some s
    → length line ≤ size
unfolding append
append-fits size lost lines _ line s (inv b next bs w spare full round same) e =
    elim (Bool-cases (ltb (length line) (size - length b))) [
      | inl room ↦ omega (arith, ltb→lt (length line) (size - length b) room)
      | inr tight ↦ rotate-fits size b line next bs s spare (
          subst
            (λ x.
              (if x
                then some (record {
                  size = size;
                  current = some (fill size b line);
                  next = next;
                  buffers = bs;
                })
                else rotate (record { size = size; current = some b; next = next; buffers = bs }) b
                    line)
              ≡ some s)
            tight e)
    ]

-- A line that fits a buffer is taken, and then the invariant holds.
pub append_lem :
    (size : ℕ) (lost : Bool) (lines : List Bytes) (g : Log) (line : Bytes)
    → Inv size lost lines g
    → length line ≤ size
    → (s : Shared) × (append g.shared line ≡ some s)
      × Inv size lost (lines ++ (line ∷ [])) (record g { shared = s })
append_lem size lost lines _ line (inv b next bs w spare full round same) fits =
    elim (Bool-cases (ltb (length line) (size - length b))) [
      | inl e ↦ (
        record { size = size; current = some (b ++ line); next = next; buffers = bs },
        append-room size b line next bs e,
        inv (b ++ line) next bs w spare full round (λ all.
            held-end lines line (concat w.file) (flat w.to_write) (flat (bs ++ (some b ∷ [])))
              (flat (bs ++ (some (b ++ line) ∷ []))) (flat-joined bs b line) (same all)),
      )
      | inr e ↦ (
        record { size = size; current = some line; next = none; buffers = bs ++ (some b ∷ []) },
        append-full size b line next bs spare e fits,
        inv line none (bs ++ (some b ∷ [])) w (used (omega (arith, length-append bs (some b ∷ []))))
            (AllSet-append bs (some b ∷ []) full tt) round
            (λ all.
              held-end lines line (concat w.file) (flat w.to_write) (flat (bs ++ (some b ∷ [])))
                (flat ((bs ++ (some b ∷ [])) ++ (some line ∷ [])))
                (flat-last (bs ++ (some b ∷ [])) line) (same all)),
      )
    ]
