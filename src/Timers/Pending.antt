-- ===== src/Timers/Pending.antt =====
-- The timers that net/TimerQueueff.cpp has taken out of its sets to run them.
use firey.Prelude.{
  ℕ, ◌<◌, ◌≡◌, sym, ap, ◌∙◌, true, false, List, [], ◌∷◌, Option, some, none, ◌==◌, if◌then◌else◌,
  inl, inr, ==_iff,
}
use mathlib.Core.Path.{subst}
use firey.Timers.PairSet.{Pair, insert, erase, has, IsSorted, insert-cases, erase-cases}
use firey.Timers.{Timer, Heap, write, max_address}
use firey.Timers.Links.{IsLoose, clash, differs}

abbrev pub Apart : ℕ → List Pair → Type 0
Apart a [] = Unit {0}
Apart a (n ∷ ns) = ((n.1 == a) ≡ false) × Apart a ns

-- They are alive, no set knows them, and no two are the same.
abbrev pub Pending : Heap → List Pair → List Pair → Type 0
Pending heap active [] = Unit {0}
Pending heap active (n ∷ ns) =
    ((t : Timer) × (heap n.1 ≡ some t))
    × IsLoose n.1 active
    × (n.1 < max_address)
    × Apart n.1 ns
    × Pending heap active ns

IsLoose-mono :
    (a : ℕ) (active active1 : List Pair)
    → ((e : Pair) → has e active1 ≡ true → has e active ≡ true)
    → IsLoose a active
    → IsLoose a active1
IsLoose-mono a active active1 sub h s =
    differs (has (a, s) active1) λ k. clash (has (a, s) active) (sub (a, s) k) (h s)

pub Pending-mono :
    (heap : Heap) (active active1 ns : List Pair)
    → ((e : Pair) → has e active1 ≡ true → has e active ≡ true)
    → Pending heap active ns
    → Pending heap active1 ns
Pending-mono heap active active1 [] sub p = tt
Pending-mono heap active active1 (n ∷ ns) sub p = (
  p.0,
  IsLoose-mono n.1 active active1 sub p.1,
  p.2,
  p.3,
  Pending-mono heap active active1 ns sub p.4,
)

pub Pending-write :
    (heap : Heap) (a : ℕ) (v : Option Timer) (active ns : List Pair)
    → Apart a ns
    → Pending heap active ns
    → Pending (write heap a v) active ns
Pending-write heap a v active [] d p = tt
Pending-write heap a v active (n ∷ ns) d p = (
  (p.0.0, subst (λ b. (if b then v else heap n.1) ≡ some p.0.0) (sym d.0) p.0.1),
  p.1,
  p.2,
  p.3,
  Pending-write heap a v active ns d.1 p.4,
)

IsLoose-insert :
    (a b s : ℕ) (active : List Pair)
    → (b == a) ≡ false
    → IsLoose b active
    → IsLoose b (insert (a, s) active)
IsLoose-insert a b s active ne h s1 = differs (has (b, s1) (insert (a, s) active)) λ k.
    elim (insert-cases (b, s1) (a, s) active k) [
      | inl e ↦ clash (b == a) ((==_iff b a).1 (ap (λ x. x.0) e)) ne
      | inr h1 ↦ clash (has (b, s1) active) h1 (h s1)
    ]

pub Pending-insert :
    (heap : Heap) (a s : ℕ) (active ns : List Pair)
    → Apart a ns
    → Pending heap active ns
    → Pending heap (insert (a, s) active) ns
Pending-insert heap a s active [] d p = tt
Pending-insert heap a s active (n ∷ ns) d p = (
  p.0,
  IsLoose-insert a n.1 s active d.0 p.1,
  p.2,
  p.3,
  Pending-insert heap a s active ns d.1 p.4,
)

pub Pending-erase :
    (heap : Heap) (x : Pair) (active ns : List Pair)
    → IsSorted active
    → Pending heap active ns
    → Pending heap (erase x active) ns
Pending-erase heap x active ns s =
    Pending-mono heap active (erase x active) ns λ e k. (erase-cases e x active s k).1

-- An address that is free, or that a set knows, is none of them.
pub free_Apart :
    (heap : Heap) (a : ℕ) (active ns : List Pair)
    → heap a ≡ none
    → Pending heap active ns
    → Apart a ns
free_Apart heap a active [] e p = tt
free_Apart heap a active (n ∷ ns) e p = (
  differs (n.1 == a) (λ k.
      let same = sym (p.0.1) ∙ (ap heap ((==_iff n.1 a).0 k) ∙ e) in absurd (no_timer _ same)),
  free_Apart heap a active ns e p.4,
)
  where
    no_timer : (t : Timer) → some t ≡ none → ⊥
    no_timer t h = cc

pub known_Apart :
    (heap : Heap) (a s : ℕ) (active ns : List Pair)
    → has (a, s) active ≡ true
    → Pending heap active ns
    → Apart a ns
known_Apart heap a s active [] h p = tt
known_Apart heap a s active (n ∷ ns) h p = (
  differs (n.1 == a) (λ k.
      clash (has (n.1, s) active)
        (subst (λ x. has (x, s) active ≡ true) (sym ((==_iff n.1 a).0 k)) h) (p.1 s)),
  known_Apart heap a s active ns h p.4,
)

-- The names of their callbacks.
abbrev pub Names : Heap → List Pair → List ℕ → Type 0
Names heap [] [] = Unit {0}
Names heap [] (c ∷ cs) = ⊥
Names heap (n ∷ ns) [] = ⊥
Names heap (n ∷ ns) (c ∷ cs) =
    ((t : Timer) × (heap n.1 ≡ some t) × (t.callback ≡ c)) × Names heap ns cs

pub Names-write :
    (heap : Heap) (a : ℕ) (v : Option Timer) (ns : List Pair) (cs : List ℕ)
    → Apart a ns
    → Names heap ns cs
    → Names (write heap a v) ns cs
Names-write heap a v [] [] d h = tt
Names-write heap a v [] (c ∷ cs) d h = h
Names-write heap a v (n ∷ ns) [] d h = h
Names-write heap a v (n ∷ ns) (c ∷ cs) d h = (
  (h.0.0, subst (λ b. (if b then v else heap n.1) ≡ some h.0.0) (sym d.0) h.0.1, h.0.2),
  Names-write heap a v ns cs d.1 h.1,
)
