-- ===== src/Timers/After.antt =====
-- What holds after a call that returns, and when the timer descriptor of net/TimerQueueff.cpp is set early
-- enough for the first timer.
use firey.Prelude.{
  ◌+◌, ◌*◌, ◌⊎◌, ℕ, ◌<◌, ◌≤◌, ◌≡◌, refl, sym, Bool, true, false, List, [], ◌∷◌, Option, some, none,
  ltb, if◌then◌else◌, arith, Bool-cases, inl, inr,
}
use mathlib.Core.Path.{subst}
use firey.Timers.PairSet.{Pair, pair_eq, insert, erase, IsSorted, insert-head}
use firey.Timers.{
  Result, ok, throws, fails, ◌>>=◌, ◌>>◌, check, Timer, Heap, load, is_earliest, Setting,
}

-- What holds after a call that returns.
pub data After {A : Type 0} (P : A → Type 0) : Result A → Type 0 where
  after : {a : A} → P a → After P (ok a)
  after_throw : After P throws
  after_fail : After P fails

pub After-bind :
    {A B : Type 0} {P : A → Type 0} {Q : B → Type 0} (m : Result A) (f : A → Result B)
    → After P m
    → ((a : A) → P a → After Q (f a))
    → After Q (m >>= f)
After-bind _ f (after {a} p) h = h a p
After-bind _ f after_throw h = after_throw
After-bind _ f after_fail h = after_fail

pub After-check :
    {B : Type 0} {Q : B → Type 0} (b : Bool) (m : Result B)
    → (b ≡ true → After Q m)
    → After Q (check b >> m)
After-check true m h = h refl
After-check false m h = after_fail

pub After-opt :
    {B : Type 0} {Q : B → Type 0} (o : Option Timer) (f : Timer → Result B)
    → ((t : Timer) → o ≡ some t → After Q (f t))
    → After Q ((elim o [ none ↦ fails | some t ↦ ok t ]) >>= f)
After-opt none f h = after_fail
After-opt (some t) f h = h t refl

pub After-load :
    {B : Type 0} {Q : B → Type 0} (heap : Heap) (a : ℕ) (f : Timer → Result B)
    → ((t : Timer) → heap a ≡ some t → After Q (f t))
    → After Q (load heap a >>= f)
After-load heap a f h = After-opt (heap a) f h

pub After-if :
    {B : Type 0} {Q : B → Type 0} (b : Bool) (m m1 : Result B)
    → (b ≡ true → After Q m)
    → (b ≡ false → After Q m1)
    → After Q (if b then m else m1)
After-if true m m1 h h1 = h refl
After-if false m m1 h h1 = h1 refl

-- When the descriptor goes off, in nanoseconds.
abbrev pub ends : Setting → ℕ
ends d = d.set_at * 1000 + (d.seconds * 1000000000 + d.nanoseconds)

-- No later than the time, in microseconds, or 100 microseconds after it was set.
abbrev pub IsEarly : Setting → ℕ → Type 0
IsEarly d time = (ends d ≤ time * 1000) ⊎ (ends d ≤ d.set_at * 1000 + 100000)

later-IsEarly : (d : Setting) (time later : ℕ) → time ≤ later → IsEarly d time → IsEarly d later
later-IsEarly d time later le (inl h) = inl (omega (arith, le, h))
later-IsEarly d time later le (inr h) = inr h

-- As far as times up to `b` go.
abbrev pub ArmedUpTo : ℕ → Option Setting → List Pair → Type 0
ArmedUpTo b armed [] = Unit {0}
ArmedUpTo b armed (n ∷ ns) = n.0 ≤ b → (d : Setting) × (armed ≡ some d) × IsEarly d n.0

armed_before :
    (b when time : ℕ) (armed : Option Setting)
    → when ≤ time
    → (when ≤ b → (d : Setting) × (armed ≡ some d) × IsEarly d when)
    → time ≤ b
    → (d : Setting) × (armed ≡ some d) × IsEarly d time
armed_before b when time armed before h le =
    let (d, k, small) = h (omega (arith, before, le)) in
    (d, k, later-IsEarly d when time before small)

-- The first time after an insertion, and whether the descriptor was set for it.
pub ArmedUpTo-first :
    (b when a : ℕ) (set : Setting) (armed : Option Setting) (n : Pair) (ns : List Pair)
    → IsEarly set when
    → ArmedUpTo b armed (n ∷ ns)
    → ArmedUpTo b (if ltb when n.0 then some set else armed) (insert (when, a) (n ∷ ns))
ArmedUpTo-first b when a set armed n ns early h = elim (insert-head (when, a) n ns) [
  | inl (l, e, lt) ↦
      subst (ArmedUpTo b (if ltb when n.0 then some set else armed)) (sym e)
        (elim (Bool-cases (ltb when n.0)) [
          | inl f ↦ rw f λ le. (set, refl, early)
          | inr f ↦
              let same : n.0 ≤ when = ground arith in rw f (armed_before b n.0 when armed same h)
        ])
  | inr (l, e, lt) ↦
      subst (ArmedUpTo b (if ltb when n.0 then some set else armed)) (sym e)
        (let late : ltb when n.0 ≡ false = ground arith in rw late h)
]

pub ArmedUpTo-insert :
    (b when a : ℕ) (set : Setting) (armed : Option Setting) (l : List Pair)
    → IsEarly set when
    → ArmedUpTo b armed l
    → ArmedUpTo b (if is_earliest when l then some set else armed) (insert (when, a) l)
unfolding insert
ArmedUpTo-insert b when a set armed [] early h = λ le. (set, refl, early)
ArmedUpTo-insert b when a set armed (n ∷ ns) early h =
    ArmedUpTo-first b when a set armed n ns early h

pub ArmedUpTo-insert_late :
    (b when a : ℕ) (armed : Option Setting) (l : List Pair)
    → b < when
    → ArmedUpTo b armed l
    → ArmedUpTo b armed (insert (when, a) l)
unfolding insert
ArmedUpTo-insert_late b when a armed [] late h = λ le. absurd (omega (arith, late, le))
ArmedUpTo-insert_late b when a armed (n ∷ ns) late h = elim (insert-head (when, a) n ns) [
  | inl (l, e, lt) ↦ subst (ArmedUpTo b armed) (sym e) (λ le. absurd (omega (arith, late, le)))
  | inr (l, e, lt) ↦ subst (ArmedUpTo b armed) (sym e) h
]

pub ArmedUpTo-erase :
    (b : ℕ) (x : Pair) (armed : Option Setting) (l : List Pair)
    → IsSorted l
    → ArmedUpTo b armed l
    → ArmedUpTo b armed (erase x l)
unfolding erase
ArmedUpTo-erase b x armed [] s h = tt
ArmedUpTo-erase b x armed (n ∷ []) s h = elim (Bool-cases (pair_eq x n)) [
  | inl e ↦ rw e tt
  | inr e ↦ rw e h
]
ArmedUpTo-erase b x armed (n ∷ (m ∷ ns)) s h = elim (Bool-cases (pair_eq x n)) [
  | inl e ↦
      let before : n.0 ≤ m.0 = let k = s.0.0 in ground arith in
      rw e λ le.
        let (d, k, small) = h (omega (arith, before, le)) in
        (d, k, later-IsEarly d n.0 m.0 before small)
  | inr e ↦ rw e h
]
