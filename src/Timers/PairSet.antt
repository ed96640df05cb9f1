-- ===== src/Timers/PairSet.antt =====
-- `std::set` of pairs, as net/TimerQueueff.cpp uses it: an ascending list.
use firey.Prelude.{
  ℕ, suc, ◌≡◌, refl, Bool, true, false, not, ◌&&◌, ◌||◌, List, [], ◌∷◌, ◌==◌, ltb, if◌then◌else◌,
  arith, length, Bool-cases, ◌⊎◌, inl, inr, sym, ap, ◌∙◌,
}
use mathlib.Core.Path.{subst, ap₂}

abbrev pub Pair : Type 0
Pair = ℕ × ℕ

abbrev pub pair_lt : Pair → Pair → Bool
pair_lt x y = ltb x.0 y.0 || (x.0 == y.0 && ltb x.1 y.1)

abbrev pub pair_eq : Pair → Pair → Bool
pair_eq x y = x.0 == y.0 && x.1 == y.1

unfoldable pub insert : Pair → List Pair → List Pair
insert x [] = x ∷ []
insert x (y ∷ ys) =
    if pair_lt x y then x ∷ y ∷ ys else if pair_lt y x then y ∷ insert x ys else y ∷ ys

unfoldable pub erase : Pair → List Pair → List Pair
erase x [] = []
erase x (y ∷ ys) = if pair_eq x y then ys else y ∷ erase x ys

unfoldable pub has : Pair → List Pair → Bool
has x [] = false
has x (y ∷ ys) = pair_eq x y || has x ys

-- Below all of an ascending list.
abbrev pub Above : Pair → List Pair → Type 0
Above x [] = Unit {0}
Above x (y ∷ ys) = (pair_lt x y ≡ true) × Above x ys

abbrev pub IsSorted : List Pair → Type 0
IsSorted [] = Unit {0}
IsSorted (y ∷ ys) = Above y ys × IsSorted ys

pair_lt_trans : (x y z : Pair) → pair_lt x y ≡ true → pair_lt y z ≡ true → pair_lt x z ≡ true
pair_lt_trans x y z h k = ground arith

pair_eq-lt : (x y : Pair) → pair_lt x y ≡ true → pair_eq x y ≡ false
pair_eq-lt x y h = ground arith

Above-trans : (x y : Pair) (l : List Pair) → pair_lt x y ≡ true → Above y l → Above x l
Above-trans x y [] h a = tt
Above-trans x y (z ∷ l) h a = (pair_lt_trans x y z h a.0, Above-trans x y l h a.1)

pub Above-has : (x : Pair) (l : List Pair) → Above x l → has x l ≡ false
unfolding has
Above-has x [] a = refl
Above-has x (y ∷ l) a = rw (pair_eq-lt x y a.0) (Above-has x l a.1)

Above-insert : (z x : Pair) (l : List Pair) → pair_lt z x ≡ true → Above z l → Above z (insert x l)
unfolding insert
Above-insert z x [] h a = (h, tt)
Above-insert z x (y ∷ l) h a = ground (arith, Above-insert z x l h a.1)

pub insert-IsSorted : (x : Pair) (l : List Pair) → IsSorted l → IsSorted (insert x l)
unfolding insert
insert-IsSorted x [] s = (tt, tt)
insert-IsSorted x (y ∷ l) s = elim (Bool-cases (pair_lt x y)) [
  | inl e ↦ rw e ((e, Above-trans x y l e s.0), s)
  | inr e ↦ rw e (elim (Bool-cases (pair_lt y x)) [
    | inl f ↦ rw f (Above-insert y x l f s.0, insert-IsSorted x l s.1)
    | inr f ↦ rw f s
  ])
]

pub has-insert : (y x : Pair) (l : List Pair) → has y (insert x l) ≡ (pair_eq y x || has y l)
unfolding has insert
has-insert y x [] = refl
has-insert y x (z ∷ l) = ground (arith, has-insert y x l)

pub length-insert :
    (x : Pair) (l : List Pair) → has x l ≡ false → length (insert x l) ≡ suc (length l)
unfolding has insert
length-insert x [] h = refl
length-insert x (y ∷ l) h = ground (arith, length-insert x l)

Above-erase : (z x : Pair) (l : List Pair) → Above z l → Above z (erase x l)
unfolding erase
Above-erase z x [] a = tt
Above-erase z x (y ∷ l) a = ground (arith, Above-erase z x l a.1)

pub erase-IsSorted : (x : Pair) (l : List Pair) → IsSorted l → IsSorted (erase x l)
unfolding erase
erase-IsSorted x [] s = tt
erase-IsSorted x (y ∷ l) s = elim (Bool-cases (pair_eq x y)) [
  | inl e ↦ rw e s.1
  | inr e ↦ rw e (Above-erase y x l s.0, erase-IsSorted x l s.1)
]

pub pair_eq→eq : (x y : Pair) → pair_eq x y ≡ true → x ≡ y
pair_eq→eq x y h =
    let e : x.0 ≡ y.0 = ground arith in let f : x.1 ≡ y.1 = ground arith in ap₂ (λ a b. (a, b)) e f

pub pair_eq_refl : (x : Pair) → pair_eq x x ≡ true
pair_eq_refl x = ground arith

-- What is erased from an ascending list occurs once.
head_once :
    (y x z : Pair) (l : List Pair)
    → Above z l
    → pair_eq x z ≡ true
    → has y l ≡ (not (pair_eq y x) && (pair_eq y z || has y l))
unfolding has
head_once y x z l a e = elim (Bool-cases (pair_eq y x)) [
  | inl f ↦
      let gone : has y l ≡ false =
        subst (λ w. has w l ≡ false) (sym (pair_eq→eq y x f ∙ pair_eq→eq x z e))
          (Above-has z l a) in
      rw f gone
  | inr f ↦
      let other : pair_eq y z ≡ false = subst (λ w. pair_eq y w ≡ false) (pair_eq→eq x z e) f in
      rw f (rw other refl)
]

pub has-erase :
    (y x : Pair) (l : List Pair) → IsSorted l → has y (erase x l) ≡ (not (pair_eq y x) && has y l)
unfolding has erase
has-erase y x [] s = ground arith
has-erase y x (z ∷ l) s = elim (Bool-cases (pair_eq x z)) [
  | inl e ↦ rw e (head_once y x z l s.0 e)
  | inr e ↦
      let same = has-erase y x l s.1 in
      rw e (elim (Bool-cases (pair_eq y x)) [
        | inl f ↦
            let other : pair_eq y z ≡ false =
              subst (λ w. pair_eq w z ≡ false) (sym (pair_eq→eq y x f)) e in
            rw other (rw f (same ∙ rw f refl))
        | inr f ↦ rw f (ap (λ b. pair_eq y z || b) (same ∙ rw f refl))
      ])
]

pub length-erase : (x : Pair) (l : List Pair) → has x l ≡ true → suc (length (erase x l)) ≡ length l
unfolding has erase
length-erase x [] h = cc
length-erase x (y ∷ l) h = ground (arith, length-erase x l)

pub insert-cases :
    (y x : Pair) (l : List Pair) → has y (insert x l) ≡ true → (y ≡ x) ⊎ (has y l ≡ true)
insert-cases y x l h = elim (Bool-cases (pair_eq y x)) [
  | inl e ↦ inl (pair_eq→eq y x e)
  | inr e ↦ inr (subst (λ b. (b || has y l) ≡ true) e (sym (has-insert y x l) ∙ h))
]

pub has_inserted : (x : Pair) (l : List Pair) → has x (insert x l) ≡ true
has_inserted x l = has-insert x x l ∙ rw (pair_eq_refl x) refl

pub has_still : (y x : Pair) (l : List Pair) → has y l ≡ true → has y (insert x l) ≡ true
has_still y x l h = has-insert y x l ∙ rw h (ground arith)

pub erase-cases :
    (y x : Pair) (l : List Pair)
    → IsSorted l
    → has y (erase x l) ≡ true
    → (pair_eq y x ≡ false) × (has y l ≡ true)
erase-cases y x l s h = let e = sym (has-erase y x l s) ∙ h in ground arith

pub has_left :
    (y x : Pair) (l : List Pair)
    → IsSorted l
    → pair_eq y x ≡ false
    → has y l ≡ true
    → has y (erase x l) ≡ true
has_left y x l s e h = has-erase y x l s ∙ rw e (rw h refl)

pub pair_eq-first : (a b c d : ℕ) → pair_eq (a, b) (c, d) ≡ true → a ≡ c
pair_eq-first a b c d h = ground arith

pub pair_eq-second : (a b c d : ℕ) → pair_eq (a, b) (c, d) ≡ true → b ≡ d
pair_eq-second a b c d h = ground arith

pub pair_eq-both : (a b c d : ℕ) → a ≡ c → b ≡ d → pair_eq (a, b) (c, d) ≡ true
pair_eq-both a b c d e f = ground arith

-- What comes first after an insertion.
pub insert-head :
    (x n : Pair) (ns : List Pair)
    → ((l : List Pair) × (insert x (n ∷ ns) ≡ x ∷ l) × (pair_lt x n ≡ true))
      ⊎ ((l : List Pair) × (insert x (n ∷ ns) ≡ n ∷ l) × (pair_lt x n ≡ false))
unfolding insert
insert-head x n ns = elim (Bool-cases (pair_lt x n)) [
  | inl e ↦ inl (n ∷ ns, rw e refl, e)
  | inr e ↦ elim (Bool-cases (pair_lt n x)) [
    | inl f ↦ inr (insert x ns, rw e (rw f refl), e)
    | inr f ↦ inr (ns, rw e (rw f refl), e)
  ]
]
