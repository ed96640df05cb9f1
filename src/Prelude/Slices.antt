-- ===== src/Prelude/Slices.antt =====
-- Laws of `take`, `drop` and `++`, and the overwriting of a range.
use Prim.Native.Nat.{ℕ, zero, suc, ◌+◌, ◌≤◌}
use mathlib.Core.Path.{◌≡◌, refl, ap, sym, ◌∙◌}
use mathlib.Core.List.{List, [], ◌∷◌, ◌++◌}
use native.Mathlib.Omega.{arith}
use firey.Prelude.Lists.{length, take, drop, length-append, length-take, length-drop}

pub take-nil {ℓ} : (A : Type ℓ) (n : ℕ) → take {A = A} n [] ≡ []
take-nil A zero = refl
take-nil A (suc n) = refl

pub drop-nil {ℓ} : (A : Type ℓ) (n : ℕ) → drop {A = A} n [] ≡ []
drop-nil A zero = refl
drop-nil A (suc n) = refl

module _ {ℓ} {A : Type ℓ} where
  -- The first `length xs + n` elements of `xs ++ ys`, for a number `k` that is that sum.
  pub take-append :
      (k n : ℕ) (xs ys : List A) → k ≡ length xs + n → take k (xs ++ ys) ≡ xs ++ take n ys
  take-append k n [] ys e = ap (λ j. take j ys) (omega arith)
  take-append zero n (x ∷ xs) ys e = absurd (omega arith)
  take-append (suc k) n (x ∷ xs) ys e = ap (λ t. x ∷ t) (take-append k n xs ys (omega arith))

  pub drop-append : (k n : ℕ) (xs ys : List A) → k ≡ length xs + n → drop k (xs ++ ys) ≡ drop n ys
  drop-append k n [] ys e = ap (λ j. drop j ys) (omega arith)
  drop-append zero n (x ∷ xs) ys e = absurd (omega arith)
  drop-append (suc k) n (x ∷ xs) ys e = drop-append k n xs ys (omega arith)

  -- Inside the first list.
  pub take-append_left : (k : ℕ) (xs ys : List A) → k ≤ length xs → take k (xs ++ ys) ≡ take k xs
  take-append_left zero xs ys h = refl
  take-append_left (suc k) [] ys h = absurd (omega arith)
  take-append_left (suc k) (x ∷ xs) ys h = ap (λ t. x ∷ t) (take-append_left k xs ys (omega arith))

  pub drop-append_left :
      (k : ℕ) (xs ys : List A) → k ≤ length xs → drop k (xs ++ ys) ≡ drop k xs ++ ys
  drop-append_left zero xs ys h = refl
  drop-append_left (suc k) [] ys h = absurd (omega arith)
  drop-append_left (suc k) (x ∷ xs) ys h = drop-append_left k xs ys (omega arith)

  pub take-length : (n : ℕ) (xs : List A) → length xs ≤ n → take n xs ≡ xs
  take-length zero [] h = refl
  take-length zero (x ∷ xs) h = absurd (omega arith)
  take-length (suc n) [] h = refl
  take-length (suc n) (x ∷ xs) h = ap (λ t. x ∷ t) (take-length n xs (omega arith))

  pub drop-length : (n : ℕ) (xs : List A) → length xs ≤ n → drop n xs ≡ []
  drop-length zero [] h = refl
  drop-length zero (x ∷ xs) h = absurd (omega arith)
  drop-length (suc n) [] h = refl
  drop-length (suc n) (x ∷ xs) h = drop-length n xs (omega arith)

  pub drop-drop : (k m n : ℕ) (xs : List A) → k ≡ m + n → drop n (drop m xs) ≡ drop k xs
  drop-drop k zero n xs e = ap (λ j. drop j xs) (omega arith)
  drop-drop zero (suc m) n xs e = absurd (omega arith)
  drop-drop (suc k) (suc m) n [] e = drop-nil A n
  drop-drop (suc k) (suc m) n (x ∷ xs) e = drop-drop k m n xs (omega arith)

  -- A range, cut at its end first or at its start first.
  pub drop-take : (w r n : ℕ) (xs : List A) → w ≡ r + n → drop r (take w xs) ≡ take n (drop r xs)
  drop-take w zero n xs e = ap (λ j. take j xs) (omega arith)
  drop-take zero (suc r) n xs e = absurd (omega arith)
  drop-take (suc w) (suc r) n [] e = sym (take-nil A n)
  drop-take (suc w) (suc r) n (x ∷ xs) e = drop-take w r n xs (omega arith)

  pub take-take : (m n : ℕ) (xs : List A) → m ≤ n → take m (take n xs) ≡ take m xs
  take-take zero n xs h = refl
  take-take (suc m) zero xs h = absurd (omega arith)
  take-take (suc m) (suc n) [] h = refl
  take-take (suc m) (suc n) (x ∷ xs) h = ap (λ t. x ∷ t) (take-take m n xs (omega arith))

  pub take-append-drop : (n : ℕ) (xs : List A) → take n xs ++ drop n xs ≡ xs
  take-append-drop zero xs = refl
  take-append-drop (suc n) [] = refl
  take-append-drop (suc n) (x ∷ xs) = ap (λ t. x ∷ t) (take-append-drop n xs)

  pub length-take_le : (n : ℕ) (xs : List A) → n ≤ length xs → length (take n xs) ≡ n
  length-take_le n xs h = omega (arith, length-take n xs)

  -- `xs` with the elements from `i` on overwritten by `ys`; it is meant for `i + length ys` inside.
  abbrev pub overwrite : List A → ℕ → List A → List A
  overwrite xs i ys = take i xs ++ ys ++ drop (i + length ys) xs

  pub length-overwrite :
      (xs : List A) (i : ℕ) (ys : List A)
      → i + length ys ≤ length xs
      → length (overwrite xs i ys) ≡ length xs
  length-overwrite xs i ys h = omega (
    arith,
    length-append (take i xs ++ ys) (drop (i + length ys) xs),
    length-append (take i xs) ys,
    length-take i xs,
    length-drop (i + length ys) xs,
  )

  -- Up to its end, the overwritten range follows what stood before it.
  pub take-overwrite :
      (xs : List A) (i k : ℕ) (ys : List A)
      → i ≤ length xs
      → k ≡ i + length ys
      → take k (overwrite xs i ys) ≡ take i xs ++ ys
  take-overwrite xs i k ys h e =
      take-append_left k (take i xs ++ ys) _
        (omega (arith, length-append (take i xs) ys, length-take i xs))
      ∙ take-length k (take i xs ++ ys)
          (omega (arith, length-append (take i xs) ys, length-take i xs))
