-- ===== src/Logger/Digits.antt =====
-- Numbers as digits, least significant first, and how such a text is read back: what `convert` and
-- `convertHex` of base/logger/LogStreamff.cpp are held against.
use firey.Prelude.{
  ℕ, zero, suc, ◌+◌, ◌*◌, ◌/◌, ◌%◌, ◌≤◌, ◌<◌, ◌≡◌, refl, [], ◌∷◌, ◌++◌, Option, some, none, ◌==◌,
  if◌then◌else◌, ◌>>=◌, arith, length, Bytes, Bool-cases, inl, inr,
}
use mathlib.Core.List.{reverse, reverse-append}

-- The loop `while(i!=0)`: one character for each digit. What a `let` binds waits.
unfoldable pub emit : ℕ → (ℕ → ℕ) → ℕ → ℕ → Bytes
emit base char zero n = []
emit base char (suc fuel) n =
    let rest = emit base char fuel (n / base) in if n == 0 then [] else (char (n % base) ∷ rest)

-- The number that a text stands for, most significant digit first.
unfoldable pub read_from : ℕ → (ℕ → Option ℕ) → ℕ → Bytes → Option ℕ
read_from base digit acc [] = some acc
read_from base digit acc (c ∷ cs) = digit c >>= λ d. read_from base digit (acc * base + d) cs

read_from-append :
    (base : ℕ) (digit : ℕ → Option ℕ) (acc : ℕ) (cs ds : Bytes)
    → read_from base digit acc (cs ++ ds)
      ≡ (read_from base digit acc cs >>= λ n. read_from base digit n ds)
unfolding read_from
read_from-append base digit acc [] ds = refl
read_from-append base digit acc (c ∷ cs) ds =
    elim (digit c)
      as (λ o. (o >>= λ d. read_from base digit (acc * base + d) (cs ++ ds)) ≡ (
        (o >>= λ d. read_from base digit (acc * base + d) cs) >>= λ n. read_from base digit n ds)) [
          | none ↦ refl
          | some d ↦ read_from-append base digit (acc * base + d) cs ds
        ]

module _ (base : ℕ) (char : ℕ → ℕ) (digit : ℕ → Option ℕ)
    (splits : (n : ℕ) → n / base * base + n % base ≡ n) (falls : (n : ℕ) → 0 < n → n / base < n)
    (decodes : (n : ℕ) → digit (char (n % base)) ≡ some (n % base)) where
  -- With fuel for the number, its digits are read back as it.
  pub read_from-emit :
      (fuel n : ℕ) → n ≤ fuel → read_from base digit 0 (reverse (emit base char fuel n)) ≡ some n
  unfolding emit read_from
  read_from-emit zero n h = ground arith
  read_from-emit (suc fuel) n h = elim (Bool-cases (n == 0)) [
    | inl e ↦ rw e (ground arith)
    | inr e ↦
        let ih = read_from-emit fuel (n / base) (omega (arith, falls n (ground arith))) in
        rw e (
          rw
            (
              reverse-append (char (n % base) ∷ []) (emit base char fuel (n / base)),
              read_from-append base digit 0 (reverse (emit base char fuel (n / base)))
                  (char (n % base) ∷ []),
              ih,
              decodes n,
              splits n,
            )
            refl)
  ]

-- The powers of a base.
abbrev pub power : ℕ → ℕ → ℕ
power base zero = 1
power base (suc k) = base * power base k

shorter :
    (base : ℕ) (char : ℕ → ℕ)
    → ((k n : ℕ) → n < power base (suc k) → n / base < power base k)
    → (fuel k n : ℕ) → 0 < n
    → n < power base k
    → ((k n : ℕ) → n < power base k → length (emit base char fuel n) ≤ k)
    → length (char (n % base) ∷ emit base char fuel (n / base)) ≤ k
shorter base char shrinks fuel zero n pos h ih = absurd (omega arith)
shorter base char shrinks fuel (suc k) n pos h ih = omega (arith, ih k (n / base) (shrinks k n h))

-- A number below the k-th power of the base has at most k digits.
pub length-emit :
    (base : ℕ) (char : ℕ → ℕ)
    → ((k n : ℕ) → n < power base (suc k) → n / base < power base k)
    → (fuel k n : ℕ) → n < power base k
    → length (emit base char fuel n) ≤ k
unfolding emit
length-emit base char shrinks zero k n h = omega arith
length-emit base char shrinks (suc fuel) k n h = elim (Bool-cases (n == 0)) [
  | inl e ↦ rw e (omega arith)
  | inr e ↦
      rw e
        (shorter base char shrinks fuel k n (ground arith) h (length-emit base char shrinks fuel))
]
