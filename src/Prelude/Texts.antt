-- ===== src/Prelude/Texts.antt =====
-- Text as bytes: literals, comparison, cutting at a byte, and `std::map` with such keys.
use Prim.Native.Char.{code}
use Prim.Native.String.{String}
use Prim.Native.Nat.{ℕ}
use mathlib.Core.Path.{◌≡◌, refl}
use mathlib.Core.Logic.{◌↔◌, ◌≢◌}
use mathlib.Core.Bool.{Bool, true, false, ◌&&◌, ◌||◌}
use mathlib.Core.Option
use mathlib.Core.Option.{Option, none, some}
use mathlib.Core.List.{List, [], ◌∷◌, ◌++◌}
use native.Mathlib.Omega.{arith}
use firey.Prelude.Tests.{ltb, ◌==◌, if◌then◌else◌}

abbrev pub Bytes : Type 0
Bytes = List ℕ

-- The bytes of an ASCII literal.
abbrev pub codes : String → Bytes
codes String.[] = []
codes (String.◌∷◌ c s) = code c ∷ codes s

unfoldable pub bytes_eq : Bytes → Bytes → Bool
bytes_eq [] [] = true
bytes_eq [] (y ∷ ys) = false
bytes_eq (x ∷ xs) [] = false
bytes_eq (x ∷ xs) (y ∷ ys) = x == y && bytes_eq xs ys

-- The order of `std::string`.
unfoldable pub bytes_lt : Bytes → Bytes → Bool
bytes_lt xs [] = false
bytes_lt [] (y ∷ ys) = true
bytes_lt (x ∷ xs) (y ∷ ys) = ltb x y || (x == y && bytes_lt xs ys)

bytes_eq_sound : (xs ys : Bytes) → bytes_eq xs ys ≡ true → xs ≡ ys
unfolding bytes_eq
bytes_eq_sound [] [] h = refl
bytes_eq_sound [] (y ∷ ys) h = absurd (ground arith)
bytes_eq_sound (x ∷ xs) [] h = absurd (ground arith)
bytes_eq_sound (x ∷ xs) (y ∷ ys) h = ground (arith, bytes_eq_sound xs ys)

pub bytes_eq_self : (xs : Bytes) → bytes_eq xs xs ≡ true
unfolding bytes_eq
bytes_eq_self [] = refl
bytes_eq_self (x ∷ xs) = ground (arith, bytes_eq_self xs)

pub bytes_eq_iff : (xs ys : Bytes) → (bytes_eq xs ys ≡ true) ↔ (xs ≡ ys)
bytes_eq_iff xs ys = (bytes_eq_sound xs ys, λ e. rw e (bytes_eq_self ys))

-- `std::find`: what stands before the first `c`, and what stands behind it.
unfoldable pub cut : ℕ → Bytes → Option (Bytes × Bytes)
cut c [] = none
cut c (x ∷ xs) = if x == c then some ([], xs) else Option.map (λ r. (x ∷ r.0, r.1)) (cut c xs)

-- No byte of the text is `c`.
abbrev pub Lacks : ℕ → Bytes → Type 0
Lacks c [] = Unit {0}
Lacks c (x ∷ xs) = (x ≢ c) × Lacks c xs

pub cut-append : (c : ℕ) (xs ys : Bytes) → Lacks c xs → cut c (xs ++ (c ∷ ys)) ≡ some (xs, ys)
unfolding cut
cut-append c [] ys h = ground arith
cut-append c (x ∷ xs) ys h = ground (arith, cut-append c xs ys h.1)

pub cut-none : (c : ℕ) (xs : Bytes) → Lacks c xs → cut c xs ≡ none
unfolding cut
cut-none c [] h = refl
cut-none c (x ∷ xs) h = ground (arith, cut-none c xs h.1)

pub Lacks-append : (c : ℕ) (xs ys : Bytes) → Lacks c xs → Lacks c ys → Lacks c (xs ++ ys)
Lacks-append c [] ys h k = k
Lacks-append c (x ∷ xs) ys h k = (h.0, Lacks-append c xs ys h.1 k)

-- `std::map<std::string, std::string>`, in the order of its keys.
abbrev pub Headers : Type 0
Headers = List (Bytes × Bytes)

unfoldable pub insert : Bytes → Bytes → Headers → Headers
insert k v [] = (k, v) ∷ []
insert k v ((j, w) ∷ m) =
    if bytes_eq k j
    then (k, v) ∷ m
    else if bytes_lt k j
    then (k, v) ∷ (j, w) ∷ m
    else (j, w) ∷ insert k v m

unfoldable pub lookup : Bytes → Headers → Option Bytes
lookup k [] = none
lookup k ((j, w) ∷ m) = if bytes_eq k j then some w else lookup k m

pub lookup-insert :
    (j k v : Bytes) (m : Headers)
    → lookup j (insert k v m) ≡ (if bytes_eq j k then some v else lookup j m)
unfolding lookup insert
lookup-insert j k v [] = refl
lookup-insert j k v ((i, w) ∷ m) =
    ground (arith, bytes_eq_iff k i, bytes_eq_iff j i, bytes_eq_iff j k, lookup-insert j k v m)
