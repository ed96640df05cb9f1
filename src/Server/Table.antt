-- ===== src/Server/Table.antt =====
-- The map of connections of net/TcpServerff.cpp holds the open connections.
use firey.Prelude.{
  ℕ, zero, suc, ◌+◌, ◌<◌, ◌≤◌, ◌≡◌, ◌≢◌, refl, sym, ap, ◌∙◌, true, false, List, [], ◌∷◌, ◌++◌,
  Option, some, none, ◌>>=◌, arith, Bytes, bytes_eq, bytes_eq_self,
}
use mathlib.Core.Path.{subst}
use mathlib.Core.Option.{some-injective}
use firey.Server.{Connection, TcpServer, put, erase, new_connection, remove_connection_in_loop}

-- What comes to a server: a new connection, or that the one at some place of the map has ended.
pub data Call : Type 0 where
  opens : (sockfd : ℕ) → Call
  closes : (place : ℕ) → Call

abbrev pub nth : {A : Type 0} → List A → ℕ → Option A
nth [] i = none
nth (x ∷ xs) zero = some x
nth (x ∷ xs) (suc i) = nth xs i

abbrev pub close_at : TcpServer → Option (Bytes × Connection) → Option TcpServer
close_at s none = some s
close_at s (some e) = remove_connection_in_loop s e.1

abbrev pub call : (ℕ → Bytes) → TcpServer → Call → Option TcpServer
call decimal s (opens sockfd) = new_connection decimal s sockfd
call decimal s (closes place) = close_at s (nth s.connections place)

unfoldable pub run : (ℕ → Bytes) → TcpServer → List Call → Option TcpServer
run decimal s [] = some s
run decimal s (c ∷ cs) = call decimal s c >>= λ s1. run decimal s1 cs

-- The open connections, each a number and a socket, in the order in which they came.
abbrev pub remove_at : List (ℕ × ℕ) → ℕ → List (ℕ × ℕ)
remove_at [] i = []
remove_at (o ∷ os) zero = os
remove_at (o ∷ os) (suc i) = o ∷ remove_at os i

abbrev pub open_after : (next : ℕ) → List (ℕ × ℕ) → List Call → List (ℕ × ℕ)
open_after next os [] = os
open_after next os (opens sockfd ∷ cs) = open_after (next + 1) (os ++ ((next, sockfd) ∷ [])) cs
open_after next os (closes place ∷ cs) = open_after next (remove_at os place) cs

abbrev pub opened : List Call → ℕ
opened [] = 0
opened (opens sockfd ∷ cs) = opened cs + 1
opened (closes place ∷ cs) = opened cs

abbrev pub Later : ℕ → List (ℕ × ℕ) → Type 0
Later i [] = Unit {0}
Later i (o ∷ os) = (i < o.0) × Later i os

abbrev pub Ascending : ℕ → List (ℕ × ℕ) → Type 0
Ascending next [] = Unit {0}
Ascending next (o ∷ os) = (o.0 < next) × Later o.0 os × Ascending next os

module _ (name_of : ℕ → Bytes) where
  -- An entry of the map stands for an open connection.
  abbrev pub StandsFor : Bytes × Connection → ℕ × ℕ → Type 0
  StandsFor e o = (e.0 ≡ name_of o.0) × (e.1.name ≡ name_of o.0) × (e.1.sockfd ≡ o.1)

  abbrev pub Lists : List (Bytes × Connection) → List (ℕ × ℕ) → Type 0
  Lists [] [] = Unit {0}
  Lists [] (o ∷ os) = ⊥
  Lists (e ∷ es) [] = ⊥
  Lists (e ∷ es) (o ∷ os) = StandsFor e o × Lists es os

  nth-Lists :
      (next j : ℕ) (es : List (Bytes × Connection)) (os : List (ℕ × ℕ)) (place : ℕ)
      (e : Bytes × Connection)
      → Later j os
      → Ascending next os
      → Lists es os
      → nth es place ≡ some e
      → (i : ℕ) × (e.1.name ≡ name_of i) × (j < i) × (i < next)
  nth-Lists next j [] os place e later a l found = cc
  nth-Lists next j (x ∷ es) [] place e later a l found = absurd l
  nth-Lists next j (x ∷ es) (o ∷ os) zero e later a l found =
      (o.0, ap (λ y. y.1.name) (sym (some-injective x e found)) ∙ l.0.1, later.0, a.0)
  nth-Lists next j (x ∷ es) (o ∷ os) (suc place) e later a l found =
      nth-Lists next j es os place e later.1 a.2 l.1 found

  -- No place, no connection.
  pub nth-none :
      (es : List (Bytes × Connection)) (os : List (ℕ × ℕ)) (place : ℕ)
      → Lists es os
      → nth es place ≡ none
      → remove_at os place ≡ os
  nth-none [] [] place l e = refl
  nth-none [] (o ∷ os) place l e = absurd l
  nth-none (x ∷ es) [] place l e = absurd l
  nth-none (x ∷ es) (o ∷ os) zero l e = cc
  nth-none (x ∷ es) (o ∷ os) (suc place) l e = ap (λ y. o ∷ y) (nth-none es os place l.1 e)

  module _ (limit : ℕ)
      (differ : (m n : ℕ)
        → m < limit
        → n < limit
        → m ≢ n
        → bytes_eq (name_of m) (name_of n) ≡ false) where
    pub put-Lists :
        (next : ℕ) (c : Connection) (es : List (Bytes × Connection)) (os : List (ℕ × ℕ))
        → next < limit
        → Ascending next os
        → c.name ≡ name_of next
        → Lists es os
        → Lists (put (name_of next) c es) (os ++ ((next, c.sockfd) ∷ []))
    unfolding put
    put-Lists next c [] [] small a e l = ((refl, e, refl), tt)
    put-Lists next c [] (o ∷ os) small a e l = absurd l
    put-Lists next c (x ∷ es) [] small a e l = absurd l
    put-Lists next c (x ∷ es) (o ∷ os) small a e l =
        let other : bytes_eq (name_of next) x.0 ≡ false =
          subst (λ k. bytes_eq (name_of next) k ≡ false) (sym l.0.0)
            (differ next o.0 small (omega (arith, a.0, small))
              (λ same. absurd (omega (arith, same, a.0)))) in
        rw other (l.0, put-Lists next c es os small a.2 e l.1)

    -- The entry at a place, and what `erase` of its name leaves.
    pub erase-Lists :
        (next : ℕ) (es : List (Bytes × Connection)) (os : List (ℕ × ℕ)) (place : ℕ)
        (e : Bytes × Connection)
        → next ≤ limit
        → Ascending next os
        → Lists es os
        → nth es place ≡ some e
        → ((erase e.1.name es).0 ≡ 1) × Lists (erase e.1.name es).1 (remove_at os place)
    unfolding erase
    erase-Lists next [] os place e small a l found = cc
    erase-Lists next (x ∷ es) [] place e small a l found = absurd l
    erase-Lists next (x ∷ es) (o ∷ os) zero e small a l found =
        let it : x ≡ e = some-injective x e found in
        let same : e.1.name ≡ x.0 = ap (λ y. y.1.name) (sym it) ∙ (l.0.1 ∙ sym l.0.0) in
        let hit : bytes_eq e.1.name x.0 ≡ true =
          subst (λ k. bytes_eq e.1.name k ≡ true) same (bytes_eq_self e.1.name) in
        rw hit (refl, l.1)
    erase-Lists next (x ∷ es) (o ∷ os) (suc place) e small a l found =
        let (i, named, after, before) = nth-Lists next o.0 es os place e a.1 a.2 l.1 found in
        let miss : bytes_eq e.1.name x.0 ≡ false =
          subst (λ k. bytes_eq k x.0 ≡ false) (sym named)
            (subst (λ k. bytes_eq (name_of i) k ≡ false) (sym l.0.0)
              (differ i o.0 (omega (arith, before, small)) (omega (arith, a.0, small))
                (λ same. absurd (omega (arith, same, after))))) in
        let (one, rest) = erase-Lists next es os place e small a.2 l.1 found in
        rw miss (one, (l.0, rest))

Later-append :
    (i next sockfd : ℕ) (os : List (ℕ × ℕ))
    → i < next
    → Later i os
    → Later i (os ++ ((next, sockfd) ∷ []))
Later-append i next sockfd [] h l = (h, tt)
Later-append i next sockfd (o ∷ os) h l = (l.0, Later-append i next sockfd os h l.1)

pub Ascending-append :
    (next sockfd : ℕ) (os : List (ℕ × ℕ))
    → Ascending next os
    → Ascending (next + 1) (os ++ ((next, sockfd) ∷ []))
Ascending-append next sockfd [] a = (omega arith, tt, tt)
Ascending-append next sockfd (o ∷ os) a = (
  omega (arith, a.0),
  Later-append o.0 next sockfd os a.0 a.1,
  Ascending-append next sockfd os a.2,
)

Later-remove_at :
    (i : ℕ) (os : List (ℕ × ℕ)) (place : ℕ) → Later i os → Later i (remove_at os place)
Later-remove_at i [] place l = tt
Later-remove_at i (o ∷ os) zero l = l.1
Later-remove_at i (o ∷ os) (suc place) l = (l.0, Later-remove_at i os place l.1)

pub Ascending-remove_at :
    (next : ℕ) (os : List (ℕ × ℕ)) (place : ℕ)
    → Ascending next os
    → Ascending next (remove_at os place)
Ascending-remove_at next [] place a = tt
Ascending-remove_at next (o ∷ os) zero a = a.2
Ascending-remove_at next (o ∷ os) (suc place) a =
    (a.0, Later-remove_at o.0 os place a.1, Ascending-remove_at next os place a.2)
