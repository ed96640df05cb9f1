-- ===== src/Server/LoopPool/Ready.antt =====
-- `getNextLoop` of net/EventLoopThreadPoolff.cpp stays inside the vector of loops.
use firey.Prelude.{
  ℕ, zero, suc, ◌<◌, ◌≡◌, refl, ◌⊎◌, inl, inr, true, false, List, [], ◌∷◌, some, length, arith,
}
use firey.Server.LoopPool.{LoopPool, at, advance, is_empty, get_next_loop}

pub record IsReady (p : LoopPool) : Type 0 where
  pub is_started : p.started ≡ true
  pub inside : (is_empty p.loops ≡ true) ⊎ (p.next < length p.loops)

at-lt : (ls : List ℕ) (i : ℕ) → i < length ls → (l : ℕ) × (at ls i ≡ some l)
at-lt [] i h = absurd (omega arith)
at-lt (l ∷ ls) zero h = (l, refl)
at-lt (l ∷ ls) (suc i) h = at-lt ls i (omega arith)

advance_lem : (i size : ℕ) → i < size → advance i size < size
advance_lem i size h = ground arith

pub get_next_loop-IsReady :
    (p : LoopPool)
    → IsReady p
    → (l : ℕ) × (p1 : LoopPool) × (get_next_loop p ≡ some (l, p1)) × IsReady p1
unfolding get_next_loop
get_next_loop-IsReady p r = elim r.inside [
  | inl e ↦ (p.base_loop, p, rw r.is_started (rw e refl), r)
  | inr h ↦
      let (l, found) = at-lt p.loops p.next h in
      (
        l,
        record p { next = advance p.next (length p.loops) },
        rw r.is_started (rw (some_loop p.loops h) (rw found refl)),
        record { is_started = r.is_started; inside = inr (advance_lem p.next (length p.loops) h) },
      )
]
  where
    some_loop : (ls : List ℕ) {i : ℕ} → i < length ls → is_empty ls ≡ false
    some_loop [] h = absurd (omega arith)
    some_loop (l ∷ ls) h = refl
