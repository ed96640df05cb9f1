-- ===== src/Timers/Links.antt =====
-- The two sets of net/TimerQueueff.cpp and the heap: how they belong together, and what keeps it so.
use firey.Prelude.{
  ℕ, suc, ◌<◌, ◌≡◌, refl, sym, ap, ◌∙◌, Bool, true, false, List, Option, some, none, ◌==◌, arith,
  length, Bool-cases, inl, inr, ==_iff,
}
use mathlib.Core.Path.{subst}
use mathlib.Core.Option.{some-injective}
use firey.Timers.PairSet.{
  Pair, pair_eq, insert, erase, has, IsSorted, insert-IsSorted, erase-IsSorted, length-insert,
  length-erase, insert-cases, has_inserted, has_still, erase-cases, has_left, pair_eq-first,
  pair_eq-second, pair_eq-both,
}
use firey.Timers.{Timer, Heap, write, max_address}

-- A timer that the set of times knows is alive, expires then, and is known to the other set; and the
-- other way round. `guard` is here for addresses.
pub record Linked (heap : Heap) (timers active : List Pair) : Type 0 where
  pub timers_sorted : IsSorted timers
  pub active_sorted : IsSorted active
  pub same_size : length timers ≡ length active
  pub of_timers :
      (w a : ℕ)
      → has (w, a) timers ≡ true
      → (t : Timer) × (heap a ≡ some t)
        × (t.expire_time ≡ w)
        × (has (a, t.sequence) active ≡ true)
        × (a < max_address)
  pub of_active :
      (a s : ℕ)
      → has (a, s) active ≡ true
      → (t : Timer) × (heap a ≡ some t) × (t.sequence ≡ s) × (has (t.expire_time, a) timers ≡ true)

pub clash : (b : Bool) → b ≡ true → b ≡ false → ⊥
clash true e f = cc
clash false e f = cc

pub differs : (b : Bool) → (b ≡ true → ⊥) → b ≡ false
differs true h = absurd (h refl)
differs false h = refl

-- Neither set knows the address.
abbrev pub IsLoose : ℕ → List Pair → Type 0
IsLoose a active = (s : ℕ) → has (a, s) active ≡ false

module _ {heap : Heap} {timers active : List Pair} (l : Linked heap timers active) where
  pub IsLoose-free : (a : ℕ) → heap a ≡ none → IsLoose a active
  IsLoose-free a e s = elim (Bool-cases (has (a, s) active)) [
    | inl h ↦ let (t, f, same, there) = l.of_active a s h in cc
    | inr h ↦ h
  ]

  pub IsLoose-timer :
      (a : ℕ) (t : Timer) → heap a ≡ some t → has (a, t.sequence) active ≡ false → IsLoose a active
  IsLoose-timer a t e h s = elim (Bool-cases (has (a, s) active)) [
    | inl k ↦
        let (t1, f, same, there) = l.of_active a s k in
        subst (λ x. has (a, x) active ≡ false)
          (ap (λ x. x.sequence) (some-injective t t1 (sym e ∙ f)) ∙ same) h
    | inr k ↦ k
  ]

  pub IsLoose-timers : (a w : ℕ) → IsLoose a active → has (w, a) timers ≡ false
  IsLoose-timers a w h = elim (Bool-cases (has (w, a) timers)) [
    | inl k ↦
        let (t, e, when, known, small) = l.of_timers w a k in
        absurd (clash (has (a, t.sequence) active) known (h t.sequence))
    | inr k ↦ k
  ]

  -- A loose address may be deleted or written.
  pub write-Linked :
      (a : ℕ) (v : Option Timer) → IsLoose a active → Linked (write heap a v) timers active
  write-Linked a v h = record {
    timers_sorted = l.timers_sorted;
    active_sorted = l.active_sorted;
    same_size = l.same_size;
    of_timers = λ w b k. elim (Bool-cases (b == a)) [
      | inl e ↦ absurd (
          clash (has (w, b) timers) k
            (IsLoose-timers b w (subst (λ x. IsLoose x active) (sym ((==_iff b a).0 e)) h)))
      | inr e ↦ rw e (l.of_timers w b k)
    ];
    of_active = λ b s k. elim (Bool-cases (b == a)) [
      | inl e ↦ absurd (
          clash (has (b, s) active) k
            (subst (λ x. has (x, s) active ≡ false) (sym ((==_iff b a).0 e)) (h s)))
      | inr e ↦ rw e (l.of_active b s k)
    ];
  }

  pub insert-Linked :
      (a : ℕ) (t : Timer)
      → heap a ≡ some t
      → a < max_address
      → IsLoose a active
      → Linked heap (insert (t.expire_time, a) timers) (insert (a, t.sequence) active)
  insert-Linked a t e0 small h = record {
    timers_sorted = insert-IsSorted (t.expire_time, a) timers l.timers_sorted;
    active_sorted = insert-IsSorted (a, t.sequence) active l.active_sorted;
    same_size =
        length-insert (t.expire_time, a) timers (IsLoose-timers a t.expire_time h)
        ∙ (ap suc l.same_size ∙ sym (length-insert (a, t.sequence) active (h t.sequence)));
    of_timers = λ w b k. elim (insert-cases (w, b) (t.expire_time, a) timers k) [
      | inl e ↦ (
        t,
        ap (λ x. heap x.1) e ∙ e0,
        sym (ap (λ x. x.0) e),
        subst (λ x. has (x, t.sequence) (insert (a, t.sequence) active) ≡ true)
            (sym (ap (λ x. x.1) e)) (has_inserted (a, t.sequence) active),
        subst (λ x. x < max_address) (sym (ap (λ x. x.1) e)) small,
      )
      | inr h1 ↦
          let (t1, e1, when, known, small1) = l.of_timers w b h1 in
          (t1, e1, when, has_still (b, t1.sequence) (a, t.sequence) active known, small1)
    ];
    of_active = λ b s k. elim (insert-cases (b, s) (a, t.sequence) active k) [
      | inl e ↦ (
        t,
        ap (λ x. heap x.0) e ∙ e0,
        sym (ap (λ x. x.1) e),
        subst (λ x. has (t.expire_time, x) (insert (t.expire_time, a) timers) ≡ true)
            (sym (ap (λ x. x.0) e)) (has_inserted (t.expire_time, a) timers),
      )
      | inr h1 ↦
          let (t1, e1, same, there) = l.of_active b s h1 in
          (t1, e1, same, has_still (t1.expire_time, b) (t.expire_time, a) timers there)
    ];
  }

  -- An address has one timer.
  one_timer : (a b : ℕ) (t t1 : Timer) → heap a ≡ some t → heap b ≡ some t1 → b ≡ a → t1 ≡ t
  one_timer a b t t1 e e1 same = some-injective t1 t (sym e1 ∙ (ap heap same ∙ e))

  pub erase-Linked :
      (a : ℕ) (t : Timer)
      → heap a ≡ some t
      → has (a, t.sequence) active ≡ true
      → Linked heap (erase (t.expire_time, a) timers) (erase (a, t.sequence) active)
  erase-Linked a t e h = record {
    timers_sorted = erase-IsSorted (t.expire_time, a) timers l.timers_sorted;
    active_sorted = erase-IsSorted (a, t.sequence) active l.active_sorted;
    same_size = omega (
      arith,
      l.same_size,
      length-erase (a, t.sequence) active h,
      length-erase (t.expire_time, a) timers there,
    );
    of_timers = λ w b k.
        let (ne, k1) = erase-cases (w, b) (t.expire_time, a) timers l.timers_sorted k in
        let (t1, e1, when, known, small) = l.of_timers w b k1 in
        (
          t1,
          e1,
          when,
          has_left (b, t1.sequence) (a, t.sequence) active l.active_sorted
              (differs _ λ q.
                let ba = pair_eq-first b t1.sequence a t.sequence q in
                clash (pair_eq (w, b) (t.expire_time, a))
                  (pair_eq-both w b t.expire_time a
                    (sym when ∙ ap (λ x. x.expire_time) (one_timer a b t t1 e e1 ba)) ba)
                  ne)
              known,
          small,
        );
    of_active = λ b s k.
        let (ne, k1) = erase-cases (b, s) (a, t.sequence) active l.active_sorted k in
        let (t1, e1, same, there1) = l.of_active b s k1 in
        (
          t1,
          e1,
          same,
          has_left (t1.expire_time, b) (t.expire_time, a) timers l.timers_sorted
              (differs _ λ q.
                let ba = pair_eq-second t1.expire_time b t.expire_time a q in
                clash (pair_eq (b, s) (a, t.sequence))
                  (pair_eq-both b s a t.sequence ba
                    (sym same ∙ ap (λ x. x.sequence) (one_timer a b t t1 e e1 ba)))
                  ne)
              there1,
        );
  }
    where
      there : has (t.expire_time, a) timers ≡ true
      there =
          let (t1, e1, same, there1) = l.of_active a t.sequence h in
          subst (λ x. has (x.expire_time, a) timers ≡ true) (one_timer a a t t1 e e1 refl) there1
