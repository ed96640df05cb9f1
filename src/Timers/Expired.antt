-- ===== src/Timers/Expired.antt =====
-- `getExpiredTimer` of net/TimerQueueff.cpp: what it takes out of the sets.
use firey.Prelude.{
  ℕ, ◌<◌, ◌≡◌, refl, sym, ap, ◌∙◌, Bool, true, false, ◌||◌, List, [], ◌∷◌, ◌++◌, Option, some, none,
  ◌==◌, leb, lt→ltb, if◌then◌else◌, arith, Bool-cases, inl, inr, ==_iff,
}
use mathlib.Core.Path.{subst}
use firey.Timers.PairSet.{
  Pair, pair_lt, pair_eq, erase, has, erase-cases, pair_eq_refl, has-erase, Above, IsSorted,
}
use firey.Timers.{
  ok, ◌>>=◌, ◌>>◌, check, Timer, Heap, TimerQueue, sizes_match, max_address, lower_bound,
  starts_after, erase_expired, get_expired_timer,
}
use firey.Timers.Links.{
  Linked, IsLoose, IsLoose-timer, IsLoose-timers, erase-Linked, differs, clash,
}
use firey.Timers.Pending.{Apart, Pending, Names}
use firey.Timers.Steps.{
  Holds, done, Holds-bind, Holds-check, Holds-load, Holds-map, Ready, sizes-eq,
}

-- The timers that are due, as one would write it.
abbrev pub due : ℕ → List Pair → List Pair
due now [] = []
due now (n ∷ ns) = if leb n.0 now then n ∷ due now ns else due now ns

abbrev pub later : ℕ → List Pair → List Pair
later now [] = []
later now (n ∷ ns) = if leb n.0 now then later now ns else n ∷ later now ns

-- The callbacks of timers.
abbrev pub callback_of : Option Timer → List ℕ → List ℕ
callback_of none cs = cs
callback_of (some t) cs = t.callback ∷ cs

abbrev pub callbacks : Heap → List Pair → List ℕ
callbacks heap [] = []
callbacks heap (n ∷ ns) = callback_of (heap n.1) (callbacks heap ns)

pub callbacks-Names :
    (heap : Heap) (active ns : List Pair)
    → Pending heap active ns
    → Names heap ns (callbacks heap ns)
callbacks-Names heap active [] p = tt
callbacks-Names heap active (n ∷ ns) p =
    subst (λ o. Names heap (n ∷ ns) (callback_of o (callbacks heap ns))) (sym p.0.1)
      ((p.0.0, p.0.1, refl), callbacks-Names heap active ns p.4)

-- Addresses below the sentry's.
abbrev pub Small : List Pair → Type 0
Small [] = Unit {0}
Small (n ∷ ns) = (n.1 < max_address) × Small ns

pub Small-of : (l : List Pair) → ((w a : ℕ) → has (w, a) l ≡ true → a < max_address) → Small l
unfolding has
Small-of [] h = tt
Small-of (n ∷ l) h =
    (h n.0 n.1 (rw (pair_eq_refl n) refl), Small-of l λ w a k. h w a (rw k (ground arith)))

late_all :
    (now : ℕ) (n : Pair) (l : List Pair)
    → now < n.0
    → Above n l
    → (due now l ≡ []) × (later now l ≡ l)
late_all now n [] h a = (refl, refl)
late_all now n (m ∷ l) h a =
    let (d, r) = late_all now n l h a.1 in
    let late : leb m.0 now ≡ false = ground arith in (rw late d, rw late (ap (λ x. m ∷ x) r))

-- `lower_bound` of the sentry splits at the time.
pub lower_bound-due :
    (now : ℕ) (l : List Pair)
    → IsSorted l
    → Small l
    → lower_bound (now, max_address) l ≡ (due now l, later now l)
unfolding lower_bound
lower_bound-due now [] s small = refl
lower_bound-due now (n ∷ l) s small = elim (Bool-cases (leb n.0 now)) [
  | inl e ↦
      let below : pair_lt n (now, max_address) ≡ true = ground arith in
      rw e (rw below (ap (λ r. (n ∷ r.0, r.1)) (lower_bound-due now l s.1 small.1)))
  | inr e ↦
      let above : pair_lt n (now, max_address) ≡ false = ground arith in
      let (d, r) = late_all now n l (ground arith) s.0 in rw e (rw above (rw d (rw r refl)))
]

pub later-starts_after : (now : ℕ) (l : List Pair) → starts_after now (later now l) ≡ true
later-starts_after now [] = refl
later-starts_after now (n ∷ l) = elim (Bool-cases (leb n.0 now)) [
  | inl e ↦ rw e (later-starts_after now l)
  | inr e ↦ rw e (lt→ltb now n.0 (ground arith))
]

pub due-append-later : (now : ℕ) (l : List Pair) → IsSorted l → due now l ++ later now l ≡ l
due-append-later now [] s = refl
due-append-later now (n ∷ l) s = elim (Bool-cases (leb n.0 now)) [
  | inl e ↦ rw e (ap (λ x. n ∷ x) (due-append-later now l s.1))
  | inr e ↦ let (d, r) = late_all now n l (ground arith) s.0 in rw e (rw d (ap (λ x. n ∷ x) r))
]

-- The first timer of an ascending set is taken out of both.
taken-Linked :
    (heap : Heap) (n : Pair) (l active : List Pair) (t : Timer)
    → Linked heap (n ∷ l) active
    → heap n.1 ≡ some t
    → t.expire_time ≡ n.0
    → has (n.1, t.sequence) active ≡ true
    → Linked heap l (erase (n.1, t.sequence) active) × IsLoose n.1 (erase (n.1, t.sequence) active)
unfolding erase
taken-Linked heap n l active t h e when known =
    let whole = erase-Linked h n.1 t e known in
    let first = subst (λ w. erase (w, n.1) (n ∷ l) ≡ l) (sym when) (rw (pair_eq_refl n) refl) in
    let linked = subst (λ x. Linked heap x (erase (n.1, t.sequence) active)) first whole in
    (
      linked,
      IsLoose-timer linked n.1 t e (
          has-erase (n.1, t.sequence) (n.1, t.sequence) active h.active_sorted
          ∙ rw (pair_eq_refl (n.1, t.sequence)) refl),
    )

Apart-of : (a : ℕ) (ns rest : List Pair) → ((w : ℕ) → has (w, a) (ns ++ rest) ≡ false) → Apart a ns
unfolding has
Apart-of a [] rest h = tt
Apart-of a (n ∷ ns) rest h = (
  differs (n.1 == a) (λ k.
      clash (pair_eq (n.0, a) n)
        (subst (λ x. pair_eq (n.0, x) n ≡ true) ((==_iff n.1 a).0 k) (pair_eq_refl n))
        (or-false (pair_eq (n.0, a) n) _ (h n.0)).0),
  Apart-of a ns rest (λ w. (or-false (pair_eq (w, a) n) _ (h w)).1),
)
  where
    or-false : (b c : Bool) → (b || c) ≡ false → (b ≡ false) × (c ≡ false)
    or-false b c e = ground arith

-- What the loop of erasures leaves.
pub record Taken (heap : Heap) (ns rest active active1 : List Pair) : Type 0 where
  pub linked : Linked heap rest active1
  pub pending : Pending heap active1 ns
  pub fewer : (e : Pair) → has e active1 ≡ true → has e active ≡ true

erase_expired-Taken :
    {may : Bool} (heap : Heap) (ns rest active : List Pair)
    → Linked heap (ns ++ rest) active
    → Holds may (Taken heap ns rest active) (erase_expired heap ns active)
unfolding erase_expired has
erase_expired-Taken heap [] rest active h =
    done (record { linked = h; pending = tt; fewer = λ e k. k })
erase_expired-Taken {may} heap (n ∷ ns) rest active h =
    let (t, e, when, known, small) = h.of_timers n.0 n.1 (rw (pair_eq_refl n) refl) in
    let (linked, loose) = taken-Linked heap n (ns ++ rest) active t h e when known in
    Holds-load heap n.1 t _ e (
      Holds-map _
        (λ active1 k. record {
          linked = k.linked;
          pending = (
            (t, e),
            (λ s. differs (has (n.1, s) active1) λ there.
                clash (has (n.1, s) (erase (n.1, t.sequence) active)) (k.fewer (n.1, s) there)
                  (loose s)),
            small,
            Apart-of n.1 ns rest (λ w. IsLoose-timers linked n.1 w loose),
            k.pending,
          );
          fewer = λ x there.
              (erase-cases x (n.1, t.sequence) active h.active_sorted (k.fewer x there)).1;
        })
        (erase_expired-Taken heap ns rest (erase (n.1, t.sequence) active) linked))

abbrev pub Took : TimerQueue → ℕ → List ℕ → List Pair × TimerQueue → Type 0
Took q now ran r =
    (r.0 ≡ due now q.timers)
    × (r.1.timers ≡ later now q.timers)
    × Ready (record { out = r.0; names = callbacks q.heap r.0; ran = ran }) r.1

-- `getExpiredTimer` takes out the timers that are due, in order of time, and no others.
pub get_expired_timer-Ready :
    {may : Bool} (q : TimerQueue) (now : ℕ) (ran : List ℕ)
    → Ready (record { out = []; names = []; ran = ran }) q
    → Holds may (Took q now ran) (get_expired_timer q now)
unfolding get_expired_timer
get_expired_timer-Ready {may} q now ran h =
    let split =
      lower_bound-due now q.timers h.linked.timers_sorted
        (Small-of q.timers λ w a k. (h.linked.of_timers w a k).4) in
    let whole =
      subst (λ x. Linked q.heap x q.active_timers)
        (sym (due-append-later now q.timers h.linked.timers_sorted)) h.linked in
    Holds-check (sizes_match q.timers q.active_timers) _ (sizes-eq _ _ h.linked.same_size) (
      subst
        (λ r. Holds may (Took q now ran) (
          check (starts_after now r.1)
          >> (erase_expired q.heap r.0 q.active_timers >>= λ active.
              check (sizes_match r.1 active)
              >> ok (r.0, record q { timers = r.1; active_timers = active }))))
        (sym split)
        (Holds-check (starts_after now (later now q.timers)) _ (later-starts_after now q.timers) (
          Holds-bind _ _
            (erase_expired-Taken q.heap (due now q.timers) (later now q.timers) q.active_timers
              whole)
            λ active k.
              Holds-check (sizes_match (later now q.timers) active) _
                (sizes-eq _ _ k.linked.same_size)
                (done (
                  refl,
                  refl,
                  record {
                    linked = k.linked;
                    pending = k.pending;
                    named = callbacks-Names q.heap active (due now q.timers) k.pending;
                    same_ran = h.same_ran;
                  },
                )))))
