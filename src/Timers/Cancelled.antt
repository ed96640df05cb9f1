-- ===== src/Timers/Cancelled.antt =====
-- `cancel` of net/TimerQueueff.cpp: an id that is cancelled is gone, and no other.
use firey.Prelude.{
  ℕ, ◌==◌, ◌≡◌, refl, sym, ◌∙◌, Bool, true, false, not, ◌&&◌, List, [], ◌∷◌, some, if◌then◌else◌,
  arith,
}
use mathlib.Core.Path.{subst}
use firey.Timers.PairSet.{
  Pair, pair_eq, insert, has, has-erase, has-insert, pair_eq_refl, pair_eq→eq,
}
use firey.Timers.{
  Result, ok, ◌>>=◌, ◌>>◌, check, Timer, restart, write, load, TimerQueue, sizes_match, is_earliest,
  insert_timer, cancel_in_loop, reset_expired,
}
use mathlib.Core.Option.{some-injective}
use firey.Timers.Links.{Linked, differs, clash}
use firey.Timers.Steps.{
  Holds, done, threw, Holds-bind, Holds-check, Holds-load, Holds-if, Ready, sizes-eq,
  cancelled-Ready, noted-Ready, written,
}
use firey.Timers.Fires.{idle, frame, reset_expired-Ready}
use firey.Timers.After.{After, after, After-bind, After-check, After-load, After-if}

-- Of the timers that wait, the one of the id is gone.
pub record Gone (id : Pair) (active active1 : List Pair) : Type 0 where
  pub out : has id active1 ≡ false
  pub others : (e : Pair) → pair_eq e id ≡ false → has e active1 ≡ has e active

Gone-noted :
    (b : Bool) (q : TimerQueue) (id : Pair)
    → has id q.active_timers ≡ false
    → Gone id q.active_timers
        (if b
          then record q { canceling_timers = insert id q.canceling_timers }
          else q).active_timers
Gone-noted true q id e = record { out = e; others = λ x ne. refl }
Gone-noted false q id e = record { out = e; others = λ x ne. refl }

-- Of the pairs of times, those of other timers are all left.
pub OthersLeft : Pair → List Pair → List Pair → Type 0
OthersLeft id timers timers1 = (x : Pair) → (x.1 == id.0) ≡ false → has x timers1 ≡ has x timers

noted_timers :
    (b : Bool) (q : TimerQueue) (id : Pair)
    → OthersLeft id q.timers
        (if b then record q { canceling_timers = insert id q.canceling_timers } else q).timers
unfolding OthersLeft
noted_timers true q id = λ x ne. refl
noted_timers false q id = λ x ne. refl

other_pair : (x : Pair) (when a : ℕ) → (x.1 == a) ≡ false → pair_eq x (when, a) ≡ false
other_pair x when a ne = ground arith

-- `cancel` of any id, a stale one included, succeeds between two calls; after it no timer with that id
-- waits, all others do that waited before, each at its time, and the two sets and the heap belong together.
pub cancel_in_loop-Gone :
    (q : TimerQueue) (id : Pair)
    → Ready (idle q.ran) q
    → Holds false
        (λ q1.
          Gone id q.active_timers q1.active_timers
          × OthersLeft id q.timers q1.timers
          × Linked q1.heap q1.timers q1.active_timers)
        (cancel_in_loop q id)
unfolding cancel_in_loop OthersLeft
cancel_in_loop-Gone q id h =
    Holds-check (sizes_match q.timers q.active_timers) _ (sizes-eq _ _ h.linked.same_size) (
      Holds-bind
        {P = λ q1.
          Ready (idle q.ran) q1
          × Gone id q.active_timers q1.active_timers
          × OthersLeft id q.timers q1.timers}
        _ _
        (Holds-if (has id q.active_timers) _ _
          (λ known.
            let (t, e, same, there) = h.linked.of_active id.0 id.1 known in
            Holds-load q.heap id.0 t _ e (
              done (
                cancelled-Ready q id t (idle q.ran) h known e same,
                record {
                  out =
                      has-erase id id q.active_timers h.linked.active_sorted
                      ∙ rw (pair_eq_refl id) refl;
                  others =
                      λ x ne. has-erase x id q.active_timers h.linked.active_sorted ∙ rw ne refl;
                },
                λ x ne.
                    has-erase x (t.expire_time, id.0) q.timers h.linked.timers_sorted
                    ∙ rw (other_pair x t.expire_time id.0 ne) refl,
              )))
          (λ unknown. done (
            noted-Ready q.calling_expired_timers q (insert id q.canceling_timers) (idle q.ran) h,
            Gone-noted q.calling_expired_timers q id unknown,
            noted_timers q.calling_expired_timers q id,
          )))
        λ q1 k.
          Holds-check (sizes_match q1.timers q1.active_timers) _ (sizes-eq _ _ k.0.linked.same_size)
            (done (k.1, k.2, k.0.linked)))

-- Cancelled, and in no set.
abbrev pub StaysOut : Pair → TimerQueue → Type 0
StaysOut id q = (has id q.active_timers ≡ false) × (has id q.canceling_timers ≡ true)

insert_timer-StaysOut :
    (q : TimerQueue) (a : ℕ) (id : Pair)
    → ((t : Timer) → q.heap a ≡ some t → pair_eq id (a, t.sequence) ≡ false)
    → StaysOut id q
    → After (λ r. StaysOut id r.1) (insert_timer q a)
unfolding insert_timer
insert_timer-StaysOut q a id ne h =
    After-check (sizes_match q.timers q.active_timers) (load q.heap a >>= λ t. inserting q a t) λ e.
      After-load q.heap a (inserting q a) λ t k.
        After-check
          (sizes_match (insert (t.expire_time, a) q.timers)
            (insert (a, t.sequence) q.active_timers))
          (ok (is_earliest t.expire_time q.timers, with_timer q a t))
          λ e1. after (has-insert id (a, t.sequence) q.active_timers ∙ rw (ne t k) h.0, h.1)
  where
    with_timer : TimerQueue → ℕ → Timer → TimerQueue
    with_timer q a t = record q {
      timers = insert (t.expire_time, a) q.timers;
      active_timers = insert (a, t.sequence) q.active_timers;
    }

    inserting : TimerQueue → ℕ → Timer → Result (Bool × TimerQueue)
    inserting q a t =
        check (
          sizes_match (insert (t.expire_time, a) q.timers) (insert (a, t.sequence) q.active_timers))
        >> ok (is_earliest t.expire_time q.timers, with_timer q a t)

not_cancelled :
    (id x : Pair) (repeats : Bool) (ids : List Pair)
    → has id ids ≡ true
    → (repeats && not (has x ids)) ≡ true
    → pair_eq id x ≡ false
not_cancelled id x repeats ids noted again = differs (pair_eq id x) λ e.
    let there : has x ids ≡ true = subst (λ y. has y ids ≡ true) (pair_eq→eq id x e) noted in
    clash (has x ids) there (and-not repeats (has x ids) again)
  where
    and-not : (b c : Bool) → (b && not c) ≡ true → c ≡ false
    and-not b c h = ground arith

reset_expired-After :
    (q : TimerQueue) (now : ℕ) (ns : List Pair) (id : Pair)
    → StaysOut id q
    → After (StaysOut id) (reset_expired q now ns)
unfolding reset_expired
reset_expired-After q now [] id h = after h
reset_expired-After q now (n ∷ ns) id h = After-load q.heap n.1 _ λ t e.
    After-bind {P = StaysOut id} _ _
      (After-if (t.is_repeat && not (has (n.1, t.sequence) q.canceling_timers)) _ _
        (λ again.
          After-bind _ _
            (insert_timer-StaysOut (record q { heap = write q.heap n.1 (some (restart t now)) }) n.1
              id
              (λ t1 e1.
                let same : t1 ≡ restart t now =
                  some-injective t1 (restart t now)
                    (sym e1 ∙ written q.heap n.1 (some (restart t now))) in
                subst (λ x. pair_eq id (n.1, x.sequence) ≡ false) (sym same)
                  (not_cancelled id (n.1, t.sequence) t.is_repeat q.canceling_timers h.1 again))
              h)
            λ r k. after k)
        (λ over. after h))
      λ q1 k. reset_expired-After q1 now ns id k

out_of :
    (m : Result TimerQueue) (id : Pair) {P : TimerQueue → Type 0}
    → Holds false P m
    → After (StaysOut id) m
    → Holds false (λ q. P q × (has id q.active_timers ≡ false)) m
out_of _ id (done p) (after s) = done (p, s.0)
out_of _ id (threw e) h = cc

-- When the callbacks have run, the queue has the expired timers `ns` left to restart or to delete. If one of
-- them is among the ids that were cancelled meanwhile, it is in no set after that, repeated or not: the
-- restart of the others succeeds and leaves it out.
pub reset_expired-StaysOut :
    (q : TimerQueue) (now : ℕ) (ns : List Pair) (cs ran : List ℕ) (id : Pair)
    → Ready (frame ns cs ran) q
    → has id q.active_timers ≡ false
    → has id q.canceling_timers ≡ true
    → Holds false
        (λ q1. Ready (idle ran) q1 × (has id q1.active_timers ≡ false))
        (reset_expired q now ns)
reset_expired-StaysOut q now ns cs ran id h out noted =
    out_of (reset_expired q now ns) id (reset_expired-Ready q now ns cs ran h)
      (reset_expired-After q now ns id (out, noted))
