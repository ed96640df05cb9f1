-- ===== src/Channel/Runs.antt =====
-- net/Channelff.cpp and net/Pollerff.cpp: whole runs of channel calls against what is wanted.
use firey.Prelude.{
  ℕ, ◌≡◌, ◌≢◌, refl, sym, ap, ◌∙◌, false, Option, some, none, List, [], ◌∷◌, ◌>>=◌, ◌||◌,
  Bool-cases, inl, inr,
}
use Prim.Native.Nat.{bit_and, bit_or}
use mathlib.Core.Path.{subst}
use firey.Channel.{complement, new_channel}
use firey.Channel.Poller.{
  Event, Epoll, new_poller, remove, update, enable_reading, enable_writing, disable_reading,
  disable_writing, disable_all,
}
use firey.Channel.Moves.{update_lem, remove_lem, remove_absent, remove_busy}
use firey.Channel.Coherent.{
  Linked-events, Linked-absent, nothing, want, Want, mask, Documented, Linked, reading_on,
  reading_off, writing_on, writing_off, mask-zero, mask-nonzero,
}
use firey.Channel.Life.{
  Call, World, Wants, sets, leaves, wants_step, run, store, step, Coherent, Agrees, store-Coherent,
  fresh,
}

module _ {K : Type 0} (ep : Epoll K) where
  update-Agrees :
      Documented ep
      → (w : World K) (s : Wants) (i : ℕ) (v : Want) → Coherent ep w s
      → {n : ℕ} → n ≡ mask v
      → Agrees ep (store ep w i (update ep w.poller (record (w.at i) { events = n }))) (sets s i v)
  update-Agrees doc w s i v h e =
      subst
        (λ n.
          Agrees ep (store ep w i (update ep w.poller (record (w.at i) { events = n })))
            (sets s i v))
        (sym e)
        (store-Coherent ep w s i (some v) h
          (update_lem ep doc w.poller (w.at i) v refl refl (h.linked i)))

  remove-Agrees :
      Documented ep
      → (w : World K) (s : Wants) (i : ℕ) → Coherent ep w s
      → (o : Option Want) → s i ≡ o
      → Agrees ep (store ep w i (remove ep w.poller (w.at i))) (leaves s i o)
  remove-Agrees doc w s i h none e =
      rw (remove_absent ep w.poller (w.at i) (Linked-absent ep (h.linked i) e)) Agrees.both_fail
  remove-Agrees doc w s i h (some v) e = elim (Bool-cases (v.reading || v.writing)) [
    | inl busy ↦
        let ne : (w.at i).events ≢ 0 = λ z.
          mask-nonzero v.reading v.writing busy
            (sym (Linked-events ep (h.linked i) ∙ ap (λ o. mask (want o)) e) ∙ z) in
        rw (busy, remove_busy ep w.poller (w.at i) ne) Agrees.both_fail
    | inr idle ↦ rw (idle) (
        store-Coherent ep w s i none h (
          remove_lem ep doc w.poller (w.at i) v refl refl
            (subst (Linked ep (w.at i) _ _) e (h.linked i)) (mask-zero v.reading v.writing idle)))
  ]

  pub step-Agrees :
      Documented ep
      → (w : World K) (s : Wants) (c : Call) → Coherent ep w s
      → Agrees ep (step ep w c) (wants_step s c)
  unfolding step wants_step enable_reading enable_writing disable_reading disable_writing
      disable_all
  step-Agrees doc w s (Call.enables_reading i) h = update-Agrees doc w s i _ h (
      ap (λ n. bit_or n 1) (Linked-events ep (h.linked i))
      ∙ reading_on (want (s i)).reading (want (s i)).writing)
  step-Agrees doc w s (Call.enables_writing i) h = update-Agrees doc w s i _ h (
      ap (λ n. bit_or n 4) (Linked-events ep (h.linked i))
      ∙ writing_on (want (s i)).reading (want (s i)).writing)
  step-Agrees doc w s (Call.disables_reading i) h = update-Agrees doc w s i _ h (
      ap (λ n. bit_and n (complement 1)) (Linked-events ep (h.linked i))
      ∙ reading_off (want (s i)).reading (want (s i)).writing)
  step-Agrees doc w s (Call.disables_writing i) h = update-Agrees doc w s i _ h (
      ap (λ n. bit_and n (complement 4)) (Linked-events ep (h.linked i))
      ∙ writing_off (want (s i)).reading (want (s i)).writing)
  step-Agrees doc w s (Call.disables_all i) h =
      update-Agrees doc w s i nothing h (sym (mask-zero false false refl))
  step-Agrees doc w s (Call.removes i) h = remove-Agrees doc w s i h (s i) refl

  pub run-Agrees :
      Documented ep
      → (cs : List Call) (w : World K) (s : Wants) → Coherent ep w s
      → Agrees ep (run (step ep) w cs) (run wants_step s cs)
  unfolding run
  run-Agrees doc [] w s h = Agrees.both h
  run-Agrees doc (c ∷ cs) w s h =
      elim (step-Agrees doc w s c h)
        as (λ a b _.
          Agrees ep (a >>= λ w1. run (step ep) w1 cs) (b >>= λ s1. run wants_step s1 cs)) [
            | Agrees.both_fail ↦ Agrees.both_fail
            | Agrees.both h1 ↦ run-Agrees doc cs _ _ h1
          ]

  absurd_some : {B : Type 0} {e : Event} {o : Option Event} → o ≡ none → o ≡ some e → B
  absurd_some h1 h2 = cc

  -- From a fresh state, with one channel for a descriptor and epoll_ctl as documented, every sequence of
  -- calls succeeds exactly when each `remove` is of a channel that is in the loop and of which
  -- nothing is wanted, and leaves channels, poller and kernel in agreement with what is wanted.
  pub wants_refined :
      Documented ep
      → (k : K) → ((fd : ℕ) → ep.watches k fd ≡ none)
      → (fds : ℕ → ℕ) → ((i j : ℕ) → fds i ≡ fds j → i ≡ j)
      → (cs : List Call)
      → Agrees ep (run (step ep) (fresh ep k fds) cs) (run wants_step (λ i. none) cs)
  unfolding new_poller new_channel
  wants_refined doc k empty fds apart cs =
      run-Agrees doc cs (fresh ep k fds) (λ i. none)
        (record {
          address = λ i. refl;
          apart = apart;
          linked = λ i. rw (empty (fds i)) (Linked.new refl refl);
          known = λ fd e h. absurd_some (empty fd) h;
        })
