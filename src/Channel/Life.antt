-- ===== src/Channel/Life.antt =====
-- net/Channelff.h, net/Channelff.cpp and net/Pollerff.cpp: the channels of a loop over time. A program calls
-- their methods one after another; each descriptor has one channel, as the owners of the descriptors
-- (Acceptorff, TcpConnectionff, TimerQueueff, EventLoopff) see to it.
use firey.Prelude.{
  ℕ, ◌≡◌, ◌≢◌, refl, sym, ap, ◌∙◌, true, false, Option, some, none, List, [], ◌∷◌, ◌>>=◌,
  if◌then◌else◌, ◌⊎◌, ◌==◌, ◌||◌, arith, Bool-cases, inl, inr,
}
use mathlib.Core.Option
use mathlib.Core.Path.{subst}
use firey.Channel.{Channel, new_channel}
use firey.Channel.Poller.{
  Event, Epoll, Poller, new_poller, put, remove, enable_reading, enable_writing, disable_reading,
  disable_writing, disable_all,
}
use firey.Channel.Coherent.{nothing, want, Want, Linked, Done, Same, put_self, put_other}

pub data Call : Type 0 where
  enables_reading enables_writing disables_reading disables_writing disables_all removes : ℕ → Call

-- The poller, and the channels by their addresses.
pub record World (K : Type 0) : Type 0 where
  pub poller : Poller K
  pub at : ℕ → Channel

abbrev pub Wants : Type 0
Wants = ℕ → Option Want

abbrev pub sets : Wants → ℕ → Want → Option Wants
sets s i w = some (put s i (some w))

abbrev pub leaves : Wants → ℕ → Option Want → Option Wants
leaves s i none = none
leaves s i (some w) = if w.reading || w.writing then none else some (put s i none)

-- The intent of each call: what is wanted of each channel that is in the loop. Only a channel of
-- which nothing is wanted may leave.
unfoldable pub wants_step : Wants → Call → Option Wants
wants_step s (enables_reading i) = sets s i (record (want (s i)) { reading = true })
wants_step s (enables_writing i) = sets s i (record (want (s i)) { writing = true })
wants_step s (disables_reading i) = sets s i (record (want (s i)) { reading = false })
wants_step s (disables_writing i) = sets s i (record (want (s i)) { writing = false })
wants_step s (disables_all i) = sets s i nothing
wants_step s (removes i) = leaves s i (s i)

module _ {ℓ} {S : Type ℓ} (f : S → Call → Option S) where
  unfoldable pub run : S → List Call → Option S
  run s [] = some s
  run s (c ∷ cs) = f s c >>= λ s1. run s1 cs

module _ {K : Type 0} (ep : Epoll K) where
  abbrev pub store : World K → ℕ → Option (Poller K × Channel) → Option (World K)
  store w i r = Option.map (λ r. record { poller = r.0; at = put w.at i r.1 }) r

  unfoldable pub step : World K → Call → Option (World K)
  step w (enables_reading i) = store w i (enable_reading ep w.poller (w.at i))
  step w (enables_writing i) = store w i (enable_writing ep w.poller (w.at i))
  step w (disables_reading i) = store w i (disable_reading ep w.poller (w.at i))
  step w (disables_writing i) = store w i (disable_writing ep w.poller (w.at i))
  step w (disables_all i) = store w i (disable_all ep w.poller (w.at i))
  step w (removes i) = store w i (remove ep w.poller (w.at i))

  pub record Coherent (w : World K) (s : Wants) : Type 0 where
    pub address : (i : ℕ) → (w.at i).id ≡ i
    pub apart : (i j : ℕ) → (w.at i).fd ≡ (w.at j).fd → i ≡ j
    pub linked :
        (i : ℕ)
        → Linked ep
            (w.at i)
            (w.poller.channels (w.at i).fd)
            (ep.watches w.poller.kernel (w.at i).fd)
            (s i)
    pub known :
        (fd : ℕ) (e : Event) → ep.watches w.poller.kernel fd ≡ some e → (w.at e.data_).fd ≡ fd

  -- Both fail, or both succeed and stay related.
  pub data Agrees : Option (World K) → Option Wants → Type 0 where
    both_fail : Agrees none none
    both : {w : World K} {s : Wants} → Coherent w s → Agrees (some w) (some s)

  same_or_other : (i j : ℕ) → (i ≡ j) ⊎ (j ≢ i)
  same_or_other i j = elim (Bool-cases (i == j)) [
    | inl h ↦ inl (ground arith)
    | inr h ↦ inr (λ e. ground arith)
  ]

  put_fd :
      (at : ℕ → Channel) (i : ℕ) (c1 : Channel)
      → c1.fd ≡ (at i).fd
      → (j : ℕ) → (put at i c1 j).fd ≡ (at j).fd
  put_fd at i c1 h j = elim (same_or_other i j) [
    | inl e ↦ subst (λ j. (put at i c1 j).fd ≡ (at j).fd) e (rw (put_self at i c1) h)
    | inr ne ↦ rw (put_other at i j c1 ne) refl
  ]

  Linked-data :
      {c : Channel} {m : Option ℕ} {k : Option Event} {v : Option Want} {e : Event}
      → Linked ep c m k v
      → k ≡ some e
      → e.data_ ≡ c.id
  Linked-data (Linked.new hi he) h = cc
  Linked-data (Linked.added {c} {w} hi he) h =
      sym (ap (λ o. elim o [ none ↦ c.id | some e ↦ e.data_ ]) h)
  Linked-data (Linked.deleted hi he hz) h = cc

  pub put-Coherent :
      (w : World K) (s : Wants) (i : ℕ) (v : Option Want) (p1 : Poller K) (c1 : Channel)
      → Coherent w s
      → Same ep (w.at i).fd w.poller p1
      → c1.id ≡ (w.at i).id
      → c1.fd ≡ (w.at i).fd
      → Linked ep c1 (p1.channels (w.at i).fd) (ep.watches p1.kernel (w.at i).fd) v
      → Coherent (record { poller = p1; at = put w.at i c1 }) (put s i v)
  put-Coherent w s i v p1 c1 h same hid hfd link = record {
    address = λ j. elim (same_or_other i j) [
      | inl e ↦
          subst (λ j. (put w.at i c1 j).id ≡ j) e (rw (put_self w.at i c1) (hid ∙ h.address i))
      | inr ne ↦ rw (put_other w.at i j c1 ne) (h.address j)
    ];
    apart = λ j k e. h.apart j k (sym (put_fd w.at i c1 hfd j) ∙ e ∙ put_fd w.at i c1 hfd k);
    linked = λ j. elim (same_or_other i j) [
      | inl e ↦
          subst
            (λ j.
              Linked ep (put w.at i c1 j) (p1.channels (put w.at i c1 j).fd)
                (ep.watches p1.kernel (put w.at i c1 j).fd) (put s i v j))
            e
            (rw (put_self w.at i c1, put_self s i v)
              (subst (λ d. Linked ep c1 (p1.channels d) (ep.watches p1.kernel d) v) (sym hfd) link))
      | inr ne ↦
          let apart : (w.at j).fd ≢ (w.at i).fd = λ e. ne (sym (h.apart i j (sym e))) in
          rw
            (
              put_other w.at i j c1 ne,
              put_other s i j v ne,
              same.channels (w.at j).fd apart,
              same.watches (w.at j).fd apart,
            )
            (h.linked j)
    ];
    known = λ fd e h1. put_fd w.at i c1 hfd e.data_ ∙ elim (same_or_other fd (w.at i).fd) [
      | inl same_fd ↦
          ap (λ d. (w.at d).fd)
            (Linked-data link (ap (ep.watches p1.kernel) (sym same_fd) ∙ h1) ∙ hid ∙ h.address i)
          ∙ sym same_fd
      | inr ne ↦ h.known fd e (sym (same.watches fd (λ e. ne (sym e))) ∙ h1)
    ];
  }

  pub store-Coherent :
      (w : World K) (s : Wants) (i : ℕ) (v : Option Want)
      → Coherent w s
      → {r : Option (Poller K × Channel)} → Done ep w.poller (w.at i).fd (w.at i).id v r
      → Agrees (store w i r) (some (put s i v))
  store-Coherent w s i v h (Done.done {p1} {c1} same hid hfd link) =
      both (put-Coherent w s i v p1 c1 h same hid hfd link)

  -- A program before its first call: no descriptor is watched, and no channel is in the loop.
  abbrev pub fresh : K → (ℕ → ℕ) → World K
  fresh k fds = record { poller = new_poller k; at = λ i. new_channel i (fds i) }
