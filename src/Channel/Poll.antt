-- ===== src/Channel/Poll.antt =====
-- `poll` and `fillActiveChannels` of net/Pollerff.cpp.
use firey.Prelude.{
  ℕ, ◌*◌, ◌≡◌, refl, ap, ◌∙◌, true, Option, some, List, [], ◌∷◌, if◌then◌else◌, ◌==◌, arith,
  Bool-cases, inl, inr, length,
}
use mathlib.Core.List
use mathlib.Core.Path.{subst, fun_ext}
use firey.Channel.{Channel}
use firey.Channel.Poller.{Event, Epoll, Poller, put, is_here, fill_active_channels, polled, poll}
use firey.Channel.Coherent.{Want, Linked}
use firey.Channel.Life.{Wants, Coherent, put-Coherent}

-- The events of the last entry for a channel, and `old` if there is none.
abbrev pub latest : ℕ → List Event → ℕ → ℕ
latest i [] old = old
latest i (e ∷ es) old = latest i es (if e.data_ == i then e.events else old)

-- The length of the array for the next call: doubled after a call that filled it.
abbrev pub next_room : ℕ → ℕ → ℕ
next_room room n = if n == room then 2 * room else room

module _ {K : Type 0} (ep : Epoll K) where
  -- epoll_wait(2): an entry is for a watched descriptor, and carries the data that it was given with.
  abbrev pub Watched : K → Event → Type 0
  Watched k e = (fd : ℕ) × ((old : Event) × ((ep.watches k fd ≡ some old) × (old.data_ ≡ e.data_)))

  pub data AllWatched (k : K) : List Event → Type 0 where
    nil : AllWatched k []
    cons : {e : Event} {es : List Event} → Watched k e → AllWatched k es → AllWatched k (e ∷ es)

  Linked-here :
      {c : Channel} {m : Option ℕ} {k : Option Event} {v : Option Want} {e : Event}
      → Linked ep c m k v
      → k ≡ some e
      → m ≡ some c.id
  Linked-here (Linked.new hi he) h = cc
  Linked-here (Linked.added hi he) h = refl
  Linked-here (Linked.deleted hi he hz) h = cc

  Linked-revents :
      {c : Channel} {m : Option ℕ} {k : Option Event} {v : Option Want}
      → Linked ep c m k v
      → (n : ℕ) → Linked ep (record c { revents = n }) m k v
  Linked-revents (Linked.new hi he) n = Linked.new hi he
  Linked-revents (Linked.added hi he) n = Linked.added hi he
  Linked-revents (Linked.deleted hi he hz) n = Linked.deleted hi he hz

  put-same : (s : Wants) (i : ℕ) → put s i (s i) ≡ s
  put-same s i = fun_ext (λ j. elim (Bool-cases (i == j)) [
    | inl h ↦ rw (h) (ap s (ground arith))
    | inr h ↦ rw (h) refl
  ])

  revents-Coherent :
      (p : Poller K) (at : ℕ → Channel) (s : Wants) (i n : ℕ)
      → Coherent ep (record { poller = p; at = at }) s
      → Coherent ep (record { poller = p; at = put at i (record (at i) { revents = n }) }) s
  revents-Coherent p at s i n h =
      subst (Coherent ep (record { poller = p; at = put at i (record (at i) { revents = n }) }))
        (put-same s i)
        (put-Coherent ep (record { poller = p; at = at }) s i (s i) p
          (record (at i) { revents = n }) h
          (record { channels = λ j ne. refl; watches = λ j ne. refl; room = refl }) refl refl
          (Linked-revents (h.linked i) n))

  put_revents :
      (at : ℕ → Channel) (d n i : ℕ)
      → (put at d (record (at d) { revents = n }) i).revents
        ≡ (if d == i then n else (at i).revents)
  put_revents at d n i = elim (Bool-cases (d == i)) [ inl h ↦ rw (h) refl | inr h ↦ rw (h) refl ]

  -- The channel of an entry is in the map.
  is_here-Watched :
      (p : Poller K) (at : ℕ → Channel) (s : Wants) (e : Event)
      → Coherent ep (record { poller = p; at = at }) s
      → Watched p.kernel e
      → is_here (at e.data_) (p.channels (at e.data_).fd) ≡ true
  is_here-Watched p at s e h (fd, (old, (hw, hd))) =
      subst (λ d. is_here (at d) (p.channels (at d).fd) ≡ true) hd
        (rw (Linked-here (h.linked old.data_) (ap (ep.watches p.kernel) (h.known fd old hw) ∙ hw))
          (ground arith))

  pub fill_active_channels_lem :
      (p : Poller K) (at : ℕ → Channel) (s : Wants) (es : List Event)
      → Coherent ep (record { poller = p; at = at }) s
      → AllWatched p.kernel es
      → (at1 : ℕ → Channel) × ((fill_active_channels ep p es at
            ≡ some (List.map (λ e. e.data_) es, at1))
          × (Coherent ep (record { poller = p; at = at1 }) s
              × ((i : ℕ) → (at1 i).revents ≡ latest i es (at i).revents)))
  unfolding fill_active_channels
  fill_active_channels_lem p at s [] h all = (at, (refl, (h, λ i. refl)))
  fill_active_channels_lem p at s (e ∷ es) h (cons here all) =
      let c1 = record (at e.data_) { revents = e.events } in
      let r =
        fill_active_channels_lem p (put at e.data_ c1) s es
          (revents-Coherent p at s e.data_ e.events h) all in
      (
        r.0,
        (
          rw (is_here-Watched p at s e h here, r.1.0) refl,
          (r.1.1.0, λ i. r.1.1.1 i ∙ ap (latest i es) (put_revents at e.data_ e.events i)),
        ),
      )

  other_room :
      (p : Poller K) (n : ℕ) (at : ℕ → Channel) (s : Wants)
      → Coherent ep (record { poller = p; at = at }) s
      → Coherent ep (record { poller = record p { room = n }; at = at }) s
  other_room p n at s h = record {
    address = h.address;
    apart = h.apart;
    linked = h.linked;
    known = h.known;
  }

  -- In a coherent state, `poll` hands on exactly the channels that epoll_wait reports, in its order,
  -- each with the events reported last for it, if it reports watched descriptors only. No assertion fails, the state stays coherent, and the
  -- array is doubled after a call that filled it.
  pub poll_lem :
      (p : Poller K) (at : ℕ → Channel) (s : Wants) (es : List Event)
      → Coherent ep (record { poller = p; at = at }) s
      → ep.wait p.kernel p.room ≡ some es
      → AllWatched p.kernel es
      → (at1 : ℕ → Channel) × ((poll ep p at
            ≡ some
                (record p { room = next_room p.room (length es) }, List.map (λ e. e.data_) es, at1))
          × (Coherent ep
                (record { poller = record p { room = next_room p.room (length es) }; at = at1 })
                s
              × ((i : ℕ) → (at1 i).revents ≡ latest i es (at i).revents)))
  unfolding poll polled
  poll_lem p at s es h hw all =
      let r = fill_active_channels_lem p at s es h all in
      (r.0, (rw (hw, r.1.0) refl, (other_room p _ r.0 s r.1.1.0, r.1.1.1)))
