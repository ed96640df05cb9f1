-- ===== src/Channel/Moves.antt =====
-- net/Channelff.cpp and net/Pollerff.cpp: every call of a channel succeeds and keeps its records
-- in step, or fails on its first assertion.
use firey.Prelude.{
  ℕ, ◌≡◌, ◌≢◌, refl, sym, ◌∙◌, true, false, Option, some, none, Bool-cases, arith, inl, inr,
}
use mathlib.Core.Path.{subst}
use firey.Channel.{Channel, Index, is_none_event}
use firey.Channel.Poller.{
  Op, Event, Epoll, Poller, put, event_of, update_in, update_channel, update, remove_in,
  remove_channel, remove,
}
use firey.Channel.Coherent.{
  Want, mask, Allowed, Documented, Linked, Done, put_self, put_other, is_here_self, control_lem,
  ctl-Same, watches_here,
}

module _ {K : Type 0} (ep : Epoll K) where
  update_new :
      Documented ep
      → (p : Poller K) (c : Channel) (w : Want) → c.events ≡ mask w
      → p.channels c.fd ≡ none
      → ep.watches p.kernel c.fd ≡ none
      → Done ep p c.fd c.id (some w) (update_in ep Index.new p c)
  unfolding update_in
  update_new doc p c w he hm hk =
      let f = put p.channels c.fd (some c.id) in
      let allowed = subst (Allowed Op.add) (sym hk) Allowed.add in
      rw
        (
          hm,
          control_lem ep doc (record p { channels = f }) Op.add (record c { index = Index.added })
              allowed,
        )
        (Done.done
          (ctl-Same ep doc p Op.add c.fd (event_of c) allowed f
            (λ j. put_other p.channels c.fd j (some c.id)))
          refl refl
          (rw
            (
              put_self p.channels c.fd (some c.id),
              watches_here ep doc p.kernel Op.add c.fd (event_of c) allowed,
              he,
            )
            (Linked.added refl refl)))

  update_deleted :
      Documented ep
      → (p : Poller K) (c : Channel) (w : Want) → c.events ≡ mask w
      → p.channels c.fd ≡ some c.id
      → ep.watches p.kernel c.fd ≡ none
      → Done ep p c.fd c.id (some w) (update_in ep Index.deleted p c)
  unfolding update_in
  update_deleted doc p c w he hm hk =
      let allowed = subst (Allowed Op.add) (sym hk) Allowed.add in
      rw
        (hm, is_here_self c, control_lem ep doc p Op.add (record c { index = Index.added }) allowed)
        (Done.done (ctl-Same ep doc p Op.add c.fd (event_of c) allowed p.channels (λ j ne. refl))
          refl refl
          (rw (hm, watches_here ep doc p.kernel Op.add c.fd (event_of c) allowed, he)
            (Linked.added refl refl)))

  update_added :
      Documented ep
      → (p : Poller K) (c : Channel) (w : Want) {e : Event} → c.index ≡ Index.added
      → c.events ≡ mask w
      → p.channels c.fd ≡ some c.id
      → ep.watches p.kernel c.fd ≡ some e
      → Done ep p c.fd c.id (some w) (update_in ep Index.added p c)
  unfolding update_in
  update_added doc p c w hi he hm hk = elim (Bool-cases (is_none_event c)) [
    | inl z ↦
        let allowed = subst (Allowed Op.del) (sym hk) Allowed.del in
        rw (hm, is_here_self c, z, control_lem ep doc p Op.del c allowed)
          (Done.done (ctl-Same ep doc p Op.del c.fd (event_of c) allowed p.channels (λ j ne. refl))
            refl refl
            (rw (hm, watches_here ep doc p.kernel Op.del c.fd (event_of c) allowed)
              (Linked.deleted refl (ground arith) (ground arith))))
    | inr z ↦
        let allowed = subst (Allowed Op.mod_) (sym hk) Allowed.mod_ in
        rw (hm, is_here_self c, z, control_lem ep doc p Op.mod_ c allowed)
          (Done.done (ctl-Same ep doc p Op.mod_ c.fd (event_of c) allowed p.channels (λ j ne. refl))
            refl refl
            (rw (hm, watches_here ep doc p.kernel Op.mod_ c.fd (event_of c) allowed, he)
              (Linked.added hi refl)))
  ]

  pub update_lem :
      Documented ep
      → (p : Poller K) (c : Channel) (w : Want) {m : Option ℕ} {k : Option Event} {s : Option Want}
      → p.channels c.fd ≡ m
      → ep.watches p.kernel c.fd ≡ k
      → Linked ep c m k s
      → Done ep p c.fd c.id (some w) (update ep p (record c { events = mask w }))
  unfolding update update_channel
  update_lem doc p c w hm hk (Linked.new hi he) =
      let c1 = record c { events = mask w; add_to_loop = true } in
      subst (λ i. Done ep p c.fd c.id (some w) (update_in ep i p c1)) (sym hi)
        (update_new doc p c1 w refl hm hk)
  update_lem doc p c w hm hk (Linked.added hi he) =
      let c1 = record c { events = mask w; add_to_loop = true } in
      subst (λ i. Done ep p c.fd c.id (some w) (update_in ep i p c1)) (sym hi)
        (update_added doc p c1 w hi refl hm hk)
  update_lem doc p c w hm hk (Linked.deleted hi he hz) =
      let c1 = record c { events = mask w; add_to_loop = true } in
      subst (λ i. Done ep p c.fd c.id (some w) (update_in ep i p c1)) (sym hi)
        (update_deleted doc p c1 w refl hm hk)

  remove_added :
      Documented ep
      → (p : Poller K) (c : Channel) {e : Event} → c.events ≡ 0
      → ep.watches p.kernel c.fd ≡ some e
      → Done ep p c.fd c.id none (remove_in ep Index.added p c)
  unfolding remove_in
  remove_added doc p c he hk =
      let f = put p.channels c.fd none in
      let allowed = subst (Allowed Op.del) (sym hk) Allowed.del in
      rw (control_lem ep doc (record p { channels = f }) Op.del c allowed) (
        Done.done
          (ctl-Same ep doc p Op.del c.fd (event_of c) allowed f
            (λ j. put_other p.channels c.fd j none))
          refl refl
          (rw
            (
              put_self p.channels c.fd none,
              watches_here ep doc p.kernel Op.del c.fd (event_of c) allowed,
            )
            (Linked.new refl he)))

  remove_deleted :
      (p : Poller K) (c : Channel)
      → c.events ≡ 0
      → ep.watches p.kernel c.fd ≡ none
      → Done ep p c.fd c.id none (remove_in ep Index.deleted p c)
  unfolding remove_in
  remove_deleted p c he hk =
      Done.done
        (record {
          channels = λ j. put_other p.channels c.fd j none;
          watches = λ j ne. refl;
          room = refl;
        })
        refl refl (rw (put_self p.channels c.fd none, hk) (Linked.new refl he))

  -- The guards of the two `remove` methods.
  remove_guards :
      (p : Poller K) (c : Channel)
      → p.channels c.fd ≡ some c.id
      → c.events ≡ 0
      → remove ep p c ≡ remove_in ep c.index p (record c { add_to_loop = false })
  unfolding remove remove_channel
  remove_guards p c hm he =
      let z : is_none_event c ≡ true = rw he refl in rw (z, hm, is_here_self c) refl

  pub remove_lem :
      Documented ep
      → (p : Poller K) (c : Channel) (w : Want) {m : Option ℕ} {k : Option Event}
      → p.channels c.fd ≡ m
      → ep.watches p.kernel c.fd ≡ k
      → Linked ep c m k (some w)
      → mask w ≡ 0
      → Done ep p c.fd c.id none (remove ep p c)
  remove_lem doc p c w hm hk (Linked.added hi he) z =
      let c1 = record c { add_to_loop = false } in
      rw (remove_guards p c hm (he ∙ z)) (
        subst (λ i. Done ep p c.fd c.id none (remove_in ep i p c1)) (sym hi)
          (remove_added doc p c1 (he ∙ z) hk))
  remove_lem doc p c w hm hk (Linked.deleted hi he hz) z =
      let c1 = record c { add_to_loop = false } in
      rw (remove_guards p c hm he) (
        subst (λ i. Done ep p c.fd c.id none (remove_in ep i p c1)) (sym hi)
          (remove_deleted p c1 he hk))

  pub remove_absent : (p : Poller K) (c : Channel) → p.channels c.fd ≡ none → remove ep p c ≡ none
  unfolding remove remove_channel
  remove_absent p c hm = elim (Bool-cases (is_none_event c)) [
    | inl z ↦ rw (z, hm) refl
    | inr z ↦ rw (z) refl
  ]

  pub remove_busy : (p : Poller K) (c : Channel) → c.events ≢ 0 → remove ep p c ≡ none
  unfolding remove remove_channel
  remove_busy p c ne = let z : is_none_event c ≡ false = ground arith in rw (z) refl
