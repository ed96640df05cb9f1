-- ===== src/Channel/Tests.antt =====
-- Runs of net/Channelff.cpp and net/Pollerff.cpp, and the theorems at concrete channels. The kernel's
-- side is a table.
use firey.Channel.Table.{Table, epoll, epoll-Documented, empty}
use firey.Prelude.{
  ℕ, ◌+◌, ◌≡◌, refl, true, false, Option, some, none, List, [], ◌∷◌, arith, length, not, ◌||◌, ◌&&◌,
}
use mathlib.Core.Path.{ap, subst}
use mathlib.Core.List
use firey.Channel.{
  Channel, Callback, new_channel, epollhup, with_writing, with_reading, is_writing, handle_event,
  handle_event_with_guard, call,
}
use firey.Channel.Poller.{
  Event, new_poller, poll, enable_reading, enable_writing, disable_all, disable_reading, update,
  update_channel, update_in, control, remove, remove_channel, remove_in,
}
use firey.Channel.Coherent.{mask_of}
use firey.Channel.Life.{Call, World, Coherent, Agrees, Wants, wants_step, run, step, fresh}
use firey.Channel.Runs.{wants_refined}
use firey.Channel.Poll.{AllWatched, latest, next_room, poll_lem}
use firey.Channel.Events.{is_in, is_ready, is_in-handle_event}

abbrev descriptor : ℕ → ℕ
descriptor i = i + 4

-- Two channels, on the descriptors 5 and 6; the first leaves the loop and comes back.
abbrev calls : List Call
calls =
    Call.enables_reading 1
    ∷ Call.enables_reading 2
    ∷ Call.enables_writing 2
    ∷ Call.disables_all 1
    ∷ Call.removes 1
    ∷ Call.disables_reading 2
    ∷ Call.enables_reading 1
    ∷ []

wants_refined_example :
    Agrees epoll
      (run (step epoll) (fresh epoll empty descriptor) calls)
      (run wants_step (λ i. none) calls)
wants_refined_example =
    wants_refined epoll epoll-Documented empty (λ fd. refl) descriptor (λ i j e. ground arith) calls

abbrev world_after : World Table
world_after = elim (run (step epoll) (fresh epoll empty descriptor) calls) [
  | none ↦ fresh epoll empty descriptor
  | some w ↦ w
]

abbrev wants_after : Wants
wants_after = elim (run wants_step (λ i. none) calls) [ none ↦ (λ i. none) | some s ↦ s ]

-- What the kernel watches after the run.
watched_5 : world_after.poller.kernel 5 ≡ some (record { events = 1; data_ = 1 })
unfolding run step enable_reading update update_channel update_in new_channel new_poller control
    enable_writing disable_all remove remove_channel remove_in disable_reading
watched_5 = refl

watched_6 : world_after.poller.kernel 6 ≡ some (record { events = 4; data_ = 2 })
unfolding run step enable_reading update update_channel update_in new_channel new_poller control
    enable_writing disable_all remove remove_channel remove_in disable_reading
watched_6 = refl

Agrees-Coherent :
    {w : World Table} {s : Wants} {a : Option (World Table)} {b : Option Wants}
    → Agrees epoll a b
    → a ≡ some w
    → b ≡ some s
    → Coherent epoll w s
Agrees-Coherent {w = w} {s = s} (Agrees.both_fail) ha hb = cc
Agrees-Coherent {w = w} {s = s} (Agrees.both {w = w1} {s = s1} h) ha hb =
    subst (λ x. Coherent epoll x s) (ap (λ o. elim o [ none ↦ w | some x ↦ x ]) ha)
      (subst (λ x. Coherent epoll w1 x) (ap (λ o. elim o [ none ↦ s | some x ↦ x ]) hb) h)

after-Coherent : Coherent epoll world_after wants_after
unfolding run step enable_reading update update_channel update_in new_channel new_poller control
    enable_writing disable_all remove remove_channel remove_in disable_reading wants_step mask_of
after-Coherent = Agrees-Coherent wants_refined_example refl refl

abbrev ready : List Event
ready = record { events = 1; data_ = 1 } ∷ record { events = 4; data_ = 2 } ∷ []

ready-AllWatched : AllWatched epoll world_after.poller.kernel ready
unfolding run step enable_reading update update_channel update_in new_channel new_poller control
    enable_writing disable_all remove remove_channel remove_in disable_reading
ready-AllWatched =
    AllWatched.cons (5, (record { events = 1; data_ = 1 }, (refl, refl)))
      (AllWatched.cons (6, (record { events = 4; data_ = 2 }, (refl, refl))) AllWatched.nil)

ready_reported : epoll.wait world_after.poller.kernel world_after.poller.room ≡ some ready
unfolding run step enable_reading update update_channel update_in new_channel new_poller control
    enable_writing disable_all remove remove_channel remove_in disable_reading
ready_reported = refl

poll_lem_example :
    (at1 : ℕ → Channel) × ((poll epoll world_after.poller world_after.at
        ≡ some (
          record world_after.poller { room = next_room world_after.poller.room (length ready) },
          List.map (λ e. e.data_) ready,
          at1,
        ))
      × (Coherent epoll
            (record {
              poller = record world_after.poller {
                room = next_room world_after.poller.room (length ready);
              };
              at = at1;
            })
            wants_after
          × ((i : ℕ) → (at1 i).revents ≡ latest i ready (world_after.at i).revents)))
poll_lem_example =
    poll_lem epoll world_after.poller world_after.at wants_after ready after-Coherent ready_reported
      ready-AllWatched

-- A connection that waits for both kinds of event, hung up while it can be written.
abbrev hung_up : Channel
hung_up = record (new_channel 1 5) {
  events = 5;
  revents = epollhup + 4;
  tied = true;
  has_callback = λ k. true;
}

is_in-handle_event_example : is_in Callback.close (handle_event hung_up true) ≡ (
    (not hung_up.tied || true)
    && (hung_up.has_callback Callback.close && is_ready hung_up.revents Callback.close))
is_in-handle_event_example = is_in-handle_event hung_up true Callback.close

only_write : handle_event hung_up true ≡ Callback.write ∷ []
unfolding handle_event new_channel handle_event_with_guard call
only_write = refl

-- Such a channel is not counted as writing.
not_writing : is_writing (with_writing (with_reading (new_channel 1 5))) ≡ false
unfolding new_channel
not_writing = refl
