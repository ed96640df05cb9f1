-- ===== src/Channel/Watch.antt =====
-- What the owner of a channel relies on: `Channelff::update` and `Channelff::remove`, through
-- net/EventLoopff.cpp to net/Pollerff.cpp.
use firey.Prelude.{ℕ, ◌≡◌, ◌≢◌, refl, sym, Option, some, none}
use mathlib.Core.Path.{subst}
use firey.Channel.{Channel, tie}
use firey.Channel.Poller.{Event, Epoll, Poller, update, remove}
use firey.Channel.Coherent.{
  Want, mask, want, Documented, Linked, Done, Linked-events, Linked-absent,
}
use firey.Channel.Moves.{update_lem, remove_lem, remove_busy, remove_absent}

-- The two calls, over the state of the loop.
pub record Watch (L : Type 0) : Type 0 where
  pub update : L → Channel → Option (L × Channel)
  pub remove : L → Channel → Option (L × Channel)

-- A call that succeeded and left the channel with what is wanted.
pub data Updated {L : Type 0} (Holds : L → Channel → Option Want → Type 0) (s : Option Want)
    : Option (L × Channel) → Type 0 where
  updated : {l : L} {c : Channel} → Holds l c s → Updated Holds s (some (l, c))

-- `Holds l c s`: what the loop has of the channel agrees with `s`, what is wanted of it (`none`: it
-- is not in the loop).
pub record WatchLaws {L : Type 0} (w : Watch L) : Type 1 where
  pub Holds : L → Channel → Option Want → Type 0
  pub holds-events :
      (l : L) (c : Channel) (s : Option Want) → Holds l c s → c.events ≡ mask (want s)
  pub update_lem :
      (l : L) (c : Channel) (s : Option Want)
      → Holds l c s
      → (v : Want) → Updated Holds (some v) (w.update l (record c { events = mask v }))
  pub remove_lem :
      (l : L) (c : Channel) (v : Want)
      → Holds l c (some v)
      → mask v ≡ 0
      → Updated Holds none (w.remove l c)
  pub remove_busy : (l : L) (c : Channel) → c.events ≢ 0 → w.remove l c ≡ none
  pub remove_absent : (l : L) (c : Channel) → Holds l c none → w.remove l c ≡ none
  pub tie_lem : (l : L) (c : Channel) (s : Option Want) → Holds l c s → Holds l (tie c) s

module _ {K : Type 0} (ep : Epoll K) where
  -- The implementation: the poller.
  abbrev pub poller_watch : Watch (Poller K)
  poller_watch = record { update = update ep; remove = remove ep }

  abbrev pub Agrees : Poller K → Channel → Option Want → Type 0
  Agrees p c s = Linked ep c (p.channels c.fd) (ep.watches p.kernel c.fd) s

  pub agrees-tie :
      {c : Channel} {m : Option ℕ} {k : Option Event} {v : Option Want}
      → Linked ep c m k v
      → Linked ep (tie c) m k v
  agrees-tie (Linked.new hi he) = Linked.new hi he
  agrees-tie (Linked.added hi he) = Linked.added hi he
  agrees-tie (Linked.deleted hi he hz) = Linked.deleted hi he hz

  pub Done-Updated :
      {p : Poller K} {fd id : ℕ} {s : Option Want} {r : Option (Poller K × Channel)}
      → Done ep p fd id s r
      → Updated Agrees s r
  Done-Updated {s = s} (Done.done {p1} {c1} same hid hfd link) =
      Updated.updated
        (subst (λ d. Linked ep c1 (p1.channels d) (ep.watches p1.kernel d) s) (sym hfd) link)

  abbrev pub poller_laws : Documented ep → WatchLaws poller_watch
  poller_laws doc = record {
    Holds = Agrees;
    holds-events = λ p c s h. Linked-events ep h;
    update_lem = λ p c s h v. Done-Updated (update_lem ep doc p c v refl refl h);
    remove_lem = λ p c v h z. Done-Updated (remove_lem ep doc p c v refl refl h z);
    remove_busy = λ p c ne. remove_busy ep p c ne;
    remove_absent = λ p c h. remove_absent ep p c (Linked-absent ep h refl);
    tie_lem = λ p c s h. agrees-tie h;
  }
