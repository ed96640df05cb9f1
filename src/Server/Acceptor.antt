-- ===== src/Server/Acceptor.antt =====
-- net/Acceptorff.h and net/Acceptorff.cpp, in the thread of the loop. What `accept` and `open` answer are
-- arguments, and the loop's side of the channel is Channel/Watch. `handle_read` is the read callback of the
-- channel.
use firey.Prelude.{
  ℕ, ◌≡◌, refl, sym, ap, ◌∙◌, Bool, true, false, List, [], ◌∷◌, Option, some, none, if◌then◌else◌,
  check, ◌>>=◌, ◌>>◌,
}
use Prim.Native.Nat.{bit_or}
use mathlib.Core.Path.{subst}
use firey.Channel.{Channel, Callback, set_callback, new_channel, with_reading, without_events}
use firey.Channel.Coherent.{Want, mask, mask_of, want, nothing, reading_on}
use firey.Channel.Watch.{Watch, WatchLaws, Updated}

-- A descriptor is `none` for a call that failed.
pub record Acceptor (L : Type 0) : Type 0 where
  pub loop : L
  pub channel : Channel
  pub listening : Bool
  pub has_callback : Bool
  pub idle_fd : Option ℕ

-- The answer of `accept`: a descriptor, or a failure with EMFILE or another `errno` that does not end the
-- program; the line for the log leaves `errno` as it is.
pub data Accepted : Type 0 where
  came : ℕ → Accepted
  no_room failed : Accepted

-- What becomes of a descriptor.
pub data Handed : Type 0 where
  passed : ℕ → Handed
  closed : Option ℕ → Handed

abbrev pub is_open : Option ℕ → Bool
is_open none = false
is_open (some fd) = true

-- The channel of a new acceptor, with its read callback set.
abbrev pub accept_channel : (id fd : ℕ) → Channel
accept_channel id fd = set_callback Callback.read (new_channel id fd)

module _ {L : Type 0} where
  abbrev pub new_acceptor : L → (id fd : ℕ) → (idle : Option ℕ) → Option (Acceptor L)
  new_acceptor l id fd idle =
      let a : Acceptor L = record {
        loop = l;
        channel = accept_channel id fd;
        listening = false;
        has_callback = false;
        idle_fd = idle;
      } in
      check (is_open idle) >> some a

  abbrev pub set_new_connection_callback : Acceptor L → Acceptor L
  set_new_connection_callback a = record a { has_callback = true }

  -- `refused` and `idle`: the answers of the second `accept` and of `open`.
  abbrev pub handle_read :
      Acceptor L → Accepted → (refused idle : Option ℕ) → Acceptor L × List Handed
  handle_read a (came fd) refused idle =
      (a, (if a.has_callback then passed fd else closed (some fd)) ∷ [])
  handle_read a no_room refused idle =
      (record a { idle_fd = idle }, closed a.idle_fd ∷ closed refused ∷ [])
  handle_read a failed refused idle = (a, [])

  abbrev pub at_loop : Acceptor L → L × Channel → Acceptor L
  at_loop a (l, c) = record a { listening = true; loop = l; channel = c }

module _ {L : Type 0} (w : Watch L) where
  unfoldable pub listen : Acceptor L → Option (Acceptor L)
  listen a = w.update a.loop (with_reading a.channel) >>= λ r. some (at_loop a r)

  -- The destructor; it closes the spare descriptor too.
  unfoldable pub destroy : Acceptor L → Option (L × Channel)
  destroy a = w.update a.loop (without_events a.channel) >>= λ r. w.remove r.0 r.1

-- What happens to an acceptor until it is destroyed.
pub data Use : Type 0 where
  sets_callback listens : Use
  reads : Accepted → (refused idle : Option ℕ) → Use

module _ {L : Type 0} (w : Watch L) where
  abbrev pub step : Acceptor L → Use → Option (Acceptor L)
  step a sets_callback = some (set_new_connection_callback a)
  step a listens = listen w a
  step a (reads reply refused idle) = some (handle_read a reply refused idle).0

  unfoldable pub run : Acceptor L → List Use → Option (Acceptor L)
  run a [] = some a
  run a (u ∷ us) = step a u >>= λ b. run b us

module _ {L : Type 0} {w : Watch L} (laws : WatchLaws w) where
  -- The loop agrees with the channel, which waits for connections exactly if the acceptor listens.
  pub data Ready : Option (Acceptor L) → Type 0 where
    ready :
        {a : Acceptor L} (s : Option Want)
        → laws.Holds a.loop a.channel s
        → (want s).reading ≡ a.listening
        → Ready (some a)

  listens_after :
      (a : Acceptor L) (v : Want) (r : Option (L × Channel))
      → v.reading ≡ true
      → Updated laws.Holds (some v) r
      → Ready (r >>= λ u. some (at_loop a u))
  listens_after a v _ e (Updated.updated h) = Ready.ready (some v) h e

  new_acceptor-Ready :
      (l : L) (id fd idle : ℕ)
      → laws.Holds l (accept_channel id fd) none
      → Ready (new_acceptor l id fd (some idle))
  new_acceptor-Ready l id fd idle h = Ready.ready none h refl

  listen-Ready :
      (a : Acceptor L) (s : Option Want) → laws.Holds a.loop a.channel s → Ready (listen w a)
  unfolding listen
  listen-Ready a s h =
      let reads : Want = record { reading = true; writing = (want s).writing } in
      let same : bit_or a.channel.events 1 ≡ mask reads =
        ap (λ e. bit_or e 1) (laws.holds-events a.loop a.channel s h)
        ∙ reading_on (want s).reading (want s).writing in
      listens_after a reads (w.update a.loop (with_reading a.channel)) refl (
        subst
          (λ e. Updated laws.Holds (some reads) (w.update a.loop (record a.channel { events = e })))
          (sym same) (laws.update_lem a.loop a.channel s h reads))

  removed_after :
      (r : Option (L × Channel))
      → Updated laws.Holds (some nothing) r
      → Updated laws.Holds none (r >>= λ u. w.remove u.0 u.1)
  unfolding mask_of
  removed_after _ (Updated.updated {l} {c} h) = laws.remove_lem l c nothing h refl

  destroy-Updated :
      (a : Acceptor L) (s : Option Want)
      → laws.Holds a.loop a.channel s
      → Updated laws.Holds none (destroy w a)
  unfolding destroy mask_of
  destroy-Updated a s h =
      removed_after (w.update a.loop (without_events a.channel))
        (laws.update_lem a.loop a.channel s h nothing)

  step-Ready :
      (a : Acceptor L) (s : Option Want) (u : Use)
      → laws.Holds a.loop a.channel s
      → (want s).reading ≡ a.listening
      → Ready (step w a u)
  step-Ready a s sets_callback h e = Ready.ready s h e
  step-Ready a s listens h e = listen-Ready a s h
  step-Ready a s (reads (came fd) refused idle) h e = Ready.ready s h e
  step-Ready a s (reads no_room refused idle) h e = Ready.ready s h e
  step-Ready a s (reads failed refused idle) h e = Ready.ready s h e

  run-Ready : (us : List Use) (r : Option (Acceptor L)) → Ready r → Ready (r >>= λ a. run w a us)
  unfolding run
  run-Ready [] _ (Ready.ready s h e) = Ready.ready s h e
  run-Ready (u ∷ us) _ (Ready.ready {a} s h e) = run-Ready us (step w a u) (step-Ready a s u h e)

  ends_after :
      (r : Option (Acceptor L)) → Ready r → Updated laws.Holds none (r >>= λ b. destroy w b)
  ends_after _ (Ready.ready {a} s h e) = destroy-Updated a s h

  -- An acceptor whose spare descriptor could be opened is used in any way, listening or not, and destroyed:
  -- no assertion fails, and its channel is then not in the loop.
  pub life-Updated :
      (l : L) (id fd idle : ℕ) (us : List Use)
      → laws.Holds l (accept_channel id fd) none
      → Updated laws.Holds none
          ((new_acceptor l id fd (some idle) >>= λ a. run w a us) >>= λ b. destroy w b)
  life-Updated l id fd idle us h =
      ends_after (new_acceptor l id fd (some idle) >>= λ a. run w a us)
        (run-Ready us (new_acceptor l id fd (some idle)) (new_acceptor-Ready l id fd idle h))
