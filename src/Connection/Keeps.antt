-- ===== src/Connection/Keeps.antt =====
-- net/TcpConnectionff.cpp: what a connection has told its users, against its state; and the rules by
-- which a method keeps the two in step.
pub mod Sending
pub mod Handling
pub mod Transfer
use firey.Prelude.{
  ℕ, ◌≡◌, refl, sym, ◌∙◌, Bool, true, false, not, ◌||◌, List, [], ◌∷◌, ◌++◌, Option, some, none,
  ◌==◌, if◌then◌else◌, ◌>>=◌, ◌>>◌, check, arith,
}
use mathlib.Core.Path.{subst}
use firey.Channel.{Channel, is_writing}
use firey.Channel.Coherent.{Want, mask, mask_of, want}
use firey.Channel.Watch.{Watch, WatchLaws, Updated}
use firey.Connection.{
  Connection, ConnState, Effect, Outcome, connection, message, closed, is_connected,
  is_disconnecting,
}
use firey.Connection.Send.{set_channel}

-- `fresh`: the user has not been told that the connection is up. `ended`: nor will anything follow
-- the call of the server's callback.
pub data Phase : Type 0 where
  fresh up down ended : Phase

-- One effect: up once, then down once, then closed once. Only while the connection is up are bytes
-- written, is the write side shut, and are callbacks put into the loop. A message may come at any
-- time that the loop reports one.
abbrev pub accept : Phase → Effect → Option Phase
accept ph message = some ph
accept Phase.fresh (connection true) = some Phase.up
accept Phase.up (connection false) = some Phase.down
accept Phase.up (connection true) = none
accept Phase.up closed = none
accept Phase.up e = some Phase.up
accept Phase.down closed = some Phase.ended
accept ph e = none

unfoldable pub accept_all : Phase → List Effect → Option Phase
accept_all ph [] = some ph
accept_all ph (e ∷ es) = accept ph e >>= λ ph1. accept_all ph1 es

pub accept_all-append :
    (ph : Phase) (es fs : List Effect)
    → accept_all ph (es ++ fs) ≡ (accept_all ph es >>= λ ph1. accept_all ph1 fs)
unfolding accept_all
accept_all-append ph [] fs = refl
accept_all-append ph (e ∷ es) fs =
    elim (accept ph e)
      as (λ o.
        (o >>= λ ph1. accept_all ph1 (es ++ fs))
        ≡ ((o >>= λ ph1. accept_all ph1 es) >>= λ ph1. accept_all ph1 fs)) [
          | none ↦ refl
          | some ph1 ↦ accept_all-append ph1 es fs
        ]

pub data Matches : ConnState → Phase → Type 0 where
  fresh : Matches ConnState.connecting Phase.fresh
  connected : Matches ConnState.connected Phase.up
  disconnecting : Matches ConnState.disconnecting Phase.up
  down : Matches ConnState.disconnected Phase.down
  ended : Matches ConnState.disconnected Phase.ended

abbrev pub is_open : ConnState → Bool
is_open s = is_connected s || is_disconnecting s

-- A channel that counts as writing waits for writing.
pub writing_wanted : (r w : Bool) → (mask_of r w == 4) ≡ true → w ≡ true
unfolding mask_of
writing_wanted r true h = refl
writing_wanted true false h = cc
writing_wanted false false h = cc

module _ {L : Type 0} {w : Watch L} (laws : WatchLaws w) where
  -- The loop agrees with the channel, and the state with what was told. Unless the connection is
  -- open, the channel does not wait for writing.
  pub record Inv (c : Connection L) (ph : Phase) : Type 0 where
    pub wanted : Option Want
    pub holds : laws.Holds c.loop c.channel wanted
    pub matches : Matches c.state ph
    pub quiet : is_open c.state ≡ false → (want wanted).writing ≡ false

  pub data Kept (ph : Phase) : Outcome L → Type 0 where
    fails : Kept ph none
    goes :
        {c : Connection L} {es : List Effect} {ph1 : Phase}
        → accept_all ph es ≡ some ph1
        → Inv c ph1
        → Kept ph (some (c, es))

  pub if-Kept :
      {ph : Phase} (b : Bool) (x y : Outcome L)
      → (b ≡ true → Kept ph x)
      → (b ≡ false → Kept ph y)
      → Kept ph (if b then x else y)
  if-Kept true x y hx hy = hx refl
  if-Kept false x y hx hy = hy refl

  pub bind-Kept :
      {ph : Phase} {A : Type 0} (m : Option A) (k : A → Outcome L)
      → ((a : A) → m ≡ some a → Kept ph (k a))
      → Kept ph (m >>= k)
  bind-Kept none k h = fails
  bind-Kept (some a) k h = h a refl

  pub check-Kept :
      {ph : Phase} (b : Bool) (m : Outcome L) → (b ≡ true → Kept ph m) → Kept ph (check b >> m)
  check-Kept true m h = h refl
  check-Kept false m h = fails

  update_bind :
      {ph : Phase} {v : Option Want} (c : Connection L) (r : Option (L × Channel))
      (k : Connection L → Outcome L)
      → Updated laws.Holds v r
      → ((l : L) (ch : Channel)
          → laws.Holds l ch v
          → Kept ph (k (record c { loop = l; channel = ch })))
      → Kept ph ((r >>= λ r. some (record c { loop = r.0; channel = r.1 })) >>= k)
  update_bind c _ k (Updated.updated {l = l} {c = ch} h) f = f l ch h

  -- A method of the channel: `n` is the new mask, `v` what is wanted then.
  pub set_channel-Kept :
      {ph : Phase} {s : Option Want} (c : Connection L) (ch : Channel) (n : ℕ) (v : Want)
      (k : Connection L → Outcome L)
      → laws.Holds c.loop ch s
      → n ≡ mask v
      → ((l : L) (ch1 : Channel)
          → laws.Holds l ch1 (some v)
          → Kept ph (k (record c { loop = l; channel = ch1 })))
      → Kept ph (set_channel w c (record ch { events = n }) >>= k)
  unfolding set_channel
  set_channel-Kept {s = s} c ch n v k h e f =
      update_bind c (w.update c.loop (record ch { events = n })) k
        (subst (λ n. Updated laws.Holds (some v) (w.update c.loop (record ch { events = n })))
          (sym e) (laws.update_lem c.loop ch s h v))
        f
