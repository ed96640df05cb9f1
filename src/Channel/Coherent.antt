-- ===== src/Channel/Coherent.antt =====
-- net/Channelff.cpp and net/Pollerff.cpp: what the three records of a channel (its index, the map of
-- the poller, the table of the kernel) have to do with each other, and that every call keeps it.
use firey.Prelude.{ℕ, ◌≡◌, ◌≢◌, refl, ◌∙◌, sym, Bool, true, false, Option, some, none, arith, ◌||◌}
use Prim.Native.Nat.{bit_and, bit_or}
use firey.Channel.{complement, Channel, Index}
use firey.Channel.Poller.{Op, Event, Epoll, Poller, put, event_of, control, is_here}

-- What a client wants of a channel in the loop.
pub record Want : Type 0 where
  pub reading : Bool
  pub writing : Bool

-- Its event mask.
unfoldable pub mask_of : (reading writing : Bool) → ℕ
mask_of false false = 0
mask_of true false = 1
mask_of false true = 4
mask_of true true = 5

abbrev pub mask : Want → ℕ
mask w = mask_of w.reading w.writing

abbrev pub nothing : Want
nothing = record { reading = false; writing = false }

abbrev pub want : Option Want → Want
want none = nothing
want (some w) = w

-- The state of the kernel's entry for a descriptor that epoll_ctl(2) asks for, and what it leaves.
pub data Allowed : Op → Option Event → Type 0 where
  add : Allowed Op.add none
  mod_ : {e : Event} → Allowed Op.mod_ (some e)
  del : {e : Event} → Allowed Op.del (some e)

abbrev pub after : Op → Event → Option Event
after Op.add e = some e
after Op.mod_ e = some e
after Op.del e = none

pub put_self : {A : Type 0} (f : ℕ → A) (k : ℕ) (v : A) → put f k v k ≡ v
put_self f k v = ground arith

pub put_other : {A : Type 0} (f : ℕ → A) (k j : ℕ) (v : A) → j ≢ k → put f k v j ≡ f j
put_other f k j v ne = ground arith

-- The methods of the channel on such a mask.
pub reading_on : (r w : Bool) → bit_or (mask_of r w) 1 ≡ mask_of true w
unfolding mask_of
reading_on false false = refl
reading_on false true = refl
reading_on true false = refl
reading_on true true = refl

pub writing_on : (r w : Bool) → bit_or (mask_of r w) 4 ≡ mask_of r true
unfolding mask_of
writing_on false false = refl
writing_on false true = refl
writing_on true false = refl
writing_on true true = refl

pub reading_off : (r w : Bool) → bit_and (mask_of r w) (complement 1) ≡ mask_of false w
unfolding mask_of
reading_off false false = refl
reading_off false true = refl
reading_off true false = refl
reading_off true true = refl

pub writing_off : (r w : Bool) → bit_and (mask_of r w) (complement 4) ≡ mask_of r false
unfolding mask_of
writing_off false false = refl
writing_off false true = refl
writing_off true false = refl
writing_off true true = refl

pub mask-zero : (r w : Bool) → (r || w) ≡ false → mask_of r w ≡ 0
unfolding mask_of
mask-zero false false h = refl
mask-zero true w h = cc
mask-zero false true h = cc

pub mask-nonzero : (r w : Bool) → (r || w) ≡ true → mask_of r w ≢ 0
unfolding mask_of
mask-nonzero true false h e = ground arith
mask-nonzero true true h e = ground arith
mask-nonzero false true h e = ground arith
mask-nonzero false false h e = cc

pub is_here_self : (c : Channel) → is_here c (some c.id) ≡ true
is_here_self c = ground arith

module _ {K : Type 0} (ep : Epoll K) where
  -- epoll_ctl(2): an allowed call on an open descriptor succeeds and changes that entry only.
  abbrev pub Documented : Type 0
  Documented =
      (k : K) (op : Op) (fd : ℕ) (e : Event)
      → Allowed op (ep.watches k fd)
      → ((ep.ctl k op fd e).1 ≡ true)
        × ((j : ℕ) → ep.watches (ep.ctl k op fd e).0 j ≡ put (ep.watches k) fd (after op e) j)

  -- A channel, its entry in the poller's map and its entry in the kernel.
  pub data Linked : Channel → Option ℕ → Option Event → Option Want → Type 0 where
    new : {c : Channel} → c.index ≡ Index.new → c.events ≡ 0 → Linked c none none none
    added :
        {c : Channel} {w : Want}
        → c.index ≡ Index.added
        → c.events ≡ mask w
        → Linked c (some c.id) (some (record { events = mask w; data_ = c.id })) (some w)
    deleted :
        {c : Channel} {w : Want}
        → c.index ≡ Index.deleted
        → c.events ≡ 0
        → mask w ≡ 0
        → Linked c (some c.id) none (some w)

  pub control_lem :
      Documented
      → (p : Poller K) (op : Op) (c : Channel) → Allowed op (ep.watches p.kernel c.fd)
      → control ep p op c ≡ some (record p { kernel = (ep.ctl p.kernel op c.fd (event_of c)).0 })
  unfolding control
  control_lem doc p op c allowed = rw ((doc p.kernel op c.fd (event_of c) allowed).0)

  -- Descriptors other than `fd` keep their entries.
  pub record Same (fd : ℕ) (p p1 : Poller K) : Type 0 where
    pub channels : (j : ℕ) → j ≢ fd → p1.channels j ≡ p.channels j
    pub watches : (j : ℕ) → j ≢ fd → ep.watches p1.kernel j ≡ ep.watches p.kernel j
    pub room : p1.room ≡ p.room

  -- A call that succeeded, for the channel of address `id` and descriptor `fd`.
  pub data Done (p : Poller K) (fd id : ℕ) (s : Option Want)
      : Option (Poller K × Channel) → Type 0 where
    done :
        {p1 : Poller K} {c1 : Channel}
        → Same fd p p1
        → c1.id ≡ id
        → c1.fd ≡ fd
        → Linked c1 (p1.channels fd) (ep.watches p1.kernel fd) s
        → Done p fd id s (some (p1, c1))

  -- An allowed call of `epoll_ctl` on `fd`, and what the kernel has for `fd` after it.
  pub ctl-Same :
      Documented
      → (p : Poller K) (op : Op) (fd : ℕ) (e : Event) → Allowed op (ep.watches p.kernel fd)
      → (f : ℕ → Option ℕ) → ((j : ℕ) → j ≢ fd → f j ≡ p.channels j)
      → Same fd p (record p { channels = f; kernel = (ep.ctl p.kernel op fd e).0 })
  ctl-Same doc p op fd e allowed f others = record {
    channels = others;
    watches = λ j ne.
        (doc p.kernel op fd e allowed).1 j ∙ put_other (ep.watches p.kernel) fd j (after op e) ne;
    room = refl;
  }

  pub watches_here :
      Documented
      → (k : K) (op : Op) (fd : ℕ) (e : Event) → Allowed op (ep.watches k fd)
      → ep.watches (ep.ctl k op fd e).0 fd ≡ after op e
  watches_here doc k op fd e allowed =
      (doc k op fd e allowed).1 fd ∙ put_self (ep.watches k) fd (after op e)

  pub Linked-events :
      {c : Channel} {m : Option ℕ} {k : Option Event} {v : Option Want}
      → Linked c m k v
      → c.events ≡ mask (want v)
  unfolding mask_of
  Linked-events (Linked.new hi he) = he
  Linked-events (Linked.added hi he) = he
  Linked-events (Linked.deleted hi he hz) = he ∙ sym hz

  pub Linked-absent :
      {c : Channel} {m : Option ℕ} {k : Option Event} {v : Option Want}
      → Linked c m k v
      → v ≡ none
      → m ≡ none
  Linked-absent (Linked.new hi he) e = refl
  Linked-absent (Linked.added hi he) e = cc
  Linked-absent (Linked.deleted hi he hz) e = cc
