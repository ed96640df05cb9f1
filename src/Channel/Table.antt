-- ===== src/Channel/Table.antt =====
-- A small kernel, to run net/Pollerff.cpp with: epoll's table as a function.
use firey.Prelude.{
  ℕ, ◌≡◌, refl, Bool, true, false, Option, some, none, List, [], ◌∷◌, ◌++◌, if◌then◌else◌, ◌==◌,
}
use firey.Channel.Poller.{Op, Event, Epoll, put}
use firey.Channel.Coherent.{Allowed, Documented, after}

-- An entry after a call, and whether the call succeeds.
abbrev pub act : Op → Option Event → Event → Option Event × Bool
act Op.add none e = (some e, true)
act Op.add (some d) e = (some d, false)
act Op.mod_ none e = (none, false)
act Op.mod_ (some d) e = (some e, true)
act Op.del none e = (none, false)
act Op.del (some d) e = (none, true)

act_lem : (op : Op) (o : Option Event) (e : Event) → Allowed op o → act op o e ≡ (after op e, true)
act_lem Op.add none e Allowed.add = refl
act_lem Op.mod_ (some d) e Allowed.mod_ = refl
act_lem Op.del (some d) e Allowed.del = refl
act_lem Op.add (some d) e w = elim w [ ]
act_lem Op.mod_ none e w = elim w [ ]
act_lem Op.del none e w = elim w [ ]

abbrev pub Table : Type 0
Table = ℕ → Option Event

abbrev pub report : Option Event → List Event
report none = []
report (some e) = if e.events == 0 then [] else e ∷ []

-- The descriptors 5 and 6 are always ready for what they are watched for.
abbrev pub epoll : Epoll Table
epoll = record {
  ctl = λ t op fd e. (put t fd (act op (t fd) e).0, (act op (t fd) e).1);
  wait = λ t n. some (report (t 5) ++ report (t 6));
  watches = λ t fd. t fd;
}

pub epoll-Documented : Documented epoll
epoll-Documented t op fd e allowed = rw (act_lem op (t fd) e allowed) (refl, λ j. refl)

abbrev pub empty : Table
empty fd = none
