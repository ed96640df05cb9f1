-- ===== src/Channel.antt =====
-- net/Channelff.h, net/Channelff.cpp, net/Pollerff.h and net/Pollerff.cpp: a channel is one file
-- descriptor with the events it waits for, and the poller keeps the channels of a loop. All calls
-- are made in the loop's thread, so `assertInLoopThread` holds.
pub mod Poller
pub mod Coherent
pub mod Moves
pub mod Life
pub mod Runs
pub mod Poll
pub mod Events
pub mod Watch
pub mod Table
mod Tests
use Prim.Native.Nat.{bit_and, bit_or}
use firey.Prelude.{
  ℕ, ◌-◌, ◌^◌, ◌≡◌, Bool, true, false, not, ◌&&◌, List, [], ◌∷◌, ◌++◌, Option, some, none, ◌==◌,
  if◌then◌else◌, ◌+◌,
}

-- The constants of <sys/epoll.h>.
abbrev pub epollin : ℕ
epollin = 1

abbrev pub epollpri : ℕ
epollpri = 2

abbrev pub epollout : ℕ
epollout = 4

abbrev pub epollerr : ℕ
epollerr = 8

abbrev pub epollhup : ℕ
epollhup = 16

abbrev pub epollrdhup : ℕ
epollrdhup = 8192

abbrev pub none_event : ℕ
none_event = 0

abbrev pub read_event : ℕ
read_event = epollin

abbrev pub write_event : ℕ
write_event = epollout

-- `kNew`, `kAdded` and `kDeleted` of the poller.
pub data Index : Type 0 where
  new added deleted : Index

-- The four callbacks that a channel may have.
pub data Callback : Type 0 where
  read write error close : Callback

-- `id` is the address of the object; `has_callback` tells which callbacks are set.
pub record Channel : Type 0 where
  pub id : ℕ
  pub fd : ℕ
  pub events : ℕ
  pub revents : ℕ
  pub index : Index
  pub add_to_loop : Bool
  pub tied : Bool
  pub has_callback : Callback → Bool

unfoldable pub new_channel : ℕ → ℕ → Channel
new_channel id fd = record {
  id = id;
  fd = fd;
  events = 0;
  revents = 0;
  index = Index.new;
  add_to_loop = false;
  tied = false;
  has_callback = λ k. false;
}

abbrev pub same : Callback → Callback → Bool
same Callback.read Callback.read = true
same Callback.write Callback.write = true
same Callback.error Callback.error = true
same Callback.close Callback.close = true
same k l = false

-- The four setters of callbacks.
unfoldable pub set_callback : Callback → Channel → Channel
set_callback k c = record c { has_callback = λ l. if same k l then true else c.has_callback l }

abbrev pub is_none_event : Channel → Bool
is_none_event c = c.events == none_event

abbrev pub is_reading : Channel → Bool
is_reading c = c.events == read_event

abbrev pub is_writing : Channel → Bool
is_writing c = c.events == write_event

-- `~k` of an `int`, as a bit pattern.
abbrev pub complement : ℕ → ℕ
complement k = 2 ^ 32 - 1 - k

-- The event masks that the methods set, before `update` is called.
abbrev pub with_reading : Channel → Channel
with_reading c = record c { events = bit_or c.events read_event }

abbrev pub with_writing : Channel → Channel
with_writing c = record c { events = bit_or c.events write_event }

abbrev pub without_reading : Channel → Channel
without_reading c = record c { events = bit_and c.events (complement read_event) }

abbrev pub without_writing : Channel → Channel
without_writing c = record c { events = bit_and c.events (complement write_event) }

abbrev pub without_events : Channel → Channel
without_events c = record c { events = none_event }

abbrev pub tie : Channel → Channel
tie c = record c { tied = true }

abbrev pub has_event : ℕ → ℕ → Bool
has_event revents mask = not (bit_and revents mask == 0)

unfoldable pub call : Channel → Callback → List Callback
call c k = if c.has_callback k then k ∷ [] else []

-- The callbacks that are called, in order.
unfoldable pub handle_event_with_guard : Channel → List Callback
unfolding call
handle_event_with_guard c =
    (if has_event c.revents epollerr then call c Callback.error else [])
    ++ ((if has_event c.revents (epollin + epollpri + epollrdhup) then call c Callback.read else [])
        ++ (if has_event c.revents epollout then call c Callback.write else []))

-- `alive`: the tied object can still be locked.
unfoldable pub handle_event : Channel → Bool → List Callback
handle_event c alive =
    if c.tied then if alive then handle_event_with_guard c else [] else handle_event_with_guard c
