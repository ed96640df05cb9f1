-- ===== src/Channel/Poller.antt =====
-- net/Pollerff.cpp, and the methods of net/Channelff.h that reach it. epoll is a parameter: what
-- `epoll_ctl` and `epoll_wait` do and answer.
use firey.Prelude.{
  ℕ, ◌*◌, Bool, true, false, List, [], ◌∷◌, Option, some, none, ◌==◌, if◌then◌else◌, check, ◌>>=◌,
  ◌>>◌, length, not,
}
use firey.Channel.{
  Channel, Index, is_none_event, with_reading, with_writing, without_reading, without_writing,
  without_events,
}

pub data Op : Type 0 where
  add mod_ del : Op

-- `struct epoll_event`: `data` is the address of the channel.
pub record Event : Type 0 where
  pub events : ℕ
  pub data_ : ℕ

-- `epoll_ctl` and `epoll_wait` over a state of the kernel, and the descriptors that it watches. A
-- call of `ctl` answers with the new state and whether it succeeded; `wait` is given the length of
-- the array, and `none` is an error.
pub record Epoll (K : Type 0) : Type 0 where
  pub ctl : K → Op → ℕ → Event → K × Bool
  pub wait : K → ℕ → Option (List Event)
  pub watches : K → ℕ → Option Event

abbrev pub event_of : Channel → Event
event_of c = record { events = c.events; data_ = c.id }

abbrev pub put {ℓ} : {A : Type ℓ} → (ℕ → A) → ℕ → A → ℕ → A
put f k v j = if k == j then v else f j

-- `channels_` (the address of the channel of each descriptor), the length of `eventsList_`, and the
-- kernel's side.
pub record Poller (K : Type 0) : Type 0 where
  pub channels : ℕ → Option ℕ
  pub room : ℕ
  pub kernel : K

abbrev pub event_list_size : ℕ
event_list_size = 16

unfoldable pub new_poller : {K : Type 0} → K → Poller K
new_poller k = record { channels = λ fd. none; room = event_list_size; kernel = k }

abbrev pub is_absent : Option ℕ → Bool
is_absent none = true
is_absent (some j) = false

-- The map has this channel under its descriptor.
abbrev pub is_here : Channel → Option ℕ → Bool
is_here c none = false
is_here c (some j) = j == c.id

module _ {K : Type 0} (ep : Epoll K) where
  -- `Pollerff::update`: an error stops the program (LOG_SYSFATAL), unless it is one of
  -- EPOLL_CTL_DEL, which is only logged.
  unfoldable pub control : Poller K → Op → Channel → Option (Poller K)
  control p op c =
      let r = ep.ctl p.kernel op c.fd (event_of c) in
      let done = record p { kernel = r.0 } in
      if r.1 then some done else elim op [ Op.del ↦ some done | _ ↦ none ]

  unfoldable pub update_in : Index → Poller K → Channel → Option (Poller K × Channel)
  update_in Index.new p c = do
    check (is_absent (p.channels c.fd))
    let p1 = record p { channels = put p.channels c.fd (some c.id) } in
        control p1 Op.add (record c { index = Index.added }) >>= λ p2.
        some (p2, record c { index = Index.added })
  update_in Index.deleted p c = do
    check (is_here c (p.channels c.fd))
    p1 ← control p Op.add (record c { index = Index.added })
    some (p1, record c { index = Index.added })
  update_in Index.added p c = do
    check (is_here c (p.channels c.fd))
    (if is_none_event c
        then (control p Op.del c >>= λ p1. some (p1, record c { index = Index.deleted }))
        else (control p Op.mod_ c >>= λ p1. some (p1, c)))

  unfoldable pub update_channel : Poller K → Channel → Option (Poller K × Channel)
  update_channel p c = update_in c.index p c

  -- `Channelff::update`
  unfoldable pub update : Poller K → Channel → Option (Poller K × Channel)
  update p c = update_channel p (record c { add_to_loop = true })

  unfoldable pub remove_in : Index → Poller K → Channel → Option (Poller K × Channel)
  remove_in Index.new p c = none
  remove_in Index.added p c =
      control (record p { channels = put p.channels c.fd none }) Op.del c >>= λ p1.
      some (p1, record c { index = Index.new })
  remove_in Index.deleted p c =
      some (record p { channels = put p.channels c.fd none }, record c { index = Index.new })

  unfoldable pub remove_channel : Poller K → Channel → Option (Poller K × Channel)
  remove_channel p c = do
    check (is_here c (p.channels c.fd))
    check (is_none_event c)
    remove_in c.index p c

  -- `Channelff::remove`
  unfoldable pub remove : Poller K → Channel → Option (Poller K × Channel)
  remove p c = do check (is_none_event c); remove_channel p (record c { add_to_loop = false })

  unfoldable pub enable_reading : Poller K → Channel → Option (Poller K × Channel)
  enable_reading p c = update p (with_reading c)

  unfoldable pub enable_writing : Poller K → Channel → Option (Poller K × Channel)
  enable_writing p c = update p (with_writing c)

  unfoldable pub disable_reading : Poller K → Channel → Option (Poller K × Channel)
  disable_reading p c = update p (without_reading c)

  unfoldable pub disable_writing : Poller K → Channel → Option (Poller K × Channel)
  disable_writing p c = update p (without_writing c)

  unfoldable pub disable_all : Poller K → Channel → Option (Poller K × Channel)
  disable_all p c = update p (without_events c)

  -- The channels of the program by their addresses, and the addresses of the active ones.
  unfoldable pub fill_active_channels :
      Poller K → List Event → (ℕ → Channel) → Option (List ℕ × (ℕ → Channel))
  fill_active_channels p [] at = some ([], at)
  fill_active_channels p (e ∷ es) at = do
    check (is_here (at e.data_) (p.channels (at e.data_).fd))
    let at1 = put at e.data_ (record (at e.data_) { revents = e.events }) in
        fill_active_channels p es at1 >>= λ r. some ((e.data_ ∷ r.0, r.1))

  -- After `epoll_wait`: `none` is an error (which is at most logged).
  unfoldable pub polled :
      Poller K → (ℕ → Channel) → Option (List Event) → Option (Poller K × List ℕ × (ℕ → Channel))
  polled p at none = some (p, [], at)
  polled p at (some es) = do
    r ← fill_active_channels p es at
    some (record p { room = if length es == p.room then 2 * p.room else p.room }, r.0, r.1)

  unfoldable pub poll : Poller K → (ℕ → Channel) → Option (Poller K × List ℕ × (ℕ → Channel))
  poll p at = polled p at (ep.wait p.kernel p.room)

unfoldable pub has_channel : {K : Type 0} → Poller K → Channel → Bool
has_channel p c = not (is_absent (p.channels c.fd))
