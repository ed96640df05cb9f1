-- ===== src/Connection.antt =====
-- net/TcpConnectionff.h and net/TcpConnectionff.cpp: a connection, in the thread of its loop. The
-- answers of the kernel to `write` and `readv` are parameters, and so is the loop's side of the
-- channel (Channel/Watch). A method returns the connection and what it has done, in order; the
-- callbacks of the user are such effects, and what they call on the connection are further calls.
pub mod Send
pub mod Handlers
pub mod Keeps
pub mod Trace
pub mod Queued
pub mod Sent
pub mod Stuck
pub mod Drain
mod Tests
use firey.Prelude.{
  ◌*◌, ℕ, ◌+◌, ◌≡◌, Bool, true, false, not, ◌&&◌, ◌||◌, List, [], ◌∷◌, ◌++◌, Option, some, none,
  ◌==◌, ltb, leb, if◌then◌else◌, length, drop, take, Bytes, check, ◌>>=◌, ◌>>◌, sub_size,
}
use firey.Channel.{
  Channel, is_writing, is_reading, with_reading, with_writing, without_reading, without_writing,
  without_events, tie, new_channel, Callback, set_callback,
}
use firey.Channel.Watch.{Watch}
use firey.Buffer.{Buffer, readable_bytes, append, retrieve, retrieve_all}
use firey.Buffer.ReadFd.{ReadResult, failed, got, read_fd}

pub data ConnState : Type 0 where
  disconnected connecting connected disconnecting : ConnState

abbrev pub is_connected : ConnState → Bool
is_connected ConnState.connected = true
is_connected s = false

abbrev pub is_disconnected : ConnState → Bool
is_disconnected ConnState.disconnected = true
is_disconnected s = false

abbrev pub is_connecting : ConnState → Bool
is_connecting ConnState.connecting = true
is_connecting s = false

abbrev pub is_disconnecting : ConnState → Bool
is_disconnecting ConnState.disconnecting = true
is_disconnecting s = false

-- `loop` is the state of the loop that the channel's methods reach. The last two fields tell
-- whether these callbacks are set.
pub record Connection (L : Type 0) : Type 0 where
  pub state : ConnState
  pub reading : Bool
  pub channel : Channel
  pub loop : L
  pub input : Buffer
  pub output : Buffer
  pub high_water_mark : ℕ
  pub has_write_complete : Bool
  pub has_high_water : Bool

-- `wrote`: bytes that the kernel took. `connection b`: the connection callback, while the
-- connection is up or not. `closed` is the callback of the server, `shut_write` the shutdown of the
-- socket's write side; a `queued` callback waits in the loop.
pub data Effect : Type 0 where
  wrote : Bytes → Effect
  queued_write_complete : Effect
  queued_high_water : Effect
  connection : Bool → Effect
  message : Effect
  closed : Effect
  shut_write : Effect
  close_later : Effect

-- The answer of `write`: a number of bytes, or -1 with EWOULDBLOCK, with EPIPE or ECONNRESET, or with
-- another `errno`.
pub data WriteResult : Type 0 where
  took : ℕ → WriteResult
  would_block broken other_error : WriteResult

-- `nwrite`, which an error leaves 0.
abbrev pub nwrite : WriteResult → ℕ
nwrite (took n) = n
nwrite r = 0

abbrev pub is_fault : WriteResult → Bool
is_fault broken = true
is_fault r = false

abbrev pub is_took : WriteResult → Bool
is_took (took n) = true
is_took r = false

abbrev pub Outcome : Type 0 → Type 0
Outcome L = Option (Connection L × List Effect)

-- The channel of a new connection, with its four callbacks set.
abbrev pub connection_channel : (id fd : ℕ) → Channel
connection_channel id fd = set_callback Callback.error (
    set_callback Callback.close
      (set_callback Callback.write (set_callback Callback.read (new_channel id fd))))

module _ {L : Type 0} where
  -- A write that takes everything queues the callback.
  abbrev pub complete : Connection L → Bool → List Effect
  complete c all = if all && c.has_write_complete then queued_write_complete ∷ [] else []

  abbrev pub high_water : Connection L → ℕ → ℕ → List Effect
  high_water c old remaining =
      if leb c.high_water_mark (old + remaining) && (ltb old c.high_water_mark && c.has_high_water)
      then queued_high_water ∷ []
      else []

  unfoldable pub new_connection : L → ℕ → ℕ → Buffer → Connection L
  new_connection l id fd empty = record {
    state = ConnState.connecting;
    reading = false;
    channel = connection_channel id fd;
    loop = l;
    input = empty;
    output = empty;
    high_water_mark = 64 * 1024 * 1024;
    has_write_complete = false;
    has_high_water = false;
  }

  unfoldable pub set_write_complete_callback : Connection L → Connection L
  set_write_complete_callback c = record c { has_write_complete = true }

  unfoldable pub set_high_water_callback : ℕ → Connection L → Connection L
  set_high_water_callback mark c = record c { has_high_water = true; high_water_mark = mark }

  unfoldable pub shutdown_in_loop : Connection L → Outcome L
  shutdown_in_loop c = some (c, if is_writing c.channel then [] else shut_write ∷ [])

  -- In the loop's thread `runInLoop` calls at once.
  unfoldable pub shutdown : Connection L → Outcome L
  unfolding shutdown_in_loop
  shutdown c =
      if is_connected c.state
      then shutdown_in_loop (record c { state = ConnState.disconnecting })
      else some (c, [])

  unfoldable pub force_close_with_delay : Connection L → Outcome L
  force_close_with_delay c =
      if is_connected c.state || is_disconnecting c.state
      then some (record c { state = ConnState.disconnecting }, close_later ∷ [])
      else some (c, [])
