-- ===== src/Connection/Handlers.antt =====
-- The handlers of the channel's events, and the other methods that reach the loop, of
-- net/TcpConnectionff.cpp.
use firey.Prelude.{
  ℕ, true, false, not, ◌&&◌, ◌||◌, List, [], ◌∷◌, ◌++◌, some, ◌==◌, ltb, if◌then◌else◌, take, Bytes,
  check, ◌>>=◌, ◌>>◌,
}
use firey.Channel.{
  is_writing, is_reading, with_reading, without_reading, without_writing, without_events, tie,
}
use firey.Channel.Watch.{Watch}
use firey.Buffer.{readable_bytes, retrieve, peek, read_range}
use firey.Buffer.ReadFd.{ReadResult, failed, got, read_fd}
use firey.Connection.{
  Connection, ConnState, Effect, WriteResult, Outcome, wrote, connection, message, closed, nwrite,
  is_took, is_connected, is_connecting, is_disconnecting, complete, shutdown_in_loop,
}
use firey.Connection.Send.{set_channel}

module _ {L : Type 0} (w : Watch L) where
  unfoldable pub handle_close : Connection L → Outcome L
  unfolding set_channel
  handle_close c = do
    check (is_connected c.state || is_disconnecting c.state)
    c1 ← set_channel w (record c { state = ConnState.disconnected }) (without_events c.channel)
    some (c1, connection false ∷ closed ∷ [])

  unfoldable pub force_close_in_loop : Connection L → Outcome L
  unfolding handle_close
  force_close_in_loop c =
      if is_connected c.state || is_disconnecting c.state then handle_close c else some (c, [])

  unfoldable pub force_close : Connection L → Outcome L
  unfolding force_close_in_loop
  force_close c =
      if is_connected c.state || is_disconnecting c.state
      then force_close_in_loop (record c { state = ConnState.disconnecting })
      else some (c, [])

  unfoldable pub start_read_in_loop : Connection L → Outcome L
  unfolding set_channel
  start_read_in_loop c =
      if not c.reading || not (is_reading c.channel)
      then (set_channel w c (with_reading c.channel) >>= λ c1.
          some (record c1 { reading = true }, []))
      else some (c, [])

  unfoldable pub stop_read_in_loop : Connection L → Outcome L
  unfolding set_channel
  stop_read_in_loop c =
      if c.reading || is_reading c.channel
      then (set_channel w c (without_reading c.channel) >>= λ c1.
          some (record c1 { reading = false }, []))
      else some (c, [])

  unfoldable pub connection_established : Connection L → Outcome L
  unfolding set_channel
  connection_established c = do
    check (is_connecting c.state)
    c1 ← set_channel w (record c { state = ConnState.connected }) (with_reading (tie c.channel))
    some (c1, connection true ∷ [])

  -- `Channelff::remove`
  unfoldable pub remove_channel_of : Connection L → List Effect → Outcome L
  remove_channel_of c es =
      w.remove c.loop c.channel >>= λ r. some (record c { loop = r.0; channel = r.1 }, es)

  unfoldable pub connection_destroy : Connection L → Outcome L
  unfolding set_channel remove_channel_of
  connection_destroy c =
      if is_connected c.state
      then (set_channel w (record c { state = ConnState.disconnected }) (without_events c.channel)
          >>= λ c1. remove_channel_of c1 (connection false ∷ []))
      else remove_channel_of c []

  unfoldable pub after_read : Connection L → ReadResult → Outcome L
  unfolding handle_close
  after_read c (failed errno) = some (c, [])
  after_read c (got []) = handle_close c
  after_read c (got (x ∷ xs)) = some (c, message ∷ [])

  unfoldable pub handle_read : Connection L → (ℕ → ReadResult) → Outcome L
  unfolding after_read
  handle_read c readv = do r ← read_fd c.input readv; after_read (record c { input = r.1 }) r.0

  -- The output has been written to its end.
  unfoldable pub drained : Connection L → List Effect → Outcome L
  unfolding set_channel
  drained c es = do
    c1 ← set_channel w c (without_writing c.channel)
    let all = es ++ complete c true
    (if is_disconnecting c1.state
        then (shutdown_in_loop c1 >>= λ r. some (r.0, all ++ r.1))
        else some (c1, all))

  unfoldable pub write_out : Connection L → Bytes → ℕ → Outcome L
  unfolding drained
  write_out c readable n = do
    out ← retrieve c.output n
    let c1 = record c { output = out }
    (if readable_bytes out == 0
        then drained c1 (wrote (take n readable) ∷ [])
        else some (c1, wrote (take n readable) ∷ []))

  -- An error, and a write of nothing, are logged.
  unfoldable pub written : Connection L → Bytes → WriteResult → Outcome L
  unfolding write_out
  written c readable r =
      if is_took r && ltb 0 (nwrite r) then write_out c readable (nwrite r) else some (c, [])

  unfoldable pub handle_write : Connection L → WriteResult → Outcome L
  unfolding written
  handle_write c r =
      if is_writing c.channel
      then (read_range c.output.storage (peek c.output) (readable_bytes c.output) >>= λ readable.
          written c readable r)
      else some (c, [])
