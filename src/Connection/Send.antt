-- ===== src/Connection/Send.antt =====
-- `send` and `sendInLoop` of net/TcpConnectionff.cpp.
use firey.Prelude.{
  ℕ, Bool, false, not, ◌&&◌, List, [], ◌∷◌, ◌++◌, Option, some, ◌==◌, ltb, if◌then◌else◌, length,
  drop, take, Bytes, check, ◌>>=◌, ◌>>◌, sub_size,
}
use firey.Channel.{Channel, is_writing, with_writing}
use firey.Channel.Watch.{Watch}
use firey.Buffer.{Buffer, readable_bytes, append, retrieve_all, peek, read_range}
use firey.Connection.{
  Connection, Effect, WriteResult, Outcome, wrote, nwrite, is_fault, is_took, is_connected,
  is_disconnected, complete, high_water,
}

module _ {L : Type 0} (w : Watch L) where
  -- A method of the channel, which ends in `update`.
  unfoldable pub set_channel : Connection L → Channel → Option (Connection L)
  set_channel c ch = w.update c.loop ch >>= λ r. some (record c { loop = r.0; channel = r.1 })

  -- The rest of a message goes behind the output.
  unfoldable pub queue_rest : Connection L → Bytes → List Effect → Outcome L
  unfolding set_channel
  queue_rest c rest es = do
    let all = es ++ high_water c (readable_bytes c.output) (length rest)
    out ← append c.output rest
    let c1 = record c { output = out }
    (if is_writing c.channel
        then some (c1, all)
        else (set_channel c1 (with_writing c.channel) >>= λ c2. some (c2, all)))

  -- From the assertion on. `n` bytes were written.
  unfoldable pub after_write : Connection L → Bytes → ℕ → Bool → List Effect → Outcome L
  after_write c data_ n fault es = do
    let remaining = sub_size (length data_) n
    check (ltb remaining (length data_))
    if not fault && ltb 0 remaining then queue_rest c (drop n data_) es else some (c, es)

  unfoldable pub send_in_loop : Connection L → Bytes → WriteResult → Outcome L
  unfolding after_write
  send_in_loop c data_ r =
      if is_disconnected c.state
      then some (c, [])
      else if not (is_writing c.channel) && readable_bytes c.output == 0
      then after_write c data_ (nwrite r) (is_fault r) (
          if is_took r
          then wrote (take (nwrite r) data_) ∷ complete c (sub_size (length data_) (nwrite r) == 0)
          else [])
      else after_write c data_ 0 false []

  unfoldable pub send : Connection L → Bytes → WriteResult → Outcome L
  unfolding send_in_loop
  send c data_ r = if is_connected c.state then send_in_loop c data_ r else some (c, [])

  -- `send(Bufferff*)`: the readable bytes are sent and taken out.
  unfoldable pub send_buffer :
      Connection L → Buffer → WriteResult → Option ((Connection L × List Effect) × Buffer)
  send_buffer c b r =
      if is_connected c.state
      then (read_range b.storage (peek b) (readable_bytes b) >>= λ bytes.
          send_in_loop c bytes r >>= λ o. some (o, retrieve_all b))
      else some ((c, []), b)
