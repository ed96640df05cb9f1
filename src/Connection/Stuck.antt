-- ===== src/Connection/Stuck.antt =====
-- net/TcpConnectionff.cpp with `isWriting` and `isReading` of net/Channelff.h: what follows a write that
-- takes a part of a message.
use firey.Prelude.{
  ℕ, ◌+◌, ◌-◌, ◌^◌, ◌≤◌, ◌<◌, ◌≡◌, refl, ap, ◌∙◌, true, false, List, [], ◌∷◌, some, none, ◌==◌,
  if◌then◌else◌, arith, length, drop, Bytes, inl, inr, length-drop,
}
use mathlib.Core.Path.{subst}
use firey.Buffer.{max_size, readable_bytes}
use firey.Buffer.Contents.{IsValid, contents, length-contents}
use firey.Channel.{is_writing, is_reading}
use firey.Channel.Coherent.{Want, mask_of}
use firey.Channel.Watch.{Watch, WatchLaws}
use firey.Connection.{
  Connection, Effect, WriteResult, took, shut_write, is_disconnected, shutdown_in_loop,
}
use firey.Connection.Send.{send_in_loop}
use firey.Connection.Handlers.{handle_write, stop_read_in_loop}
use firey.Connection.Sent.{send_in_loop_lem, send_in_loop-none}

abbrev pub reads_only : Want
reads_only = record { reading = true; writing = false }

both_mask : mask_of true true ≡ 5
unfolding mask_of
both_mask = refl

read_mask : mask_of true false ≡ 1
unfolding mask_of
read_mask = refl

module _ {L : Type 0} {w : Watch L} (laws : WatchLaws w) where
  -- A connection that waits for both kinds of events, with output left.
  pub record Stuck (c : Connection L) : Type 0 where
    pub never_writes : (r : WriteResult) → handle_write w c r ≡ some (c, [])
    pub never_sends :
        (more : Bytes) (r : WriteResult) → length more < 2 ^ 64 → send_in_loop w c more r ≡ none
    pub shuts_early : shutdown_in_loop c ≡ some (c, shut_write ∷ [])
    pub keeps_reading : c.reading ≡ false → stop_read_in_loop w c ≡ some (c, [])

  both-Stuck :
      (c : Connection L)
      → c.channel.events ≡ 5
      → is_disconnected c.state ≡ false
      → 0 < readable_bytes c.output
      → Stuck c
  unfolding handle_write shutdown_in_loop stop_read_in_loop
  both-Stuck c e open_ left =
      let idle : is_writing c.channel ≡ false = rw e refl in
      let deaf : is_reading c.channel ≡ false = rw e refl in
      record {
        never_writes = λ r. rw idle refl;
        never_sends = λ more r small. send_in_loop-none laws c more r open_ small (inr (inl left));
        shuts_early = rw idle refl;
        keeps_reading = λ h. rw (h, deaf) refl;
      }

  -- A connection that waits for reading sends a message of which the kernel takes a part. The rest
  -- waits in the output, and then: the event that it can be written writes nothing, another message
  -- fails an assertion, `shutdown` shuts the write side at once, and `stopRead` after
  -- `connectionEstablished` (which leaves `reading_` false) does nothing.
  pub partial_send-Stuck :
      (c : Connection L) (bytes : Bytes) (n : ℕ)
      → is_disconnected c.state ≡ false
      → laws.Holds c.loop c.channel (some reads_only)
      → IsValid c.output
      → contents c.output ≡ []
      → 0 < n
      → n < length bytes
      → length bytes < 2 ^ 64
      → c.output.writer_index + length bytes ≤ max_size
      → (c1 : Connection L) × (es : List Effect) × (send_in_loop w c bytes (took n) ≡ some (c1, es))
        × (contents c1.output ≡ drop n bytes)
        × (c1.reading ≡ c.reading)
        × Stuck c1
  partial_send-Stuck c bytes n open_ h v empty pos part small room =
      let before = laws.holds-events c.loop c.channel (some reads_only) h in
      let idle : is_writing c.channel ≡ false = ap (λ k. k == 4) (before ∙ read_mask) in
      let (c1, es, made, told, left, valid, hold, st, rd, effects) =
        send_in_loop_lem laws c (some reads_only) bytes n open_ h idle v empty pos (omega arith)
          small room in
      let some_left : (length bytes - n == 0) ≡ false = ground arith in
      let asked =
        subst
          (λ b.
            laws.Holds c1.loop c1.channel
              (if b then some reads_only else some (record { reading = true; writing = true })))
          some_left hold in
      (
        c1,
        es,
        made,
        left,
        rd,
        both-Stuck c1
            (laws.holds-events c1.loop c1.channel (some (record { reading = true; writing = true }))
                asked
              ∙ both_mask)
            (ap is_disconnected st ∙ open_)
            (omega (
              arith,
              length-contents valid,
              ap (λ (t : Bytes). length t) left,
              length-drop n bytes,
            )),
      )
