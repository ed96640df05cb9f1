-- ===== src/Connection/Keeps/Transfer.antt =====
-- Reading, writing and the end of a connection of net/TcpConnectionff.cpp keep it in step with what it
-- has told its users.
use firey.Prelude.{
  ℕ, ◌≡◌, refl, sym, ap, ◌∙◌, true, false, ◌&&◌, List, [], ◌∷◌, Option, some, none, ◌==◌, ltb,
  if◌then◌else◌, ◌>>=◌, arith, take, Bytes, Bool-cases, Option-cases, ==_iff, ◌≢◌, inl, inr,
}
use Prim.Native.Nat.{bit_and}
use mathlib.Core.Path.{subst}
use firey.Buffer.{readable_bytes, retrieve, read_range, peek}
use firey.Buffer.ReadFd.{ReadResult, failed, got, read_fd}
use firey.Channel.{Channel, is_writing, complement}
use firey.Channel.Coherent.{mask, want, nothing, writing_off, mask-zero}
use firey.Channel.Watch.{Watch, WatchLaws, Updated}
use firey.Connection.{
  Connection, ConnState, Effect, WriteResult, wrote, connection, shut_write, nwrite, is_took,
  is_connected, is_disconnecting, shutdown_in_loop,
}
use firey.Connection.Handlers.{
  remove_channel_of, connection_destroy, after_read, handle_read, drained, write_out, written,
  handle_write,
}
use firey.Connection.Keeps.{
  Phase, accept_all, Matches, is_open, writing_wanted, Inv, Kept, if-Kept, bind-Kept,
  set_channel-Kept,
}
use firey.Connection.Keeps.Sending.{
  open_is_up, closed_open, IsPlain, IsPlain-append, complete-IsPlain, same-Kept, events-eq,
  handle_close-Kept,
}

module _ {L : Type 0} {w : Watch L} (laws : WatchLaws w) where
  removed :
      {ph ph1 : Phase} (c : Connection L) (es : List Effect) (r : Option (L × Channel))
      → Updated laws.Holds none r
      → accept_all ph es ≡ some ph1
      → Matches c.state ph1
      → Kept laws ph (r >>= λ r. some (record c { loop = r.0; channel = r.1 }, es))
  removed c es _ (Updated.updated {l = l} {c = ch} h) he m =
      Kept.goes he (record { wanted = none; holds = h; matches = m; quiet = λ e. refl })

  remove_channel_of-Kept :
      {ph ph1 : Phase} (c : Connection L) (es : List Effect)
      → accept_all ph es ≡ some ph1
      → Inv laws c ph1
      → Kept laws ph (remove_channel_of w c es)
  unfolding remove_channel_of
  remove_channel_of-Kept c es he v = elim (Option-cases v.wanted) [
    | inl e ↦
        rw (laws.remove_absent c.loop c.channel (subst (laws.Holds c.loop c.channel) e v.holds))
          Kept.fails
    | inr (u, e) ↦ elim (Bool-cases (mask u == 0)) [
      | inl z ↦
          removed c es (w.remove c.loop c.channel)
            (laws.remove_lem c.loop c.channel u (subst (laws.Holds c.loop c.channel) e v.holds)
              (ground arith))
            he v.matches
      | inr z ↦
          let busy : c.channel.events ≢ 0 = λ h.
            closed_open
              ((==_iff (mask u) 0).1 (sym (events-eq laws c v ∙ ap (λ o. mask (want o)) e) ∙ h))
              z in
          rw (laws.remove_busy c.loop c.channel busy) Kept.fails
    ]
  ]

  pub connection_destroy-Kept :
      (c : Connection L) {ph : Phase} → Inv laws c ph → Kept laws ph (connection_destroy w c)
  unfolding connection_destroy accept_all
  connection_destroy-Kept c {ph} v =
      if-Kept laws (is_connected c.state) _ _
        (λ conn.
          set_channel-Kept laws (record c { state = ConnState.disconnected }) c.channel 0 nothing
            (λ c1. remove_channel_of w c1 (connection false ∷ [])) v.holds
            (sym (mask-zero false false refl))
            (λ l ch hold.
              remove_channel_of-Kept {ph1 = Phase.down}
                (record c { state = ConnState.disconnected; loop = l; channel = ch })
                (connection false ∷ []) (rw (open_is_up v.matches (rw conn refl)) refl)
                (record {
                  wanted = some nothing;
                  holds = hold;
                  matches = Matches.down;
                  quiet = λ e. refl;
                })))
        (λ _. remove_channel_of-Kept c [] refl v)

  after_read-Kept :
      (c : Connection L) {ph : Phase} (r : ReadResult)
      → Inv laws c ph
      → Kept laws ph (after_read w c r)
  unfolding after_read accept_all
  after_read-Kept c (failed errno) v = same-Kept laws c v
  after_read-Kept c (got []) v = handle_close-Kept laws c v
  after_read-Kept c (got (x ∷ xs)) v = Kept.goes refl v

  pub handle_read-Kept :
      (c : Connection L) {ph : Phase} (readv : ℕ → ReadResult)
      → Inv laws c ph
      → Kept laws ph (handle_read w c readv)
  unfolding handle_read
  handle_read-Kept c readv v = bind-Kept laws (read_fd c.input readv) _ (λ r _.
      after_read-Kept (record c { input = r.1 }) r.0
        (record { wanted = v.wanted; holds = v.holds; matches = v.matches; quiet = v.quiet }))

  shut-IsPlain : (c : Connection L) → IsPlain (if is_writing c.channel then [] else shut_write ∷ [])
  unfolding accept_all
  shut-IsPlain c = elim (Bool-cases (is_writing c.channel)) [
    | inl h ↦ rw h refl
    | inr h ↦ rw h refl
  ]

  drained-Kept :
      (c : Connection L) (es : List Effect)
      → Inv laws c Phase.up
      → IsPlain es
      → Kept laws Phase.up (drained w c es)
  unfolding drained shutdown_in_loop
  drained-Kept c es v he =
      set_channel-Kept laws c c.channel _ (record (want v.wanted) { writing = false }) _ v.holds
        (ap (λ n. bit_and n (complement 4)) (events-eq laws c v)
          ∙ writing_off (want v.wanted).reading (want v.wanted).writing)
        (λ l ch hold.
          let c1 = record c { loop = l; channel = ch } in
          let after : Inv laws c1 Phase.up = record {
            wanted = some (record (want v.wanted) { writing = false });
            holds = hold;
            matches = v.matches;
            quiet = λ e. refl;
          } in
          let plain = IsPlain-append es _ he (complete-IsPlain laws c true) in
          if-Kept laws (is_disconnecting c.state) _ _
            (λ _. Kept.goes (IsPlain-append _ _ plain (shut-IsPlain c1)) after)
            (λ _. Kept.goes plain after))

  write_out-Kept :
      (c : Connection L) (readable : Bytes) (n : ℕ)
      → Inv laws c Phase.up
      → Kept laws Phase.up (write_out w c readable n)
  unfolding write_out accept_all
  write_out-Kept c readable n v = bind-Kept laws (retrieve c.output n) _ (λ out _.
      let after : Inv laws (record c { output = out }) Phase.up = record {
        wanted = v.wanted;
        holds = v.holds;
        matches = v.matches;
        quiet = v.quiet;
      } in
      if-Kept laws (readable_bytes out == 0) _ _
        (λ _. drained-Kept (record c { output = out }) (wrote (take n readable) ∷ []) after refl)
        (λ _. Kept.goes refl after))

  writing_is_open :
      (c : Connection L) {ph : Phase}
      → Inv laws c ph
      → is_writing c.channel ≡ true
      → is_open c.state ≡ true
  writing_is_open c v h = elim (Bool-cases (is_open c.state)) [
    | inl e ↦ e
    | inr e ↦
        closed_open
          (writing_wanted (want v.wanted).reading (want v.wanted).writing
            (ap (λ n. n == 4) (sym (events-eq laws c v)) ∙ h))
          (v.quiet e)
  ]

  pub handle_write-Kept :
      (c : Connection L) {ph : Phase} (r : WriteResult)
      → Inv laws c ph
      → Kept laws ph (handle_write w c r)
  unfolding handle_write written
  handle_write-Kept c {ph} r v =
      if-Kept laws (is_writing c.channel) _ _
        (λ h.
          let e = open_is_up v.matches (writing_is_open c v h) in
          bind-Kept laws (read_range c.output.storage (peek c.output) (readable_bytes c.output)) _
            (λ readable _.
              if-Kept laws (is_took r && ltb 0 (nwrite r)) _ _
                (λ _.
                  subst (λ ph. Kept laws ph (write_out w c readable (nwrite r))) (sym e)
                    (write_out-Kept c readable (nwrite r) (subst (Inv laws c) e v)))
                (λ _. same-Kept laws c v)))
        (λ _. same-Kept laws c v)
