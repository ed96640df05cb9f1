-- ===== src/Connection/Keeps/Handling.antt =====
-- The other methods of net/TcpConnectionff.cpp keep a connection in step with what it has told its
-- users.
use firey.Prelude.{◌≡◌, refl, sym, ap, ◌∙◌, true, false, not, ◌||◌, [], ◌∷◌, some}
use Prim.Native.Nat.{bit_and, bit_or}
use mathlib.Core.Path.{subst}
use firey.Channel.{is_reading, tie, complement}
use firey.Channel.Coherent.{want, reading_on, reading_off}
use firey.Channel.Watch.{Watch, WatchLaws}
use firey.Connection.{
  Connection, ConnState, connection, is_connected, is_connecting, shutdown_in_loop, shutdown,
  force_close_with_delay,
}
use firey.Connection.Handlers.{
  force_close_in_loop, force_close, start_read_in_loop, stop_read_in_loop, connection_established,
}
use firey.Connection.Keeps.{
  Phase, accept_all, Matches, is_open, Inv, Kept, if-Kept, check-Kept, set_channel-Kept,
}
use firey.Connection.Keeps.Sending.{
  open_is_up, same-Kept, events-eq, handle_close-Kept, shutdown_in_loop-Kept,
}

module _ {L : Type 0} {w : Watch L} (laws : WatchLaws w) where
  -- An open connection that is to be closed.
  leaving :
      {c : Connection L}
      → Inv laws c Phase.up
      → Inv laws (record c { state = ConnState.disconnecting }) Phase.up
  leaving v = record {
    wanted = v.wanted;
    holds = v.holds;
    matches = Matches.disconnecting;
    quiet = λ h. cc;
  }

  pub shutdown-Kept : (c : Connection L) {ph : Phase} → Inv laws c ph → Kept laws ph (shutdown c)
  unfolding shutdown
  shutdown-Kept c {ph} v =
      if-Kept laws (is_connected c.state) _ _
        (λ conn.
          let e = open_is_up v.matches (rw conn refl) in
          subst
            (λ ph. Kept laws ph (shutdown_in_loop (record c { state = ConnState.disconnecting })))
            (sym e)
            (shutdown_in_loop-Kept laws (record c { state = ConnState.disconnecting })
              (leaving (subst (Inv laws c) e v))))
        (λ _. same-Kept laws c v)

  pub force_close_with_delay-Kept :
      (c : Connection L) {ph : Phase} → Inv laws c ph → Kept laws ph (force_close_with_delay c)
  unfolding force_close_with_delay accept_all
  force_close_with_delay-Kept c {ph} v =
      if-Kept laws (is_open c.state) _ _
        (λ h.
          let e = open_is_up v.matches h in
          Kept.goes {ph1 = Phase.up} (rw e refl) (leaving (subst (Inv laws c) e v)))
        (λ _. same-Kept laws c v)

  force_close_in_loop-Kept :
      (c : Connection L) {ph : Phase} → Inv laws c ph → Kept laws ph (force_close_in_loop w c)
  unfolding force_close_in_loop
  force_close_in_loop-Kept c v =
      if-Kept laws (is_open c.state) _ _ (λ _. handle_close-Kept laws c v) (λ _. same-Kept laws c v)

  pub force_close-Kept :
      (c : Connection L) {ph : Phase} → Inv laws c ph → Kept laws ph (force_close w c)
  unfolding force_close
  force_close-Kept c {ph} v =
      if-Kept laws (is_open c.state) _ _
        (λ h.
          let c1 = record c { state = ConnState.disconnecting } in
          let e = open_is_up v.matches h in
          subst (λ ph. Kept laws ph (force_close_in_loop w c1)) (sym e)
            (force_close_in_loop-Kept c1 (leaving (subst (Inv laws c) e v))))
        (λ _. same-Kept laws c v)

  pub start_read_in_loop-Kept :
      (c : Connection L) {ph : Phase} → Inv laws c ph → Kept laws ph (start_read_in_loop w c)
  unfolding start_read_in_loop accept_all
  start_read_in_loop-Kept c v =
      if-Kept laws (not c.reading || not (is_reading c.channel)) _ _
        (λ _.
          set_channel-Kept laws c c.channel _ (record (want v.wanted) { reading = true })
            (λ c1. some (record c1 { reading = true }, [])) v.holds
            (ap (λ n. bit_or n 1) (events-eq laws c v)
              ∙ reading_on (want v.wanted).reading (want v.wanted).writing)
            (λ l ch hold. Kept.goes refl (record {
              wanted = some (record (want v.wanted) { reading = true });
              holds = hold;
              matches = v.matches;
              quiet = v.quiet;
            })))
        (λ _. same-Kept laws c v)

  pub stop_read_in_loop-Kept :
      (c : Connection L) {ph : Phase} → Inv laws c ph → Kept laws ph (stop_read_in_loop w c)
  unfolding stop_read_in_loop accept_all
  stop_read_in_loop-Kept c v =
      if-Kept laws (c.reading || is_reading c.channel) _ _
        (λ _.
          set_channel-Kept laws c c.channel _ (record (want v.wanted) { reading = false })
            (λ c1. some (record c1 { reading = false }, [])) v.holds
            (ap (λ n. bit_and n (complement 1)) (events-eq laws c v)
              ∙ reading_off (want v.wanted).reading (want v.wanted).writing)
            (λ l ch hold. Kept.goes refl (record {
              wanted = some (record (want v.wanted) { reading = false });
              holds = hold;
              matches = v.matches;
              quiet = v.quiet;
            })))
        (λ _. same-Kept laws c v)

  connecting_is_fresh :
      {s : ConnState} {ph : Phase} → Matches s ph → is_connecting s ≡ true → ph ≡ Phase.fresh
  connecting_is_fresh Matches.fresh h = refl
  connecting_is_fresh Matches.connected h = cc
  connecting_is_fresh Matches.disconnecting h = cc
  connecting_is_fresh Matches.down h = cc
  connecting_is_fresh Matches.ended h = cc

  pub connection_established-Kept :
      (c : Connection L) {ph : Phase} → Inv laws c ph → Kept laws ph (connection_established w c)
  unfolding connection_established accept_all
  connection_established-Kept c v = check-Kept laws (is_connecting c.state) _ (λ h.
      set_channel-Kept laws (record c { state = ConnState.connected }) (tie c.channel) _
        (record (want v.wanted) { reading = true }) (λ c1. some (c1, connection true ∷ []))
        (laws.tie_lem c.loop c.channel v.wanted v.holds)
        (ap (λ n. bit_or n 1) (events-eq laws c v)
          ∙ reading_on (want v.wanted).reading (want v.wanted).writing)
        (λ l ch hold.
          Kept.goes {ph1 = Phase.up} (rw (connecting_is_fresh v.matches h) refl) (record {
            wanted = some (record (want v.wanted) { reading = true });
            holds = hold;
            matches = Matches.connected;
            quiet = λ e. cc;
          })))
