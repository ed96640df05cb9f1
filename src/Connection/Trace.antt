-- ===== src/Connection/Trace.antt =====
-- net/TcpConnectionff.cpp: the life of a connection, under any sequence of events and calls.
use firey.Prelude.{ℕ, ◌≡◌, refl, sym, ap, ◌∙◌, List, [], ◌∷◌, ◌++◌, some, none, ◌>>=◌, Bytes}
use mathlib.Core.Path.{subst}
use firey.Buffer.{Buffer}
use firey.Buffer.ReadFd.{ReadResult}
use firey.Channel.Watch.{Watch, WatchLaws}
use firey.Connection.{
  Connection, Effect, Outcome, WriteResult, new_connection, connection_channel,
  set_write_complete_callback, set_high_water_callback, shutdown, force_close_with_delay,
}
use firey.Connection.Send.{send}
use firey.Connection.Handlers.{
  force_close, start_read_in_loop, stop_read_in_loop, connection_established, connection_destroy,
  handle_read, handle_write,
}
use firey.Connection.Keeps.{Phase, accept_all, accept_all-append, Matches, Inv, Kept}
use firey.Connection.Keeps.Sending.{send-Kept}
use firey.Connection.Keeps.Handling.{
  shutdown-Kept, force_close_with_delay-Kept, force_close-Kept, start_read_in_loop-Kept,
  stop_read_in_loop-Kept, connection_established-Kept,
}
use firey.Connection.Keeps.Transfer.{connection_destroy-Kept, handle_read-Kept, handle_write-Kept}

-- What may come to a connection: from the server, from the loop with the kernel's answer, and from
-- its users.
pub data Call : Type 0 where
  sets_write_complete established destroyed shuts_down force_closes closes_later starts_read
        stops_read :
      Call
  sets_high_water : (mark : ℕ) → Call
  reads : (ℕ → ReadResult) → Call
  writes : WriteResult → Call
  sends : Bytes → WriteResult → Call

module _ {L : Type 0} (w : Watch L) where
  unfoldable pub step : Connection L → Call → Outcome L
  step c sets_write_complete = some (set_write_complete_callback c, [])
  step c (sets_high_water mark) = some (set_high_water_callback mark c, [])
  step c established = connection_established w c
  step c destroyed = connection_destroy w c
  step c shuts_down = shutdown c
  step c force_closes = force_close w c
  step c closes_later = force_close_with_delay c
  step c starts_read = start_read_in_loop w c
  step c stops_read = stop_read_in_loop w c
  step c (reads readv) = handle_read w c readv
  step c (writes r) = handle_write w c r
  step c (sends bytes r) = send w c bytes r

  unfoldable pub run : Connection L → List Call → Outcome L
  run c [] = some (c, [])
  run c (k ∷ ks) = step c k >>= λ r. run r.0 ks >>= λ s. some (s.0, r.1 ++ s.1)

module _ {L : Type 0} {w : Watch L} (laws : WatchLaws w) where
  step-Kept : (c : Connection L) (k : Call) {ph : Phase} → Inv laws c ph → Kept laws ph (step w c k)
  unfolding step accept_all set_write_complete_callback set_high_water_callback
  step-Kept c sets_write_complete v =
      Kept.goes refl
        (record { wanted = v.wanted; holds = v.holds; matches = v.matches; quiet = v.quiet })
  step-Kept c (sets_high_water mark) v =
      Kept.goes refl
        (record { wanted = v.wanted; holds = v.holds; matches = v.matches; quiet = v.quiet })
  step-Kept c established v = connection_established-Kept laws c v
  step-Kept c destroyed v = connection_destroy-Kept laws c v
  step-Kept c shuts_down v = shutdown-Kept laws c v
  step-Kept c force_closes v = force_close-Kept laws c v
  step-Kept c closes_later v = force_close_with_delay-Kept laws c v
  step-Kept c starts_read v = start_read_in_loop-Kept laws c v
  step-Kept c stops_read v = stop_read_in_loop-Kept laws c v
  step-Kept c (reads readv) v = handle_read-Kept laws c readv v
  step-Kept c (writes r) v = handle_write-Kept laws c r v
  step-Kept c (sends bytes r) v = send-Kept laws c bytes r v

  -- Two runs, one after the other.
  then-Kept :
      {ph ph1 : Phase} (es : List Effect) {r : Outcome L}
      → accept_all ph es ≡ some ph1
      → Kept laws ph1 r
      → Kept laws ph (r >>= λ s. some (s.0, es ++ s.1))
  then-Kept es he Kept.fails = Kept.fails
  then-Kept {ph} es he (Kept.goes {es = fs} hf v) =
      Kept.goes (accept_all-append ph es fs ∙ ap (λ o. o >>= λ p. accept_all p fs) he ∙ hf) v

  run-Kept :
      (c : Connection L) (ks : List Call) {ph : Phase} → Inv laws c ph → Kept laws ph (run w c ks)
  unfolding run accept_all
  run-Kept c [] v = Kept.goes refl v
  run-Kept c (k ∷ ks) {ph} v =
      elim (step-Kept c k v)
        as (λ r _. Kept laws ph (r >>= λ r. run w r.0 ks >>= λ s. some (s.0, r.1 ++ s.1))) [
          | Kept.fails ↦ Kept.fails
          | Kept.goes {c = c1} {es = es} he v1 ↦ then-Kept es he (run-Kept c1 ks v1)
        ]

  told :
      {ph : Phase} {r : Outcome L} (c : Connection L) (es : List Effect)
      → Kept laws ph r
      → r ≡ some (c, es)
      → (ph1 : Phase) × (accept_all ph es ≡ some ph1) × Matches c.state ph1
  told c es Kept.fails h = cc
  told {ph} c es (Kept.goes {c = c1} {es = fs} {ph1 = ph1} he v) h =
      let pair : Outcome L → Connection L × List Effect =
        λ o. elim o [ none ↦ (c, es) | some p ↦ p ] in
      (
        ph1,
        ap (λ o. accept_all ph (pair o).1) (sym h) ∙ he,
        subst (λ o. Matches (pair o).0.state ph1) h v.matches,
      )

  -- Whatever comes to a new connection whose channel is not in the loop, and in whatever order, what
  -- it tells its users is in order, as long as no assertion stops the program: up once, then down
  -- once, then closed once; bytes are written, the write side is shut and callbacks are queued only
  -- while it is up; and the state at the end is the one last told.
  pub run-Matches :
      (l : L) (id fd : ℕ) (empty : Buffer)
      → laws.Holds l (connection_channel id fd) none
      → (ks : List Call) (c : Connection L) (es : List Effect)
      → run w (new_connection l id fd empty) ks ≡ some (c, es)
      → (ph : Phase) × (accept_all Phase.fresh es ≡ some ph) × Matches c.state ph
  unfolding new_connection
  run-Matches l id fd empty h ks c es e =
      told c es
        (run-Kept (new_connection l id fd empty) ks
          (record { wanted = none; holds = h; matches = Matches.fresh; quiet = λ e. refl }))
        e
