-- ===== src/Connection/Keeps/Sending.antt =====
-- `handleClose`, `send` and `shutdown` of net/TcpConnectionff.cpp keep a connection in step with what
-- it has told its users.
use firey.Prelude.{
  ℕ, ◌+◌, ◌≡◌, refl, sym, ap, ◌∙◌, Bool, true, false, not, ◌&&◌, List, [], ◌∷◌, ◌++◌, some, ◌==◌,
  ltb, leb, if◌then◌else◌, ◌>>=◌, length, take, drop, Bytes, sub_size, Bool-cases, inl, inr,
}
use Prim.Native.Nat.{bit_or}
use mathlib.Core.Path.{subst}
use firey.Buffer.{readable_bytes, append}
use firey.Channel.{is_writing}
use firey.Channel.Coherent.{mask, want, nothing, writing_on, mask-zero}
use firey.Channel.Watch.{Watch, WatchLaws}
use firey.Connection.{
  Connection, ConnState, Effect, WriteResult, wrote, connection, closed, nwrite, is_fault, is_took,
  is_connected, complete, high_water, shutdown_in_loop, is_disconnected,
}
use firey.Connection.Send.{queue_rest, after_write, send_in_loop, send}
use firey.Connection.Handlers.{handle_close}
use firey.Connection.Keeps.{
  Phase, accept_all, accept_all-append, Matches, is_open, Inv, Kept, if-Kept, bind-Kept, check-Kept,
  set_channel-Kept,
}

pub open_is_up : {s : ConnState} {ph : Phase} → Matches s ph → is_open s ≡ true → ph ≡ Phase.up
open_is_up Matches.fresh h = cc
open_is_up Matches.connected h = refl
open_is_up Matches.disconnecting h = refl
open_is_up Matches.down h = cc
open_is_up Matches.ended h = cc

pub closed_open : {b : Bool} {A : Type 0} → b ≡ true → b ≡ false → A
closed_open h k = cc

-- Effects that an open connection may have.
abbrev pub IsPlain : List Effect → Type 0
IsPlain es = accept_all Phase.up es ≡ some Phase.up

pub IsPlain-append : (es fs : List Effect) → IsPlain es → IsPlain fs → IsPlain (es ++ fs)
IsPlain-append es fs he hf =
    accept_all-append Phase.up es fs ∙ ap (λ o. o >>= λ ph. accept_all ph fs) he ∙ hf

module _ {L : Type 0} {w : Watch L} (laws : WatchLaws w) where
  pub complete-IsPlain : (c : Connection L) (b : Bool) → IsPlain (complete c b)
  unfolding accept_all
  complete-IsPlain c b = elim (Bool-cases (b && c.has_write_complete)) [
    | inl h ↦ rw h refl
    | inr h ↦ rw h refl
  ]

  high_water-IsPlain : (c : Connection L) (old n : ℕ) → IsPlain (high_water c old n)
  unfolding accept_all
  high_water-IsPlain c old n =
      elim (Bool-cases
        (leb c.high_water_mark (old + n) && (ltb old c.high_water_mark && c.has_high_water))) [
          | inl h ↦ rw h refl
          | inr h ↦ rw h refl
        ]

  -- Nothing told, nothing changed.
  pub same-Kept : (c : Connection L) {ph : Phase} → Inv laws c ph → Kept laws ph (some (c, []))
  unfolding accept_all
  same-Kept c v = Kept.goes refl v

  pub events-eq :
      (c : Connection L) {ph : Phase} (v : Inv laws c ph) → c.channel.events ≡ mask (want v.wanted)
  events-eq c v = laws.holds-events c.loop c.channel v.wanted v.holds

  pub handle_close-Kept :
      (c : Connection L) {ph : Phase} → Inv laws c ph → Kept laws ph (handle_close w c)
  unfolding handle_close accept_all
  handle_close-Kept c {ph} v = check-Kept laws (is_open c.state) _ (λ h.
      set_channel-Kept laws (record c { state = ConnState.disconnected }) c.channel 0 nothing
        (λ c1. some (c1, connection false ∷ closed ∷ [])) v.holds (sym (mask-zero false false refl))
        (λ l ch hold. Kept.goes (rw (open_is_up v.matches h) refl) (record {
          wanted = some nothing;
          holds = hold;
          matches = Matches.ended;
          quiet = λ e. refl;
        })))

  wrote-IsPlain :
      (c : Connection L) (bytes : Bytes) (r : WriteResult)
      → IsPlain (
          if is_took r
          then wrote (take (nwrite r) bytes) ∷ complete c (sub_size (length bytes) (nwrite r) == 0)
          else [])
  unfolding accept_all
  wrote-IsPlain c bytes r = elim (Bool-cases (is_took r)) [
    | inl h ↦ rw h (complete-IsPlain c (sub_size (length bytes) (nwrite r) == 0))
    | inr h ↦ rw h refl
  ]

  -- The rest of a message, of an open connection.
  queue_rest-Kept :
      (c : Connection L) (rest : Bytes) (es : List Effect)
      → Inv laws c Phase.up
      → is_open c.state ≡ true
      → IsPlain es
      → Kept laws Phase.up (queue_rest w c rest es)
  unfolding queue_rest
  queue_rest-Kept c rest es v open_ he =
      let all = es ++ high_water c (readable_bytes c.output) (length rest) in
      let plain : IsPlain all =
        IsPlain-append es _ he (high_water-IsPlain c (readable_bytes c.output) (length rest)) in
      bind-Kept laws (append c.output rest) _ (λ out _.
        if-Kept laws (is_writing c.channel) _ _
          (λ _.
            Kept.goes plain
              (record { wanted = v.wanted; holds = v.holds; matches = v.matches; quiet = v.quiet }))
          (λ _.
            set_channel-Kept laws (record c { output = out }) c.channel _
              (record (want v.wanted) { writing = true }) (λ c2. some (c2, all)) v.holds
              (ap (λ n. bit_or n 4) (events-eq c v)
                ∙ writing_on (want v.wanted).reading (want v.wanted).writing)
              (λ l ch hold. Kept.goes plain (record {
                wanted = some (record (want v.wanted) { writing = true });
                holds = hold;
                matches = v.matches;
                quiet = λ shut. closed_open open_ shut;
              }))))

  after_write-Kept :
      (c : Connection L) (bytes : Bytes) (n : ℕ) (fault : Bool) (es : List Effect)
      → Inv laws c Phase.up
      → is_open c.state ≡ true
      → IsPlain es
      → Kept laws Phase.up (after_write w c bytes n fault es)
  unfolding after_write
  after_write-Kept c bytes n fault es v open_ he =
      check-Kept laws (ltb (sub_size (length bytes) n) (length bytes)) _ (λ _.
        if-Kept laws (not fault && ltb 0 (sub_size (length bytes) n)) _ _
          (λ _. queue_rest-Kept c (drop n bytes) es v open_ he) (λ _. Kept.goes he v))

  sending :
      (c : Connection L) (bytes : Bytes) (r : WriteResult)
      → Inv laws c Phase.up
      → is_open c.state ≡ true
      → Kept laws Phase.up (send_in_loop w c bytes r)
  unfolding send_in_loop accept_all
  sending c bytes r v open_ =
      if-Kept laws (is_disconnected c.state) _ _ (λ _. same-Kept c v)
        (λ _.
          if-Kept laws (not (is_writing c.channel) && readable_bytes c.output == 0) _ _
            (λ _.
              after_write-Kept c bytes (nwrite r) (is_fault r) _ v open_ (wrote-IsPlain c bytes r))
            (λ _. after_write-Kept c bytes 0 false [] v open_ refl))

  pub send-Kept :
      (c : Connection L) {ph : Phase} (bytes : Bytes) (r : WriteResult)
      → Inv laws c ph
      → Kept laws ph (send w c bytes r)
  unfolding send send_in_loop
  send-Kept c {ph} bytes r v =
      if-Kept laws (is_connected c.state) _ _
        (λ conn.
          let open_ : is_open c.state ≡ true = rw conn refl in
          let e = open_is_up v.matches open_ in
          subst (λ ph. Kept laws ph (send_in_loop w c bytes r)) (sym e)
            (sending c bytes r (subst (Inv laws c) e v) open_))
        (λ _. same-Kept c v)

  pub shutdown_in_loop-Kept :
      (c : Connection L) → Inv laws c Phase.up → Kept laws Phase.up (shutdown_in_loop c)
  unfolding shutdown_in_loop accept_all
  shutdown_in_loop-Kept c v = elim (Bool-cases (is_writing c.channel)) [
    | inl h ↦ Kept.goes (rw h refl) v
    | inr h ↦ Kept.goes (rw h refl) v
  ]
