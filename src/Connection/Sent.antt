-- ===== src/Connection/Sent.antt =====
-- `sendInLoop` of net/TcpConnectionff.cpp: what becomes of the bytes of a message.
use firey.Prelude.{
  ℕ, zero, suc, ◌+◌, ◌-◌, ◌^◌, ◌≤◌, ◌<◌, ◌≡◌, ◌⊎◌, refl, sym, ap, ◌∙◌, Bool, true, false, not, ◌&&◌,
  List, [], ◌∷◌, ◌++◌, append-nil, Option, some, none, ◌==◌, ltb, leb, if◌then◌else◌, arith, length,
  take, drop, Bytes, sub_size, sub_size-eq, Bool-cases, inl, inr, length-drop, drop-length,
}
use mathlib.Core.Path.{subst}
use firey.Buffer.{max_size, readable_bytes}
use firey.Buffer.Contents.{IsValid, contents, length-contents}
use firey.Channel.{is_writing}
use firey.Channel.Coherent.{Want, want}
use firey.Channel.Watch.{Watch, WatchLaws}
use firey.Connection.{
  Connection, Effect, Outcome, WriteResult, is_fault, wrote, took, nwrite, is_disconnected,
  complete, high_water, queued_write_complete, queued_high_water,
}
use firey.Connection.Send.{queue_rest, after_write, send_in_loop}
use firey.Connection.Queued.{sent, sent-complete, queue_rest_lem}

-- A channel that was asked for writing, if anything is left to write.
abbrev pub wanted_after : ℕ → Option Want → Option Want
wanted_after left s = if left == 0 then s else some (record (want s) { writing = true })

-- What is put into the loop for the users when `left` bytes of a message wait and nothing waited before.
abbrev pub notes : {L : Type 0} → Connection L → ℕ → List Effect
notes c zero = if c.has_write_complete then queued_write_complete ∷ [] else []
notes c (suc left) =
    if c.has_high_water && (ltb 0 c.high_water_mark && leb c.high_water_mark (suc left))
    then queued_high_water ∷ []
    else []

module _ {L : Type 0} {w : Watch L} (laws : WatchLaws w) where
  -- A write that took `n` bytes, up to what becomes of the others.
  send_in_loop-eq :
      (c : Connection L) (bytes : Bytes) (n : ℕ)
      → is_disconnected c.state ≡ false
      → is_writing c.channel ≡ false
      → IsValid c.output
      → contents c.output ≡ []
      → 0 < n
      → n ≤ length bytes
      → length bytes < 2 ^ 64
      → send_in_loop w c bytes (took n) ≡ (
          if ltb 0 (length bytes - n)
          then queue_rest w c
              (drop n bytes)
              (wrote (take n bytes) ∷ complete c (length bytes - n == 0))
          else some (c, wrote (take n bytes) ∷ complete c (length bytes - n == 0)))
  unfolding send_in_loop after_write
  send_in_loop-eq c bytes n open_ idle v empty pos fits small =
      let none_left : readable_bytes c.output ≡ 0 =
        omega (arith, length-contents v, ap (λ (t : List ℕ). length t) empty) in
      let test : (not (is_writing c.channel) && readable_bytes c.output == 0) ≡ true =
        rw (idle, none_left) refl in
      let fewer : ltb (length bytes - n) (length bytes) ≡ true = ground arith in
      rw (open_, test, sub_size-eq (length bytes) n fits small, fewer) refl

  skip : (n : ℕ) (x y : Outcome L) → (n == 0) ≡ true → (if ltb 0 n then x else y) ≡ y
  skip n x y h = let e : ltb 0 n ≡ false = ground arith in rw e refl

  take_rest : (n : ℕ) (x y : Outcome L) → (n == 0) ≡ false → (if ltb 0 n then x else y) ≡ x
  take_rest n x y h = let e : ltb 0 n ≡ true = ground arith in rw e refl

  complete-notes :
      (c : Connection L) (left : ℕ) → (left == 0) ≡ true → complete c true ≡ notes c left
  complete-notes c zero e = refl
  complete-notes c (suc left) e = absurd (ground arith)

  high_water-notes :
      (c : Connection L) (left : ℕ)
      → (left == 0) ≡ false
      → complete c false ++ high_water c 0 left ≡ notes c left
  high_water-notes c zero e = absurd (ground arith)
  high_water-notes c (suc left) e =
      elim (Bool-cases
        (c.has_high_water && (ltb 0 c.high_water_mark && leb c.high_water_mark (suc left)))) [
          | inl h ↦
              let k : (leb c.high_water_mark (0 + suc left)
                    && (ltb 0 c.high_water_mark && c.has_high_water))
                  ≡ true =
                ground arith in
              rw (h, k) refl
          | inr h ↦
              let k : (leb c.high_water_mark (0 + suc left)
                    && (ltb 0 c.high_water_mark && c.has_high_water))
                  ≡ false =
                ground arith in
              rw (h, k) refl
        ]

  rest-notes :
      (c : Connection L) (b : Bool) (old rest left : ℕ)
      → b ≡ false
      → old ≡ 0
      → rest ≡ left
      → (left == 0) ≡ false
      → complete c b ++ high_water c old rest ≡ notes c left
  rest-notes c b old rest left eb eo er e = rw (eb, eo, er) (high_water-notes c left e)

  -- A message of an idle open connection, of which the kernel takes `n` bytes: those are sent and the
  -- others wait in the output. If there are others, the channel waits for writing, and for what it waited
  -- for before; else it is as before. The write-complete callback is queued if it is set and nothing is left,
  -- the high-water callback if it is set and no less than a mark above 0 is left.
  pub send_in_loop_lem :
      (c : Connection L) (s : Option Want) (bytes : Bytes) (n : ℕ)
      → is_disconnected c.state ≡ false
      → laws.Holds c.loop c.channel s
      → is_writing c.channel ≡ false
      → IsValid c.output
      → contents c.output ≡ []
      → 0 < n
      → n ≤ length bytes
      → length bytes < 2 ^ 64
      → c.output.writer_index + length bytes ≤ max_size
      → (c1 : Connection L) × (es : List Effect) × (send_in_loop w c bytes (took n) ≡ some (c1, es))
        × (sent es ≡ take n bytes)
        × (contents c1.output ≡ drop n bytes)
        × IsValid c1.output
        × laws.Holds c1.loop c1.channel (wanted_after (length bytes - n) s)
        × (c1.state ≡ c.state)
        × (c1.reading ≡ c.reading)
        × (es ≡ wrote (take n bytes) ∷ notes c (length bytes - n))
  unfolding sent
  send_in_loop_lem c s bytes n open_ h idle v empty pos fits small room =
      let es = wrote (take n bytes) ∷ complete c (length bytes - n == 0) in
      let told : sent es ≡ take n bytes =
        ap (λ t. take n bytes ++ t) (sent-complete laws c (length bytes - n == 0))
        ∙ append-nil (take n bytes) in
      let step = send_in_loop-eq c bytes n open_ idle v empty pos fits small in
      elim (Bool-cases (length bytes - n == 0)) [
        | inl all ↦ (
          c,
          es,
          step ∙ skip (length bytes - n) _ _ all,
          told,
          empty ∙ sym (drop-length n bytes (ground arith)),
          v,
          subst
              (λ b.
                laws.Holds c.loop c.channel
                  (if b then s else some (record (want s) { writing = true })))
              (sym all) h,
          refl,
          refl,
          ap (λ t. wrote (take n bytes) ∷ t)
              (ap (complete c) all ∙ complete-notes c (length bytes - n) all),
        )
        | inr left ↦
            let (c1, es1, made, eq, joined, valid, hold, st, rd, effects) =
              queue_rest_lem laws c s (drop n bytes) es h idle v
                (omega (arith, length-drop n bytes)) in
            (
              c1,
              es1,
              step ∙ take_rest (length bytes - n) _ _ left ∙ made,
              eq ∙ told,
              joined ∙ ap (λ t. t ++ drop n bytes) empty,
              valid,
              subst
                  (λ b.
                    laws.Holds c1.loop c1.channel
                      (if b then s else some (record (want s) { writing = true })))
                  (sym left) hold,
              st,
              rd,
              effects
                  ∙ ap (λ t. wrote (take n bytes) ∷ t)
                      (rest-notes c (length bytes - n == 0) (readable_bytes c.output)
                        (length (drop n bytes)) (length bytes - n) left
                        (omega (arith, length-contents v, ap (λ (t : List ℕ). length t) empty))
                        (length-drop n bytes) left),
            )
      ]

  after_write-none :
      (c : Connection L) (bytes : Bytes) (fault : Bool) (es : List Effect)
      → length bytes < 2 ^ 64
      → after_write w c bytes 0 fault es ≡ none
  unfolding after_write
  after_write-none c bytes fault es small =
      let left : ltb (sub_size (length bytes) 0) (length bytes) ≡ false = ground arith in
      rw left refl

  -- Unless the connection is idle and the kernel takes something, the assertion on the bytes that
  -- remain fails.
  pub send_in_loop-none :
      (c : Connection L) (bytes : Bytes) (r : WriteResult)
      → is_disconnected c.state ≡ false
      → length bytes < 2 ^ 64
      → (is_writing c.channel ≡ true) ⊎ ((0 < readable_bytes c.output) ⊎ (nwrite r ≡ 0))
      → send_in_loop w c bytes r ≡ none
  unfolding send_in_loop
  send_in_loop-none c bytes r open_ small (inl h) =
      rw (open_, h) (after_write-none c bytes false [] small)
  send_in_loop-none c bytes r open_ small (inr (inl h)) =
      let test : (not (is_writing c.channel) && readable_bytes c.output == 0) ≡ false =
        ground arith in
      rw (open_, test) (after_write-none c bytes false [] small)
  send_in_loop-none c bytes r open_ small (inr (inr h)) =
      elim (Bool-cases (not (is_writing c.channel) && readable_bytes c.output == 0)) [
        | inl test ↦ rw (open_, test, h) (after_write-none c bytes (is_fault r) _ small)
        | inr test ↦ rw (open_, test) (after_write-none c bytes false [] small)
      ]
