-- ===== src/Connection/Drain.antt =====
-- `handleWrite` of net/TcpConnectionff.cpp: how a channel that waits for writing alone empties the
-- output.
use firey.Prelude.{
  ℕ, zero, suc, ◌-◌, ◌≤◌, ◌<◌, ◌≡◌, refl, sym, ap, ◌∙◌, true, false, List, [], ◌∷◌, ◌++◌,
  append-nil, some, ◌==◌, ltb, if◌then◌else◌, ◌>>=◌, arith, length, take, drop, take-append-drop,
  Bytes, Bool-cases, inl, inr, length-drop, take-length,
}
use Prim.Native.Nat.{bit_and}
use mathlib.Core.Path.{subst, ap₂}
use firey.Buffer.{Buffer, readable_bytes, retrieve}
use firey.Buffer.Contents.{IsValid, contents, length-contents}
use firey.Buffer.Retrieve.{retrieve-Takes, read_range-contents}
use firey.Channel.{is_writing, complement}
use firey.Channel.Coherent.{Want, mask_of, writing_off, nothing, mask-zero}
use firey.Channel.Watch.{Watch, WatchLaws}
use firey.Connection.{
  Connection, Effect, Outcome, wrote, shut_write, took, complete, is_disconnecting,
  shutdown_in_loop,
}
use firey.Connection.Handlers.{drained, write_out, written, handle_write}
use firey.Connection.Queued.{sent, sent-append, sent-complete, set_channel_lem}

abbrev pub writes_only : Want
writes_only = record { reading = false; writing = true }

write_mask : mask_of false true ≡ 4
unfolding mask_of
write_mask = refl

-- What is wanted of the channel: nothing more once the output is empty.
abbrev pub wanted_while : ℕ → Want
wanted_while left = if left == 0 then nothing else writes_only

nil_of : (xs : Bytes) → length xs ≤ 0 → xs ≡ []
nil_of [] h = refl
nil_of (x ∷ xs) h = absurd (omega arith)

module _ {L : Type 0} {w : Watch L} (laws : WatchLaws w) where
  drained_lem :
      (c : Connection L) (es : List Effect)
      → laws.Holds c.loop c.channel (some writes_only)
      → (c1 : Connection L) × (fs : List Effect) × (drained w c es ≡ some (c1, fs))
        × (sent fs ≡ sent es)
        × (c1.output ≡ c.output)
        × laws.Holds c1.loop c1.channel (some nothing)
  unfolding drained shutdown_in_loop sent
  drained_lem c es h =
      let (l, ch, set, hold) =
        set_channel_lem laws c (some writes_only) nothing (bit_and c.channel.events (complement 4))
          h
          (ap (λ n. bit_and n (complement 4))
              (laws.holds-events c.loop c.channel (some writes_only) h)
            ∙ writing_off false true) in
      let c1 = record c { loop = l; channel = ch } in
      let all = es ++ complete c true in
      let told : sent all ≡ sent es =
        sent-append es (complete c true)
        ∙ ap (λ t. sent es ++ t) (sent-complete laws c true)
        ∙ append-nil (sent es) in
      elim (Bool-cases (is_disconnecting c.state)) [
        | inl down ↦
            let idle : is_writing ch ≡ false =
              ap (λ k. k == 4)
                (laws.holds-events l ch (some nothing) hold ∙ mask-zero false false refl) in
            (
              c1,
              all ++ (shut_write ∷ []),
              rw (set, down, idle) refl,
              sent-append all (shut_write ∷ []) ∙ append-nil (sent all) ∙ told,
              refl,
              hold,
            )
        | inr open_ ↦ (c1, all, rw (set, open_) refl, told, refl, hold)
      ]

  handle_write-eq :
      (c : Connection L) (n : ℕ) (out : Buffer)
      → laws.Holds c.loop c.channel (some writes_only)
      → IsValid c.output
      → 0 < n
      → retrieve c.output n ≡ some out
      → handle_write w c (took n) ≡ (
          if readable_bytes out == 0
          then drained w (record c { output = out }) (wrote (take n (contents c.output)) ∷ [])
          else some (record c { output = out }, wrote (take n (contents c.output)) ∷ []))
  unfolding handle_write written write_out
  handle_write-eq c n out h v pos took_out =
      let writing : is_writing c.channel ≡ true =
        ap (λ k. k == 4) (laws.holds-events c.loop c.channel (some writes_only) h ∙ write_mask) in
      let readable =
        read_range-contents v (readable_bytes c.output) (omega arith)
        ∙ ap (λ t. some t)
            (take-length (readable_bytes c.output) (contents c.output)
              (omega (arith, length-contents v))) in
      let positive : ltb 0 n ≡ true = ground arith in
      rw (writing, readable, positive, took_out) refl

  -- The kernel takes `n` bytes of the output: these leave it, and the channel waits for writing as
  -- long as others are left.
  pub handle_write_lem :
      (c : Connection L) (n : ℕ)
      → laws.Holds c.loop c.channel (some writes_only)
      → IsValid c.output
      → 0 < n
      → n ≤ length (contents c.output)
      → (c1 : Connection L) × (es : List Effect) × (handle_write w c (took n) ≡ some (c1, es))
        × (sent es ≡ take n (contents c.output))
        × (contents c1.output ≡ drop n (contents c.output))
        × IsValid c1.output
        × laws.Holds c1.loop c1.channel (some (wanted_while (length (contents c.output) - n)))
  unfolding sent
  handle_write_lem c n h v pos fits =
      let (out, took_out, t) = retrieve-Takes v n (omega (arith, length-contents v)) in
      let c1 = record c { output = out } in
      let es = wrote (take n (contents c.output)) ∷ [] in
      let told : sent es ≡ take n (contents c.output) = append-nil (take n (contents c.output)) in
      let step = handle_write-eq c n out h v pos took_out in
      let rest : readable_bytes out ≡ length (contents c.output) - n = omega (
        arith,
        length-contents t.valid,
        ap (λ (t : Bytes). length t) t.rest,
        length-drop n (contents c.output),
      ) in
      elim (Bool-cases (readable_bytes out == 0)) [
        | inl all ↦
            let (c2, fs, made, eq, same, hold) = drained_lem c1 es h in
            (
              c2,
              fs,
              step ∙ rw all made,
              eq ∙ told,
              ap contents same ∙ t.rest,
              subst IsValid (sym same) t.valid,
              subst
                  (λ k.
                    laws.Holds c2.loop c2.channel (some (if k == 0 then nothing else writes_only)))
                  rest
                  (subst
                    (λ b. laws.Holds c2.loop c2.channel (some (if b then nothing else writes_only)))
                    (sym all) hold),
            )
        | inr left ↦ (
          c1,
          es,
          step ∙ rw left refl,
          told,
          t.rest,
          t.valid,
          subst (λ k. laws.Holds c.loop c.channel (some (if k == 0 then nothing else writes_only)))
              rest
              (subst (λ b. laws.Holds c.loop c.channel (some (if b then nothing else writes_only)))
                (sym left) h),
        )
      ]

  -- A kernel that takes something of what it is offered, `takes m` of `m` bytes, and the events that
  -- the loop reports until the output is empty; the fuel bounds their number.
  unfoldable pub drain : (ℕ → ℕ) → ℕ → Connection L → Outcome L
  drain takes zero c = some (c, [])
  drain takes (suc fuel) c =
      let rest = handle_write w c (took (takes (readable_bytes c.output))) >>= λ r.
      drain takes fuel r.0 >>= λ s. some (s.0, r.1 ++ s.1) in
      if readable_bytes c.output == 0 then some (c, []) else rest

  -- `drain` returns, the bytes sent are those of the output, and nothing is left.
  abbrev pub Drained : (ℕ → ℕ) → ℕ → Connection L → Type 0
  Drained takes fuel c =
      (c1 : Connection L) × (es : List Effect) × (drain takes fuel c ≡ some (c1, es))
      × (sent es ≡ contents c.output)
      × (contents c1.output ≡ [])

  drain_empty :
      (takes : ℕ → ℕ) (fuel : ℕ) (c : Connection L)
      → IsValid c.output
      → contents c.output ≡ []
      → drain takes fuel c ≡ some (c, [])
  unfolding drain
  drain_empty takes zero c v e = refl
  drain_empty takes (suc fuel) c v e =
      let none_left : readable_bytes c.output ≡ 0 =
        omega (arith, length-contents v, ap (λ (t : Bytes). length t) e) in
      rw none_left refl

  step-Drained :
      (takes : ℕ → ℕ) (fuel : ℕ) (c c1 : Connection L) (es : List Effect)
      → (readable_bytes c.output == 0) ≡ false
      → handle_write w c (took (takes (readable_bytes c.output))) ≡ some (c1, es)
      → sent es ≡ take (takes (readable_bytes c.output)) (contents c.output)
      → contents c1.output ≡ drop (takes (readable_bytes c.output)) (contents c.output)
      → Drained takes fuel c1
      → Drained takes (suc fuel) c
  unfolding drain
  step-Drained takes fuel c c1 es left made told rest (c2, fs, made2, told2, empty) = (
    c2,
    es ++ fs,
    rw (left, made, made2) refl,
    sent-append es fs
        ∙ ap₂ (λ x y. x ++ y) told (told2 ∙ rest)
        ∙ take-append-drop (takes (readable_bytes c.output)) (contents c.output),
    empty,
  )

  -- While the channel waits for writing alone and the kernel takes at least a byte each time, the
  -- whole output is sent, in order, in at most as many events as it has bytes.
  pub drain_lem :
      (takes : ℕ → ℕ)
      → ((m : ℕ) → 0 < m → (0 < takes m) × (takes m ≤ m))
      → (fuel : ℕ) (c : Connection L) → laws.Holds c.loop c.channel (some writes_only)
      → IsValid c.output
      → length (contents c.output) ≤ fuel
      → Drained takes fuel c
  unfolding drain sent
  drain_lem takes some_ zero c h v enough =
      let empty = nil_of (contents c.output) enough in (c, [], refl, sym empty, empty)
  drain_lem takes some_ (suc fuel) c h v enough = elim (Bool-cases (readable_bytes c.output == 0)) [
    | inl none_left ↦
        let empty = nil_of (contents c.output) (ground (arith, length-contents v)) in
        (c, [], rw none_left refl, sym empty, empty)
    | inr left ↦
        let n = takes (readable_bytes c.output) in
        let (pos, fits) = some_ (readable_bytes c.output) (ground arith) in
        let (c1, es, made, told, rest, valid, hold) =
          handle_write_lem c n h v pos (omega (arith, length-contents v)) in
        let fewer : length (contents c1.output) ≡ length (contents c.output) - n =
          ap (λ (t : Bytes). length t) rest ∙ length-drop n (contents c.output) in
        step-Drained takes fuel c c1 es left made told rest
          (elim (Bool-cases (length (contents c.output) - n == 0)) [
            | inl all ↦
                let e = nil_of (contents c1.output) (ground arith) in
                (c1, [], drain_empty takes fuel c1 valid e, sym e, e)
            | inr more ↦
                drain_lem takes some_ fuel c1
                  (subst
                    (λ b. laws.Holds c1.loop c1.channel (some (if b then nothing else writes_only)))
                    more hold)
                  valid (omega arith)
          ])
  ]
