-- ===== src/Connection/Queued.antt =====
-- `sendInLoop` of net/TcpConnectionff.cpp: the bytes that were sent, and those that go behind the output.
use firey.Prelude.{
  ℕ, ◌+◌, ◌≤◌, ◌≡◌, refl, sym, ap, ◌∙◌, Bool, true, false, ◌&&◌, List, [], ◌∷◌, ◌++◌, append-nil,
  append_assoc, Option, some, ltb, leb, ◌>>=◌, length, Bytes, Bool-cases, inl, inr,
}
use Prim.Native.Nat.{bit_or}
use mathlib.Core.Path.{subst}
use firey.Buffer.{max_size, readable_bytes}
use firey.Buffer.Contents.{IsValid, contents}
use firey.Buffer.Append.{append-Appends}
use firey.Channel.{Channel, is_writing}
use firey.Channel.Coherent.{Want, mask, want, writing_on}
use firey.Channel.Watch.{Watch, WatchLaws, Updated}
use firey.Connection.{Connection, Effect, wrote, complete, high_water}
use firey.Connection.Send.{set_channel, queue_rest}

-- The bytes that the kernel took, in order.
unfoldable pub sent : List Effect → Bytes
sent [] = []
sent (wrote bytes ∷ es) = bytes ++ sent es
sent (e ∷ es) = sent es

pub sent-append : (es fs : List Effect) → sent (es ++ fs) ≡ sent es ++ sent fs
unfolding sent
sent-append [] fs = refl
sent-append (e ∷ es) fs = elim e as (λ e. sent (e ∷ (es ++ fs)) ≡ sent (e ∷ es) ++ sent fs) [
  | wrote bytes ↦
      ap (λ t. bytes ++ t) (sent-append es fs) ∙ sym (append_assoc bytes (sent es) (sent fs))
  | other ↦ sent-append es fs
]

module _ {L : Type 0} {w : Watch L} (laws : WatchLaws w) where
  -- The methods of the channel succeed.
  pub set_channel_lem :
      (c : Connection L) (s : Option Want) (v : Want) (n : ℕ)
      → laws.Holds c.loop c.channel s
      → n ≡ mask v
      → (l : L) × (ch : Channel) × (set_channel w c (record c.channel { events = n })
          ≡ some (record c { loop = l; channel = ch }))
        × laws.Holds l ch (some v)
  unfolding set_channel
  set_channel_lem c s v n h e = found c (w.update c.loop (record c.channel { events = n })) (
      subst (λ n. Updated laws.Holds (some v) (w.update c.loop (record c.channel { events = n })))
        (sym e) (laws.update_lem c.loop c.channel s h v))
    where
      found :
          (c : Connection L) {v : Want} (r : Option (L × Channel))
          → Updated laws.Holds (some v) r
          → (l : L) × (ch : Channel) × ((r >>= λ r. some (record c { loop = r.0; channel = r.1 }))
              ≡ some (record c { loop = l; channel = ch }))
            × laws.Holds l ch (some v)
      found c _ (Updated.updated {l = l} {c = ch} h) = (l, ch, refl, h)

  pub sent-complete : (c : Connection L) (b : Bool) → sent (complete c b) ≡ []
  unfolding sent
  sent-complete c b = elim (Bool-cases (b && c.has_write_complete)) [
    | inl h ↦ rw h refl
    | inr h ↦ rw h refl
  ]

  sent-high_water : (c : Connection L) (old n : ℕ) → sent (high_water c old n) ≡ []
  unfolding sent
  sent-high_water c old n =
      elim (Bool-cases
        (leb c.high_water_mark (old + n) && (ltb old c.high_water_mark && c.has_high_water))) [
          | inl h ↦ rw h refl
          | inr h ↦ rw h refl
        ]

  pub queue_rest_lem :
      (c : Connection L) (s : Option Want) (rest : Bytes) (es : List Effect)
      → laws.Holds c.loop c.channel s
      → is_writing c.channel ≡ false
      → IsValid c.output
      → c.output.writer_index + length rest ≤ max_size
      → (c1 : Connection L) × (es1 : List Effect) × (queue_rest w c rest es ≡ some (c1, es1))
        × (sent es1 ≡ sent es)
        × (contents c1.output ≡ contents c.output ++ rest)
        × IsValid c1.output
        × laws.Holds c1.loop c1.channel (some (record (want s) { writing = true }))
        × (c1.state ≡ c.state)
        × (c1.reading ≡ c.reading)
        × (es1 ≡ es ++ high_water c (readable_bytes c.output) (length rest))
  unfolding queue_rest
  queue_rest_lem c s rest es h idle v room =
      let (out, made, a) = append-Appends rest v room in
      let (l, ch, set, hold) =
        set_channel_lem (record c { output = out }) s (record (want s) { writing = true })
          (bit_or c.channel.events 4) h
          (ap (λ n. bit_or n 4) (laws.holds-events c.loop c.channel s h)
            ∙ writing_on (want s).reading (want s).writing) in
      let high = high_water c (readable_bytes c.output) (length rest) in
      (
        record c { output = out; loop = l; channel = ch },
        es ++ high,
        rw (made, idle, set) refl,
        sent-append es high
            ∙ ap (λ t. sent es ++ t) (sent-high_water c (readable_bytes c.output) (length rest))
            ∙ append-nil (sent es),
        a.joined,
        a.valid,
        hold,
        refl,
        refl,
        refl,
      )
