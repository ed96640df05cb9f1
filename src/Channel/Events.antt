-- ===== src/Channel/Events.antt =====
-- `handleEvent` of net/Channelff.cpp: which callbacks an event calls.
use firey.Prelude.{
  ℕ, ◌≡◌, refl, Bool, true, false, not, ◌&&◌, ◌||◌, List, [], ◌∷◌, ◌++◌, if◌then◌else◌, Bool-cases,
  inl, inr, ◌+◌,
}
use mathlib.Core.Path.{ap, ap₂, ◌∙◌}
use firey.Channel.{
  Channel, Callback, same, call, has_event, epollin, epollpri, epollout, epollerr, epollrdhup,
  handle_event, handle_event_with_guard,
}

abbrev pub is_in : Callback → List Callback → Bool
is_in k [] = false
is_in k (l ∷ ks) = same k l || is_in k ks

-- The events that lead to each callback.
abbrev pub is_ready : ℕ → Callback → Bool
is_ready revents Callback.error = has_event revents epollerr
is_ready revents Callback.read = has_event revents (epollin + epollpri + epollrdhup)
is_ready revents Callback.write = has_event revents epollout
is_ready revents Callback.close = false

is_in-append :
    (k : Callback) (ks ls : List Callback) → is_in k (ks ++ ls) ≡ (is_in k ks || is_in k ls)
is_in-append k [] ls = refl
is_in-append k (l ∷ ks) ls = elim (Bool-cases (same k l)) [
  | inl h ↦ rw (h) refl
  | inr h ↦ rw (h) (is_in-append k ks ls)
]

or_false : (b : Bool) → (b || false) ≡ b
or_false true = refl
or_false false = refl

-- One callback under two tests.
is_in_one :
    (k l : Callback) (e g : Bool)
    → is_in k (if e then if g then l ∷ [] else [] else []) ≡ (same k l && (g && e))
is_in_one k l true true = elim (same k l) as (λ b. (b || false) ≡ (b && true)) [
  | true ↦ refl
  | false ↦ refl
]
is_in_one k l true false = elim (same k l) as (λ b. false ≡ (b && false)) [
  | true ↦ refl
  | false ↦ refl
]
is_in_one k l false g = elim (same k l) as (λ b. false ≡ (b && (g && false))) [
  | true ↦ elim g as (λ g. false ≡ (g && false)) [ true ↦ refl | false ↦ refl ]
  | false ↦ refl
]

-- Three callbacks, of which `k` is at most one.
select :
    (g : Callback → Bool) (e r w : Bool) (k : Callback)
    → ((same k Callback.error && (g Callback.error && e))
        || ((same k Callback.read && (g Callback.read && r))
            || (same k Callback.write && (g Callback.write && w))))
      ≡ (g k && elim k [
        | Callback.error ↦ e
        | Callback.read ↦ r
        | Callback.write ↦ w
        | Callback.close ↦ false
      ])
select g e r w Callback.error = or_false (g Callback.error && e)
select g e r w Callback.read = or_false (g Callback.read && r)
select g e r w Callback.write = refl
select g e r w Callback.close = elim (g Callback.close) as (λ b. false ≡ (b && false)) [
  | true ↦ refl
  | false ↦ refl
]

is_ready_lem :
    (n : ℕ) (k : Callback)
    → elim k [
      | Callback.error ↦ has_event n epollerr
      | Callback.read ↦ has_event n (epollin + epollpri + epollrdhup)
      | Callback.write ↦ has_event n epollout
      | Callback.close ↦ false
    ]
      ≡ is_ready n k
is_ready_lem n Callback.error = refl
is_ready_lem n Callback.read = refl
is_ready_lem n Callback.write = refl
is_ready_lem n Callback.close = refl

is_in-handle_event_with_guard :
    (c : Channel) (k : Callback)
    → is_in k (handle_event_with_guard c) ≡ (c.has_callback k && is_ready c.revents k)
unfolding handle_event_with_guard call
is_in-handle_event_with_guard c k =
    let ready = is_ready c.revents in
    let fired : Callback → List Callback = λ l. if ready l then call c l else [] in
    let one : (l : Callback) → is_in k (fired l) ≡ (same k l && (c.has_callback l && ready l)) =
      λ l. is_in_one k l (ready l) (c.has_callback l) in
    is_in-append k (fired Callback.error) (fired Callback.read ++ fired Callback.write)
    ∙ ap₂ (λ a b. a || b) (one Callback.error)
        (is_in-append k (fired Callback.read) (fired Callback.write)
          ∙ ap₂ (λ a b. a || b) (one Callback.read) (one Callback.write))
    ∙ select c.has_callback (ready Callback.error) (ready Callback.read) (ready Callback.write) k
    ∙ ap (λ b. c.has_callback k && b) (is_ready_lem c.revents k)

is_in_guarded :
    (tied alive : Bool) (k : Callback) (ks : List Callback) {b : Bool}
    → is_in k ks ≡ b
    → is_in k (if tied then if alive then ks else [] else ks) ≡ ((not tied || alive) && b)
is_in_guarded true true k ks h = h
is_in_guarded true false k ks h = refl
is_in_guarded false alive k ks h = h

-- A callback is called exactly when it is set, one of its events was reported, and the tied object,
-- if there is one, still lives. No event calls the close callback, and EPOLLHUP alone calls none.
pub is_in-handle_event :
    (c : Channel) (alive : Bool) (k : Callback)
    → is_in k (handle_event c alive)
      ≡ ((not c.tied || alive) && (c.has_callback k && is_ready c.revents k))
unfolding handle_event
is_in-handle_event c alive k =
    is_in_guarded c.tied alive k (handle_event_with_guard c) (is_in-handle_event_with_guard c k)
