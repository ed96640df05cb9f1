-- ===== src/Http/Server/Close.antt =====
-- http/HttpServerff.cpp: when the connection is to be closed after the answer, from what the client wrote.
use firey.Prelude.{
  ℕ, ◌≡◌, refl, sym, ap, ◌∙◌, Bool, true, false, not, ◌&&◌, ◌||◌, List, [], ◌∷◌, Option, some, none,
  if◌then◌else◌, Bytes, codes, bytes_eq, bytes_eq_iff, Headers, insert, lookup, lookup-insert,
  Bool-cases, inl, inr,
}
use mathlib.Core.Path.{subst}
use firey.Http.Request.{Version, get_header}
use firey.Http.Wire.{Sent, store_headers, received, read_version}
use firey.Http.Server.{is_http10, wants_close}

-- The value of the last header of a name.
abbrev pub last_value : (name default : Bytes) → List (Bytes × Bytes) → Bytes
last_value name default [] = default
last_value name default ((field, value) ∷ hs) =
    last_value name (if bytes_eq name field then value else default) hs

-- A client of version 1.0 or 1.1 keeps the connection by asking for that, any other unless it asks to close.
abbrev pub closes : Version → (connection : Bytes) → Bool
closes Version.http10 connection = not (bytes_eq connection (codes "Keep-Alive"))
closes Version.http11 connection = not (bytes_eq connection (codes "Keep-Alive"))
closes Version.http20 connection = bytes_eq connection (codes "close")
closes Version.unknown connection = bytes_eq connection (codes "close")

abbrev pub asks_close : Sent → Bool
asks_close s = closes s.version (last_value (codes "Connection") [] s.headers)

abbrev value_or : Bytes → Option Bytes → Bytes
value_or default none = default
value_or default (some v) = v

value_or_if :
    (b : Bool) (v : Bytes) (o : Option Bytes)
    → value_or [] (if b then some v else o) ≡ (if b then v else value_or [] o)
value_or_if true v o = refl
value_or_if false v o = refl

stored-last :
    (name : Bytes) (hs : List (Bytes × Bytes)) (m : Headers)
    → value_or [] (lookup name (store_headers hs m))
      ≡ last_value name (value_or [] (lookup name m)) hs
stored-last name [] m = refl
stored-last name ((field, value) ∷ hs) m =
    stored-last name hs (insert field value m)
    ∙ ap (λ d. last_value name d hs)
        (ap (value_or []) (lookup-insert name field value m)
          ∙ value_or_if (bytes_eq name field) value (lookup name m))

get_header-last :
    (s : Sent) (time : ℕ) (name : Bytes)
    → get_header (received s time) name ≡ last_value name [] s.headers
unfolding get_header lookup
get_header-last s time name =
    of_option (lookup name (store_headers s.headers [])) ∙ stored-last name s.headers []
  where
    of_option : (o : Option Bytes) → (elim o [ none ↦ [] | some v ↦ v ]) ≡ value_or [] o
    of_option none = refl
    of_option (some v) = refl

not_both :
    (connection : Bytes)
    → (bytes_eq connection (codes "close") || not (bytes_eq connection (codes "Keep-Alive")))
      ≡ not (bytes_eq connection (codes "Keep-Alive"))
unfolding bytes_eq
not_both connection = elim (Bool-cases (bytes_eq connection (codes "close"))) [
  | inl e ↦
      let same : connection ≡ codes "close" = (bytes_eq_iff connection (codes "close")).0 e in
      subst
        (λ c.
          (bytes_eq c (codes "close") || not (bytes_eq c (codes "Keep-Alive")))
          ≡ not (bytes_eq c (codes "Keep-Alive")))
        (sym same) apart
  | inr e ↦ rw e refl
]
  where
    apart :
        (bytes_eq (codes "close") (codes "close")
          || not (bytes_eq (codes "close") (codes "Keep-Alive")))
        ≡ not (bytes_eq (codes "close") (codes "Keep-Alive"))
    apart = refl

or_false : (b : Bool) → (b || false) ≡ b
or_false true = refl
or_false false = refl

closes_lem :
    (v : Version) (connection : Bytes)
    → (bytes_eq connection (codes "close")
        || (is_http10 (read_version v) && not (bytes_eq connection (codes "Keep-Alive"))))
      ≡ closes v connection
unfolding is_http10
closes_lem Version.http10 connection = not_both connection
closes_lem Version.http11 connection = not_both connection
closes_lem Version.http20 connection = or_false (bytes_eq connection (codes "close"))
closes_lem Version.unknown connection = or_false (bytes_eq connection (codes "close"))

pub wants_close-asks : (s : Sent) (time : ℕ) → wants_close (received s time) ≡ asks_close s
unfolding wants_close
wants_close-asks s time =
    closes_lem s.version (get_header (received s time) (codes "Connection"))
    ∙ ap (closes s.version) (get_header-last s time (codes "Connection"))
