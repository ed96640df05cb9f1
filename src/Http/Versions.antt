-- ===== src/Http/Versions.antt =====
-- The versions that http/HttpContextff.cpp reads.
use firey.Prelude.{
  ℕ, ◌≤◌, ◌≡◌, ◌≢◌, refl, Bool, true, some, arith, length, length-take, take, drop, Bytes, codes,
  ◌++◌, [], ◌∷◌, bytes_eq, cut, Option-cases, inl, inr,
}
use firey.Http.Request.{HttpRequest, Version, set_method, parse_method}
use firey.Http.Context.{range_equal, set_version, set_target, process_target, process_request_line}

-- Two bytes cannot tell "1.0" from "1.1".
same_two_bytes :
    (n : Bytes) → length n ≤ 2 → range_equal n (codes "1.0") ≡ range_equal n (codes "1.1")
same_two_bytes [] h = refl
same_two_bytes (x ∷ []) h = refl
same_two_bytes (x ∷ y ∷ []) h = refl
same_two_bytes (x ∷ y ∷ z ∷ n) h = absurd (omega arith)

set_version-ne-http11 :
    (r : HttpRequest) (word : Bytes)
    → r.version ≢ Version.http11
    → (set_version r word).1.version ≢ Version.http11
unfolding set_version
set_version-ne-http11 r word h =
    ground
      (arith, same_two_bytes (take 2 (drop 5 word)) (omega (arith, length-take 2 (drop 5 word))))

set_target-version : (r : HttpRequest) (t : Bytes) → (set_target r t).version ≡ r.version
unfolding set_target
set_target-version r t = ground arith

process_target-ne-http11 :
    (r : HttpRequest) (rest : Bytes)
    → r.version ≢ Version.http11
    → (process_target r rest).1.version ≢ Version.http11
unfolding process_target
process_target-ne-http11 r rest h = elim (Option-cases (cut b' ' rest)) [
  | inl e ↦ rw (e, process_target) h
  | inr ((target, word), e) ↦
      rw (e, process_target)
        (set_version-ne-http11 (set_target r target) word (rw (set_target-version r target) h))
]

process_request_line-ne-http11 :
    (r r' : HttpRequest) (line : Bytes) (good : Bool)
    → r.version ≢ Version.http11
    → process_request_line r line ≡ some (good, r')
    → r'.version ≢ Version.http11
unfolding process_request_line set_method
process_request_line-ne-http11 r r' line good h e = elim (Option-cases (cut b' ' line)) [
  | inl k ↦ ground (arith, k)
  | inr ((word, rest), k) ↦
      ground (arith, k, process_target-ne-http11 (record r { method = parse_method word }) rest)
]

-- No request line makes the parser set version 1.1; and with 1.0 it accepts any byte in place of
-- the last digit.
pub version_of_line :
    (r r' : HttpRequest) (line : Bytes) (good : Bool) (digit : ℕ)
    → r.version ≢ Version.http11
    → process_request_line r line ≡ some (good, r')
    → (r'.version ≢ Version.http11)
      × (set_version r (codes "HTTP/1." ++ (digit ∷ []))
          ≡ (true, record r { version = Version.http10 }))
unfolding set_version bytes_eq
version_of_line r r' line good digit h e = (process_request_line-ne-http11 r r' line good h e, refl)
