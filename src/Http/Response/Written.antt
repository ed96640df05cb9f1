-- ===== src/Http/Response/Written.antt =====
-- `appendToBuffer` of http/HttpResponseff.cpp: the text of a response.
use firey.Prelude.{
  ℕ, zero, suc, ◌+◌, ◌≤◌, ◌≡◌, refl, sym, ap, ◌∙◌, Bool, true, false, Bool-cases, inl, inr, List,
  [], ◌∷◌, ◌++◌, append_assoc, append-nil, Option, some, if◌then◌else◌, ◌>>=◌, length,
  length-append, take, Bytes, codes, Headers, arith,
}
use mathlib.Core.Path.{subst}
use firey.Buffer.{Buffer, append, max_size}
use firey.Buffer.Contents.{IsValid, contents}
use firey.Buffer.Append.{Appends, append-Appends}
use firey.Http.Response.{
  HttpResponse, crlf, in_buf, append_headers, append_connection, append_to_buffer,
}

-- Lines, each ended by CR LF.
unfoldable pub print_lines : List Bytes → Bytes
print_lines [] = []
print_lines (l ∷ ls) = l ++ (crlf ++ print_lines ls)

abbrev Written : (Buffer → Option Buffer) → Bytes → Type 0
Written f bytes =
    (b : Buffer)
    → IsValid b
    → b.writer_index + length bytes ≤ max_size
    → (b' : Buffer) × (f b ≡ some b') × Appends b bytes b'

append-Written : (bytes : Bytes) → Written (λ b. append b bytes) bytes
append-Written bytes b v h = append-Appends bytes v h

then_Written :
    (f g : Buffer → Option Buffer) (xs ys : Bytes)
    → Written f xs
    → Written g ys
    → Written (λ b. f b >>= g) (xs ++ ys)
then_Written f g xs ys hf hg b v h =
    let (b1, made1, a) = hf b v (omega (arith, length-append {A = ℕ} xs ys)) in
    let (b2, made2, c) = hg b1 a.valid (omega (arith, length-append {A = ℕ} xs ys, a.no_further)) in
    (
      b2,
      rw made1 made2,
      record {
        valid = c.valid;
        joined = c.joined ∙ ap (λ zs. zs ++ ys) a.joined ∙ append_assoc (contents b) xs ys;
        no_further = omega (arith, length-append {A = ℕ} xs ys, a.no_further, c.no_further);
      },
    )

if_Written :
    (c : Bool) (f g : Buffer → Option Buffer) (xs ys : Bytes)
    → Written f xs
    → Written g ys
    → Written (λ b. if c then f b else g b) (if c then xs else ys)
if_Written true f g xs ys hf hg = hf
if_Written false f g xs ys hf hg = hg

take_all : (n : ℕ) (xs : Bytes) → length xs ≤ n → take n xs ≡ xs
take_all zero [] h = refl
take_all (suc n) [] h = refl
take_all zero (x ∷ xs) h = absurd (omega (arith, h))
take_all (suc n) (x ∷ xs) h = ap (λ r. x ∷ r) (take_all n xs (omega (arith, h)))

-- The header lines of a response.
unfoldable pub header_lines : Headers → List Bytes
header_lines [] = []
header_lines (h ∷ hs) = (h.0 ++ (codes ": " ++ h.1)) ∷ header_lines hs

no_headers : Written (λ b. some b) []
no_headers b v h = (
  b,
  refl,
  record { valid = v; joined = sym (append-nil (contents b)); no_further = omega arith },
)

append_headers-Written :
    (hs : Headers) → Written (append_headers hs) (print_lines (header_lines hs))
unfolding append_headers print_lines header_lines
append_headers-Written [] = no_headers
append_headers-Written (h ∷ hs) = subst (Written (append_headers (h ∷ hs))) (simp (append_assoc)) (
    then_Written (λ b. append b h.0) _ h.0 _ (append-Written h.0)
      (then_Written (λ b. append b (codes ": ")) _ (codes ": ") _ (append-Written (codes ": "))
        (then_Written (λ b. append b h.1) _ h.1 _ (append-Written h.1)
          (then_Written (λ b. append b crlf) (append_headers hs) crlf
            (print_lines (header_lines hs)) (append-Written crlf) (append_headers-Written hs)))))

module _ (decimal : ℕ → Bytes) where
  -- What stands between the status line and the body.
  unfoldable pub connection_lines : HttpResponse → List Bytes
  connection_lines r =
      if r.close_connection
      then codes "Connection: close" ∷ []
      else (codes "Content-Length: " ++ decimal (length r.body))
        ∷ codes "Connection: Keep-Alive"
        ∷ []

  unfoldable pub print : HttpResponse → Bytes
  print r =
      print_lines (
        (codes "HTTP/1.1 " ++ (decimal r.status_code ++ (codes " " ++ r.status_message)))
          ∷ connection_lines r
        ++ header_lines r.headers)
      ++ (crlf ++ r.body)

  status_piece : HttpResponse → Bytes
  status_piece r = codes "HTTP/1.1 " ++ (decimal r.status_code ++ codes " ")

  length_piece : HttpResponse → Bytes
  length_piece r = codes "Content-Length: " ++ (decimal (length r.body) ++ crlf)

  connection_piece : HttpResponse → Bytes
  unfolding length_piece
  connection_piece r =
      if r.close_connection
      then codes "Connection: close" ++ crlf
      else in_buf (length_piece r) ++ (codes "Connection: Keep-Alive" ++ crlf)

  append_connection-Written :
      (r : HttpResponse) → Written (append_connection decimal r) (connection_piece r)
  unfolding append_connection connection_piece length_piece
  append_connection-Written r =
      if_Written r.close_connection _ _ _ _ (append-Written (codes "Connection: close" ++ crlf)) (
        then_Written (λ b. append b (in_buf (length_piece r))) _ (in_buf (length_piece r)) _
          (append-Written (in_buf (length_piece r)))
          (append-Written (codes "Connection: Keep-Alive" ++ crlf)))

  -- The pieces as the code appends them.
  pieces : HttpResponse → Bytes
  unfolding status_piece connection_piece
  pieces r =
      in_buf (status_piece r)
      ++ (r.status_message
          ++ (crlf
              ++ (connection_piece r
                  ++ (print_lines (header_lines r.headers) ++ (crlf ++ r.body)))))

  append_to_buffer-Written : (r : HttpResponse) → Written (append_to_buffer decimal r) (pieces r)
  unfolding append_to_buffer pieces status_piece
  append_to_buffer-Written r =
      then_Written (λ b. append b (in_buf (status_piece r))) _ (in_buf (status_piece r)) _
        (append-Written (in_buf (status_piece r)))
        (then_Written (λ b. append b r.status_message) _ r.status_message _
          (append-Written r.status_message)
          (then_Written (λ b. append b crlf) _ crlf _ (append-Written crlf)
            (then_Written (append_connection decimal r) _ (connection_piece r) _
              (append_connection-Written r)
              (then_Written (append_headers r.headers) _ (print_lines (header_lines r.headers)) _
                (append_headers-Written r.headers)
                (then_Written (λ b. append b crlf) (λ b. append b r.body) crlf r.body
                  (append-Written crlf) (append-Written r.body))))))

  -- No number is cut by the buffer of 32 bytes.
  pieces-print :
      (r : HttpResponse)
      → length (decimal r.status_code) ≤ 13
      → length (decimal (length r.body)) ≤ 13
      → pieces r ≡ print r
  unfolding pieces print status_piece connection_piece length_piece connection_lines print_lines
  pieces-print r hs hc =
      let d = decimal r.status_code in
      let n = decimal (length r.body) in
      let whole =
        take_all 22 (d ++ codes " ") (omega (arith, length-append {A = ℕ} d (codes " "), hs)) in
      let whole_length =
        take_all 15 (n ++ crlf) (omega (arith, length-append {A = ℕ} n crlf, hc)) in
      elim (Bool-cases r.close_connection) [
        | inl e ↦ simp (e, whole, append_assoc)
        | inr e ↦ simp (e, whole, whole_length, append_assoc)
      ]

  -- `appendToBuffer` adds the printed response to the readable bytes, while the vector may grow and
  -- `%d` and `%zd` need at most 13 digits.
  pub append_to_buffer-Appends :
      (r : HttpResponse) {b : Buffer}
      → IsValid b
      → length (decimal r.status_code) ≤ 13
      → length (decimal (length r.body)) ≤ 13
      → b.writer_index + length (print r) ≤ max_size
      → (b' : Buffer) × (append_to_buffer decimal r b ≡ some b') × Appends b (print r) b'
  append_to_buffer-Appends r {b} v hs hc room =
      subst (Written (append_to_buffer decimal r)) (pieces-print r hs hc)
        (append_to_buffer-Written r) b v room
