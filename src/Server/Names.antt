-- ===== src/Server/Names.antt =====
-- The names that net/TcpServerff.cpp gives to connections differ.
use firey.Prelude.{
  ℕ, ◌<◌, ◌≤◌, ◌≡◌, ◌≢◌, sym, ap, ◌∙◌, false, ◌++◌, arith, length, length-append, take, take-length,
  drop, drop-append, Bytes, codes, bytes_eq, bytes_eq_iff, Bool-cases, inl, inr,
}
use firey.Server.{conn_name}

-- `%d` of `snprintf`, for numbers below a limit.
pub record Prints (limit : ℕ) (decimal : ℕ → Bytes) : Type 0 where
  pub short : (n : ℕ) → n < limit → length (decimal n) ≤ 10
  pub injective : (m n : ℕ) → m < limit → n < limit → decimal m ≡ decimal n → m ≡ n

cancel_left : (xs ys zs : Bytes) → xs ++ ys ≡ xs ++ zs → ys ≡ zs
cancel_left xs ys zs e =
    sym (drop-append (length xs) 0 xs ys (omega arith))
    ∙ (ap (drop (length xs)) e ∙ drop-append (length xs) 0 xs zs (omega arith))

module _ {limit : ℕ} {decimal : ℕ → Bytes} (prints : Prints limit decimal) (name ip_port : Bytes)
    (fits : length ip_port ≤ 50) where
  whole :
      (n : ℕ)
      → n < limit
      → take 63 (codes "-" ++ (ip_port ++ (codes "#" ++ decimal n)))
        ≡ codes "-" ++ (ip_port ++ (codes "#" ++ decimal n))
  whole n h =
      take-length 63 (codes "-" ++ (ip_port ++ (codes "#" ++ decimal n)))
        (omega (arith, length-append ip_port (codes "#" ++ decimal n), prints.short n h, fits))

  pub conn_name_injective :
      (m n : ℕ)
      → m < limit
      → n < limit
      → conn_name decimal name ip_port m ≡ conn_name decimal name ip_port n
      → m ≡ n
  conn_name_injective m n hm hn e =
      let cut = cancel_left name _ _ e in
      let same = sym (whole m hm) ∙ (cut ∙ whole n hn) in
      let rest = cancel_left ip_port (codes "#" ++ decimal m) (codes "#" ++ decimal n) (
        cancel_left (codes "-") (ip_port ++ (codes "#" ++ decimal m))
          (ip_port ++ (codes "#" ++ decimal n)) same) in
      prints.injective m n hm hn (cancel_left (codes "#") (decimal m) (decimal n) rest)

  pub conn_names_differ :
      (m n : ℕ)
      → m < limit
      → n < limit
      → m ≢ n
      → bytes_eq (conn_name decimal name ip_port m) (conn_name decimal name ip_port n) ≡ false
  conn_names_differ m n hm hn ne =
      elim (Bool-cases
        (bytes_eq (conn_name decimal name ip_port m) (conn_name decimal name ip_port n))) [
          | inl e ↦ absurd (ne (conn_name_injective m n hm hn ((bytes_eq_iff _ _).0 e)))
          | inr e ↦ e
        ]
