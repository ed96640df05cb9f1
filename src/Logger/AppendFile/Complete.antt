-- ===== src/Logger/AppendFile/Complete.antt =====
-- `AppendFileff::append` of base/logger/FileUtilff.cpp: it returns, and a line is cut only where
-- `fwrite_unlocked` writes nothing.
use firey.Prelude.{
  ℕ, suc, zero, ◌+◌, ◌≤◌, ◌<◌, ◌≡◌, refl, sym, ap, ◌∙◌, inl, inr, true, false, [], ◌∷◌, ◌++◌,
  append-nil, append_assoc, some, ◌==◌, arith, Bool-cases, length, length-drop, take, drop,
  take-append-drop, Bytes,
}
use mathlib.Core.Path.{subst}
use firey.Logger.AppendFile.{AppendFile, write_rest, append}

-- fwrite(3): at most all bytes are written, and they go to the end.
pub record Documented {F : Type 0} (content : F → Bytes) (fwrite : F → Bytes → F × ℕ) : Type 0 where
  pub within : (fp : F) (bytes : Bytes) → (fwrite fp bytes).1 ≤ length bytes
  pub goes_on :
      (fp : F) (bytes : Bytes)
      → content (fwrite fp bytes).0 ≡ content fp ++ take (fwrite fp bytes).1 bytes

module _ {F : Type 0} {content : F → Bytes} {fwrite : F → Bytes → F × ℕ}
    (doc : Documented content fwrite) where
  -- From `old`, the bytes are at the end of the file, but for a rest that `fwrite` wrote nothing of.
  pub data Written (old bytes : Bytes) (fp : F) : Type 0 where
    all : content fp ≡ old ++ bytes → Written old bytes fp
    cut :
        (done rest : Bytes) (before : F)
        → bytes ≡ done ++ rest
        → content fp ≡ old ++ done
        → (fwrite before rest).1 ≡ 0
        → 0 < length rest
        → Written old bytes fp

  -- A first part that was written.
  Written-later :
      (old done rest bytes : Bytes) (fp : F)
      → bytes ≡ done ++ rest
      → Written (old ++ done) rest fp
      → Written old bytes fp
  Written-later old done rest bytes fp e (all h) =
      all (h ∙ (append_assoc old done rest ∙ ap (λ x. old ++ x) (sym e)))
  Written-later old done rest bytes fp e (cut done1 rest1 before e1 h none_of n) =
      cut (done ++ done1) rest1 before
        (e ∙ (ap (λ x. done ++ x) e1 ∙ sym (append_assoc done done1 rest1)))
        (h ∙ append_assoc old done done1) none_of n

  step_lem :
      (fp : F) (rest : Bytes) (fp1 : F)
      → Written (content (fwrite fp rest).0) (drop (fwrite fp rest).1 rest) fp1
      → Written (content fp) rest fp1
  step_lem fp rest fp1 h =
      Written-later (content fp) (take (fwrite fp rest).1 rest) (drop (fwrite fp rest).1 rest) rest
        fp1 (sym (take-append-drop (fwrite fp rest).1 rest))
        (subst (λ x. Written x (drop (fwrite fp rest).1 rest) fp1) (doc.goes_on fp rest) h)

  nonzero : (n : ℕ) → (suc n == 0) ≡ false
  nonzero n = ground arith

  none_of-eq : (n : ℕ) → (n == 0) ≡ true → n ≡ 0
  none_of-eq n e = ground arith

  some_of-lt : (n : ℕ) → (n == 0) ≡ false → 0 < n
  some_of-lt n e = ground arith

  write_rest-Written :
      (fuel : ℕ) (fp : F) (rest : Bytes)
      → length rest < fuel
      → (fp1 : F) × (write_rest fwrite fuel fp rest ≡ some fp1) × Written (content fp) rest fp1
  unfolding write_rest
  write_rest-Written zero fp rest n = absurd (omega arith)
  write_rest-Written (suc fuel) fp [] n = (fp, refl, all (sym (append-nil (content fp))))
  write_rest-Written (suc fuel) fp (x ∷ rest) n =
      elim (Bool-cases ((fwrite fp (x ∷ rest)).1 == 0)) [
        | inl e ↦
            let z = none_of-eq (fwrite fp (x ∷ rest)).1 e in
            (
              (fwrite fp (x ∷ rest)).0,
              rw (nonzero (length rest)) (rw e refl),
              cut [] (x ∷ rest) fp refl
                  (doc.goes_on fp (x ∷ rest) ∙ ap (λ k. content fp ++ take k (x ∷ rest)) z) z
                  (omega arith),
            )
        | inr e ↦
            let (fp1, run, h) =
              write_rest-Written fuel (fwrite fp (x ∷ rest)).0
                (drop (fwrite fp (x ∷ rest)).1 (x ∷ rest))
                (omega (
                  arith,
                  n,
                  length-drop (fwrite fp (x ∷ rest)).1 (x ∷ rest),
                  some_of-lt (fwrite fp (x ∷ rest)).1 e,
                )) in
            (fp1, rw (nonzero (length rest)) (rw e run), step_lem fp (x ∷ rest) fp1 h)
      ]

  -- `append` always returns, and counts the whole line. The line is at the end of the file then, but for
  -- a rest, if `fwrite_unlocked` wrote nothing of that rest.
  pub append-Written :
      (f : AppendFile F) (line : Bytes)
      → (fp1 : F) × (append fwrite f line
          ≡ some (record { fp = fp1; written_bytes = f.written_bytes + length line }))
        × Written (content f.fp) line fp1
  unfolding append
  append-Written f line =
      let (fp1, run, h) =
        write_rest-Written (suc (length line)) (fwrite f.fp line).0 (drop (fwrite f.fp line).1 line)
          (omega (arith, length-drop (fwrite f.fp line).1 line)) in
      (fp1, rw run refl, step_lem f.fp line fp1 h)
