-- ===== src/StringView/Split.antt =====
-- `==` and `split` of include/qs/string_view.h.
use k23_search_engine.Prelude.{
  ℕ, ◌≤◌, ◌<◌, ◌≡◌, ◌≢◌, refl, ap, ap₂, List, [], ◌∷◌, ◌++◌, some, true, arith, length, All,
  All-append, ◌==◌, ◌↔◌, ==_iff, Bool-cases, inl, inr,
}
use k23_search_engine.StringView.{same_bytes, equals, scan, cut, split}

-- A token: not empty, and without the separator.
pub record IsWord (needle : ℕ) (w : List ℕ) : Type 0 where
  pub nonempty : 0 < length w
  pub clean : All (λ c. c ≢ needle) w

same_bytes_iff : (v w : List ℕ) → length v ≡ length w → (same_bytes v w (length v) ≡ true) ↔ (v ≡ w)
unfolding same_bytes
same_bytes_iff [] [] e = (λ _. refl, λ _. refl)
same_bytes_iff [] (y ∷ w) e = absurd (omega arith)
same_bytes_iff (x ∷ v) [] e = absurd (omega arith)
same_bytes_iff (x ∷ v) (y ∷ w) e =
    let ih = same_bytes_iff v w (omega arith) in
    (λ h. ap₂ ◌∷◌ (ground arith) (ih.0 (ground arith)), λ p. ground (arith, ih, p))

-- `==` on views compares their bytes.
pub equals_iff : (v w : List ℕ) → (equals v w ≡ true) ↔ (v ≡ w)
unfolding equals
equals_iff v w = elim (Bool-cases (length v == length w)) [
  | inl e ↦ rw e (same_bytes_iff v w ((==_iff _ _).0 e))
  | inr e ↦ rw e (λ h. cc, λ p. absurd (ground (arith, ap length p)))
]

module _ (needle : ℕ) where
  scan-word :
      (w : List ℕ) (c : ℕ) (rest : List ℕ)
      → All (λ d. d ≢ needle) w
      → scan needle (w ++ needle ∷ c ∷ rest) ≡ (w, needle ∷ c ∷ rest)
  unfolding scan
  scan-word [] c rest clean = ground arith
  scan-word (x ∷ []) c rest clean = ground arith
  scan-word (x ∷ y ∷ w) c rest clean = rw (scan-word (y ∷ w) c rest clean.1) (ground arith)

  scan_end :
      (w : List ℕ) (c : ℕ) → All (λ d. d ≢ needle) w → scan needle (w ++ c ∷ []) ≡ (w, c ∷ [])
  unfolding scan
  scan_end [] c clean = refl
  scan_end (x ∷ []) c clean = ground arith
  scan_end (x ∷ y ∷ w) c clean = rw (scan_end (y ∷ w) c clean.1) (ground arith)

  pub split_nil : split needle 0 [] ≡ some ([], [])
  unfolding split
  split_nil = refl

  -- A token in front of a separator and more bytes is taken off with the separator.
  pub split-word :
      (w : List ℕ) (c : ℕ) (rest : List ℕ)
      → All (λ d. d ≢ needle) w
      → split needle 0 (w ++ needle ∷ c ∷ rest) ≡ some (w, c ∷ rest)
  unfolding split
  split-word [] c rest clean = ground arith
  split-word (x ∷ w) c rest clean = rw (scan-word (x ∷ w) c rest clean) (ground arith)

  -- A view without separators is taken whole.
  pub split_whole :
      (w : List ℕ) (c : ℕ)
      → All (λ d. d ≢ needle) w
      → c ≢ needle
      → split needle 0 (w ++ c ∷ []) ≡ some (w ++ c ∷ [], [])
  unfolding split
  split_whole [] c clean other = ground arith
  split_whole (x ∷ w) c clean other = rw (scan_end (x ∷ w) c clean) (ground arith)

  -- Of a token in front of a last separator nothing is returned, and the rest of the view is dropped.
  pub split_dropped :
      (w : List ℕ) → All (λ d. d ≢ needle) w → split needle 0 (w ++ needle ∷ []) ≡ some ([], [])
  unfolding split
  split_dropped [] clean = ground arith
  split_dropped (x ∷ w) clean = rw (scan_end (x ∷ w) needle clean) (ground arith)

  scan_lem :
      (v : List ℕ) → All (λ c. c ≢ needle) (scan needle v).0 × (length (scan needle v).1 ≤ length v)
  unfolding scan
  scan_lem [] = (tt, omega arith)
  scan_lem (c ∷ []) = (tt, omega arith)
  scan_lem (c ∷ d ∷ s) =
      let ih = scan_lem (d ∷ s) in
      elim (Bool-cases (c == needle)) [
        | inl e ↦ rw e (tt, omega arith)
        | inr e ↦ rw e ((ground arith, ih.0), omega (arith, ih.1))
      ]

  cut_lem :
      (before here : List ℕ)
      → All (λ c. c ≢ needle) before
      → All (λ c. c ≢ needle) (cut needle before here).0
        × (0 < length (cut needle before here).0 → length (cut needle before here).1 < length here)
  unfolding cut
  cut_lem before [] clean = (tt, λ h. absurd (omega arith))
  cut_lem before (c ∷ []) clean = elim (Bool-cases (c == needle)) [
    | inl e ↦ rw e (tt, λ h. omega arith)
    | inr e ↦ rw e (All-append _ before (c ∷ []) clean (ground arith, tt), λ h. omega arith)
  ]
  cut_lem before (c ∷ d ∷ s) clean = (clean, λ h. omega arith)

  -- What `split` returns on any view: a token without separators, and fewer bytes to go on with.
  pub split_lem :
      (v : List ℕ)
      → (r : List ℕ × List ℕ) × (split needle 0 v ≡ some r)
        × All (λ c. c ≢ needle) r.0
        × (0 < length r.0 → length r.1 < length v)
  unfolding split
  split_lem [] = (([], []), refl, tt, λ h. absurd (omega arith))
  split_lem (c ∷ s) =
      let (before, here) = scan needle (c ∷ s) in
      let (clean, shorter) = scan_lem (c ∷ s) in
      let (clean', fewer) = cut_lem before here clean in
      (cut needle before here, ground arith, clean', λ h. omega (arith, fewer h))
