-- ===== src/String/Compare.antt =====
-- `at` of src/lib/string.cpp, and the comparisons of include/qs/string.h.
use mathlib.Core.List.{append_assoc}
use k23_search_engine.Prelude.{
  ℕ, zero, suc, ◌<◌, ◌≡◌, refl, sym, ap, ◌∙◌, List, [], ◌∷◌, ◌++◌, some, ◌>>=◌, arith, ◌==◌, leb,
  ltb, true, false, length, length-append, get_elem?, get_elem?_outside, min, Bool-cases, inl, inr,
}
use k23_search_engine.String.{
  String, index, at, compare, less, less_or_equal, greater, greater_or_equal,
}
use k23_search_engine.String.Memory.{Buffer, level, memcmp}
use k23_search_engine.String.Texts.{IsText, cells, cells-append}

cell_of :
    (text : List ℕ) (rest : Buffer) (i : ℕ)
    → i < length text
    → (get_elem? (cells text ++ rest) i >>= λ cell. cell) ≡ get_elem? text i
cell_of [] rest i h = absurd (omega (arith, h))
cell_of (x ∷ text) rest zero h = refl
cell_of (x ∷ text) rest (suc i) h = cell_of text rest i (omega (arith, h))

-- `at` on a string that holds a text is the byte of the text, and throws at every other index; it
-- never reads the NUL or what is behind it.
pub at-eq-get_elem? :
    (s : String) (text : List ℕ) (i : ℕ) → IsText s text → at s i ≡ get_elem? text i
unfolding at index
at-eq-get_elem? s text i t = elim (Bool-cases (s.len == 0)) [
  | inl nothing ↦
      rw (at, nothing) (sym (get_elem?_outside text i (ground (arith, nothing, t.length_is))))
  | inr bytes ↦ elim (Bool-cases (leb s.len i)) [
    | inl outside ↦
        rw (at, bytes, outside)
          (sym (get_elem?_outside text i (ground (arith, outside, t.length_is))))
    | inr inside ↦
        rw (at, bytes, inside, index, t.held, ◌>>=◌)
          (cell_of text (some 0 ∷ t.rest) i (ground (arith, inside, t.length_is)))
  ]
]

memcmp_same :
    (text : List ℕ) (p q : Buffer)
    → memcmp (cells text ++ p) (cells text ++ q) (length text) ≡ some level
unfolding memcmp
memcmp_same [] p q = refl
memcmp_same (x ∷ text) p q =
    let less : ltb x x ≡ false = ground arith in rw less (memcmp_same text p q)

compare_prefix :
    (a b : String) (x y : List ℕ)
    → IsText a x
    → IsText b (x ++ y)
    → (compare a b ≡ some level) × (compare b a ≡ some level)
unfolding compare
compare_prefix a b x y s t =
    let longer = length-append x y in
    let n : min a.len b.len ≡ length x = omega (arith, s.length_is, t.length_is, longer) in
    let n' : min b.len a.len ≡ length x = omega (arith, s.length_is, t.length_is, longer) in
    let held : b.str ≡ some (cells x ++ (cells y ++ some 0 ∷ t.rest)) =
      t.held
      ∙ ap some (
          ap (λ z. z ++ some 0 ∷ t.rest) (cells-append x y)
          ∙ append_assoc (cells x) (cells y) (some 0 ∷ t.rest)) in
    (
      rw (s.held, ◌>>=◌, held, ◌>>=◌, n)
          (memcmp_same x (some 0 ∷ s.rest) (cells y ++ some 0 ∷ t.rest)),
      rw (held, ◌>>=◌, s.held, ◌>>=◌, n')
          (memcmp_same x (cells y ++ some 0 ∷ t.rest) (some 0 ∷ s.rest)),
    )

-- A string and another whose text goes on behind the text of the first, or is equal to it: neither is less
-- nor greater than the other, and each is less than or equal to the other.
pub less-prefix :
    (a b : String) (x y : List ℕ)
    → IsText a x
    → IsText b (x ++ y)
    → (less a b ≡ some false)
      × (less b a ≡ some false)
      × (greater a b ≡ some false)
      × (greater b a ≡ some false)
      × (less_or_equal a b ≡ some true)
      × (less_or_equal b a ≡ some true)
      × (greater_or_equal a b ≡ some true)
      × (greater_or_equal b a ≡ some true)
unfolding less less_or_equal greater greater_or_equal
less-prefix a b x y s t =
    let (ab, ba) = compare_prefix a b x y s t in
    (
      rw (ab, ◌>>=◌) refl,
      rw (ba, ◌>>=◌) refl,
      rw (ab, ◌>>=◌) refl,
      rw (ba, ◌>>=◌) refl,
      rw (ab, ◌>>=◌) refl,
      rw (ba, ◌>>=◌) refl,
      rw (ab, ◌>>=◌) refl,
      rw (ba, ◌>>=◌) refl,
    )
