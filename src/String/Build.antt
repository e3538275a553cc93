-- ===== src/String/Build.antt =====
-- The constructors, `cat` and `operator+` of src/lib/string.cpp.
use mathlib.Core.List.{append-nil, append_assoc}
use k23_search_engine.Prelude.{
  ℕ, suc, ◌+◌, ◌≤◌, ◌≡◌, refl, sym, ap, ap₂, ◌∙◌, List, [], ◌∷◌, ◌++◌, Option, none, some, ◌>>=◌,
  arith, ltb, true, false, length, length-append, Bool-cases, inl, inr, length-replicate,
}
use k23_search_engine.String.{String, of_bytes, copy, cat}
use k23_search_engine.String.Memory.{Buffer, new_char, write, memcpy}
use k23_search_engine.String.Texts.{
  IsText, cells, length-cells, cells-append, write_lem, memcpy_lem, new_char-split, parts_of,
}

length-ended :
    (text : List ℕ) (rest : Buffer)
    → length (cells text ++ some 0 ∷ rest) ≡ length text + 1 + length rest
length-ended text rest =
    omega (arith, length-append (cells text) (some 0 ∷ rest), length-cells text)

-- A string from a text that stands at the start of a buffer holds the text; no byte outside the new
-- buffer is written.
pub of_bytes-IsText :
    (text : List ℕ) (rest : Buffer)
    → (s : String) × (of_bytes (cells text ++ rest) (length text) ≡ some s) × IsText s text
unfolding of_bytes
of_bytes-IsText text rest =
    let n = length text in
    let copied : memcpy (new_char (n + 1)) 0 (cells text ++ rest) 0 n
        ≡ some (cells text ++ none ∷ []) =
      ap (λ b. memcpy b 0 (cells text ++ rest) 0 n) (new_char-split n 1)
      ∙ memcpy_lem [] (new_char n) (none ∷ []) (cells text) rest 0 n refl (sym (length-cells text))
          (length-replicate {A = Option ℕ} n none ∙ sym (length-cells text)) in
    let ended : write (cells text ++ none ∷ []) n (some 0 ∷ []) ≡ some (cells text ++ some 0 ∷ []) =
      write_lem (cells text) (none ∷ []) (some 0 ∷ []) [] n (sym (length-cells text)) refl in
    (
      record { str = some (cells text ++ some 0 ∷ []); cap = n + 1; len = n },
      rw (copied, ◌>>=◌, ended, ◌>>=◌) refl,
      record {
        rest = [];
        held = refl;
        length_is = refl;
        room = omega (arith, length-ended text []);
      },
    )

-- A copy of a string that holds a text holds the same text, in a buffer of its own size.
pub copy-IsText :
    (s : String) (text : List ℕ)
    → IsText s text
    → (r : String) × (copy s ≡ some r) × IsText r text × (r.cap ≡ length text + 1)
unfolding copy
copy-IsText s text t =
    let whole = cells text ++ some 0 ∷ [] in
    let size : length whole ≡ s.len + 1 = omega (arith, length-ended text [], t.length_is) in
    let copied : memcpy (new_char (s.len + 1)) 0 (cells text ++ some 0 ∷ t.rest) 0 (s.len + 1)
        ≡ some whole =
      ap₂ (λ a b. memcpy a 0 b 0 (s.len + 1)) (sym (append-nil (new_char (s.len + 1))))
        (sym (append_assoc (cells text) (some 0 ∷ []) t.rest))
      ∙ memcpy_lem [] (new_char (s.len + 1)) [] whole t.rest 0 (s.len + 1) refl (sym size)
          (length-replicate {A = Option ℕ} (s.len + 1) none ∙ sym size)
      ∙ ap some (append-nil whole) in
    (
      record { str = some whole; cap = s.len + 1; len = s.len },
      rw (t.held, ◌>>=◌, copied, ◌>>=◌) refl,
      record { rest = []; held = refl; length_is = t.length_is; room = sym size },
      ap (λ n. n + 1) t.length_is,
    )

-- The buffer with two texts, one behind the other.
joined :
    (x y : List ℕ) (rest : Buffer)
    → cells x ++ (cells y ++ some 0 ∷ rest) ≡ cells (x ++ y) ++ some 0 ∷ rest
joined x y rest =
    sym (append_assoc (cells x) (cells y) (some 0 ∷ rest))
    ∙ ap (λ b. b ++ some 0 ∷ rest) (sym (cells-append x y))

cat_in_place :
    (a b : String) (x y : List ℕ)
    → IsText a x
    → IsText b y
    → ltb (a.len + b.len) a.cap ≡ true
    → (r : String) × (cat a b ≡ some r) × IsText r (x ++ y)
unfolding cat
cat_in_place a b x y s t wide =
    let n = length x in
    let m = length y in
    let room : m + 1 ≤ length (some 0 ∷ s.rest) =
      enough _ _ _ _ _ _ wide s.length_is t.length_is (s.room ∙ length-ended x s.rest) in
    let (old, back, e, l) = parts_of m (some 0 ∷ s.rest) (omega (arith, room)) in
    let left = ap length e ∙ length-append old back in
    let (last, free, e', l') = parts_of 1 back (omega (arith, left, l, room)) in
    let copied : memcpy (cells x ++ some 0 ∷ s.rest) a.len (cells y ++ some 0 ∷ t.rest) 0 b.len
        ≡ some (cells x ++ (cells y ++ back)) =
      ap (λ z. memcpy (cells x ++ z) a.len (cells y ++ some 0 ∷ t.rest) 0 b.len) e
      ∙ memcpy_lem (cells x) old back (cells y) (some 0 ∷ t.rest) a.len b.len
          (s.length_is ∙ sym (length-cells x)) (t.length_is ∙ sym (length-cells y))
          (l ∙ sym (length-cells y)) in
    let ended : write (cells x ++ (cells y ++ back)) (a.len + b.len) (some 0 ∷ [])
        ≡ some (cells (x ++ y) ++ some 0 ∷ free) =
      ap (λ z. write z (a.len + b.len) (some 0 ∷ []))
        (sym (append_assoc (cells x) (cells y) back)
          ∙ ap₂ (λ u v. u ++ v) (sym (cells-append x y)) e')
      ∙ write_lem (cells (x ++ y)) last (some 0 ∷ []) free (a.len + b.len)
          (omega (arith, s.length_is, t.length_is, length-append x y, length-cells (x ++ y))) l' in
    (
      record { str = some (cells (x ++ y) ++ some 0 ∷ free); cap = a.cap; len = a.len + b.len },
      rw (cat, wide, s.held, ◌>>=◌, t.held, ◌>>=◌, copied, ◌>>=◌, ended, ◌>>=◌) refl,
      record {
        rest = free;
        held = refl;
        length_is = omega (arith, s.length_is, t.length_is, length-append x y);
        room = omega (
          arith,
          s.room,
          length-ended x s.rest,
          length-ended (x ++ y) free,
          length-append x y,
          left,
          l,
          ap length e' ∙ length-append last free,
          l',
        );
      },
    )
  where
    enough :
        (al bl c n m k : ℕ)
        → ltb (al + bl) c ≡ true
        → al ≡ n
        → bl ≡ m
        → c ≡ n + 1 + k
        → m + 1 ≤ suc k
    enough al bl c n m k wide e e' room = ground (arith, wide, e, e', room)

cat_grown :
    (a b : String) (x y : List ℕ)
    → IsText a x
    → IsText b y
    → ltb (a.len + b.len) a.cap ≡ false
    → (r : String) × (cat a b ≡ some r) × IsText r (x ++ y)
unfolding cat
cat_grown a b x y s t full =
    let tail = cells y ++ some 0 ∷ [] in
    let size : length tail ≡ b.len + 1 = omega (arith, length-ended y [], t.length_is) in
    let first : memcpy (new_char (a.len + b.len + 1)) 0 (cells x ++ some 0 ∷ s.rest) 0 a.len
        ≡ some (cells x ++ new_char (b.len + 1)) =
      ap (λ z. memcpy z 0 (cells x ++ some 0 ∷ s.rest) 0 a.len)
        (ap new_char (shift a.len b.len) ∙ new_char-split a.len (b.len + 1))
      ∙ memcpy_lem [] (new_char a.len) (new_char (b.len + 1)) (cells x) (some 0 ∷ s.rest) 0 a.len
          refl (s.length_is ∙ sym (length-cells x))
          (length-replicate {A = Option ℕ} a.len none ∙ s.length_is ∙ sym (length-cells x)) in
    let both : memcpy (cells x ++ new_char (b.len + 1)) a.len (cells y ++ some 0 ∷ t.rest) 0
          (b.len + 1)
        ≡ some (cells (x ++ y) ++ some 0 ∷ []) =
      ap₂ (λ u v. memcpy (cells x ++ u) a.len v 0 (b.len + 1))
        (sym (append-nil (new_char (b.len + 1))))
        (sym (append_assoc (cells y) (some 0 ∷ []) t.rest))
      ∙ memcpy_lem (cells x) (new_char (b.len + 1)) [] tail t.rest a.len (b.len + 1)
          (s.length_is ∙ sym (length-cells x)) (sym size)
          (length-replicate {A = Option ℕ} (b.len + 1) none ∙ sym size)
      ∙ ap (λ z. some (cells x ++ z)) (append-nil tail)
      ∙ ap some (joined x y []) in
    (
      record {
        str = some (cells (x ++ y) ++ some 0 ∷ []);
        cap = a.len + b.len + 1;
        len = a.len + b.len;
      },
      rw (cat, full, s.held, ◌>>=◌, first, ◌>>=◌, t.held, ◌>>=◌, both, ◌>>=◌) refl,
      record {
        rest = [];
        held = refl;
        length_is = omega (arith, s.length_is, t.length_is, length-append x y);
        room = omega (arith, s.length_is, t.length_is, length-ended (x ++ y) [], length-append x y);
      },
    )
  where
    shift : (a b : ℕ) → a + b + 1 ≡ a + (b + 1)
    shift a b = omega arith

-- `cat` of a string that holds a text and one that holds another, whether the buffer has room or is
-- replaced: there is no fault, so no byte outside a buffer is read or written, and the string then holds
-- the one text and behind it the other, with a buffer that `cap` describes and that has the NUL.
pub cat-IsText :
    (a b : String) (x y : List ℕ)
    → IsText a x
    → IsText b y
    → (r : String) × (cat a b ≡ some r) × IsText r (x ++ y)
cat-IsText a b x y s t = elim (Bool-cases (ltb (a.len + b.len) a.cap)) [
  | inl wide ↦ cat_in_place a b x y s t wide
  | inr full ↦ cat_grown a b x y s t full
]
