-- ===== src/String/Sanitize.antt =====
-- `sanitize` of src/lib/string.cpp.
use mathlib.Core.List.{append_assoc}
use k23_search_engine.Prelude.{
  ℕ, zero, suc, ◌+◌, ◌-◌, ◌<◌, ◌≡◌, refl, sym, ap, ap₂, ◌∙◌, List, [], ◌∷◌, ◌++◌, Option, none,
  some, ◌>>=◌, arith, ◌==◌, leb, le→leb, true, false, if◌then◌else◌, length, length-append, take,
  drop, Bool-cases, inl, inr, All, All-append, All-append_left, All-append_right, subst,
  nil_of_length,
}
use k23_search_engine.String.{String, remove_byte, remove_bytes, sanitize}
use k23_search_engine.String.Memory.{Buffer, read, write, memcpy, strchr}
use k23_search_engine.String.Texts.{
  IsText, cells, length-cells, cells-append, take-length, drop-length, read_lem, write_lem,
}

-- A text without one byte, and without those of a list.
unfoldable pub without : ℕ → List ℕ → List ℕ
without c [] = []
without c (x ∷ xs) = if x == c then without c xs else x ∷ without c xs

unfoldable pub without_all : List ℕ → List ℕ → List ℕ
without_all [] xs = xs
without_all (c ∷ cs) xs = without_all cs (without c xs)

-- The bytes are not NUL.
abbrev pub IsPlain : List ℕ → Type 0
IsPlain xs = All (λ x. (x == 0) ≡ false) xs

without-IsPlain : (c : ℕ) (xs : List ℕ) → IsPlain xs → IsPlain (without c xs)
unfolding without
without-IsPlain c [] h = tt
without-IsPlain c (x ∷ xs) h = elim (Bool-cases (x == c)) [
  | inl same ↦ rw same (without-IsPlain c xs h.1)
  | inr other ↦ rw other (h.0, without-IsPlain c xs h.1)
]

-- Where `strchr` finds a byte of a text.
pub data Found (c : ℕ) (text : List ℕ) (rest : Buffer) : Type 0 where
  absent :
      strchr (cells text ++ some 0 ∷ rest) c ≡ some none → without c text ≡ text → Found c text rest
  present :
      (before after : List ℕ)
      → text ≡ before ++ c ∷ after
      → strchr (cells text ++ some 0 ∷ rest) c ≡ some (some (length before))
      → without c text ≡ without c (before ++ after)
      → Found c text rest

strchr_end : (c : ℕ) (rest : Buffer) → (c == 0) ≡ false → strchr (some 0 ∷ rest) c ≡ some none
unfolding strchr
strchr_end c rest h = let differs : (0 == c) ≡ false = ground (arith, h) in rw differs refl

found :
    (c : ℕ) (text : List ℕ) (rest : Buffer) → (c == 0) ≡ false → IsPlain text → Found c text rest
unfolding strchr without
found c [] rest h plain = absent (strchr_end c rest h) refl
found c (x ∷ text) rest h plain = elim (Bool-cases (x == c)) [
  | inl same ↦
      let e : x ≡ c = ground (arith, same) in
      present [] text (ap (λ y. y ∷ text) e) (rw (strchr, same) refl) (rw (without, same) refl)
  | inr other ↦ elim (found c text rest h plain.1) [
    | absent run kept ↦
        absent (rw (strchr, other, plain.0, run, ◌>>=◌) refl)
          (rw (without, other) (ap (λ r. x ∷ r) kept))
    | present before after e run kept ↦
        present (x ∷ before) after (ap (λ r. x ∷ r) e)
          (rw (strchr, other, plain.0, run, ◌>>=◌) refl)
          (rw (without, other) (ap (λ r. x ∷ r) kept))
  ]
]

read_from :
    (front mid back : Buffer) (i n : ℕ)
    → i ≡ length front
    → n ≡ length mid
    → read (front ++ (mid ++ back)) i n ≡ some mid
unfolding read
read_from front mid back i n e e' =
    let total = length-append front (mid ++ back) in
    let inner = length-append mid back in
    let fits : leb (i + n) (length (front ++ (mid ++ back))) ≡ true = le→leb _ _ (omega arith) in
    rw fits (
      ap some (
        ap₂ (λ k l. take l (drop k (front ++ (mid ++ back)))) e e'
        ∙ ap (take (length mid)) (drop-length front (mid ++ back))
        ∙ take-length mid back))

-- The `memmove` of a round: the byte at its place is gone, and the NUL has moved.
moved :
    (before after : List ℕ) (c len : ℕ) (rest : Buffer)
    → len ≡ length (before ++ c ∷ after)
    → memcpy
        (cells (before ++ c ∷ after) ++ some 0 ∷ rest)
        (length before)
        (cells (before ++ c ∷ after) ++ some 0 ∷ rest)
        (length before + 1)
        (len - length before)
      ≡ some (cells (before ++ after) ++ some 0 ∷ some 0 ∷ rest)
unfolding memcpy
moved before after c len rest e =
    let mid = cells after ++ some 0 ∷ [] in
    let split = cells-append before (c ∷ after) in
    let size : len ≡ length before + suc (length after) = e ∙ length-append before (c ∷ after) in
    let mid_size : length mid ≡ length after + 1 =
      omega (arith, length-append (cells after) (some 0 ∷ []), length-cells after) in
    let whole = cells (before ++ c ∷ after) ++ some 0 ∷ rest in
    let for_read : whole ≡ (cells before ++ some c ∷ []) ++ (mid ++ rest) =
      ap (λ z. z ++ some 0 ∷ rest) split
      ∙ append_assoc (cells before) (some c ∷ cells after) (some 0 ∷ rest)
      ∙ ap (λ z. cells before ++ (some c ∷ z)) (sym (append_assoc (cells after) (some 0 ∷ []) rest))
      ∙ sym (append_assoc (cells before) (some c ∷ []) (mid ++ rest)) in
    let for_write : whole ≡ cells before ++ ((some c ∷ cells after) ++ some 0 ∷ rest) =
      ap (λ z. z ++ some 0 ∷ rest) split
      ∙ append_assoc (cells before) (some c ∷ cells after) (some 0 ∷ rest) in
    let taken : read whole (length before + 1) (len - length before) ≡ some mid =
      ap (λ z. read z (length before + 1) (len - length before)) for_read
      ∙ read_from (cells before ++ some c ∷ []) mid rest _ _
          (omega (arith, length-append (cells before) (some c ∷ []), length-cells before))
          (omega (arith, size, mid_size)) in
    let put : write whole (length before) mid ≡ some (cells before ++ (mid ++ some 0 ∷ rest)) =
      ap (λ z. write z (length before) mid) for_write
      ∙ write_lem (cells before) (some c ∷ cells after) mid (some 0 ∷ rest) (length before)
          (sym (length-cells before)) (omega (arith, mid_size, length-cells after)) in
    rw (taken, ◌>>=◌)
      (put
        ∙ ap some (
            ap (λ z. cells before ++ z) (append_assoc (cells after) (some 0 ∷ []) (some 0 ∷ rest))
            ∙ sym (append_assoc (cells before) (cells after) (some 0 ∷ some 0 ∷ rest))
            ∙ ap (λ z. z ++ some 0 ∷ some 0 ∷ rest) (sym (cells-append before after))))

removed_none : (text : List ℕ) → without_all [] text ≡ text
unfolding without_all
removed_none text = refl

-- The buffer without some bytes of its text.
record IsRemoved (text : List ℕ) (rest : Buffer) (wanted : List ℕ) (run : Option (Buffer × ℕ))
    : Type 0 where
  rest' : Buffer
  returns : run ≡ some (cells wanted ++ some 0 ∷ rest', length wanted)
  same_size : length (cells wanted ++ some 0 ∷ rest') ≡ length (cells text ++ some 0 ∷ rest)

shorter :
    (before after : List ℕ) (c : ℕ) (rest : Buffer)
    → length (cells (before ++ after) ++ some 0 ∷ some 0 ∷ rest)
      ≡ length (cells (before ++ c ∷ after) ++ some 0 ∷ rest)
shorter [] after c rest = omega (
  arith,
  length-append (cells after) (some 0 ∷ some 0 ∷ rest),
  length-append (cells after) (some 0 ∷ rest),
)
shorter (b ∷ before) after c rest = ap suc (shorter before after c rest)

round :
    (fuel c : ℕ) (str next : Buffer) (len i : ℕ)
    → strchr str c ≡ some (some i)
    → memcpy str i str (i + 1) (len - i) ≡ some next
    → remove_byte (suc fuel) c str len ≡ remove_byte fuel c next (len - 1)
unfolding remove_byte memcpy
round fuel c str next len i at run = rw (at, ◌>>=◌, run, ◌>>=◌) refl

no_round :
    (fuel c : ℕ) (str : Buffer) (len : ℕ)
    → strchr str c ≡ some none
    → remove_byte (suc fuel) c str len ≡ some (str, len)
unfolding remove_byte
no_round fuel c str len at = rw (at, ◌>>=◌) refl

-- The `while` ends within the length of the string.
remove_byte-IsRemoved :
    (fuel c : ℕ) (text : List ℕ) (rest : Buffer) (len : ℕ)
    → len ≡ length text
    → len < fuel
    → (c == 0) ≡ false
    → IsPlain text
    → IsRemoved text rest (without c text) (remove_byte fuel c (cells text ++ some 0 ∷ rest) len)
remove_byte-IsRemoved zero c text rest len e enough h plain = absurd (omega (arith, enough))
remove_byte-IsRemoved (suc fuel) c text rest len e enough h plain =
    elim (found c text rest h plain) [
      | absent run kept ↦ record {
        rest' = rest;
        returns =
            no_round fuel c (cells text ++ some 0 ∷ rest) len run
            ∙ ap₂ (λ t n. some (cells t ++ some 0 ∷ rest, n)) (sym kept) (e ∙ ap length (sym kept));
        same_size = ap (λ t. length (cells t ++ some 0 ∷ rest)) kept;
      }
      | present before after split run kept ↦
          let size = e ∙ ap length split in
          let left = size ∙ length-append before (c ∷ after) in
          let whole = rw split at plain in
          let next =
            remove_byte-IsRemoved fuel c (before ++ after) (some 0 ∷ rest) (len - 1)
              (omega (arith, left, length-append before after)) (omega (arith, enough, left)) h
              (All-append _ before after (All-append_left _ before (c ∷ after) whole)
                (All-append_right _ before (c ∷ after) whole).1) in
          let step =
            ap
              (λ t.
                memcpy (cells t ++ some 0 ∷ rest) (length before) (cells t ++ some 0 ∷ rest)
                  (length before + 1) (len - length before))
              split
            ∙ moved before after c len rest size in
          record {
            rest' = next.rest';
            returns =
                round fuel c (cells text ++ some 0 ∷ rest) _ len (length before) run step
                ∙ next.returns
                ∙ ap (λ t. some (cells t ++ some 0 ∷ next.rest', length t)) (sym kept);
            same_size =
                ap (λ t. length (cells t ++ some 0 ∷ next.rest')) kept
                ∙ next.same_size
                ∙ shorter before after c rest
                ∙ ap (λ t. length (cells t ++ some 0 ∷ rest)) (sym split);
          }
    ]

remove_bytes-IsRemoved :
    (cs text : List ℕ) (rest : Buffer) (len : ℕ)
    → len ≡ length text
    → IsPlain cs
    → IsPlain text
    → IsRemoved text rest
        (without_all cs text)
        (remove_bytes (cells cs) (cells text ++ some 0 ∷ rest) len)
unfolding remove_bytes without_all
remove_bytes-IsRemoved [] text rest len e h plain = record {
  rest' = rest;
  returns = ap (λ n. some (cells text ++ some 0 ∷ rest, n)) e;
  same_size = refl;
}
remove_bytes-IsRemoved (c ∷ cs) text rest len e h plain =
    let first = remove_byte-IsRemoved (len + 1) c text rest len e (omega arith) h.0 plain in
    let others =
      remove_bytes-IsRemoved cs (without c text) first.rest' (length (without c text)) refl h.1
        (without-IsPlain c text plain) in
    record {
      rest' = others.rest';
      returns = rw (first.returns, ◌>>=◌) others.returns;
      same_size = others.same_size ∙ first.same_size;
    }

-- `sanitize` of a string that holds a text, with another that holds the bytes to remove, both without
-- NUL bytes: the loops end, no byte outside the buffer is read or written, and the string holds the
-- text without those bytes, ended by a NUL, in the buffer that it had.
pub sanitize-IsText :
    (this remove_set : String) (text bytes : List ℕ)
    → IsText this text
    → IsText remove_set bytes
    → IsPlain text
    → IsPlain bytes
    → (r : String) × (sanitize this remove_set ≡ some r)
      × IsText r (without_all bytes text)
      × (r.cap ≡ this.cap)
unfolding sanitize
sanitize-IsText this remove_set text bytes s t plain clean =
    elim (Bool-cases (remove_set.len == 0)) [
      | inl none_left ↦
          let nothing = nil_of_length bytes (ground (arith, none_left, t.length_is)) in
          (this, rw (sanitize, none_left) refl, nothing_removed bytes nothing, refl)
      | inr some_left ↦
          let d = remove_bytes-IsRemoved bytes text s.rest this.len s.length_is clean plain in
          let bytes_read =
            read_lem (cells bytes) (some 0 ∷ t.rest) remove_set.len
              (t.length_is ∙ sym (length-cells bytes)) in
          (
            record {
              str = some (cells (without_all bytes text) ++ some 0 ∷ d.rest');
              cap = this.cap;
              len = length (without_all bytes text);
            },
            rw
                (
                  sanitize, some_left, t.held, ◌>>=◌, bytes_read, ◌>>=◌, s.held, ◌>>=◌, d.returns,
                  ◌>>=◌,
                )
                refl,
            record {
              rest = d.rest';
              held = refl;
              length_is = refl;
              room = s.room ∙ sym d.same_size;
            },
            refl,
          )
    ]
  where
    unfolded : (bytes : List ℕ) → bytes ≡ [] → without_all bytes text ≡ text
    unfolded bytes e = ap (λ b. without_all b text) e ∙ removed_none text

    nothing_removed : (bytes : List ℕ) → bytes ≡ [] → IsText this (without_all bytes text)
    nothing_removed bytes e = subst (IsText this) (sym (unfolded bytes e)) s
