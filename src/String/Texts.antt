-- ===== src/String/Texts.antt =====
-- What a string of include/qs/string.h holds.
use native.Mathlib.Nat.{zero-add}
use mathlib.Core.List.{append_assoc}
use k23_search_engine.Prelude.{
  ℕ, zero, suc, ◌+◌, ◌≤◌, ◌≡◌, refl, sym, ap, ap₂, ◌∙◌, List, [], ◌∷◌, ◌++◌, none, some, ◌>>=◌,
  arith, leb, le→leb, length, length-append, take, drop, map, true,
}
use k23_search_engine.String.{String}
use k23_search_engine.String.Memory.{Buffer, new_char, read, write, memcpy}

-- The bytes of a text, as they stand in a buffer.
abbrev pub cells : List ℕ → Buffer
cells xs = map some xs

-- The string holds a text: the buffer has the bytes, the NUL behind them, and the size that `cap` says.
pub record IsText (s : String) (text : List ℕ) : Type 0 where
  pub rest : Buffer
  pub held : s.str ≡ some (cells text ++ some 0 ∷ rest)
  pub length_is : s.len ≡ length text
  pub room : s.cap ≡ length (cells text ++ some 0 ∷ rest)

pub length-cells : (xs : List ℕ) → length (cells xs) ≡ length xs
length-cells [] = refl
length-cells (x ∷ xs) = ap suc (length-cells xs)

pub cells-append : (xs ys : List ℕ) → cells (xs ++ ys) ≡ cells xs ++ cells ys
cells-append [] ys = refl
cells-append (x ∷ xs) ys = ap (λ r. some x ∷ r) (cells-append xs ys)

pub take-length : (xs ys : Buffer) → take (length xs) (xs ++ ys) ≡ xs
take-length [] ys = refl
take-length (x ∷ xs) ys = ap (λ r. x ∷ r) (take-length xs ys)

pub drop-length : (xs ys : Buffer) → drop (length xs) (xs ++ ys) ≡ ys
drop-length [] ys = refl
drop-length (x ∷ xs) ys = drop-length xs ys

dropped :
    (front old back : Buffer) → drop (length front + length old) (front ++ (old ++ back)) ≡ back
dropped front old back =
    ap (λ k. drop k (front ++ (old ++ back))) (sym (length-append front old))
    ∙ ap (drop (length (front ++ old))) (sym (append_assoc front old back))
    ∙ drop-length (front ++ old) back

-- A write inside a buffer.
pub write_lem :
    (front old bytes back : Buffer) (i : ℕ)
    → i ≡ length front
    → length old ≡ length bytes
    → write (front ++ (old ++ back)) i bytes ≡ some (front ++ (bytes ++ back))
unfolding write
write_lem front old bytes back i e same =
    let total = length-append front (old ++ back) in
    let inner = length-append old back in
    let fits : leb (i + length bytes) (length (front ++ (old ++ back))) ≡ true =
      le→leb _ _ (omega arith) in
    rw fits (
      ap₂ (λ a b. some (a ++ (bytes ++ b)))
        (ap (λ k. take k (front ++ (old ++ back))) e ∙ take-length front (old ++ back))
        (ap₂ (λ k l. drop (k + l) (front ++ (old ++ back))) e (sym same) ∙ dropped front old back))

-- A read of the first bytes.
pub read_lem : (from rest : Buffer) (n : ℕ) → n ≡ length from → read (from ++ rest) 0 n ≡ some from
unfolding read
read_lem from rest n e =
    let whole = length-append from rest in
    let fits : leb (0 + n) (length (from ++ rest)) ≡ true = le→leb _ _ (omega arith) in
    rw fits (ap some (ap (λ k. take k (from ++ rest)) e ∙ take-length from rest))

-- A copy of the first bytes of one buffer into another, at a place inside it.
pub memcpy_lem :
    (front old back from rest : Buffer) (i n : ℕ)
    → i ≡ length front
    → n ≡ length from
    → length old ≡ length from
    → memcpy (front ++ (old ++ back)) i (from ++ rest) 0 n ≡ some (front ++ (from ++ back))
unfolding memcpy
memcpy_lem front old back from rest i n e e' same =
    rw (read_lem from rest n e', ◌>>=◌) (write_lem front old from back i e same)

pub new_char-split : (m n : ℕ) → new_char (m + n) ≡ new_char m ++ new_char n
new_char-split zero n = ap new_char (zero-add n)
new_char-split (suc m) n = ap new_char (shift m n) ∙ ap (λ r. none ∷ r) (new_char-split m n)
  where
    shift : (m n : ℕ) → suc m + n ≡ suc (m + n)
    shift m n = omega arith

-- A list that is long enough, in two parts.
pub parts_of :
    (n : ℕ) (xs : Buffer)
    → n ≤ length xs
    → (ys : Buffer) × (zs : Buffer) × (xs ≡ ys ++ zs) × (length ys ≡ n)
parts_of zero xs h = ([], xs, refl, refl)
parts_of (suc n) [] h = absurd (omega (arith, h))
parts_of (suc n) (x ∷ xs) h =
    let (ys, zs, e, l) = parts_of n xs (omega (arith, h)) in
    (x ∷ ys, zs, ap (λ r. x ∷ r) e, ap suc l)
