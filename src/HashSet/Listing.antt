-- ===== src/HashSet/Listing.antt =====
-- The keys of include/qs/hash_set.hpp, listed: each once, and as many as the size.
use k23_search_engine.Prelude.{
  ℕ, ◌+◌, ◌≤◌, ◌≡◌, refl, sym, ap, ◌∙◌, List, [], ◌∷◌, Option, none, some, arith, Bool, true, false,
  ◌||◌, ◌&&◌, suc, bit, leb, map, length, count_if, Bool-cases, inl, inr,
}
use k23_search_engine.HashTable.Keys.{Key}
use k23_search_engine.HashTable.Assoc.{or_else, under}
use k23_search_engine.HashTable.Valid.{IsValid, occupied}
use k23_search_engine.HashTable.Distinct.{Joins, valid-Joins}
use k23_search_engine.HashTable.Iterator.{held}
use k23_search_engine.HashSet.{HashSet, get_size}
use k23_search_engine.HashSet.Members.{is_among}

-- The keys of a set, in the order of its slots.
abbrev pub keys_in : {K : Type 0} → HashSet K → List K
keys_in s = map (λ e. e.0) (held s.slots)

-- Whether all items pass a test.
unfoldable pub every : {A : Type 0} → (A → Bool) → List A → Bool
every p [] = true
every p (x ∷ xs) = p x && every p xs

pub count_if_or :
    {A : Type 0} (f g : A → Bool) (xs : List A)
    → ((x : A) → f x ≡ true → g x ≡ false)
    → count_if (λ x. f x || g x) xs ≡ count_if f xs + count_if g xs
count_if_or f g [] h = refl
count_if_or f g (x ∷ xs) h = step (f x) (g x) _ _ _ (h x) (count_if_or f g xs h)
  where
    step :
        (a b : Bool) (k m n : ℕ)
        → (a ≡ true → b ≡ false)
        → k ≡ m + n
        → bit (a || b) + k ≡ bit a + m + (bit b + n)
    step true true k m n h e = let clash = h refl in absurd cc
    step true false k m n h e = omega arith
    step false b k m n h e = omega arith

pub count_if_absorbed :
    {A : Type 0} (f g : A → Bool) (xs : List A)
    → ((x : A) → f x ≡ true → g x ≡ true)
    → count_if (λ x. f x || g x) xs ≡ count_if g xs
count_if_absorbed f g [] h = refl
count_if_absorbed f g (x ∷ xs) h = step (f x) (g x) _ _ (h x) (count_if_absorbed f g xs h)
  where
    step : (a b : Bool) (m n : ℕ) → (a ≡ true → b ≡ true) → m ≡ n → bit (a || b) + m ≡ bit b + n
    step true true m n h e = omega arith
    step true false m n h e = let clash = h refl in absurd cc
    step false b m n h e = omega arith

pub count_if_most : {A : Type 0} (p : A → Bool) (xs : List A) → count_if p xs ≤ length xs
count_if_most p [] = omega arith
count_if_most p (x ∷ xs) = step (p x) _ _ (count_if_most p xs)
  where
    step : (a : Bool) (m n : ℕ) → m ≤ n → bit a + m ≤ suc n
    step true m n h = omega arith
    step false m n h = omega arith

-- All items pass a test if it counts all of them.
pub every-eq-count :
    {A : Type 0} (p : A → Bool) (xs : List A) → leb (length xs) (count_if p xs) ≡ every p xs
unfolding every
every-eq-count p [] = refl
every-eq-count p (x ∷ xs) = step (p x) (every p xs) _ _ (count_if_most p xs) (every-eq-count p xs)
  where
    step : (a e : Bool) (m n : ℕ) → m ≤ n → leb n m ≡ e → leb (suc n) (bit a + m) ≡ (a && e)
    step true e m n h same = ground (arith, h, same)
    step false e m n h same = ground (arith, h)

length-held : {A : Type 0} (slots : List (Option A)) → length (held slots) ≡ count_if occupied slots
unfolding held
length-held [] = refl
length-held (none ∷ slots) = omega (arith, length-held slots)
length-held (some e ∷ slots) = omega (arith, length-held slots)

length-map : {A B : Type 0} (f : A → B) (xs : List A) → length (map f xs) ≡ length xs
length-map f [] = refl
length-map f (x ∷ xs) = omega (arith, length-map f xs)

module _ {K : Type 0} ⦃key : Key K⦄ where
  -- A valid set lists as many keys as its size says.
  pub length-keys_in : (s : HashSet K) → IsValid s → length (keys_in s) ≡ get_size s
  unfolding get_size
  length-keys_in s valid =
      length-map (λ e. e.0) (held s.slots) ∙ length-held s.slots ∙ valid.counted

  pub key_comm : (a b : K) → key.equal a b ≡ key.equal b a
  key_comm a b = elim (Bool-cases (key.equal a b)) [
    | inl same ↦ let e = (key.equal_iff a b).0 same in same ∙ sym ((key.equal_iff b a).1 (sym e))
    | inr other ↦ elim (Bool-cases (key.equal b a)) [
      | inl same ↦
          let e = (key.equal_iff b a).0 same in
          let clash = (key.equal_iff a b).1 (sym e) in absurd cc
      | inr other' ↦ other ∙ sym other'
    ]
  ]

  pub is_among-eq-count :
      (q : K) (ks : List K) → is_among q ks ≡ leb 1 (count_if (λ k. key.equal k q) ks)
  unfolding is_among
  is_among-eq-count q [] = refl
  is_among-eq-count q (k ∷ ks) = step (key.equal k q) _ _ (is_among-eq-count q ks)
    where
      step : (a b : Bool) (n : ℕ) → b ≡ leb 1 n → (a || b) ≡ leb 1 (bit a + n)
      step true b n h = ground (arith, h)
      step false b n h = ground (arith, h)

  joined_once :
      (slots : List (Option (K × ℕ))) (m : K → Option ℕ) (q : K)
      → Joins m slots
      → (count_if (λ k. key.equal k q) (map (λ e. e.0) (held slots)) ≤ 1)
        × (occupied (m q) ≡ true → count_if (λ k. key.equal k q) (map (λ e. e.0) (held slots)) ≡ 0)
  unfolding held
  joined_once [] m q j = (omega arith, λ h. refl)
  joined_once (none ∷ slots) m q j = joined_once slots m q j
  joined_once (some (k, v) ∷ slots) m q j =
      let (few, gone) = joined_once slots (λ q. or_else (m q) (under k v q)) q j.1 in
      elim (Bool-cases (key.equal k q)) [
        | inl same ↦
            let e = (key.equal_iff k q).0 same in
            let new : m q ≡ none = ap m (sym e) ∙ j.0 in
            let nothing = gone (rw (new, same) refl) in
            rw same (omega (arith, nothing), λ h. let clash = sym h ∙ ap occupied new in absurd cc)
        | inr other ↦
            rw other (omega (arith, few), λ h. omega (arith, gone (held_on (m q) (under k v q) h)))
      ]
    where
      held_on : (a b : Option ℕ) → occupied a ≡ true → occupied (or_else a b) ≡ true
      held_on none b h = absurd cc
      held_on (some a) b h = h

  -- A key of a valid set is listed once.
  pub key_once :
      (s : HashSet K) (q : K)
      → IsValid s
      → is_among q (keys_in s) ≡ true
      → count_if (λ k. key.equal k q) (keys_in s) ≡ 1
  key_once s q valid here =
      let (few, gone) =
        joined_once s.slots (λ k. none) q (valid-Joins s (λ k. none) valid (λ k. refl)) in
      one _ few (sym (is_among-eq-count q (keys_in s)) ∙ here)
    where
      one : (n : ℕ) → n ≤ 1 → leb 1 n ≡ true → n ≡ 1
      one n a b = ground (arith, a, b)
