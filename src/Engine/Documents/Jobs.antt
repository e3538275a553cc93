-- ===== src/Engine/Documents/Jobs.antt =====
-- What the jobs of a new query of src/core.cpp add to the indices.
use k23_search_engine.Prelude.{
  ℕ, ◌+◌, ◌-◌, ◌≤◌, ◌≡◌, refl, sym, ap, ◌∙◌, List, [], ◌∷◌, arith, ◌==◌, leb, Bool, true, false,
  ◌&&◌, bit, if◌then◌else◌, count_if, count_if_le, total, map, length, All,
}
use k23_search_engine.BkTree.{tree_elements}
use k23_search_engine.HashSet.Members.{is_among}
use k23_search_engine.HashSet.Listing.{is_among-eq-count}
use k23_search_engine.StringView.{equals}
use k23_search_engine.StringView.Split.{equals_iff}
use k23_search_engine.Engine.{
  Index, Entry, MatchType, exact_match, hamming_dist, edit_dist, unknown, Job, min_word_length,
}
use k23_search_engine.Engine.Keys.{word_key}
use k23_search_engine.Engine.Add.Posts.{weight, posts, items_of}
use k23_search_engine.Engine.Documents.Stored.{in_edit, in_hamming, in_exact, adds}
use k23_search_engine.Engine.Documents.Begin.{IsWord, IsKnown, job_for}
use k23_search_engine.Engine.Documents.Near.{is_exact, is_hamming, is_edit}

-- How many words of a list pass a test, if a query is of the type of the index.
abbrev pub if_of : Bool → (List ℕ → Bool) → List (List ℕ) → ℕ
if_of b p ws = if b then count_if p ws else 0

-- The test of a word in the Hamming tree of a slot.
abbrev pub in_slot : ℕ → List ℕ → Bool
in_slot i w = length w - min_word_length == i

total_none :
    (w : Job → ℕ) (job : List ℕ → Job) (ws : List (List ℕ))
    → ((x : List ℕ) → w (job x) ≡ 0)
    → total w (map job ws) ≡ 0
unfolding total
total_none w job [] h = refl
total_none w job (x ∷ ws) h = omega (arith, h x, total_none w job ws h)

total_tests :
    (w : Job → ℕ) (job : List ℕ → Job) (p : List ℕ → Bool) (ws : List (List ℕ))
    → ((x : List ℕ) → w (job x) ≡ bit (p x))
    → total w (map job ws) ≡ count_if p ws
unfolding total
total_tests w job p [] h = refl
total_tests w job p (x ∷ ws) h = omega (arith, h x, total_tests w job p ws h)

pub adds_edit :
    (t : MatchType) (n : ℕ) (g : List ℕ → ℕ → Bool) (ws : List (List ℕ))
    → IsKnown t
    → total (adds (in_edit g)) (map (job_for t n) ws) ≡ if_of (is_edit t) (λ w. g w n) ws
unfolding adds
adds_edit exact_match n g ws known = total_none _ (job_for exact_match n) ws (λ x. refl)
adds_edit hamming_dist n g ws known = total_none _ (job_for hamming_dist n) ws (λ x. refl)
adds_edit edit_dist n g ws known = total_tests _ (job_for edit_dist n) _ ws (λ x. refl)
adds_edit (unknown m) n g ws known = absurd known

pub adds_hamming :
    (t : MatchType) (n i : ℕ) (g : List ℕ → ℕ → Bool) (ws : List (List ℕ))
    → IsKnown t
    → total (adds (in_hamming i g)) (map (job_for t n) ws)
      ≡ if_of (is_hamming t) (λ w. in_slot i w && g w n) ws
unfolding adds
adds_hamming exact_match n i g ws known = total_none _ (job_for exact_match n) ws (λ x. refl)
adds_hamming hamming_dist n i g ws known = total_tests _ (job_for hamming_dist n) _ ws (λ x. refl)
adds_hamming edit_dist n i g ws known = total_none _ (job_for edit_dist n) ws (λ x. refl)
adds_hamming (unknown m) n i g ws known = absurd known

pub adds_exact :
    (t : MatchType) (n : ℕ) (str : List ℕ) (f : ℕ → Bool) (ws : List (List ℕ))
    → IsKnown t
    → total (adds (in_exact str f)) (map (job_for t n) ws)
      ≡ if_of (is_exact t) (λ w. equals w str && f n) ws
unfolding adds
adds_exact exact_match n str f ws known = total_tests _ (job_for exact_match n) _ ws (λ x. refl)
adds_exact hamming_dist n str f ws known = total_none _ (job_for hamming_dist n) ws (λ x. refl)
adds_exact edit_dist n str f ws known = total_none _ (job_for edit_dist n) ws (λ x. refl)
adds_exact (unknown m) n str f ws known = absurd known

-- A test that no word of a list passes.
pub if_of_none :
    (b : Bool) (p : List ℕ → Bool) (ws : List (List ℕ))
    → ((w : List ℕ) → p w ≡ false)
    → if_of b p ws ≡ 0
if_of_none false p ws h = refl
if_of_none true p [] h = refl
if_of_none true p (w ∷ ws) h = rw (h w) (omega (arith, if_of_none true p ws h))

-- The words of the new query, as a test of one word finds them.
pub if_of-is_among :
    (b : Bool) (p : List ℕ → Bool) (w : List ℕ) (ws : List (List ℕ))
    → All (λ u. p u ≡ equals u w) ws
    → leb 1 (if_of b p ws) ≡ (b && is_among w ws)
if_of-is_among false p w ws h = refl
if_of-is_among true p w ws h = ap (leb 1) (same ws h) ∙ sym (is_among-eq-count w ws)
  where
    same :
        (ws : List (List ℕ))
        → All (λ u. p u ≡ equals u w) ws
        → count_if p ws ≡ count_if (λ u. equals u w) ws
    same [] h = refl
    same (u ∷ ws) h = rw (h.0, same ws h.1) refl

-- In a Hamming tree only the words of its length count.
pub if_of-in_slot :
    (b : Bool) (i : ℕ) (p : List ℕ → Bool) (w : List ℕ) (ws : List (List ℕ))
    → All IsWord ws
    → ((u : List ℕ) → p u ≡ equals u w)
    → leb 1 (if_of b (λ u. in_slot i u && p u) ws)
      ≡ (b && (length w == i + min_word_length && is_among w ws))
if_of-in_slot false i p w ws lengths h = refl
if_of-in_slot true i p w ws lengths h =
    slots ws lengths
    ∙ ap (λ b. (length w == i + min_word_length) && b) (sym (is_among-eq-count w ws))
  where
    one :
        (a s : Bool) (m n : ℕ) (e : Bool)
        → (e ≡ true → a ≡ s)
        → leb 1 m ≡ (s && leb 1 n)
        → leb 1 (bit (a && e) + m) ≡ (s && leb 1 (bit e + n))
    one a true m n true same rest = let x = same refl in ground (arith, x, rest)
    one a false m n true same rest = let x = same refl in ground (arith, x, rest)
    one true true m n false same rest = ground (arith, rest)
    one true false m n false same rest = ground (arith, rest)
    one false true m n false same rest = ground (arith, rest)
    one false false m n false same rest = ground (arith, rest)

    shift : (l i : ℕ) → 4 ≤ l → (l - 4 == i) ≡ (l == i + 4)
    shift l i h = ground (arith, h)

    none_pass : (b : Bool) → leb 1 0 ≡ (b && leb 1 0)
    none_pass true = refl
    none_pass false = refl

    slots :
        (ws : List (List ℕ))
        → All IsWord ws
        → leb 1 (count_if (λ u. in_slot i u && p u) ws)
          ≡ ((length w == i + min_word_length) && leb 1 (count_if (λ u. equals u w) ws))
    slots [] lengths = none_pass (length w == i + min_word_length)
    slots (u ∷ ws) (long, rest) = rw (h u) (
        one (in_slot i u) (length w == i + min_word_length) _ _ (equals u w)
          (λ same.
            shift (length u) i long.0
            ∙ ap (λ x. length x == i + min_word_length) ((equals_iff u w).0 same))
          (slots ws rest))

-- A test that implies another is passed no more often.
pub posts_le :
    (g r : List ℕ → ℕ → Bool) (ix : Index)
    → ((w : List ℕ) (q : ℕ) → g w q ≡ true → r w q ≡ true)
    → posts g ix ≤ posts r ix
unfolding posts total
posts_le g r ix h = entries (tree_elements ix.tree)
  where
    entries : (es : List Entry) → total (weight g ix.payloads) es ≤ total (weight r ix.payloads) es
    entries [] = omega arith
    entries (e ∷ es) = omega (
      arith,
      entries es,
      count_if_le (g e.word) (r e.word) (items_of ix.payloads e.payload) (h e.word),
    )
