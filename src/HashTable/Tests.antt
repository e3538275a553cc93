-- ===== src/HashTable/Tests.antt =====
-- Runs of include/qs/hash_table.hpp, with numbers as their own hashes.
use mathlib.Core.Option.{some-injective}
use k23_search_engine.Prelude.{
  set, replicate, subst, sym, ◌∙◌, ℕ, ◌≡◌, refl, List, [], ◌∷◌, none, some, ◌==◌, ◌>>=◌, ==_iff,
  if◌then◌else◌,
}
use k23_search_engine.HashTable.{Table, new, clear, insert, remove, get}
use k23_search_engine.HashTable.Keys.{Key}
use k23_search_engine.HashTable.Assoc.{assoc}
use k23_search_engine.HashTable.Valid.{IsValid}
use k23_search_engine.HashTable.Place.{IsInserted}
use k23_search_engine.HashTable.Insert.{insert-IsInserted}
use k23_search_engine.HashTable.Entries.{new-IsValid, get-insert_all, insert_all}
use k23_search_engine.HashTable.Remove.{remove_lem}
use k23_search_engine.HashTable.Iterator
use k23_search_engine.HashTable.Iterator.{held, set_value}
use k23_search_engine.HashTable.Iterator.Visits.{entries-eq-held}
use k23_search_engine.HashTable.Iterator.Assign.{IsAssigned, set_value-IsAssigned}

instance number_Key : Key ℕ
number_Key = record { hash = λ n. n; equal = λ a b. a == b; equal_iff = ==_iff }

abbrev fresh_table : Table ℕ ℕ
fresh_table = new 10

-- 1 and 54 start at one slot of the 53; once 1 is removed, 54 is not found.
remove_breaks_probe :
    (insert fresh_table 1 7 >>= λ r. insert r.0 54 8 >>= λ s. remove s.0 1 >>= λ t. get t 54)
    ≡ some none
unfolding new insert remove get number_Key
remove_breaks_probe = refl

-- A lookup after `clear` computes a remainder by 0.
clear_breaks_lookup : get (clear fresh_table) 1 ≡ none
unfolding clear get
clear_breaks_lookup = refl

abbrev one_entry : Table ℕ ℕ
one_entry = record { slots = set (replicate 53 none) 1 (some (1, 7)); capacity = 53; size = 1 }

one_entry_run : insert fresh_table 1 7 ≡ some (one_entry, 1)
unfolding new insert number_Key
one_entry_run = refl

one_entry-IsValid : IsValid one_entry
one_entry-IsValid =
    let (r, run, ins) = insert-IsInserted fresh_table 1 7 (new-IsValid 10) in
    subst (λ o. IsValid o.0) (some-injective r (one_entry, 1) (sym run ∙ one_entry_run)) ins.valid

-- 54 starts at the slot of 1.
insert-IsInserted_example :
    (r : Table ℕ ℕ × ℕ) × (insert one_entry 54 4 ≡ some r) × IsInserted one_entry 54 4 r
insert-IsInserted_example = insert-IsInserted one_entry 54 4 one_entry-IsValid

abbrev entries : List (ℕ × ℕ)
entries = (1, 7) ∷ (54, 8) ∷ (1, 9) ∷ []

get-insert_all_example :
    (r : Table ℕ ℕ) × (insert_all entries (new 10) ≡ some r) × (get r 1 ≡ some (some 7))
unfolding assoc number_Key
get-insert_all_example = get-insert_all 10 entries 1

remove_lem_example :
    (r : Table ℕ ℕ) × (remove one_entry 1 ≡ some r)
    × ((q : ℕ) → assoc q r.slots ≡ (if 1 == q then none else assoc q one_entry.slots))
    × (r.size ≡ 0)
unfolding assoc number_Key
remove_lem_example = remove_lem one_entry 1 one_entry-IsValid

entries-eq-held_example : Iterator.entries one_entry ≡ some ((1, 7) ∷ [])
unfolding held
entries-eq-held_example = entries-eq-held one_entry one_entry-IsValid

set_value-IsAssigned_example :
    (t' : Table ℕ ℕ) × (set_value one_entry 1 9 ≡ some t') × IsAssigned one_entry 1 1 9 t'
set_value-IsAssigned_example = set_value-IsAssigned one_entry 1 1 9 7 one_entry-IsValid refl
