-- ===== src/Bloom/Tests.antt =====
-- Runs of src/lib/bloom.cpp.
use k23_search_engine.Prelude.{
  ℕ, ◌≡◌, refl, List, [], ◌∷◌, some, true, false, All, arith, inr, replicate,
}
use k23_search_engine.Bloom.{Bloom, lookup, merge, bf_get_bit}
use k23_search_engine.Bloom.Filter.{IsFilter, add_all, lookup-add_all}
use k23_search_engine.Bloom.Merge.{lookup-merge}
use k23_search_engine.Hash.{djb2, hash_i}

-- 8 bytes and 2 hash functions
abbrev clear_filter : Bloom
clear_filter = record { bit_field = replicate 8 0; size = 8; hash_functions = 2 }

clear_filter-IsFilter : IsFilter clear_filter
clear_filter-IsFilter = record { wide = omega arith; width = refl }

abbrev ab : List ℕ
ab = 97 ∷ 98 ∷ []

abbrev full_byte : List ℕ
full_byte = replicate 8 255

-- 5381 * 33 * 33 + 97 * 33 + 98
djb2_run : djb2 ab ≡ 5863208
unfolding djb2
djb2_run = refl

lookup_run : lookup ab clear_filter ≡ some false
unfolding lookup hash_i bf_get_bit
lookup_run = refl

lookup-add_all_example :
    (r : Bloom) × (add_all (ab ∷ [] ∷ []) clear_filter ≡ some r)
    × All (λ w. lookup w r ≡ some true) (ab ∷ [] ∷ [])
lookup-add_all_example = lookup-add_all (ab ∷ [] ∷ []) clear_filter clear_filter-IsFilter

abbrev full_filter : Bloom
full_filter = record { bit_field = full_byte; size = 8; hash_functions = 2 }

full_filter_run : lookup ab full_filter ≡ some true
unfolding lookup hash_i bf_get_bit
full_filter_run = refl

lookup-merge_example :
    (r : Bloom) × (merge 8 full_byte clear_filter ≡ some r) × IsFilter r × (lookup ab r ≡ some true)
lookup-merge_example =
    lookup-merge ab full_byte clear_filter clear_filter-IsFilter refl (inr full_filter_run)
