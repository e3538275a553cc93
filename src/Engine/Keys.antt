-- ===== src/Engine/Keys.antt =====
-- The keys of the engine's tables: the words, by `std::hash<qs::string_view>` of
-- include/qs/string_view.h, which is `djb2` on bytes below 128.
use k23_search_engine.Prelude.{ℕ, List}
use k23_search_engine.Hash.{djb2}
use k23_search_engine.StringView.{equals}
use k23_search_engine.StringView.Split.{equals_iff}
use k23_search_engine.HashTable.Keys.{Key}

instance abbrev pub word_key : Key (List ℕ)
word_key = record { hash = djb2; equal = equals; equal_iff = equals_iff }
