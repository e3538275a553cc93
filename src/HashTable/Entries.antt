-- ===== src/HashTable/Entries.antt =====
-- `lookup` after insertions, in include/qs/hash_table.hpp.
use k23_search_engine.Prelude.{
  ℕ, ◌≡◌, refl, sym, ap, ◌∙◌, List, [], ◌∷◌, Option, none, some, map, ◌>>=◌,
}
use k23_search_engine.HashTable.{Table, find_prime, sized, new, insert, get}
use k23_search_engine.HashTable.Keys.{Key}
use k23_search_engine.HashTable.Assoc.{
  assoc, or_else, under, or_else_assoc, or_else-none, assoc-replicate,
}
use k23_search_engine.HashTable.Valid.{IsValid, get-eq-assoc}
use k23_search_engine.HashTable.Insert.{find_prime_wide, sized-IsValid, insert-IsInserted}

pub new_size : (K V : Type 0) (capacity : ℕ) → (new {K = K} {V = V} capacity).size ≡ 0
unfolding new sized
new_size K V capacity = refl

module _ {K V : Type 0} ⦃key : Key K⦄ where
  pub new-IsValid : (capacity : ℕ) → IsValid (new {K = K} {V = V} capacity)
  unfolding new
  new-IsValid capacity = sized-IsValid (find_prime capacity) (find_prime_wide capacity)

  -- On a valid table, after an insertion a lookup returns what it returned before, and the inserted
  -- value for the inserted key if that key had none.
  pub get-insert :
      (t : Table K V) (k q : K) (v : V) (before : Option V)
      → IsValid t
      → get t q ≡ some before
      → (r : Table K V × ℕ) × (insert t k v ≡ some r)
        × (get r.0 q ≡ some (or_else before (under k v q)))
  get-insert t k q v before valid read =
      let (r, run, ins) = insert-IsInserted t k v valid in
      let e = sym (get-eq-assoc t valid q) ∙ read in
      (
        r,
        run,
        get-eq-assoc r.0 ins.valid q
            ∙ ap some (ins.maps q)
            ∙ ap (λ o. o >>= λ a. some (or_else a (under k v q))) e,
      )

  -- The entries inserted one by one.
  unfoldable pub insert_all : List (K × V) → Table K V → Option (Table K V)
  insert_all [] t = some t
  insert_all ((k, v) ∷ es) t = insert t k v >>= λ r. insert_all es r.0

  insert_all-IsValid :
      (es : List (K × V)) (t : Table K V)
      → IsValid t
      → (r : Table K V) × (insert_all es t ≡ some r)
        × IsValid r
        × ((q : K) → assoc q r.slots ≡ or_else (assoc q t.slots) (assoc q (map some es)))
  unfolding insert_all assoc
  insert_all-IsValid [] t valid = (t, refl, valid, λ q. sym (or_else-none (assoc q t.slots)))
  insert_all-IsValid ((k, v) ∷ es) t valid =
      let (s, run, ins) = insert-IsInserted t k v valid in
      let (r, rest, valid', maps) = insert_all-IsValid es s.0 ins.valid in
      (
        r,
        rw (run, ◌>>=◌) rest,
        valid',
        λ q.
            maps q
            ∙ ap (λ o. or_else o (assoc q (map some es))) (ins.maps q)
            ∙ or_else_assoc (assoc q t.slots) (under k v q) (assoc q (map some es)),
      )

  pub new_empty : (capacity : ℕ) (q : K) → assoc {V = V} q (new capacity).slots ≡ none
  unfolding new sized
  new_empty capacity q = assoc-replicate q (find_prime capacity)

  -- A new table takes any entries without a fault, and a lookup then returns the value of the first
  -- of them that has the key, or `end()` if none has it.
  pub get-insert_all :
      (capacity : ℕ) (es : List (K × V)) (q : K)
      → (r : Table K V) × (insert_all es (new capacity) ≡ some r)
        × (get r q ≡ some (assoc q (map some es)))
  get-insert_all capacity es q =
      let (r, run, valid, maps) = insert_all-IsValid es (new capacity) (new-IsValid capacity) in
      let empty : assoc q (new capacity).slots ≡ none = new_empty capacity q in
      (
        r,
        run,
        get-eq-assoc r valid q
            ∙ ap some (maps q ∙ ap (λ o. or_else o (assoc q (map some es))) empty),
      )
