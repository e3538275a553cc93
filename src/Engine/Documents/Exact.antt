-- ===== src/Engine/Documents/Exact.antt =====
-- `add_to_hash_table` of src/core.cpp.
use mathlib.Core.Option.{some-injective}
use k23_search_engine.Prelude.{
  ℕ, ◌+◌, ◌≡◌, refl, sym, ap, subst, ◌∙◌, List, [], ◌∷◌, ◌++◌, Option, none, some, ◌>>=◌, arith,
  bit, Bool, ◌&&◌, if◌then◌else◌, count_if, count_if-append, Bool-cases, Option-cases, inl, inr,
}
use k23_search_engine.Vector
use k23_search_engine.Vector.{Vector}
use k23_search_engine.Vector.Laws.{IsRoomy, new-IsRoomy, items-new, push_lem}
use k23_search_engine.HashTable.{Table}
use k23_search_engine.HashTable.Assoc.{assoc, or_else, under, or_else-none}
use k23_search_engine.HashTable.Valid.{IsValid}
use k23_search_engine.HashTable.Insert.{insert-IsInserted}
use k23_search_engine.HashTable.Iterator.Assign.{set_value-IsAssigned}
use k23_search_engine.HashTable.Iterator.Lookup.{lookup-IsFound, lookup_absent}
use k23_search_engine.StringView.{equals}
use k23_search_engine.StringView.Split.{equals_iff}
use k23_search_engine.Engine.Keys.{word_key}
use k23_search_engine.Engine.Add.{add_to_hash_table}

-- The queries of a word in a vector that may be there.
abbrev pub items_in : Option (Vector ℕ) → List ℕ
items_in none = []
items_in (some v) = v.items

-- The table is valid, and its vectors have room.
pub record IsExact (t : Table (List ℕ) (Vector ℕ)) : Type 0 where
  pub valid : IsValid t
  pub roomy : (w : List ℕ) (v : Vector ℕ) → assoc w t.slots ≡ some v → IsRoomy v

-- The table with one more query for a word.
pub record IsListed (q : ℕ) (str : List ℕ) (t t' : Table (List ℕ) (Vector ℕ)) : Type 0 where
  pub exact : IsExact t'
  pub counts :
      (w : List ℕ) (f : ℕ → Bool)
      → count_if f (items_in (assoc w t'.slots))
        ≡ count_if f (items_in (assoc w t.slots)) + bit (equals str w && f q)

-- From the mapping of the new table.
listed :
    (q : ℕ) (str : List ℕ) (v : Vector ℕ) (t t' : Table (List ℕ) (Vector ℕ))
    → IsExact t
    → IsValid t'
    → IsRoomy v
    → v.items ≡ items_in (assoc str t.slots) ++ q ∷ []
    → ((w : List ℕ) → assoc w t'.slots ≡ (if equals str w then some v else assoc w t.slots))
    → IsListed q str t t'
listed q str v t t' exact valid roomy items maps = record {
  exact = record {
    valid = valid;
    roomy = λ w u h. elim (Bool-cases (equals str w)) [
      | inl same ↦ subst IsRoomy (some-injective v u (sym (maps w ∙ rw same refl) ∙ h)) roomy
      | inr other ↦ exact.roomy w u (sym (maps w ∙ rw other refl) ∙ h)
    ];
  };
  counts = λ w f. elim (Bool-cases (equals str w)) [
    | inl same ↦
        let e = (equals_iff str w).0 same in
        let read : assoc w t'.slots ≡ some v = maps w ∙ rw same refl in
        let now : items_in (assoc w t'.slots) ≡ items_in (assoc w t.slots) ++ q ∷ [] =
          ap items_in read ∙ items ∙ ap (λ x. items_in (assoc x t.slots) ++ q ∷ []) e in
        rw (now, same) (count_if-append f (items_in (assoc w t.slots)) (q ∷ []) ∙ omega arith)
    | inr other ↦ rw (maps w, other) (omega arith)
  ];
}

-- On a valid table whose vectors have room, `add_to_hash_table` ends without a fault.
pub add_to_hash_table-IsListed :
    (q : ℕ) (str : List ℕ) (t : Table (List ℕ) (Vector ℕ))
    → IsExact t
    → (t' : Table (List ℕ) (Vector ℕ)) × (add_to_hash_table q str t ≡ some t') × IsListed q str t t'
unfolding add_to_hash_table
add_to_hash_table-IsListed q str t exact = elim (Option-cases (assoc str t.slots)) [
  | inl absent ↦
      let (qv, push, items, roomy) = push_lem (Vector.new 10) q (new-IsRoomy 10 (omega arith)) in
      let (r, insert, ins) = insert-IsInserted t str qv exact.valid in
      let (miss, end) = lookup_absent t str exact.valid absent in
      (
        r.0,
        rw (miss, ◌>>=◌, end, push, ◌>>=◌, insert, ◌>>=◌) refl,
        listed q str qv t r.0 exact ins.valid roomy
            (items ∙ ap (λ xs. xs ++ q ∷ []) (items-new 10 ∙ sym (ap items_in absent)))
            (λ w. ins.maps w ∙ joins w qv absent),
      )
  | inr (v, here) ↦
      let f = lookup-IsFound t str exact.valid v here in
      let (qv, push, items, roomy) = push_lem v q (exact.roomy str v here) in
      let (t', write, a) = set_value-IsAssigned t f.i str qv v exact.valid f.held in
      (
        t',
        rw (f.run, ◌>>=◌, f.inner, f.read, ◌>>=◌, push, ◌>>=◌) write,
        listed q str qv t t' exact a.valid roomy
            (items ∙ ap (λ xs. xs ++ q ∷ []) (sym (ap items_in here))) a.maps,
      )
]
  where
    joins :
        (w : List ℕ) (v : Vector ℕ)
        → assoc str t.slots ≡ none
        → or_else (assoc w t.slots) (under str v w)
          ≡ (if equals str w then some v else assoc w t.slots)
    joins w v absent = elim (Bool-cases (equals str w)) [
      | inl same ↦
          let e = (equals_iff str w).0 same in
          let gone : assoc w t.slots ≡ none = ap (λ x. assoc x t.slots) (sym e) ∙ absent in
          rw (gone, same) refl
      | inr other ↦ rw other (or_else-none (assoc w t.slots))
    ]
