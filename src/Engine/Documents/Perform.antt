-- ===== src/Engine/Documents/Perform.antt =====
-- One job of `StartQuery` in src/core.cpp.
use mathlib.Core.Option.{some-injective}
use k23_search_engine.Prelude.{
  ℕ, ◌+◌, ◌<◌, ◌≡◌, refl, sym, ap, subst, ◌∙◌, List, [], ◌∷◌, some, ◌>>=◌, arith, ◌==◌, bit, Bool,
  ◌&&◌, length, get_elem?, get_elem?_of_lt, get_elem?-set_self, get_elem?-set_ne, lt_of_get_elem?,
  length-set, set, total, Bool-cases, inl, inr, ==_iff,
}
use k23_search_engine.Vector.{Vector}
use k23_search_engine.HashTable.{Table}
use k23_search_engine.HashTable.Keys.{Key}
use k23_search_engine.Distances.{edit_buffer_size}
use k23_search_engine.Distances.Hamming.{mismatches}
use k23_search_engine.BkTree.Words.{edit_distance-IsMetric, hamming_distance-IsMetric}
use k23_search_engine.Engine.{
  Engine, Index, Job, add_to_tree_job, add_to_hash_table_job, match_doc_job, edit_ref, hamming_ref,
  min_word_length,
}
use k23_search_engine.Engine.Add.Posts.{posts, IsPosted}
use k23_search_engine.Engine.Add.Step.{add_to_tree-IsGrown}
use k23_search_engine.Engine.Documents.{perform}
use k23_search_engine.Engine.Documents.Exact.{IsListed, add_to_hash_table-IsListed}
use k23_search_engine.Engine.Documents.Stored.{
  Question, in_edit, in_hamming, in_exact, posts_in, stored, adds, Fits, IsReady,
}

-- What the jobs of `StartQuery` leave alone.
pub record IsKept (e e' : Engine) : Type 0 where
  pub store : e'.store ≡ e.store
  pub queries : e'.queries ≡ e.queries
  pub counters : e'.threshold_counters ≡ e.threshold_counters
  pub docs : e'.docs ≡ e.docs
  pub results : e'.finished_results ≡ e.finished_results

-- An engine after the jobs of a list.
pub record IsAdded (e : Engine) (jobs : List Job) (e' : Engine) : Type 0 where
  pub ready : IsReady e'
  pub holds : (s : Question) → stored s e' ≡ stored s e + total (adds s) jobs
  pub kept : IsKept e e'

-- The Hamming trees after one of them has changed.
hamming_posts :
    (g : List ℕ → ℕ → Bool) (trees : List Index) (i j q : ℕ) (str : List ℕ) (h h' : Index)
    → get_elem? trees j ≡ some h
    → posts g h' ≡ posts g h + bit (g str q)
    → posts_in g (get_elem? (set trees j h') i)
      ≡ posts_in g (get_elem? trees i) + (bit ((j == i) && g str q) + 0)
hamming_posts g trees i j q str h h' read grown = elim (Bool-cases (j == i)) [
  | inl same ↦
      let e = (==_iff j i).0 same in
      let now : get_elem? (set trees j h') i ≡ some h' =
        ap (get_elem? (set trees j h')) (sym e)
        ∙ get_elem?-set_self trees j h' (lt_of_get_elem? trees j h read) in
      let was : get_elem? trees i ≡ some h = ap (get_elem? trees) (sym e) ∙ read in
      rw (now, was, same, grown) (omega arith)
  | inr other ↦
      rw (get_elem?-set_ne trees j i h' (λ x. ground (arith, other, x)), other) (omega arith)
]

edit_holds :
    (q : ℕ) (str : List ℕ) (e : Engine) (ix : Index)
    → ((g : List ℕ → ℕ → Bool) → posts g ix ≡ posts g e.edit_tree + bit (g str q))
    → (s : Question)
    → stored s (record e { edit_tree = ix })
      ≡ stored s e + total (adds s) (add_to_tree_job q str edit_ref ∷ [])
unfolding stored adds total
edit_holds q str e ix counts (in_edit g) = omega (arith, counts g)
edit_holds q str e ix counts (in_hamming i g) = omega arith
edit_holds q str e ix counts (in_exact w f) = omega arith

hamming_holds :
    (q : ℕ) (str : List ℕ) (e : Engine) (j : ℕ) (h h' : Index)
    → get_elem? e.hamming_trees j ≡ some h
    → ((g : List ℕ → ℕ → Bool) → posts g h' ≡ posts g h + bit (g str q))
    → (s : Question)
    → stored s (record e { hamming_trees = set e.hamming_trees j h' })
      ≡ stored s e + total (adds s) (add_to_tree_job q str (hamming_ref j) ∷ [])
unfolding stored adds total
hamming_holds q str e j h h' read counts (in_edit g) = omega arith
hamming_holds q str e j h h' read counts (in_hamming i g) =
    hamming_posts g e.hamming_trees i j q str h h' read (counts g)
hamming_holds q str e j h h' read counts (in_exact w f) = omega arith

exact_holds :
    (q : ℕ) (str : List ℕ) (e : Engine) (t : Table (List ℕ) (Vector ℕ))
    → IsListed q str e.exact t
    → (s : Question)
    → stored s (record e { exact = t })
      ≡ stored s e + total (adds s) (add_to_hash_table_job q str ∷ [])
unfolding stored adds total
exact_holds q str e t listed (in_edit g) = omega arith
exact_holds q str e t listed (in_hamming i g) = omega arith
exact_holds q str e t listed (in_exact w f) = omega (arith, listed.counts w f)

-- The Hamming trees stay as they should when one of them does.
hamming_ready :
    (trees : List Index) (j : ℕ) (h' : Index)
    → j < length trees
    → IsPosted (λ w. length w ≡ j + min_word_length) mismatches h'
    → ((i : ℕ) (ix : Index)
        → get_elem? trees i ≡ some ix
        → IsPosted (λ w. length w ≡ i + min_word_length) mismatches ix)
    → (i : ℕ) (ix : Index) → get_elem? (set trees j h') i ≡ some ix
    → IsPosted (λ w. length w ≡ i + min_word_length) mismatches ix
hamming_ready trees j h' lt posted old i ix read = elim (Bool-cases (j == i)) [
  | inl same ↦
      let e = (==_iff j i).0 same in
      let there =
        sym (get_elem?-set_self trees j h' lt) ∙ ap (get_elem? (set trees j h')) e ∙ read in
      let moved =
        subst (λ n. IsPosted (λ w. length w ≡ n + min_word_length) mismatches h') e posted in
      subst (IsPosted (λ w. length w ≡ i + min_word_length) mismatches) (some-injective h' ix there)
        moved
  | inr other ↦
      old i ix (sym (get_elem?-set_ne trees j i h' (λ x. ground (arith, other, x))) ∙ read)
]

module _ ⦃ids : Key ℕ⦄ (buffer : List ℕ) (sort : List ℕ → List ℕ)
    (wide : length buffer ≡ edit_buffer_size) where
  -- A job of an index that fits ends without a fault, and adds what it should.
  pub perform-IsAdded :
      (j : Job) (e : Engine)
      → IsReady e
      → Fits j
      → (e' : Engine) × (perform buffer sort j e ≡ some e')
        × IsAdded e (j ∷ []) e'
        × (e'.jobs ≡ e.jobs)
  unfolding perform stored adds total
  perform-IsAdded (add_to_tree_job q str edit_ref) e ready fits =
      let (ix, run, grown) =
        add_to_tree-IsGrown (edit_distance-IsMetric buffer wide) q str e.edit_tree fits
          ready.edit in
      (
        record e { edit_tree = ix },
        rw (run, ◌>>=◌) refl,
        record {
          ready = record {
            edit = grown.posted;
            width = ready.width;
            hamming = ready.hamming;
            exact = ready.exact;
          };
          holds = edit_holds q str e ix grown.counts;
          kept = record {
            store = refl;
            queries = refl;
            counters = refl;
            docs = refl;
            results = refl;
          };
        },
        refl,
      )
  perform-IsAdded (add_to_tree_job q str (hamming_ref j)) e ready fits =
      let (h, read) = get_elem?_of_lt e.hamming_trees j (omega (arith, fits.0, ready.width)) in
      let (h', run, grown) =
        add_to_tree-IsGrown (hamming_distance-IsMetric (j + min_word_length)) q str h fits.1
          (ready.hamming j h read) in
      let lt = lt_of_get_elem? e.hamming_trees j h read in
      (
        record e { hamming_trees = set e.hamming_trees j h' },
        rw (read, ◌>>=◌, run, ◌>>=◌) refl,
        record {
          ready = record {
            edit = ready.edit;
            width = length-set e.hamming_trees j h' ∙ ready.width;
            hamming = hamming_ready e.hamming_trees j h' lt grown.posted ready.hamming;
            exact = ready.exact;
          };
          holds = hamming_holds q str e j h h' read grown.counts;
          kept = record {
            store = refl;
            queries = refl;
            counters = refl;
            docs = refl;
            results = refl;
          };
        },
        refl,
      )
  perform-IsAdded (add_to_hash_table_job q str) e ready fits =
      let (t, run, listed) = add_to_hash_table-IsListed q str e.exact ready.exact in
      (
        record e { exact = t },
        rw (run, ◌>>=◌) refl,
        record {
          ready = record {
            edit = ready.edit;
            width = ready.width;
            hamming = ready.hamming;
            exact = listed.exact;
          };
          holds = exact_holds q str e t listed;
          kept = record {
            store = refl;
            queries = refl;
            counters = refl;
            docs = refl;
            results = refl;
          };
        },
        refl,
      )
  perform-IsAdded (match_doc_job node) e ready fits = absurd fits
