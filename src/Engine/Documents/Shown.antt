-- ===== src/Engine/Documents/Shown.antt =====
-- What the engine of src/core.cpp shows of the calls that were made: its queries and its results.
use k23_search_engine.Prelude.{
  zero, suc, ◌++◌, ◌∷◌, map, set, get_elem?, true, ℕ, ◌≡◌, refl, sym, ap, subst, ◌∙◌, List, [],
  Option, some,
}
use k23_search_engine.HashTable.Keys.{Key}
use k23_search_engine.HashSet.{HashSet}
use k23_search_engine.HashSet.Members.{is_among}
use k23_search_engine.Engine.{Engine, Query, Finished, deref}
use k23_search_engine.Engine.Keys.{word_key}
use k23_search_engine.Engine.Documents.Begin.{words_in}
use k23_search_engine.Engine.Documents.Answers.{is_answer}
use k23_search_engine.Engine.Documents.Serving.{IsServing, IsJoined}
use k23_search_engine.Engine.Documents.Ended.{IsEnded}
use k23_search_engine.Engine.Documents.Down.{ended}
use k23_search_engine.Engine.Documents.Delivered.{IsDelivered}

-- A document that was sent, with the queries there were then.
pub record Asked : Type 0 where
  pub doc_id : ℕ
  pub words : HashSet (List ℕ)
  pub queries : List Query

-- What the calls were: the queries that were started, and the documents.
pub record Session : Type 0 where
  pub queries : List Query
  pub asked : List Asked

abbrev pub question : ℕ → HashSet (List ℕ) → List Query → Asked
question doc_id words queries = record { doc_id = doc_id; words = words; queries = queries }

-- The pointers to the queries.
abbrev pub cells : List Query → List (Option Query)
cells = map some

cells_snoc : (qs : List Query) (x : Query) → cells qs ++ some x ∷ [] ≡ cells (qs ++ x ∷ [])
cells_snoc [] x = refl
cells_snoc (y ∷ qs) x = ap (λ cs. some y ∷ cs) (cells_snoc qs x)

cells_set : (qs : List Query) (q : ℕ) (x : Query) → set (cells qs) q (some x) ≡ cells (set qs q x)
cells_set [] q x = refl
cells_set (y ∷ qs) zero x = refl
cells_set (y ∷ qs) (suc q) x = ap (λ cs. some y ∷ cs) (cells_set qs q x)

deref-cells : (qs : List Query) (q : ℕ) → deref (cells qs) q ≡ get_elem? qs q
unfolding deref
deref-cells [] q = refl
deref-cells (y ∷ qs) zero = refl
deref-cells (y ∷ qs) (suc q) = deref-cells qs q

module _ ⦃ids : Key ℕ⦄ where
  -- A result has the id of the document and exactly the ids of the active queries that match it.
  pub record IsAnswerTo (a : Asked) (f : Finished) : Type 0 where
    pub names : f.doc_id ≡ a.doc_id
    pub answered :
        (q : ℕ) (query : Query)
        → get_elem? a.queries q ≡ some query
        → is_among query.id f.answer ≡ is_answer (words_in a.words) query
    pub only :
        (id : ℕ)
        → is_among id f.answer ≡ true
        → (q : ℕ) × (query : Query) × (get_elem? a.queries q ≡ some query) × (query.id ≡ id)

  -- One result for each document, in their order.
  abbrev pub AreAnswers : List Asked → List Finished → Type 0
  AreAnswers [] [] = Unit
  AreAnswers [] (f ∷ fs) = ⊥
  AreAnswers (a ∷ asked) [] = ⊥
  AreAnswers (a ∷ asked) (f ∷ fs) = IsAnswerTo a f × AreAnswers asked fs

  AreAnswers-snoc :
      (asked : List Asked) (fs : List Finished) (a : Asked) (f : Finished)
      → AreAnswers asked fs
      → IsAnswerTo a f
      → AreAnswers (asked ++ a ∷ []) (fs ++ f ∷ [])
  AreAnswers-snoc [] [] a f h new = (new, tt)
  AreAnswers-snoc [] (g ∷ fs) a f h new = absurd h
  AreAnswers-snoc (b ∷ asked) [] a f h new = absurd h
  AreAnswers-snoc (b ∷ asked) (g ∷ fs) a f h new = (h.0, AreAnswers-snoc asked fs a f h.1 new)

  -- The engine shows what was asked of it.
  pub record IsShown (c : Session) (e : Engine) : Type 0 where
    pub serving : IsServing e
    pub store : e.store ≡ cells c.queries
    pub results : AreAnswers c.asked e.finished_results

  pub kept_query :
      (c : Session) (e : Engine) (q : ℕ) (x : Query)
      → IsShown c e
      → get_elem? c.queries q ≡ some x
      → deref e.store q ≡ some x
  kept_query c e q x s there = ap (λ store. deref store q) s.store ∙ deref-cells c.queries q ∙ there

  pub joined-IsShown :
      (x : Query) (c : Session) (e e' : Engine)
      → IsShown c e
      → IsJoined x e e'
      → IsShown (record c { queries = c.queries ++ x ∷ [] }) e'
  joined-IsShown x c e e' s joined = record {
    serving = joined.serving;
    store = joined.store ∙ ap (λ store. store ++ some x ∷ []) s.store ∙ cells_snoc c.queries x;
    results = subst (AreAnswers c.asked) (sym joined.results) s.results;
  }

  pub ended-IsShown :
      (q : ℕ) (x : Query) (c : Session) (e e' : Engine)
      → IsShown c e
      → IsEnded q x e e'
      → IsShown (record c { queries = set c.queries q (ended x) }) e'
  ended-IsShown q x c e e' s done = record {
    serving = done.serving;
    store =
        done.store
        ∙ ap (λ store. set store q (some (ended x))) s.store
        ∙ cells_set c.queries q (ended x);
    results = subst (AreAnswers c.asked) (sym done.finished) s.results;
  }

  pub delivered-IsShown :
      (doc_id : ℕ) (words : HashSet (List ℕ)) (c : Session) (e e' : Engine)
      → IsShown c e
      → IsDelivered doc_id words e e'
      → IsShown (record c { asked = c.asked ++ question doc_id words c.queries ∷ [] }) e'
  delivered-IsShown doc_id words c e e' s d = record {
    serving = d.serving;
    store = d.store ∙ s.store;
    results =
        subst (AreAnswers (c.asked ++ question doc_id words c.queries ∷ [])) (sym d.appended) (
          AreAnswers-snoc c.asked e.finished_results (question doc_id words c.queries) d.finished
            s.results
            (record {
              names = d.names;
              answered = λ q query there. d.answered q query (kept_query c e q query s there);
              only = λ id named.
                  let (q, query, there, same) = d.only id named in
                  (
                    q,
                    query,
                    sym (deref-cells c.queries q)
                        ∙ ap (λ store. deref store q) (sym s.store)
                        ∙ there,
                    same,
                  );
            }));
  }
