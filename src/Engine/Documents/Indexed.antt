-- ===== src/Engine/Documents/Indexed.antt =====
-- `StartQuery` of src/core.cpp and the jobs that it submits.
use k23_search_engine.Prelude.{
  ℕ, ◌+◌, ◌≡◌, sym, ap, subst, ◌∙◌, List, [], ◌++◌, some, ◌>>=◌, length, map, total, All,
}
use k23_search_engine.HashTable.Keys.{Key}
use k23_search_engine.HashTable.Assoc.{assoc}
use k23_search_engine.HashTable.Valid.{IsValid}
use k23_search_engine.HashSet.{HashSet}
use k23_search_engine.Engine.{Engine, MatchType}
use k23_search_engine.Engine.Keys.{word_key}
use k23_search_engine.Engine.Start.{start_known}
use k23_search_engine.Engine.Documents.Stored.{IsReady, Fits, Question, stored, adds}
use k23_search_engine.Engine.Documents.Drain.{wait_all_finish-IsDrained}
use k23_search_engine.Distances.{edit_buffer_size}
use k23_search_engine.Engine.Documents.{wait_all_finish}
use k23_search_engine.Engine.Documents.Count.{IsInt, or_zeros}
use k23_search_engine.Engine.Documents.Begin.{
  IsWord, job_for, IsKnown, words_in, start_known-IsStarted,
}

module _ ⦃ids : Key ℕ⦄ (buffer : List ℕ) (sort : List ℕ → List ℕ) where
  -- Where the indices are as their operations need them, the tables are valid and no job waits, and for a
  -- query of a known type with words of 4 to 30 bytes: after `StartQuery`, from its jobs on, and
  -- `wait_all_finish`, in any order of the jobs, there was no fault, no job waits, and each index
  -- holds what it held and the query under each of its words, once for each word.
  pub wait_all_finish-start_known :
      (picks : List ℕ) (t : MatchType) (d id q : ℕ) (words : HashSet (List ℕ)) (e : Engine)
      → length buffer ≡ edit_buffer_size
      → IsKnown t
      → IsValid words
      → All IsWord (words_in words)
      → IsReady e
      → e.jobs ≡ []
      → IsValid e.queries
      → IsValid e.threshold_counters
      → IsInt (or_zeros (assoc d e.threshold_counters.slots))
      → (e' : Engine) × ((start_known t d id q words e >>= λ r.
            wait_all_finish buffer sort picks r.0)
          ≡ some e')
        × IsReady e'
        × (length e'.jobs ≡ 0)
        × ((s : Question)
            → stored s e' ≡ stored s e + total (adds s) (map (job_for t q) (words_in words)))
  wait_all_finish-start_known picks t d id q words e wide known valid lengths ready idle queries
        counters int =
      let fits = subst (All Fits) (sym idle) tt in
      let (e1, start, began) =
        start_known-IsStarted t d id q words e known valid lengths ready fits queries counters
          int in
      let done = wait_all_finish-IsDrained buffer sort wide picks e1 began.ready began.fits in
      let jobs = began.jobs ∙ ap (λ js. js ++ map (job_for t q) (words_in words)) idle in
      (
        done.e',
        rw (start, ◌>>=◌) done.run,
        done.ready,
        done.finished,
        λ s.
            done.holds s
            ∙ ap (λ n. n + total (adds s) e1.jobs) (began.unchanged s)
            ∙ ap (λ js. stored s e + total (adds s) js) jobs,
      )
