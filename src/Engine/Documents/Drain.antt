-- ===== src/Engine/Documents/Drain.antt =====
-- The jobs of `StartQuery` in src/core.cpp, as the workers run them.
use native.Mathlib.Nat.{mod-lt}
use k23_search_engine.Prelude.{
  ℕ, zero, suc, ◌+◌, ◌%◌, ◌<◌, ◌≡◌, refl, sym, ap, ◌∙◌, List, [], ◌∷◌, Option, some, ◌>>=◌, arith,
  length, total, All,
}
use k23_search_engine.HashTable.Keys.{Key}
use k23_search_engine.Distances.{edit_buffer_size}
use k23_search_engine.Engine.{Engine, Job}
use k23_search_engine.Engine.Documents.{take_job, run_job, drain, wait_all_finish}
use k23_search_engine.Engine.Documents.Stored.{
  Question, in_edit, in_hamming, in_exact, stored, adds, Fits, IsReady,
}
use k23_search_engine.Engine.Documents.Perform.{IsKept, perform-IsAdded}

-- A job is taken out of the list.
record IsTaken (jobs : List Job) (taken : Option (Job × List Job)) : Type 0 where
  job : Job
  rest : List Job
  run : taken ≡ some (job, rest)
  fits : Fits job
  others : All Fits rest
  sums : (w : Job → ℕ) → total w jobs ≡ w job + total w rest
  one_less : length jobs ≡ suc (length rest)

take_job-IsTaken :
    (i : ℕ) (jobs : List Job) → i < length jobs → All Fits jobs → IsTaken jobs (take_job i jobs)
unfolding take_job total
take_job-IsTaken i [] h fits = absurd (omega arith)
take_job-IsTaken zero (j ∷ js) h fits = record {
  job = j;
  rest = js;
  run = refl;
  fits = fits.0;
  others = fits.1;
  sums = λ w. refl;
  one_less = refl;
}
take_job-IsTaken (suc i) (j ∷ js) h fits =
    let t = take_job-IsTaken i js (omega arith) fits.1 in
    record {
      job = t.job;
      rest = j ∷ t.rest;
      run = rw (t.run, ◌>>=◌) refl;
      fits = t.fits;
      others = (fits.0, t.others);
      sums = λ w. omega (arith, t.sums w);
      one_less = ap suc t.one_less;
    }

stored_jobs :
    (e : Engine) (js : List Job) (s : Question) → stored s (record e { jobs = js }) ≡ stored s e
unfolding stored
stored_jobs e js (in_edit g) = refl
stored_jobs e js (in_hamming i g) = refl
stored_jobs e js (in_exact w f) = refl

total_single : (w : Job → ℕ) (j : Job) → total w (j ∷ []) ≡ w j
unfolding total
total_single w j = omega arith

total_none : (w : Job → ℕ) (js : List Job) → length js ≡ 0 → total w js ≡ 0
unfolding total
total_none w [] h = refl
total_none w (j ∷ js) h = absurd (omega arith)

-- The engine after all jobs.
pub record IsDrained (e : Engine) (done : Option Engine) : Type 0 where
  pub e' : Engine
  pub run : done ≡ some e'
  pub ready : IsReady e'
  pub finished : length e'.jobs ≡ 0
  pub holds : (s : Question) → stored s e' ≡ stored s e + total (adds s) e.jobs
  pub kept : IsKept e e'

module _ ⦃ids : Key ℕ⦄ (buffer : List ℕ) (sort : List ℕ → List ℕ)
    (wide : length buffer ≡ edit_buffer_size) where
  -- The engine after one job, of those that wait.
  record IsStepped (e : Engine) (i : ℕ) : Type 0 where
    e' : Engine
    run : run_job buffer sort i e ≡ some e'
    ready : IsReady e'
    fits : All Fits e'.jobs
    one_less : length e.jobs ≡ suc (length e'.jobs)
    holds :
        (s : Question) → stored s e' + total (adds s) e'.jobs ≡ stored s e + total (adds s) e.jobs
    kept : IsKept e e'

  run_job-IsStepped :
      (i : ℕ) (e : Engine) → i < length e.jobs → IsReady e → All Fits e.jobs → IsStepped e i
  unfolding run_job
  run_job-IsStepped i e lt ready fits =
      let t = take_job-IsTaken i e.jobs lt fits in
      let (e', run, added, same) =
        perform-IsAdded buffer sort wide t.job (record e { jobs = t.rest })
          (record {
            edit = ready.edit;
            width = ready.width;
            hamming = ready.hamming;
            exact = ready.exact;
          })
          t.fits in
      record {
        e' = e';
        run = rw (t.run, ◌>>=◌) run;
        ready = added.ready;
        fits = rw same t.others;
        one_less = t.one_less ∙ ap (λ js. suc (length js)) (sym same);
        holds = λ s.
            let alone = total_single (adds s) t.job in
            let waits = stored_jobs e t.rest s in
            let left : total (adds s) e'.jobs ≡ total (adds s) t.rest = ap (total (adds s)) same in
            omega (arith, added.holds s, t.sums (adds s), alone, waits, left);
        kept = record {
          store = added.kept.store;
          queries = added.kept.queries;
          counters = added.kept.counters;
          docs = added.kept.docs;
          results = added.kept.results;
        };
      }

  after_first :
      (n i : ℕ) (picks : List ℕ) (e : Engine) (r : IsStepped e i)
      → IsDrained r.e' (drain buffer sort n picks r.e')
      → IsDrained e (run_job buffer sort i e >>= drain buffer sort n picks)
  after_first n i picks e r d = record {
    e' = d.e';
    run = rw (r.run, ◌>>=◌) d.run;
    ready = d.ready;
    finished = d.finished;
    holds = λ s. d.holds s ∙ r.holds s;
    kept = record {
      store = d.kept.store ∙ r.kept.store;
      queries = d.kept.queries ∙ r.kept.queries;
      counters = d.kept.counters ∙ r.kept.counters;
      docs = d.kept.docs ∙ r.kept.docs;
      results = d.kept.results ∙ r.kept.results;
    };
  }

  drain-IsDrained :
      (n : ℕ) (picks : List ℕ) (e : Engine)
      → n ≡ length e.jobs
      → IsReady e
      → All Fits e.jobs
      → IsDrained e (drain buffer sort n picks e)
  unfolding drain
  drain-IsDrained zero picks e h ready fits = record {
    e' = e;
    run = refl;
    ready = ready;
    finished = sym h;
    holds = λ s. omega (arith, total_none (adds s) e.jobs (sym h));
    kept = record { store = refl; queries = refl; counters = refl; docs = refl; results = refl };
  }
  drain-IsDrained (suc n) [] e h ready fits =
      let r = run_job-IsStepped 0 e (omega (arith, h)) ready fits in
      let d = drain-IsDrained n [] r.e' (omega (arith, h, r.one_less)) r.ready r.fits in
      after_first n 0 [] e r d
  drain-IsDrained (suc n) (i ∷ picks) e h ready fits =
      let r = run_job-IsStepped (i % length e.jobs) e (mod-lt i (omega (arith, h))) ready fits in
      let d = drain-IsDrained n picks r.e' (omega (arith, h, r.one_less)) r.ready r.fits in
      after_first n (i % length e.jobs) picks e r d

  -- Where the indices are as their operations need them, and the jobs that wait are those of started
  -- queries with words of the right lengths: whichever job is next each time, `wait_all_finish` ends
  -- without a fault, no job is left, and each index holds what it held and what the jobs add to it.
  -- What the indices hold does not depend on the order.
  pub wait_all_finish-IsDrained :
      (picks : List ℕ) (e : Engine)
      → IsReady e
      → All Fits e.jobs
      → IsDrained e (wait_all_finish buffer sort picks e)
  unfolding wait_all_finish
  wait_all_finish-IsDrained picks e ready fits =
      drain-IsDrained (length e.jobs) picks e refl ready fits
