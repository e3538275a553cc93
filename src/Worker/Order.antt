-- ===== src/Worker/Order.antt =====
-- The order in which the `worker` of include/qs/scheduler.hpp performs its jobs.
use mathlib.Core.Option.{some-injective}
use mathlib.Core.List.{append_assoc, append-nil}
use k23_search_engine.Prelude.{
  suc, ◌<◌, ◌≡◌, refl, sym, ap, subst, ◌∙◌, List, [], ◌∷◌, ◌++◌, Option, none, some, ◌>>=◌, ◌==◌,
  arith, Bool, true, false, length, length-append,
}
use k23_search_engine.LinkedList.{size_limit}
use k23_search_engine.Queue
use k23_search_engine.Queue.Fifo.{
  IsQueue, new-IsQueue, enqueue-IsQueue, dequeue-IsQueue, peek-IsQueue, empty-IsQueue, first_item,
}
use k23_search_engine.ConcurrentQueue
use k23_search_engine.ConcurrentQueue.{ConcurrentQueue}
use k23_search_engine.Worker.{
  Place, at_peek, at_test, at_job, at_dequeue, left, Worker, started, Runs, peeks, breaks, finds,
  misses, performs, dequeues, Step, enqueues, stops, runs, Reaches, here, then_step,
}

module _ {J : Type 0} where
  -- The jobs in the queue, those dequeued before them, and those performed, at a place of the thread.
  abbrev pub IsAt : Place J → List J → List J → List J → Type 0
  IsAt at_peek items before done = done ≡ before
  IsAt (at_test none) items before done = done ≡ before
  IsAt (at_test (some j)) items before done = (done ≡ before) × (rest : List J) × (items ≡ j ∷ rest)
  IsAt (at_job j) items before done = (done ≡ before) × (rest : List J) × (items ≡ j ∷ rest)
  IsAt at_dequeue items before done =
      (j : J) × (rest : List J) × (items ≡ j ∷ rest) × (done ≡ before ++ j ∷ [])
  IsAt left items before done = done ≡ before

  pub record IsOrdered (w : Worker J) : Type 0 where
    pub items : List J
    pub before : List J
    pub queue : IsQueue w.queue.q items
    pub whole : before ++ items ≡ w.submitted
    pub at : IsAt w.place items before w.performed

  IsAt-more :
      (p : Place J) (items before done : List J) (j : J)
      → IsAt p items before done
      → IsAt p (items ++ j ∷ []) before done
  IsAt-more at_peek items before done j h = h
  IsAt-more (at_test none) items before done j h = h
  IsAt-more (at_test (some i)) items before done j (e, rest, first) =
      (e, rest ++ j ∷ [], ap (λ t. t ++ j ∷ []) first)
  IsAt-more (at_job i) items before done j (e, rest, first) =
      (e, rest ++ j ∷ [], ap (λ t. t ++ j ∷ []) first)
  IsAt-more at_dequeue items before done j (i, rest, first, e) =
      (i, rest ++ j ∷ [], ap (λ t. t ++ j ∷ []) first, e)
  IsAt-more left items before done j h = h

  IsAt_test :
      (items before done : List J)
      → done ≡ before
      → IsAt (at_test (first_item items)) items before done
  IsAt_test [] before done e = e
  IsAt_test (j ∷ items) before done e = (e, items, refl)

  IsAt-tested :
      (job : Option J) (items before done : List J)
      → IsAt (at_test job) items before done
      → done ≡ before
  IsAt-tested none items before done h = h
  IsAt-tested (some j) items before done h = h.0

  enqueued :
      (j : J) (c c' : ConcurrentQueue J) (previously_empty : Bool) (items : List J)
      → IsQueue c.q items
      → suc (length items) < size_limit
      → ConcurrentQueue.enqueue j c ≡ some (c', previously_empty)
      → IsQueue c'.q (items ++ j ∷ [])
  unfolding ConcurrentQueue.enqueue
  enqueued j c c' previously_empty items q room run =
      let (l, add, added) = enqueue-IsQueue j c.q items q room in
      let step : ConcurrentQueue.enqueue j c ≡ some (record c { q = l }, Queue.empty c.q) =
        rw (add, ◌>>=◌) refl in
      let same =
        some-injective (c', previously_empty) (record c { q = l }, Queue.empty c.q)
          (sym run ∙ step) in
      subst (λ r. IsQueue r.0.q (items ++ j ∷ [])) (sym same) added

  dequeued :
      (j : J) (rest : List J) (c c' : ConcurrentQueue J) (item : Option J) (empty_out : Bool)
      → IsQueue c.q (j ∷ rest)
      → ConcurrentQueue.dequeue c ≡ some (c', item, empty_out)
      → IsQueue c'.q rest
  unfolding ConcurrentQueue.dequeue
  dequeued j rest c c' item empty_out q run =
      let (l, take, taken) = dequeue-IsQueue j c.q rest q in
      let held : Queue.empty c.q ≡ false = empty-IsQueue c.q (j ∷ rest) q ∙ ground arith in
      let step : ConcurrentQueue.dequeue c ≡ some (record c { q = l }, some j, Queue.empty l) =
        rw (held, take, ◌>>=◌) refl in
      let same =
        some-injective (c', item, empty_out) (record c { q = l }, some j, Queue.empty l)
          (sym run ∙ step) in
      subst (λ r. IsQueue r.0.q rest) (sym same) taken

  pub peeked :
      (c : ConcurrentQueue J) (items : List J) (job : Option J)
      → IsQueue c.q items
      → ConcurrentQueue.peek c ≡ some job
      → first_item items ≡ job
  unfolding ConcurrentQueue.peek
  peeked c items job q run = some-injective _ _ (sym (peek-IsQueue c.q items q) ∙ run)

  Runs-IsOrdered : (w w' : Worker J) → IsOrdered w → Runs w w' → IsOrdered w'
  Runs-IsOrdered w w' o (peeks job place may read) =
      let done = subst (λ p. IsAt p o.items o.before w.performed) place o.at in
      let first = peeked w.queue o.items job o.queue read in
      record {
        items = o.items;
        before = o.before;
        queue = o.queue;
        whole = o.whole;
        at =
            subst (λ x. IsAt (at_test x) o.items o.before w.performed) first
              (IsAt_test o.items o.before w.performed done);
      }
  Runs-IsOrdered w w' o (breaks job place closed) =
      let tested = subst (λ p. IsAt p o.items o.before w.performed) place o.at in
      record {
        items = o.items;
        before = o.before;
        queue = o.queue;
        whole = o.whole;
        at = IsAt-tested job _ _ _ tested;
      }
  Runs-IsOrdered w w' o (finds j place opened) =
      let tested = subst (λ p. IsAt p o.items o.before w.performed) place o.at in
      record { items = o.items; before = o.before; queue = o.queue; whole = o.whole; at = tested }
  Runs-IsOrdered w w' o (misses place opened) =
      let tested = subst (λ p. IsAt p o.items o.before w.performed) place o.at in
      record { items = o.items; before = o.before; queue = o.queue; whole = o.whole; at = tested }
  Runs-IsOrdered w w' o (performs j place) =
      let (e, rest, first) = subst (λ p. IsAt p o.items o.before w.performed) place o.at in
      record {
        items = o.items;
        before = o.before;
        queue = o.queue;
        whole = o.whole;
        at = (j, rest, first, ap (λ t. t ++ j ∷ []) e);
      }
  Runs-IsOrdered w w' o (dequeues queue' item empty_out place may run) =
      let (j, rest, first, done) = subst (λ p. IsAt p o.items o.before w.performed) place o.at in
      record {
        items = rest;
        before = o.before ++ j ∷ [];
        queue =
            dequeued j rest w.queue queue' item empty_out (subst (IsQueue w.queue.q) first o.queue)
              run;
        whole = append_assoc o.before (j ∷ []) rest ∙ ap (λ t. o.before ++ t) (sym first) ∙ o.whole;
        at = done;
      }

  Step-IsOrdered : (w w' : Worker J) → IsOrdered w → Step w w' → IsOrdered w'
  unfolding ConcurrentQueue.close
  Step-IsOrdered w w' o (enqueues j queue' previously_empty room run) =
      let sizes = sym (length-append o.before o.items) ∙ ap length o.whole in
      record {
        items = o.items ++ j ∷ [];
        before = o.before;
        queue =
            enqueued j w.queue queue' previously_empty o.items o.queue (omega (arith, sizes, room))
              run;
        whole = sym (append_assoc o.before o.items (j ∷ [])) ∙ ap (λ t. t ++ j ∷ []) o.whole;
        at = IsAt-more w.place o.items o.before w.performed j o.at;
      }
  Step-IsOrdered w w' o stops = record {
    items = o.items;
    before = o.before;
    queue = o.queue;
    whole = o.whole;
    at = o.at;
  }
  Step-IsOrdered w w' o (runs r) = Runs-IsOrdered w w' o r

  started-IsOrdered : IsOrdered started
  unfolding started
  started-IsOrdered = record {
    items = [];
    before = [];
    queue = new-IsQueue;
    whole = refl;
    at = refl;
  }

  pub Reaches-IsOrdered : (w : Worker J) → Reaches started w → IsOrdered w
  Reaches-IsOrdered w here = started-IsOrdered
  Reaches-IsOrdered w (then_step r s) = Step-IsOrdered _ w (Reaches-IsOrdered _ r) s

  at_end : (p : Place J) (before done : List J) → IsAt p [] before done → done ≡ before
  at_end at_peek before done h = h
  at_end (at_test none) before done h = h
  at_end (at_test (some j)) before done h = h.0
  at_end (at_job j) before done h = h.0
  at_end at_dequeue before done (j, rest, first, e) = absurd cc
  at_end left before done h = h

  all_performed :
      (p : Place J) (items before done submitted : List J)
      → IsAt p items before done
      → before ++ items ≡ submitted
      → (length items == 0) ≡ true
      → done ≡ submitted
  all_performed p [] before done submitted at whole none_left =
      at_end p before done at ∙ sym (append-nil before) ∙ whole
  all_performed p (j ∷ items) before done submitted at whole none_left =
      absurd (ground (arith, none_left))

  -- In every state that a worker reaches, by any steps of its thread and of the threads that enqueue jobs
  -- and stop it, at most 2 ^ 64 - 1 jobs in all: where the wait of `wait_done` ends, all jobs that were
  -- enqueued have been performed, each once and in the order in which they were enqueued.
  pub performed-eq-submitted :
      (w : Worker J)
      → Reaches started w
      → ConcurrentQueue.may_leave w.queue ≡ true
      → w.performed ≡ w.submitted
  unfolding ConcurrentQueue.may_leave
  performed-eq-submitted w reached leaves =
      let o = Reaches-IsOrdered w reached in
      all_performed w.place o.items o.before w.performed w.submitted o.at o.whole
        (sym (empty-IsQueue w.queue.q o.items o.queue) ∙ leaves)
