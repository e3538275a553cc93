-- ===== src/Worker/Signals/Awake.antt =====
-- Which thread sleeps at a `concurrent_queue` of include/qs/queue.hpp, and which one a signal wakes.
use mathlib.Core.Option.{some-injective}
use k23_search_engine.Prelude.{
  ◌≡◌, refl, sym, ap, subst, ◌∙◌, some, ◌>>=◌, Bool, true, false, not, ◌&&◌, Option-cases,
  Bool-cases, inl, inr,
}
use k23_search_engine.Queue
use k23_search_engine.ConcurrentQueue
use k23_search_engine.ConcurrentQueue.{ConcurrentQueue}
use k23_search_engine.Worker.{
  Worker, started, Runs, peeks, breaks, finds, misses, performs, dequeues, enqueues, stops, runs,
  Reaches, here, then_step,
}
use k23_search_engine.Worker.Signals.{
  free, signalling, Threads, after_enqueue, is_waiting, is_at_dequeue, takes_item, Signalled,
  wakes_worker, wakes_client, wakes_none, Alerted, at_start, Moves, sleeps, wakes, works, submits,
  signals, closes, waits, leaves, blocks, rises, Comes, from_start, then_move,
}

module _ {J : Type 0} where
  -- A worker sleeps only while it has to wait or the client is about to signal, and the client waits
  -- only while the queue is not empty.
  pub record IsAwake (t : Threads J) : Type 0 where
    pub asleep :
        t.asleep ≡ true
        → (t.client ≡ signalling → ⊥)
        → ConcurrentQueue.may_peek t.worker.queue ≡ false
    pub held : is_waiting t.client ≡ true → ConcurrentQueue.may_leave t.worker.queue ≡ false

  pub Signalled-worker : (t t' : Threads J) → Signalled t t' → t'.worker ≡ t.worker
  Signalled-worker t t' (wakes_worker e) = refl
  Signalled-worker t t' (wakes_client e) = refl
  Signalled-worker t t' (wakes_none e f) = refl

  pub Alerted-worker : (b : Bool) (t t' : Threads J) → Alerted b t t' → t'.worker ≡ t.worker
  Alerted-worker true t t' s = Signalled-worker t t' s
  Alerted-worker false t t' e = ap (λ u. u.worker) e

  -- A signal wakes the worker where the client does not wait.
  Signalled-wakes :
      (t t' : Threads J) → is_waiting t.client ≡ false → Signalled t t' → t'.asleep ≡ false
  Signalled-wakes t t' up (wakes_worker e) = refl
  Signalled-wakes t t' up (wakes_client e) = let clash = sym up ∙ ap is_waiting e in absurd cc
  Signalled-wakes t t' up (wakes_none e f) = e

  -- A signal while the worker is awake wakes the client.
  pub Signalled-by_worker :
      (t t' : Threads J)
      → t.asleep ≡ false
      → Signalled t t'
      → (t'.asleep ≡ false) × (is_waiting t'.client ≡ false)
  Signalled-by_worker t t' awake (wakes_worker e) = let clash = sym awake ∙ e in absurd cc
  Signalled-by_worker t t' awake (wakes_client e) = (awake, refl)
  Signalled-by_worker t t' awake (wakes_none e f) = (e, f)

  Signalled-client :
      (t t' : Threads J) → is_waiting t.client ≡ false → Signalled t t' → t'.client ≡ t.client
  Signalled-client t t' up (wakes_worker e) = refl
  Signalled-client t t' up (wakes_client e) = let clash = sym up ∙ ap is_waiting e in absurd cc
  Signalled-client t t' up (wakes_none e f) = refl

  -- Where both threads are awake.
  nobody_waits-IsAwake :
      (t : Threads J) → t.asleep ≡ false → is_waiting t.client ≡ false → IsAwake t
  nobody_waits-IsAwake t awake up = record {
    asleep = λ e f. let clash = sym awake ∙ e in absurd cc;
    held = λ e. let clash = sym up ∙ e in absurd cc;
  }

  previously_empty :
      (j : J) (c c' : ConcurrentQueue J) (b : Bool)
      → ConcurrentQueue.enqueue j c ≡ some (c', b)
      → b ≡ Queue.empty c.q
  unfolding ConcurrentQueue.enqueue
  previously_empty j c c' b run = elim (Option-cases (Queue.enqueue j c.q)) [
    | inl e ↦
        let bad = sym run ∙ ap (λ o. o >>= λ q'. some (record c { q = q' }, Queue.empty c.q)) e in
        absurd cc
    | inr (l, e) ↦
        let good = sym run ∙ ap (λ o. o >>= λ q'. some (record c { q = q' }, Queue.empty c.q)) e in
        ap (λ r. r.1) (some-injective (c', b) (record c { q = l }, Queue.empty c.q) good)
  ]

  pub must_wait :
      (c : ConcurrentQueue J) → ConcurrentQueue.may_peek c ≡ false → Queue.empty c.q ≡ true
  unfolding ConcurrentQueue.may_peek
  must_wait c h = elim (Bool-cases (Queue.empty c.q)) [
    | inl e ↦ e
    | inr e ↦ let clash = sym h ∙ ap (λ b. not (b && not c.closed)) e in absurd cc
  ]

  must_wait_open :
      (c : ConcurrentQueue J)
      → ConcurrentQueue.may_peek c ≡ false
      → ConcurrentQueue.is_closed c ≡ false
  unfolding ConcurrentQueue.may_peek ConcurrentQueue.is_closed
  must_wait_open c h = elim (Bool-cases c.closed) [
    | inl e ↦ elim (Bool-cases (Queue.empty c.q)) [
      | inl f ↦ let clash = sym h ∙ rw (e, f) refl in absurd (clash_lem clash)
      | inr f ↦ let clash = sym h ∙ ap (λ b. not (b && not c.closed)) f in absurd cc
    ]
    | inr e ↦ e
  ]
    where
      clash_lem : false ≡ true → ⊥
      clash_lem h = cc

  -- The steps of the worker that do not signal leave the queue that the client waits for.
  Runs-held :
      (w w' : Worker J)
      → Runs w w'
      → takes_item w ≡ false
      → ConcurrentQueue.may_leave w.queue ≡ false
      → ConcurrentQueue.may_leave w'.queue ≡ false
  unfolding ConcurrentQueue.may_leave
  Runs-held w w' (peeks job place may read) quiet held = held
  Runs-held w w' (breaks job place closed) quiet held = held
  Runs-held w w' (finds j place opened) quiet held = held
  Runs-held w w' (misses place opened) quiet held = held
  Runs-held w w' (performs j place) quiet held = held
  Runs-held w w' (dequeues queue' item empty_out place may run) quiet held =
      let clash =
        sym quiet ∙ ap (λ p. is_at_dequeue p && not (Queue.empty w.queue.q)) place ∙ ap not held in
      absurd cc

  works-IsAwake :
      (t : Threads J) (w' : Worker J) (t' : Threads J) (b : Bool)
      → takes_item t.worker ≡ b
      → IsAwake t
      → t.asleep ≡ false
      → Runs t.worker w'
      → Alerted b (record t { worker = w' }) t'
      → IsAwake t'
  works-IsAwake t w' t' true e a awake r s =
      let (still, up) = Signalled-by_worker (record t { worker = w' }) t' awake s in
      nobody_waits-IsAwake t' still up
  works-IsAwake t w' t' false e a awake r s = subst IsAwake (sym s) (record {
    asleep = λ h f. let clash = sym awake ∙ h in absurd cc;
    held = λ up. Runs-held t.worker w' r e (a.held up);
  })

  closes-IsAwake :
      (t t' : Threads J) (b : Bool)
      → ConcurrentQueue.is_closed t.worker.queue ≡ b
      → IsAwake t
      → t.client ≡ free
      → Alerted
          (not b)
          (record t { worker = record t.worker { queue = ConcurrentQueue.close t.worker.queue } })
          t'
      → IsAwake t'
  closes-IsAwake t t' true e a place s = subst IsAwake (sym s) (record {
    asleep = λ h f. let clash = sym (must_wait_open t.worker.queue (a.asleep h f)) ∙ e in absurd cc;
    held = λ up. let clash = sym up ∙ ap is_waiting place in absurd cc;
  })
  closes-IsAwake t t' false e a place s =
      let up = ap is_waiting place in
      nobody_waits-IsAwake t' (Signalled-wakes _ t' up s)
        (ap is_waiting (Signalled-client _ t' up s) ∙ up)

  submits-IsAwake :
      (t : Threads J) (j : J) (queue' : ConcurrentQueue J) (b : Bool) (w' : Worker J)
      → IsAwake t
      → t.client ≡ free
      → ConcurrentQueue.enqueue j t.worker.queue ≡ some (queue', b)
      → IsAwake (record t { worker = w'; client = after_enqueue b })
  submits-IsAwake t j queue' true w' a place run = record {
    asleep = λ h f. absurd (f refl);
    held = λ up. absurd cc;
  }
  submits-IsAwake t j queue' false w' a place run = record {
    asleep = λ h f.
        let was = must_wait t.worker.queue (a.asleep h (λ g. not_both (sym place ∙ g))) in
        let clash = previously_empty j t.worker.queue queue' false run ∙ was in absurd cc;
    held = λ up. absurd cc;
  }
    where
      not_both : free ≡ signalling → ⊥
      not_both h = cc

  pub Moves-IsAwake : (t t' : Threads J) → IsAwake t → Moves t t' → IsAwake t'
  Moves-IsAwake t t' a (sleeps awake place may) = record { asleep = λ h f. may; held = a.held }
  Moves-IsAwake t t' a (wakes asleep) = record { asleep = λ h f. absurd cc; held = a.held }
  Moves-IsAwake t t' a (works {w'} awake r s) =
      works-IsAwake t w' t' (takes_item t.worker) refl a awake r s
  Moves-IsAwake t t' a (submits j queue' b place room run) =
      submits-IsAwake t j queue' b _ a place run
  Moves-IsAwake t t' a (signals {u = u} place s) =
      nobody_waits-IsAwake t' (Signalled-wakes t u (ap is_waiting place) s) refl
  Moves-IsAwake t t' a (closes place s) =
      closes-IsAwake t t' (ConcurrentQueue.is_closed t.worker.queue) refl a place s
  Moves-IsAwake t t' a (waits place) = record {
    asleep = λ h f. a.asleep h (λ g. let clash = sym place ∙ g in cc);
    held = λ up. absurd cc;
  }
  Moves-IsAwake t t' a (leaves place empty) = record {
    asleep = λ h f. a.asleep h (λ g. let clash = sym place ∙ g in cc);
    held = λ up. absurd cc;
  }
  Moves-IsAwake t t' a (blocks place full) = record {
    asleep = λ h f. a.asleep h (λ g. let clash = sym place ∙ g in cc);
    held = λ up. full;
  }
  Moves-IsAwake t t' a (rises place) = record {
    asleep = λ h f. a.asleep h (λ g. let clash = sym place ∙ g in cc);
    held = λ up. absurd cc;
  }

  -- Both threads together take the steps of the worker.
  pub Moves-Reaches :
      (t t' : Threads J) → Reaches started t.worker → Moves t t' → Reaches started t'.worker
  Moves-Reaches t t' r (sleeps awake place may) = r
  Moves-Reaches t t' r (wakes asleep) = r
  Moves-Reaches t t' r (works {w'} awake s alert) =
      subst (Reaches started)
        (sym (Alerted-worker (takes_item t.worker) (record t { worker = w' }) t' alert))
        (then_step r (runs s))
  Moves-Reaches t t' r (submits j queue' b place room run) =
      then_step r (enqueues j queue' b room run)
  Moves-Reaches t t' r (signals {u = u} place s) =
      subst (Reaches started) (sym (Signalled-worker t u s)) r
  Moves-Reaches t t' r (closes place s) =
      subst (Reaches started)
        (sym (Alerted-worker (not (ConcurrentQueue.is_closed t.worker.queue)) _ t' s))
        (then_step r stops)
  Moves-Reaches t t' r (waits place) = r
  Moves-Reaches t t' r (leaves place empty) = r
  Moves-Reaches t t' r (blocks place full) = r
  Moves-Reaches t t' r (rises place) = r

  pub Comes-Reaches : (t : Threads J) → Comes t → Reaches started t.worker
  unfolding at_start
  Comes-Reaches t from_start = here
  Comes-Reaches t (then_move c m) = Moves-Reaches _ t (Comes-Reaches _ c) m

  pub Comes-IsAwake : (t : Threads J) → Comes t → IsAwake t
  unfolding at_start
  Comes-IsAwake t from_start = nobody_waits-IsAwake _ refl refl
  Comes-IsAwake t (then_move c m) = Moves-IsAwake _ t (Comes-IsAwake _ c) m
