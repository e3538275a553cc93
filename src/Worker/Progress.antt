-- ===== src/Worker/Progress.antt =====
-- When the thread of the `worker` of include/qs/scheduler.hpp can go on.
use mathlib.Core.Option.{some-injective}
use k23_search_engine.Prelude.{
  ◌≡◌, refl, sym, ap, subst, ◌∙◌, List, ◌∷◌, none, some, ◌>>=◌, Bool, true, false, Option-cases,
  inl, inr,
}
use k23_search_engine.Queue
use k23_search_engine.Queue.Fifo.{IsQueue, dequeue-IsQueue, peek-IsQueue, first_item}
use k23_search_engine.ConcurrentQueue
use k23_search_engine.ConcurrentQueue.{ConcurrentQueue}
use k23_search_engine.Worker.{
  Place, at_peek, at_test, at_job, at_dequeue, left, Worker, started, Runs, peeks, breaks, finds,
  misses, performs, dequeues, Step, enqueues, stops, runs, Reaches, here, then_step,
}
use k23_search_engine.Worker.Order.{IsAt, IsOrdered, Reaches-IsOrdered}

module _ {J : Type 0} where
  enqueue-closed :
      (j : J) (c c' : ConcurrentQueue J) (b : Bool)
      → ConcurrentQueue.enqueue j c ≡ some (c', b)
      → c'.closed ≡ c.closed
  unfolding ConcurrentQueue.enqueue
  enqueue-closed j c c' b run = elim (Option-cases (Queue.enqueue j c.q)) [
    | inl e ↦
        let bad = sym run ∙ ap (λ o. o >>= λ q'. some (record c { q = q' }, Queue.empty c.q)) e in
        absurd cc
    | inr (l, e) ↦
        let good = sym run ∙ ap (λ o. o >>= λ q'. some (record c { q = q' }, Queue.empty c.q)) e in
        ap (λ r. r.0.closed) (some-injective (c', b) (record c { q = l }, Queue.empty c.q) good)
  ]

  -- A thread that has left finds the queue closed.
  abbrev IsClosedAt : Place J → Bool → Type 0
  IsClosedAt at_peek closed = Unit
  IsClosedAt (at_test job) closed = Unit
  IsClosedAt (at_job j) closed = Unit
  IsClosedAt at_dequeue closed = Unit
  IsClosedAt left closed = closed ≡ true

  closed-IsClosedAt : (p : Place J) → IsClosedAt p true
  closed-IsClosedAt at_peek = tt
  closed-IsClosedAt (at_test job) = tt
  closed-IsClosedAt (at_job j) = tt
  closed-IsClosedAt at_dequeue = tt
  closed-IsClosedAt left = refl

  Runs-IsClosedAt : (w w' : Worker J) → Runs w w' → IsClosedAt w'.place w'.queue.closed
  unfolding ConcurrentQueue.is_closed
  Runs-IsClosedAt w w' (peeks job place may read) = tt
  Runs-IsClosedAt w w' (breaks job place closed) = closed
  Runs-IsClosedAt w w' (finds j place opened) = tt
  Runs-IsClosedAt w w' (misses place opened) = tt
  Runs-IsClosedAt w w' (performs j place) = tt
  Runs-IsClosedAt w w' (dequeues queue' item empty_out place may run) = tt

  Step-IsClosedAt :
      (w w' : Worker J)
      → IsClosedAt w.place w.queue.closed
      → Step w w'
      → IsClosedAt w'.place w'.queue.closed
  unfolding ConcurrentQueue.close
  Step-IsClosedAt w w' h (enqueues j queue' b room run) =
      subst (IsClosedAt w.place) (sym (enqueue-closed j w.queue queue' b run)) h
  Step-IsClosedAt w w' h stops = closed-IsClosedAt w.place
  Step-IsClosedAt w w' h (runs r) = Runs-IsClosedAt w w' r

  Reaches-IsClosedAt : (w : Worker J) → Reaches started w → IsClosedAt w.place w.queue.closed
  unfolding started
  Reaches-IsClosedAt w here = tt
  Reaches-IsClosedAt w (then_step r s) = Step-IsClosedAt _ w (Reaches-IsClosedAt _ r) s

  may :
      (c : ConcurrentQueue J)
      → ConcurrentQueue.may_leave c ≡ false
      → ConcurrentQueue.may_peek c ≡ true
  unfolding ConcurrentQueue.may_leave ConcurrentQueue.may_peek
  may c held = rw held refl

  peek_run :
      (c : ConcurrentQueue J) (items : List J)
      → IsQueue c.q items
      → ConcurrentQueue.peek c ≡ some (first_item items)
  unfolding ConcurrentQueue.peek
  peek_run c items q = peek-IsQueue c.q items q

  dequeue_run :
      (c : ConcurrentQueue J) (j : J) (rest : List J)
      → ConcurrentQueue.may_leave c ≡ false
      → IsQueue c.q (j ∷ rest)
      → (c' : ConcurrentQueue J) × (b : Bool) × (ConcurrentQueue.dequeue c ≡ some (c', some j, b))
  unfolding ConcurrentQueue.dequeue ConcurrentQueue.may_leave
  dequeue_run c j rest held q =
      let (l, take, taken) = dequeue-IsQueue j c.q rest q in
      (record c { q = l }, Queue.empty l, rw (held, take, ◌>>=◌) refl)

  -- The next step at a place.
  onward :
      (w : Worker J) (o : IsOrdered w) (p : Place J)
      → w.place ≡ p
      → IsAt p o.items o.before w.performed
      → IsClosedAt p w.queue.closed
      → ConcurrentQueue.is_closed w.queue ≡ false
      → ConcurrentQueue.may_leave w.queue ≡ false
      → (w' : Worker J) × Runs w w'
  unfolding ConcurrentQueue.is_closed
  onward w o at_peek place at end opened held =
      (_, peeks (first_item o.items) place (may w.queue held) (peek_run w.queue o.items o.queue))
  onward w o (at_test none) place at end opened held = (_, misses place opened)
  onward w o (at_test (some j)) place at end opened held = (_, finds j place opened)
  onward w o (at_job j) place at end opened held = (_, performs j place)
  onward w o at_dequeue place (j, rest, first, done) end opened held =
      let (c', b, run) =
        dequeue_run w.queue j rest held (subst (IsQueue w.queue.q) first o.queue) in
      (_, dequeues c' (some j) b place (may w.queue held) run)
  onward w o left place at end opened held = let clash = sym opened ∙ end in absurd cc

  -- In every state that a worker reaches and in which it was not stopped and its queue is not empty, its
  -- own thread can take a step: it does not wait, has not left, and its queue does not fault.
  pub Reaches-Runs :
      (w : Worker J)
      → Reaches started w
      → ConcurrentQueue.is_closed w.queue ≡ false
      → ConcurrentQueue.may_leave w.queue ≡ false
      → (w' : Worker J) × Runs w w'
  Reaches-Runs w reached opened held =
      let o = Reaches-IsOrdered w reached in
      onward w o w.place refl o.at (Reaches-IsClosedAt w reached) opened held
