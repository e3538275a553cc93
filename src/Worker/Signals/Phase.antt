-- ===== src/Worker/Signals/Phase.antt =====
-- How far the thread of a `worker` of include/qs/scheduler.hpp is with the jobs of its queue.
use mathlib.Core.Option.{some-injective}
use k23_search_engine.Prelude.{
  ℕ, ◌+◌, ◌*◌, ◌-◌, ◌<◌, ◌≡◌, refl, sym, ap, subst, ◌∙◌, List, [], ◌∷◌, Option, none, some, ◌>>=◌,
  arith, Bool, true, false, not, ◌&&◌, length,
}
use k23_search_engine.Queue
use k23_search_engine.Queue.Fifo.{IsQueue, size-IsQueue, empty-IsQueue, dequeue-IsQueue}
use k23_search_engine.ConcurrentQueue
use k23_search_engine.ConcurrentQueue.{ConcurrentQueue}
use k23_search_engine.Worker.{
  Place, at_peek, at_test, at_job, at_dequeue, left, Worker, Runs, peeks, breaks, finds, misses,
  performs, dequeues,
}
use k23_search_engine.Worker.Order.{IsAt, IsOrdered, peeked}

-- How much is left to do: a job takes four steps of the worker.
abbrev pub phase : {J : Type 0} → Place J → ℕ → ℕ
phase at_peek n = 4 * n
phase (at_test none) n = 4 * n + 1
phase (at_test (some j)) n = 4 * n - 1
phase (at_job j) n = 4 * n - 2
phase at_dequeue n = 4 * n - 3
phase left n = 0

module _ {J : Type 0} where
  taken :
      (j : J) (rest : List J) (c c' : ConcurrentQueue J) (item : Option J) (empty_out : Bool)
      → IsQueue c.q (j ∷ rest)
      → ConcurrentQueue.dequeue c ≡ some (c', item, empty_out)
      → (c'.q.size ≡ length rest) × (c'.closed ≡ c.closed)
  unfolding ConcurrentQueue.dequeue
  taken j rest c c' item empty_out q run =
      let (l, take, left_over) = dequeue-IsQueue j c.q rest q in
      let held : Queue.empty c.q ≡ false = empty-IsQueue c.q (j ∷ rest) q ∙ ground arith in
      let step : ConcurrentQueue.dequeue c ≡ some (record c { q = l }, some j, Queue.empty l) =
        rw (held, take, ◌>>=◌) refl in
      let same =
        some-injective (c', item, empty_out) (record c { q = l }, some j, Queue.empty l)
          (sym run ∙ step) in
      (ap (λ r. r.0.q.size) same ∙ size-IsQueue l rest left_over, ap (λ r. r.0.closed) same)

  peeks_less :
      (c : ConcurrentQueue J) (items : List J) (job : Option J)
      → IsQueue c.q items
      → ConcurrentQueue.is_closed c ≡ false
      → ConcurrentQueue.may_peek c ≡ true
      → ConcurrentQueue.peek c ≡ some job
      → phase (at_test job) c.q.size < 4 * c.q.size
  unfolding ConcurrentQueue.may_peek ConcurrentQueue.is_closed
  peeks_less c [] job q opened may read =
      let none_left : Queue.empty c.q ≡ true = empty-IsQueue c.q [] q ∙ ground arith in
      let stuck : not (Queue.empty c.q && not c.closed) ≡ false = rw (none_left, opened) refl in
      let clash = sym may ∙ stuck in absurd cc
  peeks_less c (j ∷ items) job q opened may read =
      let size = size-IsQueue c.q (j ∷ items) q in
      subst (λ o. phase (at_test o) c.q.size < 4 * c.q.size) (peeked c (j ∷ items) job q read)
        (omega (arith, size))

  -- Each step of the worker leaves less to do, and the queue open.
  pub Runs-phase :
      (w w' : Worker J)
      → IsOrdered w
      → ConcurrentQueue.is_closed w.queue ≡ false
      → Runs w w'
      → (phase w'.place w'.queue.q.size < phase w.place w.queue.q.size)
        × (ConcurrentQueue.is_closed w'.queue ≡ false)
  unfolding ConcurrentQueue.is_closed
  Runs-phase w w' o opened (peeks job place may read) = (
    subst (λ p. phase (at_test job) w.queue.q.size < phase p w.queue.q.size) (sym place)
        (peeks_less w.queue o.items job o.queue opened may read),
    opened,
  )
  Runs-phase w w' o opened (breaks job place closed) = let clash = sym opened ∙ closed in absurd cc
  Runs-phase w w' o opened (finds j place open_now) =
      let (e, rest, first) = subst (λ p. IsAt p o.items o.before w.performed) place o.at in
      let size = size-IsQueue w.queue.q o.items o.queue ∙ ap length first in
      (
        subst (λ p. phase (at_job j) w.queue.q.size < phase p w.queue.q.size) (sym place)
            (omega (arith, size)),
        opened,
      )
  Runs-phase w w' o opened (misses place open_now) = (
    subst (λ p. phase {J = J} at_peek w.queue.q.size < phase p w.queue.q.size) (sym place)
        (omega arith),
    opened,
  )
  Runs-phase w w' o opened (performs j place) =
      let (e, rest, first) = subst (λ p. IsAt p o.items o.before w.performed) place o.at in
      let size = size-IsQueue w.queue.q o.items o.queue ∙ ap length first in
      (
        subst (λ p. phase {J = J} at_dequeue w.queue.q.size < phase p w.queue.q.size) (sym place)
            (omega (arith, size)),
        opened,
      )
  Runs-phase w w' o opened (dequeues queue' item empty_out place may run) =
      let (j, rest, first, done) = subst (λ p. IsAt p o.items o.before w.performed) place o.at in
      let size = size-IsQueue w.queue.q o.items o.queue ∙ ap length first in
      let (less, closed) =
        taken j rest w.queue queue' item empty_out (subst (IsQueue w.queue.q) first o.queue) run in
      (
        subst (λ p. phase {J = J} at_peek queue'.q.size < phase p w.queue.q.size) (sym place)
            (omega (arith, size, less)),
        closed ∙ opened,
      )
