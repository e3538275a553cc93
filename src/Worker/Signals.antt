-- ===== src/Worker/Signals.antt =====
-- The condition variable `empty` of `concurrent_queue` in include/qs/queue.hpp, for the queue of a
-- `worker` of include/qs/scheduler.hpp: its thread and the one client thread, which as in src/core.cpp
-- both submits the jobs and waits for them. Both threads wait on the one variable, and a signal wakes
-- one of them; either may also wake without a signal. A step is what a thread does while it has the
-- mutex; the signal of `enqueue` comes after that.
pub mod Awake
pub mod Phase
pub mod Leaving
use k23_search_engine.Prelude.{
  ℕ, suc, ◌<◌, ◌≡◌, List, [], ◌∷◌, ◌++◌, Option, some, Bool, true, false, not, ◌&&◌, length,
}
use k23_search_engine.LinkedList.{size_limit}
use k23_search_engine.Queue
use k23_search_engine.ConcurrentQueue
use k23_search_engine.ConcurrentQueue.{ConcurrentQueue}
use k23_search_engine.Worker.{
  Place, at_peek, at_test, at_job, at_dequeue, left, Worker, started, Runs,
}

-- Where the client thread is: between two calls, before the signal of `enqueue`, before the test of
-- `wait_empty`, or in its `pthread_cond_wait`.
pub data Client : Type 0 where
  free signalling testing waiting : Client

-- Both threads; `asleep` is whether the worker is in a `pthread_cond_wait` of `peek` or `dequeue`.
pub record Threads (J : Type 0) : Type 0 where
  pub worker : Worker J
  pub asleep : Bool
  pub client : Client

-- `if (previously_empty)` in `enqueue`
abbrev pub after_enqueue : Bool → Client
after_enqueue true = signalling
after_enqueue false = free

abbrev pub is_waiting : Client → Bool
is_waiting free = false
is_waiting signalling = false
is_waiting testing = false
is_waiting waiting = true

-- Whether the client is in `wait_empty`.
abbrev pub is_in_wait : Client → Bool
is_in_wait free = false
is_in_wait signalling = false
is_in_wait testing = true
is_in_wait waiting = true

module _ {J : Type 0} where
  -- The places at which the thread may have to wait.
  abbrev pub may_sleep : Place J → Bool
  may_sleep at_peek = true
  may_sleep (at_test job) = false
  may_sleep (at_job j) = false
  may_sleep at_dequeue = true
  may_sleep left = false

  abbrev pub is_at_dequeue : Place J → Bool
  is_at_dequeue at_peek = false
  is_at_dequeue (at_test job) = false
  is_at_dequeue (at_job j) = false
  is_at_dequeue at_dequeue = true
  is_at_dequeue left = false

  -- `dequeue` signals if it takes an item; nothing else that the worker does signals.
  abbrev pub takes_item : Worker J → Bool
  takes_item w = is_at_dequeue w.place && not (Queue.empty w.queue.q)

  -- `pthread_cond_signal(&this->empty)`: it wakes one of the threads that wait, if one does.
  pub data Signalled (t : Threads J) : Threads J → Type 0 where
    wakes_worker : t.asleep ≡ true → Signalled t (record t { asleep = false })
    wakes_client : t.client ≡ waiting → Signalled t (record t { client = testing })
    wakes_none : t.asleep ≡ false → is_waiting t.client ≡ false → Signalled t t

  -- The signal, where there is one.
  abbrev pub Alerted : Bool → Threads J → Threads J → Type 0
  Alerted true t t' = Signalled t t'
  Alerted false t t' = t' ≡ t

  unfoldable pub at_start : Threads J
  at_start = record { worker = started; asleep = false; client = free }

  -- The steps of both threads.
  pub data Moves (t : Threads J) : Threads J → Type 0 where
    sleeps :
        t.asleep ≡ false
        → may_sleep t.worker.place ≡ true
        → ConcurrentQueue.may_peek t.worker.queue ≡ false
        → Moves t (record t { asleep = true })
    wakes : t.asleep ≡ true → Moves t (record t { asleep = false })
    works :
        {w' : Worker J} {t' : Threads J}
        → t.asleep ≡ false
        → Runs t.worker w'
        → Alerted (takes_item t.worker) (record t { worker = w' }) t'
        → Moves t t'
    submits :
        (j : J) (queue' : ConcurrentQueue J) (previously_empty : Bool)
        → t.client ≡ free
        → suc (length t.worker.submitted) < size_limit
        → ConcurrentQueue.enqueue j t.worker.queue ≡ some (queue', previously_empty)
        → Moves t (record t {
          worker = record t.worker { queue = queue'; submitted = t.worker.submitted ++ j ∷ [] };
          client = after_enqueue previously_empty;
        })
    signals :
        {u : Threads J}
        → t.client ≡ signalling
        → Signalled t u
        → Moves t (record u { client = free })
    closes :
        {t' : Threads J}
        → t.client ≡ free
        → Alerted
            (not (ConcurrentQueue.is_closed t.worker.queue))
            (record t { worker = record t.worker { queue = ConcurrentQueue.close t.worker.queue } })
            t'
        → Moves t t'
    waits : t.client ≡ free → Moves t (record t { client = testing })
    leaves :
        t.client ≡ testing
        → ConcurrentQueue.may_leave t.worker.queue ≡ true
        → Moves t (record t { client = free })
    blocks :
        t.client ≡ testing
        → ConcurrentQueue.may_leave t.worker.queue ≡ false
        → Moves t (record t { client = waiting })
    rises : t.client ≡ waiting → Moves t (record t { client = testing })

  -- What the threads may come to from the start.
  pub data Comes : Threads J → Type 0 where
    from_start : Comes at_start
    then_move : {t u : Threads J} → Comes t → Moves t u → Comes u

  -- A step that is not a wake-up without a signal.
  abbrev pub IsPrompted : {t t' : Threads J} → Moves t t' → Type 0
  IsPrompted (sleeps awake place may) = Unit
  IsPrompted (wakes asleep) = ⊥
  IsPrompted (works awake r s) = Unit
  IsPrompted (submits j queue' b place room run) = Unit
  IsPrompted (signals place s) = Unit
  IsPrompted (closes place s) = Unit
  IsPrompted (waits place) = Unit
  IsPrompted (leaves place empty) = Unit
  IsPrompted (blocks place full) = Unit
  IsPrompted (rises place) = ⊥

  -- Whatever the next prompted steps are, there is always one, and after finitely many of them the client
  -- has left `wait_done`, with all jobs performed in order.
  pub data Ends : Threads J → Type 0 where
    has_left : {t : Threads J} → t.client ≡ free → t.worker.performed ≡ t.worker.submitted → Ends t
    goes_on :
        {t u : Threads J} (m : Moves t u)
        → IsPrompted m
        → ((t' : Threads J) (n : Moves t t') → IsPrompted n → Ends t')
        → Ends t
