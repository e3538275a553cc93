-- ===== src/Worker.antt =====
-- `worker` of include/qs/scheduler.hpp: its thread in `start`, beside the threads that call `enqueue` and
-- `stop`. A step is what one thread does between two points at which another may act.
pub mod Order
pub mod Progress
pub mod Signals
mod Tests
use k23_search_engine.Prelude.{
  ℕ, suc, ◌<◌, ◌≡◌, List, [], ◌∷◌, ◌++◌, Option, none, some, Bool, true, false, length,
}
use k23_search_engine.LinkedList
use k23_search_engine.LinkedList.{size_limit}
use k23_search_engine.ConcurrentQueue
use k23_search_engine.ConcurrentQueue.{ConcurrentQueue}

-- Where the thread is in `start`.
pub data Place (J : Type 0) : Type 0 where
  at_peek : Place J
  at_test : Option J → Place J
  at_job : J → Place J
  at_dequeue : Place J
  left : Place J

-- The worker, with the jobs that were enqueued and those that were performed, in order.
pub record Worker (J : Type 0) : Type 0 where
  pub queue : ConcurrentQueue J
  pub place : Place J
  pub submitted : List J
  pub performed : List J

module _ {J : Type 0} where
  unfoldable pub started : Worker J
  started = record {
    queue = record { closed = false; q = LinkedList.new };
    place = at_peek;
    submitted = [];
    performed = [];
  }

  -- The steps of the thread of the worker.
  pub data Runs (w : Worker J) : Worker J → Type 0 where
    peeks :
        (job : Option J)
        → w.place ≡ at_peek
        → ConcurrentQueue.may_peek w.queue ≡ true
        → ConcurrentQueue.peek w.queue ≡ some job
        → Runs w (record w { place = at_test job })
    breaks :
        (job : Option J)
        → w.place ≡ at_test job
        → ConcurrentQueue.is_closed w.queue ≡ true
        → Runs w (record w { place = left })
    finds :
        (j : J)
        → w.place ≡ at_test (some j)
        → ConcurrentQueue.is_closed w.queue ≡ false
        → Runs w (record w { place = at_job j })
    misses :
        w.place ≡ at_test none
        → ConcurrentQueue.is_closed w.queue ≡ false
        → Runs w (record w { place = at_peek })
    performs :
        (j : J)
        → w.place ≡ at_job j
        → Runs w (record w { place = at_dequeue; performed = w.performed ++ j ∷ [] })
    dequeues :
        (queue' : ConcurrentQueue J) (item : Option J) (empty_out : Bool)
        → w.place ≡ at_dequeue
        → ConcurrentQueue.may_peek w.queue ≡ true
        → ConcurrentQueue.dequeue w.queue ≡ some (queue', item, empty_out)
        → Runs w (record w { queue = queue'; place = at_peek })

  -- The steps of all threads. At most 2 ^ 64 - 1 jobs are ever enqueued.
  pub data Step (w : Worker J) : Worker J → Type 0 where
    enqueues :
        (j : J) (queue' : ConcurrentQueue J) (previously_empty : Bool)
        → suc (length w.submitted) < size_limit
        → ConcurrentQueue.enqueue j w.queue ≡ some (queue', previously_empty)
        → Step w (record w { queue = queue'; submitted = w.submitted ++ j ∷ [] })
    stops : Step w (record w { queue = ConcurrentQueue.close w.queue })
    runs : {w' : Worker J} → Runs w w' → Step w w'

  -- What a worker may become.
  pub data Reaches (w : Worker J) : Worker J → Type 0 where
    here : Reaches w w
    then_step : {v u : Worker J} → Reaches w v → Step v u → Reaches w u
