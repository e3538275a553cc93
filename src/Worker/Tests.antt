-- ===== src/Worker/Tests.antt =====
-- A run of the `worker` of include/qs/scheduler.hpp.
use k23_search_engine.Prelude.{ℕ, ◌≡◌, refl, [], ◌∷◌, none, some, true, false, arith}
use k23_search_engine.LinkedList
use k23_search_engine.Queue
use k23_search_engine.ConcurrentQueue
use k23_search_engine.ConcurrentQueue.{ConcurrentQueue}
use k23_search_engine.Worker.{
  Worker, at_peek, started, peeks, finds, performs, dequeues, enqueues, runs, Reaches, here,
  then_step,
}
use k23_search_engine.Worker.Order.{performed-eq-submitted}
use k23_search_engine.Worker.Signals.{
  Threads, testing, wakes_none, at_start, submits, signals, waits, Comes, from_start, then_move,
  Ends,
}
use k23_search_engine.Worker.Signals.Leaving.{Comes-Ends}

-- The queues with the job 4, and after it was dequeued.
abbrev full : ConcurrentQueue ℕ
full = record {
  closed = false;
  q = record {
    nodes = some (record { value = 4; next_node = none; prev_node = none }) ∷ [];
    head = some 0;
    tail = some 0;
    size = 1;
  };
}

abbrev drained : ConcurrentQueue ℕ
drained = record {
  closed = false;
  q = record { nodes = none ∷ []; head = none; tail = none; size = 0 };
}

-- The worker after the job 4.
abbrev finished : Worker ℕ
finished = record { queue = drained; place = at_peek; submitted = 4 ∷ []; performed = 4 ∷ [] }

finished-reached : Reaches started finished
unfolding started ConcurrentQueue.enqueue ConcurrentQueue.may_peek ConcurrentQueue.peek
    ConcurrentQueue.is_closed ConcurrentQueue.dequeue Queue.enqueue Queue.empty Queue.peek
    Queue.dequeue LinkedList.append LinkedList.new LinkedList.get_size LinkedList.remove
finished-reached =
    then_step
      (then_step
        (then_step
          (then_step (then_step here (enqueues 4 full true (omega arith) refl))
            (runs (peeks (some 4) refl refl refl)))
          (runs (finds 4 refl refl)))
        (runs (performs 4 refl)))
      (runs (dequeues drained (some 4) true refl refl refl))

performed-eq-submitted_example : finished.performed ≡ finished.submitted
unfolding ConcurrentQueue.may_leave Queue.empty LinkedList.get_size
performed-eq-submitted_example = performed-eq-submitted finished finished-reached refl

-- The worker that has the job 4 and has not looked at it.
abbrev loaded : Worker ℕ
loaded = record { queue = full; place = at_peek; submitted = 4 ∷ []; performed = [] }

-- The client in `wait_done`, after it has submitted the job 4.
abbrev awaited : Threads ℕ
awaited = record { worker = loaded; asleep = false; client = testing }

awaited-reached : Comes awaited
unfolding at_start started ConcurrentQueue.enqueue Queue.enqueue Queue.empty LinkedList.append
    LinkedList.new LinkedList.get_size
awaited-reached =
    then_move
      (then_move (then_move from_start (submits 4 full true refl (omega arith) refl))
        (signals refl (wakes_none refl refl)))
      (waits refl)

Comes-Ends_example : Ends awaited
unfolding ConcurrentQueue.is_closed
Comes-Ends_example = Comes-Ends awaited awaited-reached refl refl
