-- ===== src/Queue/Tests.antt =====
-- Runs of include/qs/queue.hpp.
use k23_search_engine.Prelude.{ℕ, ◌≡◌, [], ◌∷◌, some, ◌>>=◌, true, arith}
use k23_search_engine.LinkedList
use k23_search_engine.LinkedList.{LinkedList}
use k23_search_engine.Queue.{empty}
use k23_search_engine.Queue.Fifo.{enqueue_all, dequeue_times, dequeue_times-enqueue_all}

dequeue_times-enqueue_all_example :
    (l' : LinkedList ℕ) × ((enqueue_all (4 ∷ 5 ∷ []) LinkedList.new >>= dequeue_times 2)
      ≡ some (l', some 4 ∷ some 5 ∷ []))
    × (empty l' ≡ true)
dequeue_times-enqueue_all_example = dequeue_times-enqueue_all (4 ∷ 5 ∷ []) (omega arith)
