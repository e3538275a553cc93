-- ===== src/ConcurrentQueue.antt =====
-- `concurrent_queue` of include/qs/queue.hpp. Each operation is what a thread does while it has the
-- mutex; `may_peek` and `may_leave` say when the loops that wait for a signal end.
use k23_search_engine.Prelude.{Option, none, some, ◌>>=◌, Bool, true, not, ◌&&◌, if◌then◌else◌}
use k23_search_engine.LinkedList.{LinkedList}
use k23_search_engine.Queue

pub record ConcurrentQueue (V : Type 0) : Type 0 where
  pub closed : Bool
  pub q : LinkedList V

module _ {V : Type 0} where
  unfoldable pub is_closed : ConcurrentQueue V → Bool
  is_closed c = c.closed

  -- With `previously_empty`, which is also whether a thread is signalled.
  unfoldable pub enqueue : V → ConcurrentQueue V → Option (ConcurrentQueue V × Bool)
  enqueue item c = Queue.enqueue item c.q >>= λ q'. some (record c { q = q' }, Queue.empty c.q)

  -- The end of the `while` of `peek` and of `dequeue`.
  unfoldable pub may_peek : ConcurrentQueue V → Bool
  may_peek c = not (Queue.empty c.q && not c.closed)

  unfoldable pub peek : ConcurrentQueue V → Option (Option V)
  peek c = Queue.peek c.q

  -- The item, and what is written to `*empty_out`.
  unfoldable pub dequeue : ConcurrentQueue V → Option (ConcurrentQueue V × Option V × Bool)
  dequeue c =
      let taken = Queue.dequeue c.q >>= λ r. some (record c { q = r.0 }, r.1, Queue.empty r.0) in
      if Queue.empty c.q then some (c, none, true) else taken

  unfoldable pub close : ConcurrentQueue V → ConcurrentQueue V
  close c = record c { closed = true }

  -- The end of the `while` of `wait_empty`.
  unfoldable pub may_leave : ConcurrentQueue V → Bool
  may_leave c = Queue.empty c.q
