-- ===== src/Queue.antt =====
-- include/qs/queue.hpp: the queue over the linked list.
pub mod Fifo
mod Tests
use k23_search_engine.Prelude.{ℕ, Option, none, some, ◌>>=◌, Bool, ◌==◌}
use k23_search_engine.LinkedList
use k23_search_engine.LinkedList.{LinkedList, ListNode}

module _ {V : Type 0} where
  unfoldable pub empty : LinkedList V → Bool
  empty list = LinkedList.get_size list == 0

  unfoldable pub enqueue : V → LinkedList V → Option (LinkedList V)
  enqueue item list = LinkedList.append item list >>= λ r. some r.0

  -- `dequeue` from the `if` on.
  unfoldable pub dequeue_from : Option ℕ → LinkedList V → Option (LinkedList V × Option V)
  dequeue_from none list = some (list, none)
  dequeue_from (some head) list = do
    n ← LinkedList.node_at list.nodes head
    list' ← LinkedList.remove head list
    some (list', some n.value)

  unfoldable pub dequeue : LinkedList V → Option (LinkedList V × Option V)
  unfolding dequeue_from
  dequeue list = dequeue_from list.head list

  -- `peek` from the `if` on.
  unfoldable pub peek_from : Option ℕ → LinkedList V → Option (Option V)
  peek_from none list = some none
  peek_from (some head) list = LinkedList.node_at list.nodes head >>= λ n. some (some n.value)

  unfoldable pub peek : LinkedList V → Option (Option V)
  unfolding peek_from
  peek list = peek_from list.head list

  unfoldable pub last : LinkedList V → Option (Option V)
  last list = elim list.tail [
    | none ↦ some none
    | some t ↦ LinkedList.node_at list.nodes t >>= λ n. some (some n.value)
  ]
