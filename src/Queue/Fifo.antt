-- ===== src/Queue/Fifo.antt =====
-- The order of the items in the queue of include/qs/queue.hpp.
use k23_search_engine.Prelude.{
  none, ◌==◌, ℕ, zero, suc, ◌+◌, ◌≡◌, ◌<◌, refl, sym, subst, ap, ◌∙◌, List, [], ◌∷◌, ◌++◌, Option,
  some, ◌>>=◌, true, arith, length, length-append, ==_iff, map,
}
use mathlib.Core.List.{append_assoc, append-nil, head-eq_of_cons-eq, tail-eq_of_cons-eq}
use k23_search_engine.LinkedList
use k23_search_engine.LinkedList.{LinkedList, size_limit}
use k23_search_engine.LinkedList.Heap.{Cell}
use k23_search_engine.LinkedList.Chain.{values}
use k23_search_engine.LinkedList.Links.{IsList}
use k23_search_engine.LinkedList.Append.{append-IsList, new-IsList}
use k23_search_engine.LinkedList.Remove.{remove-IsList}
use k23_search_engine.Queue.{empty, enqueue, dequeue, dequeue_from, peek, peek_from}

module _ {V : Type 0} where
  -- The list holds the items, the oldest first.
  pub record IsQueue (l : LinkedList V) (items : List V) : Type 0 where
    pub cells : List (Cell V)
    pub valid : IsList l cells
    pub items_eq : values cells ≡ items

  length-values : (cells : List (Cell V)) → length (values cells) ≡ length cells
  length-values [] = refl
  length-values (c ∷ cells) = ap suc (length-values cells)

  values-snoc :
      (cells : List (Cell V)) (c : Cell V) → values (cells ++ c ∷ []) ≡ values cells ++ c.1 ∷ []
  values-snoc [] c = refl
  values-snoc (d ∷ cells) c = ap (λ t. d.1 ∷ t) (values-snoc cells c)

  pub new-IsQueue : IsQueue (LinkedList.new {V = V}) []
  new-IsQueue = record { cells = []; valid = new-IsList; items_eq = refl }

  -- An item is added behind the others.
  pub enqueue-IsQueue :
      (v : V) (l : LinkedList V) (items : List V)
      → IsQueue l items
      → suc (length items) < size_limit
      → (l' : LinkedList V) × (enqueue v l ≡ some l') × IsQueue l' (items ++ v ∷ [])
  unfolding enqueue
  enqueue-IsQueue v l items q room =
      let lengths = ap length (sym q.items_eq) ∙ length-values q.cells in
      let (l', run, valid) = append-IsList v l q.cells q.valid (omega (arith, lengths, room)) in
      (
        l',
        rw (run, ◌>>=◌) refl,
        record {
          cells = q.cells ++ (length l.nodes, v) ∷ [];
          valid = valid;
          items_eq = values-snoc q.cells (length l.nodes, v) ∙ ap (λ t. t ++ v ∷ []) q.items_eq;
        },
      )

  dequeue_cells :
      (v : V) (l : LinkedList V) (cells : List (Cell V)) (items : List V)
      → IsList l cells
      → values cells ≡ v ∷ items
      → (l' : LinkedList V) × (dequeue l ≡ some (l', some v)) × IsQueue l' items
  unfolding dequeue dequeue_from
  dequeue_cells v l [] items valid e = absurd cc
  dequeue_cells v l ((a, w) ∷ cells) items valid e =
      let (l', run, valid') = remove-IsList a w l [] cells valid in
      (
        l',
        subst (λ p. dequeue_from p l ≡ some (l', some v)) (sym valid.head)
            (rw (valid.linked.0, ◌>>=◌, run, ◌>>=◌)
              (ap (λ x. some (l', some x)) (head-eq_of_cons-eq e))),
        record { cells = cells; valid = valid'; items_eq = tail-eq_of_cons-eq e },
      )

  -- The oldest item is taken.
  pub dequeue-IsQueue :
      (v : V) (l : LinkedList V) (items : List V)
      → IsQueue l (v ∷ items)
      → (l' : LinkedList V) × (dequeue l ≡ some (l', some v)) × IsQueue l' items
  dequeue-IsQueue v l items q = dequeue_cells v l q.cells items q.valid q.items_eq

  unfoldable pub enqueue_all : List V → LinkedList V → Option (LinkedList V)
  enqueue_all [] l = some l
  enqueue_all (v ∷ vs) l = enqueue v l >>= enqueue_all vs

  unfoldable pub dequeue_times : ℕ → LinkedList V → Option (LinkedList V × List (Option V))
  dequeue_times zero l = some (l, [])
  dequeue_times (suc n) l = dequeue l >>= λ r. dequeue_times n r.0 >>= λ s. some (s.0, r.1 ∷ s.1)

  enqueue_all-IsQueue :
      (vs : List V) (l : LinkedList V) (items : List V)
      → IsQueue l items
      → length items + length vs < size_limit
      → (l' : LinkedList V) × (enqueue_all vs l ≡ some l') × IsQueue l' (items ++ vs)
  unfolding enqueue_all
  enqueue_all-IsQueue [] l items q room = (l, refl, rw (append-nil items) q)
  enqueue_all-IsQueue (v ∷ vs) l items q room =
      let (l1, run1, q1) = enqueue-IsQueue v l items q (omega (arith, room)) in
      let grown = length-append items (v ∷ []) in
      let (l2, run2, q2) =
        enqueue_all-IsQueue vs l1 (items ++ v ∷ []) q1 (omega (arith, room, grown)) in
      (l2, rw (run1, ◌>>=◌) run2, rw (← append_assoc items (v ∷ []) vs) q2)

  dequeue_times-IsQueue :
      (vs : List V) (l : LinkedList V)
      → IsQueue l vs
      → (l' : LinkedList V) × (dequeue_times (length vs) l ≡ some (l', map some vs)) × IsQueue l' []
  unfolding dequeue_times
  dequeue_times-IsQueue [] l q = (l, refl, q)
  dequeue_times-IsQueue (v ∷ vs) l q =
      let (l1, run1, q1) = dequeue-IsQueue v l vs q in
      let (l2, run2, q2) = dequeue_times-IsQueue vs l1 q1 in
      (l2, rw (run1, ◌>>=◌, run2, ◌>>=◌) refl, q2)

  -- For any list of fewer than 2 ^ 64 items: enqueued one by one into a new queue and dequeued as many
  -- times, they come out in the same order, without a fault, and the queue is empty.
  pub dequeue_times-enqueue_all :
      (vs : List V)
      → length vs < size_limit
      → (l' : LinkedList V) × ((enqueue_all vs LinkedList.new >>= dequeue_times (length vs))
          ≡ some (l', map some vs))
        × (empty l' ≡ true)
  unfolding empty LinkedList.get_size
  dequeue_times-enqueue_all vs room =
      let (l1, run1, q1) =
        enqueue_all-IsQueue vs LinkedList.new [] new-IsQueue (omega (arith, room)) in
      let (l2, run2, q2) = dequeue_times-IsQueue vs l1 q1 in
      let none_left = sym (length-values q2.cells) ∙ ap length q2.items_eq in
      (l2, rw (run1, ◌>>=◌) run2, (==_iff l2.size 0).1 (q2.valid.size ∙ none_left))

  abbrev pub first_item : List V → Option V
  first_item [] = none
  first_item (v ∷ vs) = some v

  pub size-IsQueue : (l : LinkedList V) (items : List V) → IsQueue l items → l.size ≡ length items
  size-IsQueue l items q = q.valid.size ∙ sym (ap length (sym q.items_eq) ∙ length-values q.cells)

  pub empty-IsQueue :
      (l : LinkedList V) (items : List V) → IsQueue l items → empty l ≡ (length items == 0)
  unfolding empty LinkedList.get_size
  empty-IsQueue l items q =
      let lengths = ap length (sym q.items_eq) ∙ length-values q.cells in
      ap (λ n. n == 0) (q.valid.size ∙ sym lengths)

  peek_cells :
      (l : LinkedList V) (cells : List (Cell V)) (items : List V)
      → IsList l cells
      → values cells ≡ items
      → peek_from l.head l ≡ some (first_item items)
  unfolding peek_from
  peek_cells l [] items valid e = rw (valid.head, ← e) refl
  peek_cells l ((a, w) ∷ cells) items valid e =
      subst (λ p. peek_from p l ≡ some (first_item items)) (sym valid.head)
        (rw (valid.linked.0, ◌>>=◌, ← e) refl)

  pub peek-IsQueue :
      (l : LinkedList V) (items : List V) → IsQueue l items → peek l ≡ some (first_item items)
  unfolding peek
  peek-IsQueue l items q = peek_cells l q.cells items q.valid q.items_eq
