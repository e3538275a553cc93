-- ===== src/LinkedList.antt =====
-- include/qs/list.hpp: the doubly linked list, with the heap of its nodes. A node is its position in
-- `nodes`, where a deleted node is `none`, and a null pointer is `none`. `none` as a result is a
-- fault: a null pointer or a deleted node that is read.
mod Tests
pub mod Heap
pub mod Chain
pub mod Links
pub mod Append
pub mod Remove
pub mod Walk
use k23_search_engine.Prelude.{
  ℕ, zero, suc, ◌+◌, ◌-◌, ◌%◌, ◌^◌, List, [], ◌∷◌, ◌++◌, Option, none, some, ◌>>=◌, Bool, true,
  false, if◌then◌else◌, ◌&&◌, not, ◌==◌, length, get_elem?, set,
}

-- `std::size_t`
abbrev pub size_limit : ℕ
size_limit = 2 ^ 64

pub record ListNode (V : Type 0) : Type 0 where
  pub value : V
  pub next_node : Option ℕ
  pub prev_node : Option ℕ

pub record LinkedList (V : Type 0) : Type 0 where
  pub nodes : List (Option (ListNode V))
  pub head : Option ℕ
  pub tail : Option ℕ
  pub size : ℕ

-- `p == q` of pointers
unfoldable pub same_pointer : Option ℕ → Option ℕ → Bool
same_pointer none none = true
same_pointer none (some b) = false
same_pointer (some a) none = false
same_pointer (some a) (some b) = a == b

module _ {V : Type 0} where
  -- `*a`
  unfoldable pub node_at : List (Option (ListNode V)) → ℕ → Option (ListNode V)
  node_at nodes a = get_elem? nodes a >>= λ cell. cell

  -- `a->next_node = p` and `a->prev_node = p`
  unfoldable pub set_next :
      ℕ → Option ℕ → List (Option (ListNode V)) → Option (List (Option (ListNode V)))
  unfolding node_at
  set_next a p nodes =
      node_at nodes a >>= λ n. some (set nodes a (some (record n { next_node = p })))

  unfoldable pub set_prev :
      ℕ → Option ℕ → List (Option (ListNode V)) → Option (List (Option (ListNode V)))
  unfolding node_at
  set_prev a p nodes =
      node_at nodes a >>= λ n. some (set nodes a (some (record n { prev_node = p })))

  -- The same behind a test that the pointer is not null.
  unfoldable pub set_next? :
      Option ℕ → Option ℕ → List (Option (ListNode V)) → Option (List (Option (ListNode V)))
  unfolding set_next
  set_next? none p nodes = some nodes
  set_next? (some a) p nodes = set_next a p nodes

  unfoldable pub set_prev? :
      Option ℕ → Option ℕ → List (Option (ListNode V)) → Option (List (Option (ListNode V)))
  unfolding set_prev
  set_prev? none p nodes = some nodes
  set_prev? (some a) p nodes = set_prev a p nodes

  unfoldable pub new : LinkedList V
  new = record { nodes = []; head = none; tail = none; size = 0 }

  -- The constructor that moves: the new list, and what is left of the other.
  unfoldable pub move : LinkedList V → LinkedList V × LinkedList V
  unfolding new
  move other = (other, new)

  unfoldable pub get_size : LinkedList V → ℕ
  get_size l = l.size

  -- The end of `append(value)`, for the node at `a`.
  unfoldable pub link_last : ℕ → LinkedList V → Option (LinkedList V)
  unfolding set_next
  link_last a l = elim l.tail [
    | none ↦ elim l.head [
      | none ↦ some (record l { head = some a; tail = some a; size = (l.size + 1) % size_limit })
      | some h ↦ none
    ]
    | some t ↦ set_next t (some a) l.nodes >>= λ nodes.
        some (record l { nodes = nodes; tail = some a; size = (l.size + 1) % size_limit })
  ]

  -- `append(value)`, with the new node.
  unfoldable pub append : V → LinkedList V → Option (LinkedList V × ℕ)
  unfolding link_last
  append v l = do
    let made : ListNode V = record { value = v; next_node = none; prev_node = l.tail }
    l' ← link_last (length l.nodes) (record l { nodes = l.nodes ++ some made ∷ [] })
    some (l', length l.nodes)

  unfoldable pub insert_after :
      ℕ → ℕ → List (Option (ListNode V)) → Option (List (Option (ListNode V)))
  unfolding node_at set_prev? set_next
  insert_after a new_node nodes = do
    n ← node_at nodes a
    nodes' ← set_prev? n.next_node (some new_node) nodes
    set_next a (some new_node) nodes'

  unfoldable pub insert_before :
      ℕ → ℕ → List (Option (ListNode V)) → Option (List (Option (ListNode V)))
  unfolding node_at set_next? set_prev
  insert_before a new_node nodes = do
    n ← node_at nodes a
    nodes' ← set_next? n.prev_node (some new_node) nodes
    set_prev a (some new_node) nodes'

  unfoldable pub remove : ℕ → LinkedList V → Option (LinkedList V)
  unfolding node_at set_next? set_prev? same_pointer
  remove a l = do
    n ← node_at l.nodes a
    linked ← set_next? n.prev_node n.next_node l.nodes
    nodes ← set_prev? n.next_node n.prev_node linked
    some (record {
      nodes = set nodes a none;
      head = if same_pointer l.head (some a) then n.next_node else l.head;
      tail = if same_pointer l.tail (some a) then n.prev_node else l.tail;
      size = (l.size + size_limit - 1) % size_limit;
    })

  -- The nodes that `for (auto &x : list)` visits; the fuel bounds the rounds.
  unfoldable pub walk : (fuel : ℕ) → List (Option (ListNode V)) → Option ℕ → Option (List V)
  unfolding node_at
  walk fuel nodes none = some []
  walk zero nodes (some a) = none
  walk (suc fuel) nodes (some a) = do
    n ← node_at nodes a
    vs ← walk fuel nodes n.next_node
    some (n.value ∷ vs)

  -- The same from `rbegin()`.
  unfoldable pub walk_back : (fuel : ℕ) → List (Option (ListNode V)) → Option ℕ → Option (List V)
  unfolding node_at
  walk_back fuel nodes none = some []
  walk_back zero nodes (some a) = none
  walk_back (suc fuel) nodes (some a) = do
    n ← node_at nodes a
    vs ← walk_back fuel nodes n.prev_node
    some (n.value ∷ vs)

  -- The loop of the destructor.
  unfoldable pub delete_all :
      (fuel : ℕ) → Option ℕ → List (Option (ListNode V)) → Option (List (Option (ListNode V)))
  unfolding node_at
  delete_all fuel none nodes = some nodes
  delete_all zero (some a) nodes = none
  delete_all (suc fuel) (some a) nodes =
      node_at nodes a >>= λ n. delete_all fuel n.next_node (set nodes a none)

-- `equal` is `operator==` of the values.
module _ {V : Type 0} (equal : V → V → Bool) where
  -- `_find`
  unfoldable pub find : (fuel : ℕ) → V → List (Option (ListNode V)) → Option ℕ → Option (Option ℕ)
  unfolding node_at
  find fuel wanted nodes none = some none
  find zero wanted nodes (some a) = none
  find (suc fuel) wanted nodes (some a) = do
    n ← node_at nodes a
    let rest = find fuel wanted nodes n.next_node
    if equal n.value wanted then some (some a) else rest

  -- `operator==` of the nodes
  unfoldable pub same_node : ListNode V → ListNode V → Bool
  unfolding same_pointer
  same_node m n =
      equal m.value n.value
      && same_pointer m.next_node n.next_node
      && same_pointer m.prev_node n.prev_node

  -- `append(value, node)`
  unfoldable pub append_after : V → ℕ → LinkedList V → Option (LinkedList V × ℕ)
  unfolding node_at insert_after same_node
  append_after v a l = do
    n ← node_at l.nodes a
    let made : ListNode V = record { value = v; next_node = n.next_node; prev_node = some a }
    nodes ← insert_after a (length l.nodes) (l.nodes ++ some made ∷ [])
    n' ← node_at nodes a
    t ← l.tail
    last ← node_at nodes t
    some (
      record {
        nodes = nodes;
        head = l.head;
        tail = if same_node n' last then some (length l.nodes) else l.tail;
        size = (l.size + 1) % size_limit;
      },
      length l.nodes,
    )

  -- `prepend(value, node)`
  unfoldable pub prepend : V → ℕ → LinkedList V → Option (LinkedList V × ℕ)
  unfolding node_at insert_before same_node
  prepend v a l = do
    n ← node_at l.nodes a
    let made : ListNode V = record { value = v; next_node = some a; prev_node = n.prev_node }
    nodes ← insert_before a (length l.nodes) (l.nodes ++ some made ∷ [])
    n' ← node_at nodes a
    h ← l.head
    first ← node_at nodes h
    some (
      record {
        nodes = nodes;
        head = if same_node n' first then some (length l.nodes) else l.head;
        tail = l.tail;
        size = (l.size + 1) % size_limit;
      },
      length l.nodes,
    )
