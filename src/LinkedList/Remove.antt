-- ===== src/LinkedList/Remove.antt =====
-- `remove(node)` of include/qs/list.hpp.
use mathlib.Core.List.{append-nil}
use k23_search_engine.Prelude.{
  ℕ, ◌+◌, ◌-◌, ◌%◌, ◌≡◌, ◌≢◌, refl, List, [], ◌∷◌, ◌++◌, Option, none, some, ◌>>=◌, arith,
  length-append, false, ==_iff, ◌==◌, if◌then◌else◌, set,
}
use k23_search_engine.LinkedList.{
  ListNode, LinkedList, size_limit, set_next?, set_prev?, remove, same_pointer,
}
use k23_search_engine.LinkedList.Heap.{Cell, Apart, set-Keeps}
use k23_search_engine.LinkedList.Chain.{
  first_of, last_of, last_of-append, IsLinked, IsLinked-Keeps, Disjoint, Disjoint_sym, joined,
  parted,
}
use k23_search_engine.LinkedList.Links.{set_next?-IsRelinked_all, set_prev?-IsRelinked, IsList}

module _ {V : Type 0} where
  -- The node of the cell between two parts of a chain.
  abbrev between : List (Cell V) → V → List (Cell V) → ListNode V
  between xs v ys = record { value = v; next_node = first_of ys none; prev_node = last_of xs none }

  -- The nodes after the two writes of links.
  record IsCut (nodes : List (Option (ListNode V))) (a : ℕ) (xs ys : List (Cell V)) : Type 0 where
    mid : List (Option (ListNode V))
    nodes' : List (Option (ListNode V))
    next_run : set_next? (last_of xs none) (first_of ys none) nodes ≡ some mid
    prev_run : set_prev? (first_of ys none) (last_of xs none) mid ≡ some nodes'
    linked : IsLinked (set nodes' a none) none (xs ++ ys) none

  single : (a : ℕ) (v : V) (cells : List (Cell V)) → Apart a cells → Disjoint cells ((a, v) ∷ [])
  single a v cells h = Disjoint_sym ((a, v) ∷ []) cells (h, tt)

  left_of : (a : ℕ) (v : V) (xs ys : List (Cell V)) → Disjoint xs ((a, v) ∷ ys) → Disjoint xs ys
  left_of a v [] ys h = tt
  left_of a v (x ∷ xs) ys h = (h.0.1, left_of a v xs ys h.1)

  left_single :
      (a : ℕ) (v : V) (xs ys : List (Cell V))
      → Disjoint xs ((a, v) ∷ ys)
      → Disjoint xs ((a, v) ∷ [])
  left_single a v [] ys h = tt
  left_single a v (x ∷ xs) ys h = ((h.0.0, tt), left_single a v xs ys h.1)

  unlinked :
      (nodes : List (Option (ListNode V))) (a : ℕ) (v : V) (xs ys : List (Cell V))
      → IsLinked nodes none (xs ++ (a, v) ∷ ys) none
      → IsCut nodes a xs ys
  unlinked nodes a v xs ys h =
      let p = parted nodes none none xs ((a, v) ∷ ys) h in
      let apart = left_of a v xs ys p.apart in
      let r = set_next?-IsRelinked_all nodes (some a) (first_of ys none) xs p.left in
      let right =
        IsLinked-Keeps nodes r.nodes' (some a) none ys xs r.keeps (Disjoint_sym xs ys apart)
          p.right.2 in
      let s = set_prev?-IsRelinked r.nodes' (some a) (last_of xs none) ys right in
      let left =
        IsLinked-Keeps r.nodes' s.nodes' none (first_of ys none) xs ys s.keeps apart r.linked in
      let freed = set-Keeps s.nodes' a v none in
      let final = set s.nodes' a none in
      record {
        mid = r.nodes';
        nodes' = s.nodes';
        next_run = r.run;
        prev_run = s.run;
        linked =
            joined final none none xs ys
              (IsLinked-Keeps s.nodes' final none (first_of ys none) xs ((a, v) ∷ []) freed
                (left_single a v xs ys p.apart) left)
              (IsLinked-Keeps s.nodes' final (last_of xs none) none ys ((a, v) ∷ []) freed
                (single a v ys p.right.1) s.linked)
              apart;
      }

  -- The new `head` and the new `tail`.
  new_head :
      (a : ℕ) (v : V) (xs ys : List (Cell V))
      → Disjoint xs ((a, v) ∷ ys)
      → (if same_pointer (first_of (xs ++ (a, v) ∷ ys) none) (some a)
          then first_of ys none
          else first_of (xs ++ (a, v) ∷ ys) none)
        ≡ first_of (xs ++ ys) none
  unfolding same_pointer
  new_head a v [] ys h = rw ((==_iff a a).1 refl) refl
  new_head a v (x ∷ xs) ys h =
      let other : (x.0 == a) ≡ false = ground (arith, h.0.0) in rw other refl

  last_apart :
      (cells : List (Cell V)) (a b : ℕ)
      → a ≢ b
      → Apart a cells
      → same_pointer (last_of cells (some b)) (some a) ≡ false
  unfolding same_pointer
  last_apart [] a b ne h = ground arith
  last_apart (c ∷ cells) a b ne h = last_apart cells a c.0 h.0 h.1

  new_tail :
      (a : ℕ) (v : V) (xs ys : List (Cell V))
      → Apart a ys
      → (if same_pointer (last_of (xs ++ (a, v) ∷ ys) none) (some a)
          then last_of xs none
          else last_of (xs ++ (a, v) ∷ ys) none)
        ≡ last_of (xs ++ ys) none
  unfolding same_pointer
  new_tail a v xs [] h =
      rw (last_of-append xs ((a, v) ∷ []) none, (==_iff a a).1 refl, append-nil xs) refl
  new_tail a v xs (y ∷ ys) h =
      rw
        (
          last_of-append xs ((a, v) ∷ y ∷ ys) none,
          last_of-append xs (y ∷ ys) none,
          last_apart ys a y.0 h.0 h.1,
        )
        refl

  -- A remove of a node takes its value out of the list, and leaves the other nodes in order.
  pub remove-IsList :
      (a : ℕ) (v : V) (l : LinkedList V) (xs ys : List (Cell V))
      → IsList l (xs ++ (a, v) ∷ ys)
      → (l' : LinkedList V) × (remove a l ≡ some l') × IsList l' (xs ++ ys)
  unfolding remove
  remove-IsList a v l xs ys valid =
      let c = unlinked l.nodes a v xs ys valid.linked in
      let p = parted l.nodes none none xs ((a, v) ∷ ys) valid.linked in
      let whole = length-append xs ((a, v) ∷ ys) in
      let rest = length-append xs ys in
      (
        record {
          nodes = set c.nodes' a none;
          head = if same_pointer l.head (some a) then first_of ys none else l.head;
          tail = if same_pointer l.tail (some a) then last_of xs none else l.tail;
          size = (l.size + size_limit - 1) % size_limit;
        },
        rw (p.right.0, ◌>>=◌, c.next_run, ◌>>=◌, c.prev_run, ◌>>=◌) refl,
        record {
          linked = c.linked;
          head = rw valid.head (new_head a v xs ys p.apart);
          tail = rw valid.tail (new_tail a v xs ys p.right.1);
          size = omega (arith, valid.size, valid.bounded, whole, rest);
          bounded = omega (arith, valid.bounded, whole, rest);
        },
      )
