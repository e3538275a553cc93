-- ===== src/LinkedList/Links.antt =====
-- The writes of links of include/qs/list.hpp, at the ends of a chain.
use k23_search_engine.Prelude.{
  ℕ, ◌≡◌, ◌<◌, refl, sym, List, [], ◌∷◌, Option, none, some, ◌>>=◌, length, set, length-set, All,
}
use k23_search_engine.LinkedList.{
  ListNode, LinkedList, size_limit, set_next, set_prev, set_next?, set_prev?,
}
use k23_search_engine.LinkedList.Heap.{Cell, Apart, Keeps, node_at-set_self, set-Keeps}
use k23_search_engine.LinkedList.Chain.{first_of, last_of, IsLinked, IsLinked-Keeps}

module _ {V : Type 0} where
  -- The nodes after a write of a link.
  pub record IsRelinked (written : Option (List (Option (ListNode V))))
      (nodes : List (Option (ListNode V))) (before : Option ℕ) (cells : List (Cell V))
      (after : Option ℕ) : Type 0 where
    pub nodes' : List (Option (ListNode V))
    pub run : written ≡ some nodes'
    pub linked : IsLinked nodes' before cells after
    pub keeps : Keeps nodes nodes' cells
    pub same_length : length nodes' ≡ length nodes

  apart_of_single :
      (c : Cell V) (cells : List (Cell V)) → Apart c.0 cells → All (λ x. Apart x.0 (c ∷ [])) cells
  apart_of_single c [] h = tt
  apart_of_single c (x ∷ cells) h = ((λ e. h.0 (sym e), tt), apart_of_single c cells h.1)

  -- `a->prev_node = p` for the first node.
  pub set_prev?-IsRelinked :
      (nodes : List (Option (ListNode V))) (before before' : Option ℕ) (cells : List (Cell V))
      → IsLinked nodes before cells none
      → IsRelinked (set_prev? (first_of cells none) before' nodes) nodes before' cells none
  unfolding set_prev? set_prev
  set_prev?-IsRelinked nodes before before' [] h = record {
    nodes' = nodes;
    run = refl;
    linked = tt;
    keeps = λ x n apart read. read;
    same_length = refl;
  }
  set_prev?-IsRelinked nodes before before' (c ∷ cells) h =
      let n : ListNode V = record {
        value = c.1;
        next_node = first_of cells none;
        prev_node = before';
      } in
      let keeps = set-Keeps nodes c.0 c.1 (some n) in
      record {
        nodes' = set nodes c.0 (some n);
        run = rw (h.0, ◌>>=◌) refl;
        linked = (
          node_at-set_self nodes c.0 _ n h.0,
          h.1,
          IsLinked-Keeps nodes (set nodes c.0 (some n)) (some c.0) none cells (c ∷ []) keeps
              (apart_of_single c cells h.1) h.2,
        );
        keeps = λ x m apart read. keeps x m (apart.0, tt) read;
        same_length = length-set nodes c.0 (some n);
      }

  -- `a->next_node = p` for the last node.
  pub set_next?-IsRelinked :
      (nodes : List (Option (ListNode V))) (after after' : Option ℕ) (before : Option ℕ)
      (c : Cell V) (cells : List (Cell V))
      → IsLinked nodes before (c ∷ cells) after
      → IsRelinked
          (set_next? (last_of (c ∷ cells) before) after' nodes)
          nodes
          before
          (c ∷ cells)
          after'
  unfolding set_next? set_next
  set_next?-IsRelinked nodes after after' before c [] h =
      let n : ListNode V = record { value = c.1; next_node = after'; prev_node = before } in
      record {
        nodes' = set nodes c.0 (some n);
        run = rw (h.0, ◌>>=◌) refl;
        linked = (node_at-set_self nodes c.0 _ n h.0, tt, tt);
        keeps = λ x m apart read. set-Keeps nodes c.0 c.1 (some n) x m (apart.0, tt) read;
        same_length = length-set nodes c.0 (some n);
      }
  set_next?-IsRelinked nodes after after' before c (d ∷ cells) h =
      let r = set_next?-IsRelinked nodes after after' (some c.0) d cells h.2 in
      record {
        nodes' = r.nodes';
        run = r.run;
        linked = (r.keeps c.0 _ h.1 h.0, h.1, r.linked);
        keeps = λ x m apart read. r.keeps x m apart.1 read;
        same_length = r.same_length;
      }

  -- The same for a chain that may be empty and starts at `head`.
  pub set_next?-IsRelinked_all :
      (nodes : List (Option (ListNode V))) (after after' : Option ℕ) (cells : List (Cell V))
      → IsLinked nodes none cells after
      → IsRelinked (set_next? (last_of cells none) after' nodes) nodes none cells after'
  unfolding set_next?
  set_next?-IsRelinked_all nodes after after' [] h = record {
    nodes' = nodes;
    run = refl;
    linked = tt;
    keeps = λ x n apart read. read;
    same_length = refl;
  }
  set_next?-IsRelinked_all nodes after after' (c ∷ cells) h =
      set_next?-IsRelinked nodes after after' none c cells h

  -- The list holds the cells, in order.
  pub record IsList (l : LinkedList V) (cells : List (Cell V)) : Type 0 where
    pub linked : IsLinked l.nodes none cells none
    pub head : l.head ≡ first_of cells none
    pub tail : l.tail ≡ last_of cells none
    pub size : l.size ≡ length cells
    pub bounded : length cells < size_limit
