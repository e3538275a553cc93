-- ===== src/LinkedList/Append.antt =====
-- `append(value)` of include/qs/list.hpp.
use k23_search_engine.Prelude.{
  ℕ, suc, ◌+◌, ◌%◌, ◌≡◌, ◌<◌, refl, sym, ap, ◌∙◌, List, [], ◌∷◌, ◌++◌, Option, none, some, ◌>>=◌,
  arith, length, length-append, subst,
}
use k23_search_engine.LinkedList.{
  ListNode, LinkedList, size_limit, set_next?, link_last, append, new,
}
use k23_search_engine.LinkedList.Heap.{Cell, snoc-Keeps, node_at-snoc}
use k23_search_engine.LinkedList.Chain.{
  last_of, last_of-append, IsLinked-Keeps, Disjoint, Disjoint_sym, joined, fresh,
}
use k23_search_engine.LinkedList.Links.{set_next?-IsRelinked, IsList}

module _ {V : Type 0} where
  pub last_of-some : (cells : List (Cell V)) (a : ℕ) → (t : ℕ) × (last_of cells (some a) ≡ some t)
  last_of-some [] a = (a, refl)
  last_of-some (c ∷ cells) a = last_of-some cells c.0

  pub disjoint_none : (cells : List (Cell V)) → Disjoint cells []
  disjoint_none [] = tt
  disjoint_none (c ∷ cells) = (tt, disjoint_none cells)

  pub new-IsList : IsList (new {V = V}) []
  unfolding new
  new-IsList = record { linked = tt; head = refl; tail = refl; size = refl; bounded = omega arith }

  -- The list with a new node, before `tail` links to it.
  abbrev with_node : V → LinkedList V → LinkedList V
  with_node v l = record l {
    nodes = l.nodes ++ some (record { value = v; next_node = none; prev_node = l.tail }) ∷ [];
  }

  link_last_run :
      (a : ℕ) (l : LinkedList V) (t : ℕ) (nodes' : List (Option (ListNode V)))
      → l.tail ≡ some t
      → set_next? (some t) (some a) l.nodes ≡ some nodes'
      → link_last a l
        ≡ some (record {
          nodes = nodes';
          head = l.head;
          tail = some a;
          size = (l.size + 1) % size_limit;
        })
  unfolding link_last set_next?
  link_last_run a l t nodes' e run = rw (e, run, ◌>>=◌) refl

  link_last-IsList :
      (v : V) (l : LinkedList V) (cells : List (Cell V))
      → IsList l cells
      → suc (length cells) < size_limit
      → (l' : LinkedList V) × (link_last (length l.nodes) (with_node v l) ≡ some l')
        × IsList l' (cells ++ (length l.nodes, v) ∷ [])
  unfolding link_last set_next?
  link_last-IsList v l [] valid room = (
    record (with_node v l) {
      head = some (length l.nodes);
      tail = some (length l.nodes);
      size = (l.size + 1) % size_limit;
    },
    rw (valid.tail, valid.head) refl,
    record {
      linked = (
        node_at-snoc l.nodes _
            ∙ ap (λ p. some (record { value = v; next_node = none; prev_node = p })) valid.tail,
        tt,
        tt,
      );
      head = refl;
      tail = refl;
      size = rw valid.size (omega arith);
      bounded = room;
    },
  )
  link_last-IsList v l (c ∷ cells) valid room =
      let made : ListNode V = record { value = v; next_node = none; prev_node = l.tail } in
      let a = length l.nodes in
      let grown = l.nodes ++ some made ∷ [] in
      let kept =
        IsLinked-Keeps l.nodes grown none none (c ∷ cells) [] (snoc-Keeps l.nodes (some made))
          (disjoint_none (c ∷ cells)) valid.linked in
      let r = set_next?-IsRelinked grown none (some a) none c cells kept in
      let (t, last) = last_of-some cells c.0 in
      let apart = fresh l.nodes none none (c ∷ cells) valid.linked in
      let made_at = r.keeps a made apart (node_at-snoc l.nodes made) in
      (
        record { nodes = r.nodes'; head = l.head; tail = some a; size = (l.size + 1) % size_limit },
        link_last_run a (with_node v l) t r.nodes' (valid.tail ∙ last)
            (subst (λ p. set_next? p (some a) grown ≡ some r.nodes') last r.run),
        record {
          linked =
              joined r.nodes' none none (c ∷ cells) ((a, v) ∷ []) r.linked
                (
                  made_at
                      ∙ ap (λ p. some (record { value = v; next_node = none; prev_node = p }))
                          valid.tail,
                  tt,
                  tt,
                )
                (Disjoint_sym ((a, v) ∷ []) (c ∷ cells) (apart, tt));
          head = valid.head;
          tail = sym (last_of-append (c ∷ cells) ((a, v) ∷ []) none);
          size = rw (length-append (c ∷ cells) ((a, v) ∷ []), valid.size) (omega (arith, room));
          bounded = rw (length-append (c ∷ cells) ((a, v) ∷ [])) (omega (arith, room));
        },
      )

  -- An append adds a node at the end, which is the one it returns.
  pub append-IsList :
      (v : V) (l : LinkedList V) (cells : List (Cell V))
      → IsList l cells
      → suc (length cells) < size_limit
      → (l' : LinkedList V) × (append v l ≡ some (l', length l.nodes))
        × IsList l' (cells ++ (length l.nodes, v) ∷ [])
  unfolding append
  append-IsList v l cells valid room =
      let (l', run, valid') = link_last-IsList v l cells valid room in
      (l', rw (run, ◌>>=◌) refl, valid')
