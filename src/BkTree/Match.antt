-- ===== src/BkTree/Match.antt =====
-- `match` of include/qs/bk_tree.hpp.
use mathlib.Core.List.{append-nil}
use native.Mathlib.Nat.{zero-add}
use k23_search_engine.Prelude.{
  ℕ, zero, suc, ◌+◌, ◌*◌, ◌≤◌, ◌<◌, ◌≡◌, refl, ap, ◌∙◌, List, [], ◌∷◌, ◌++◌, Option, none, some,
  arith, Bool, bit, ◌&&◌, length, take, count_if, count_if-append, length-append, All,
  All-append_left, All-append_right, leb, ◌>>=◌, if◌then◌else◌, Bool-cases, inl, inr,
}
use k23_search_engine.Vector
use k23_search_engine.Vector.{Vector}
use k23_search_engine.Vector.Laws.{new-IsRoomy, set_at_lem, at_lem}
use k23_search_engine.BkTree.{
  Node, node, payload, children, elements, elements_below, Tree, tree_elements, push_children,
  match_loop, match,
}
use k23_search_engine.BkTree.Shape.{IsMetric, IsBk}
use k23_search_engine.BkTree.Insert.{IsIndexed, IsIndex}
use k23_search_engine.BkTree.Scan.{forest, forest-snoc, hits, IsStack, push_children-IsPushed}

module _ {T W : Type 0} (word : T → W) {dist : W → W → Option ℕ} {Dom : W → Type 0} {δ : W → W → ℕ}
    (metric : IsMetric dist Dom δ) (query : W) (inside : Dom query) where
  -- Taking the node `c` off the top of the stack.
  pub record IsPopped (t : ℕ) (v : Vector (Node T)) (pos : ℕ) (c : Node T) : Type 0 where
    pub rest : IsStack word metric query t v pos
    pub bk : IsBk word δ c
    pub dom : All (λ x. Dom (word x)) (elements c)
    pub top : forest (take (suc pos) v.items) ≡ forest (take pos v.items) ++ elements c

  pub pop-IsPopped :
      (t : ℕ) (v : Vector (Node T)) (pos : ℕ) (c : Node T)
      → IsStack word metric query t v (suc pos)
      → take (suc pos) v.items ≡ take pos v.items ++ c ∷ []
      → IsPopped t v pos c
  pop-IsPopped t v pos c s e =
      let top : forest (take (suc pos) v.items) ≡ forest (take pos v.items) ++ elements c =
        ap forest e ∙ forest-snoc (take pos v.items) c in
      let bk = rw e at s.bk in
      let dom = rw top at s.dom in
      record {
        rest = record {
          roomy = s.roomy;
          within = omega (arith, s.within);
          bk = All-append_left (IsBk word δ) (take pos v.items) (c ∷ []) bk;
          dom = All-append_left _ (forest (take pos v.items)) (elements c) dom;
        };
        bk = (All-append_right (IsBk word δ) (take pos v.items) (c ∷ []) bk).0;
        dom = All-append_right _ (forest (take pos v.items)) (elements c) dom;
        top = top;
      }

  -- One round of the `while`: what is left on the stack, and the payload that was looked at.
  pub record IsVisited (t : ℕ) (v : Vector (Node T)) (pos : ℕ) (e : T) (r : Vector (Node T) × ℕ)
      : Type 0 where
    pub stack : IsStack word metric query t r.0 r.1
    pub fewer : length (forest (take r.1 r.0.items)) < length (forest (take (suc pos) v.items))
    pub counts :
        (f : T → Bool)
        → hits word metric query t f (forest (take r.1 r.0.items))
            + bit (f e && leb (δ (word e) query) t)
          ≡ hits word metric query t f (forest (take (suc pos) v.items))

  pub visit :
      (t : ℕ) (v : Vector (Node T)) (pos : ℕ) (c : Node T)
      → IsPopped t v pos c
      → (r : Vector (Node T) × ℕ) × (push_children t (δ (word (payload c)) query) (children c) v pos
          ≡ some r)
        × IsVisited t v pos (payload c) r
  unfolding elements
  visit t v pos (node e k cs) p =
      let (r, run, q) = push_children-IsPushed word metric query t e cs v pos p.rest p.bk p.dom.1 in
      (
        r,
        run,
        record {
          stack = q.stack;
          fewer = omega (
            arith,
            q.bounded,
            ap length p.top,
            length-append (forest (take pos v.items)) (e ∷ elements_below cs),
          );
          counts = λ f. omega (
            arith,
            q.counts f,
            ap (hits word metric query t f) p.top,
            count_if-append (λ x. f x && leb (δ (word x) query) t) (forest (take pos v.items))
                (e ∷ elements_below cs),
          );
        },
      )

  pub payload-inside :
      (t : ℕ) (v : Vector (Node T)) (pos : ℕ) (c : Node T)
      → IsPopped t v pos c
      → Dom (word (payload c))
  unfolding elements
  payload-inside t v pos (node e k cs) p = p.dom.0

  count-returned :
      (f : T → Bool) (e : T) (D t : ℕ) (ret : List T)
      → count_if f (if leb D t then ret ++ e ∷ [] else ret) ≡ count_if f ret + bit (f e && leb D t)
  count-returned f e D t ret = elim (Bool-cases (leb D t)) [
    | inl h ↦ rw (h, count_if-append f ret (e ∷ [])) (ground arith)
    | inr h ↦ rw h (ground arith)
  ]

  match_loop-hits :
      (t fuel : ℕ) (v : Vector (Node T)) (pos : ℕ) (ret : List T)
      → length (forest (take pos v.items)) ≤ fuel
      → IsStack word metric query t v pos
      → (r : List T) × (match_loop word dist fuel t query v pos ret ≡ some r)
        × ((f : T → Bool)
            → count_if f r
              ≡ count_if f ret + hits word metric query t f (forest (take pos v.items)))
  unfolding match_loop
  match_loop-hits t fuel v zero ret enough s = (ret, refl, λ f. omega arith)
  match_loop-hits t zero v (suc pos) ret enough s =
      let (c, read, e) = at_lem v pos (omega (arith, s.within)) in
      let (w, run, n) = visit t v pos c (pop-IsPopped t v pos c s e) in
      absurd (omega (arith, n.fewer))
  match_loop-hits t (suc fuel) v (suc pos) ret enough s =
      let (c, read, e) = at_lem v pos (omega (arith, s.within)) in
      let p = pop-IsPopped t v pos c s e in
      let (w, run, n) = visit t v pos c p in
      let D = δ (word (payload c)) query in
      let ret' = if leb D t then ret ++ payload c ∷ [] else ret in
      let (r, rest, counts) =
        match_loop-hits t fuel w.0 w.1 ret' (omega (arith, n.fewer)) n.stack in
      (
        r,
        rw
            (
              read,
              ◌>>=◌,
              metric.computes (word (payload c)) query (payload-inside t v pos c p) inside,
              ◌>>=◌,
              run,
            )
            rest,
        λ f. omega (arith, counts f, n.counts f, count-returned f (payload c) D t ret),
      )

  -- The stack as both traversals start with it: the root, in a vector with room.
  pub start-IsStack :
      (t depth : ℕ) (c : Node T)
      → 1 ≤ depth
      → IsBk word δ c
      → All (λ x. Dom (word x)) (elements c)
      → (v : Vector (Node T)) × (Vector.set_at (Vector.new (depth * 2)) 0 c ≡ some v)
        × IsStack word metric query t v 1
        × (forest (take 1 v.items) ≡ elements c)
  start-IsStack t depth c deep bk dom =
      let start = new-IsRoomy (depth * 2) (omega arith) in
      let (v, run, top, lt, _, roomy) =
        set_at_lem (Vector.new (depth * 2)) 0 c start (omega arith) in
      let all : forest (take 1 v.items) ≡ elements c = ap forest top ∙ append-nil (elements c) in
      (v, run, record { roomy = roomy; within = lt; bk = rw top (bk, tt); dom = rw all dom }, all)

  -- On a BK-tree over words of `Dom`, on which the distance function is a metric, and for a query in
  -- `Dom`, `match` does not fault and ends within the number of nodes. It returns each payload whose
  -- word is within the threshold of the query as often as the tree holds it, and nothing else: any
  -- test counts in the result what it counts among those payloads.
  pub match-hits :
      (t : ℕ) (tree : Tree T)
      → IsIndex word Dom δ tree
      → (r : List T) × (match word dist t query tree ≡ some r)
        × ((f : T → Bool)
            → count_if f r ≡ count_if (λ x. f x && leb (δ (word x) query) t) (tree_elements tree))
  unfolding match tree_elements
  match-hits t tree index = by_root tree.root tree.depth index
    where
      by_root :
          (root : Option (Node T)) (depth : ℕ)
          → IsIndexed word Dom δ root depth
          → (r : List T) × (match word dist t query (record { root = root; depth = depth })
              ≡ some r)
            × ((f : T → Bool)
                → count_if f r
                  ≡ count_if
                      (λ x. f x && leb (δ (word x) query) t)
                      (tree_elements (record { root = root; depth = depth })))
      by_root none depth index = ([], refl, λ f. refl)
      by_root (some c) depth (bk, dom, deep) =
          let (v, run, s, all) = start-IsStack t depth c deep bk dom in
          let (r, rest, counts) =
            match_loop-hits t (length (elements c)) v 1 [] (omega (arith, ap length all)) s in
          (
            r,
            rw (run, ◌>>=◌) rest,
            λ f. counts f ∙ zero-add _ ∙ ap (hits word metric query t f) all,
          )
