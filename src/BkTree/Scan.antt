-- ===== src/BkTree/Scan.antt =====
-- The loop over the children in `match` and `find` of include/qs/bk_tree.hpp.
use mathlib.Core.List.{append-nil, append_assoc}
use native.Mathlib.Decide.{dec_lt, dec_le}
use native.Mathlib.Numerals.{add-one}
use k23_search_engine.Prelude.{
  ℕ, suc, ◌+◌, ◌≤◌, ◌<◌, ◌≡◌, refl, sym, ap, ◌∙◌, List, [], ◌∷◌, ◌++◌, Option, some, arith, Bool,
  ◌&&◌, length, take, count_if, count_if-append, count_if_none, length-append, All, All-append,
  All-map, leb, not_lt→ltb, le→leb, ◌⊎◌, inl, inr,
}
use k23_search_engine.Vector.{Vector}
use k23_search_engine.Vector.Laws.{IsRoomy, set_at_lem}
use k23_search_engine.BkTree.{
  Node, Children, nil, cons, distance_from_parent, elements, elements_below, push_children,
}
use k23_search_engine.BkTree.Shape.{IsMetric, Above, IsBk, AreBk}
use k23_search_engine.BkTree.Order.{Above-le}
use k23_search_engine.BkTree.Siblings.{count-below, All-below_child}

-- The payloads of the nodes on the stack.
abbrev pub forest : {T : Type 0} → List (Node T) → List T
forest [] = []
forest (c ∷ cs) = elements c ++ forest cs

pub forest-snoc :
    {T : Type 0} (st : List (Node T)) (c : Node T) → forest (st ++ c ∷ []) ≡ forest st ++ elements c
forest-snoc [] c = append-nil (elements c)
forest-snoc (d ∷ st) c =
    rw (forest-snoc st c) (sym (append_assoc (elements d) (forest st) (elements c)))

module _ {T W : Type 0} (word : T → W) {dist : W → W → Option ℕ} {Dom : W → Type 0} {δ : W → W → ℕ}
    (metric : IsMetric dist Dom δ) (query : W) (t : ℕ) where
  -- Counts what is within the threshold of the query, and passes `f`.
  abbrev pub hits : (T → Bool) → List T → ℕ
  hits f = count_if (λ x. f x && leb (δ (word x) query) t)

  -- The triangle inequality: a subtree at a distance out of the bounds holds no match.
  hits_out :
      (f : T → Bool) (e : T) (k : ℕ) (xs : List T)
      → (k + t < δ (word e) query) ⊎ (δ (word e) query + t < k)
      → All (λ x. δ (word e) (word x) ≡ k) xs
      → hits f xs ≡ 0
  hits_out f e k xs out near = count_if_none _ xs (
      All-map (λ x. δ (word e) (word x) ≡ k) _ xs
        (λ x h. ground (
          arith,
          metric.triangle (word e) (word x) query,
          metric.triangle (word e) query (word x),
          metric.comm (word x) query,
        ))
        near)

  -- The loop may stop at the first child past the upper bound.
  hits-Above :
      (f : T → Bool) (e : T) (k : ℕ) (cs : Children T)
      → δ (word e) query + t ≤ k
      → Above k cs
      → AreBk word δ e cs
      → hits f (elements_below cs) ≡ 0
  unfolding elements
  hits-Above f e k nil le a b = refl
  hits-Above f e k (cons c cs) le a b = omega (
    arith,
    count-below (λ x. f x && leb (δ (word x) query) t) c cs,
    hits_out f e (distance_from_parent c) (elements c) (inr (omega arith)) b.0,
    hits-Above f e k cs le a.1 b.3,
  )

  -- The first `pos` slots of the stack hold BK-trees over words of `Dom`.
  pub record IsStack (v : Vector (Node T)) (pos : ℕ) : Type 0 where
    pub roomy : IsRoomy v
    pub within : pos ≤ length v.items
    pub bk : All (IsBk word δ) (take pos v.items)
    pub dom : All (λ x. Dom (word x)) (forest (take pos v.items))

  -- From the stack `v` the loop over `cs` makes the stack `w`, which holds the same matches as `v`
  -- and `cs` together.
  pub record IsPushed (cs : Children T) (v w : Vector (Node T)) (pos pos' : ℕ) : Type 0 where
    pub stack : IsStack w pos'
    pub bounded :
        length (forest (take pos' w.items))
        ≤ length (forest (take pos v.items)) + length (elements_below cs)
    pub counts :
        (f : T → Bool)
        → hits f (forest (take pos' w.items))
          ≡ hits f (forest (take pos v.items)) + hits f (elements_below cs)

  push-IsStack :
      (v w : Vector (Node T)) (pos : ℕ) (c : Node T)
      → IsStack v pos
      → take (suc pos) w.items ≡ take pos v.items ++ c ∷ []
      → pos < length w.items
      → IsRoomy w
      → IsBk word δ c
      → All (λ x. Dom (word x)) (elements c)
      → IsStack w (suc pos)
  push-IsStack v w pos c s e lt roomy bk dom = record {
    roomy = roomy;
    within = lt;
    bk = rw e (All-append (IsBk word δ) (take pos v.items) (c ∷ []) s.bk (bk, tt));
    dom =
        rw (e, forest-snoc (take pos v.items) c)
          (All-append _ (forest (take pos v.items)) (elements c) s.dom dom);
  }

  pub push_children-IsPushed :
      (e : T) (cs : Children T) (v : Vector (Node T)) (pos : ℕ)
      → IsStack v pos
      → AreBk word δ e cs
      → All (λ x. Dom (word x)) (elements_below cs)
      → (r : Vector (Node T) × ℕ) × (push_children t (δ (word e) query) cs v pos ≡ some r)
        × IsPushed cs v r.0 pos r.1
  unfolding push_children elements
  push_children-IsPushed e nil v pos s b dom =
      ((v, pos), refl, record { stack = s; bounded = omega arith; counts = λ f. omega arith })
  push_children-IsPushed e (cons c cs) v pos s b dom =
      let D = δ (word e) query in
      let k = distance_from_parent c in
      let (mine, others) = All-below_child _ c cs dom in
      elim (dec_lt (k + t) D) [
        | yes low ↦
            let (r, run, p) = push_children-IsPushed e cs v pos s b.3 others in
            (
              r,
              ground (arith, run),
              record {
                stack = p.stack;
                bounded = omega (arith, p.bounded, length-append (elements c) (elements_below cs));
                counts = λ f. omega (
                  arith,
                  p.counts f,
                  count-below (λ x. f x && leb (δ (word x) query) t) c cs,
                  hits_out f e k (elements c) (inl low) b.0,
                );
              },
            )
        | no high ↦ elim (dec_le k (D + t)) [
          | yes in_bounds ↦
              let (w, set, on_top, lt, grown, roomy) = set_at_lem v pos c s.roomy s.within in
              let top : forest (take (suc pos) w.items) ≡ forest (take pos v.items) ++ elements c =
                ap forest on_top ∙ forest-snoc (take pos v.items) c in
              let (r, run, p) =
                push_children-IsPushed e cs w (suc pos)
                  (push-IsStack v w pos c s on_top lt roomy b.1 mine) b.3 others in
              (
                r,
                rw (not_lt→ltb (k + t) D (omega arith), le→leb k (D + t) in_bounds, set, add-one)
                    run,
                record {
                  stack = p.stack;
                  bounded = omega (
                    arith,
                    p.bounded,
                    ap length top,
                    length-append (forest (take pos v.items)) (elements c),
                    length-append (elements c) (elements_below cs),
                  );
                  counts = λ f. omega (
                    arith,
                    p.counts f,
                    ap (hits f) top,
                    count_if-append _ (forest (take pos v.items)) (elements c),
                    count-below (λ x. f x && leb (δ (word x) query) t) c cs,
                  );
                },
              )
          | no above ↦ (
            (v, pos),
            ground arith,
            record {
              stack = s;
              bounded = omega arith;
              counts = λ f. omega (
                arith,
                hits-Above f e (D + t) (cons c cs) (omega arith)
                    (omega arith, Above-le (D + t) k cs (omega arith) b.2) b,
              );
            },
          )
        ]
      ]
