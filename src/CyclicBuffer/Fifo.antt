-- ===== src/CyclicBuffer/Fifo.antt =====
-- The queue that the buffer of include/qs/cyclic_buffer.hpp holds.
use mathlib.Core.Option.{some-injective}
use native.Mathlib.Decide.{dec_lt}
use native.Mathlib.Nat.{mod_self, mod-eq_of_lt}
use k23_search_engine.Prelude.{
  ℕ, suc, zero, ◌+◌, ◌-◌, ◌%◌, ◌<◌, ◌≡◌, refl, sym, ap, ◌∙◌, List, [], ◌∷◌, ◌++◌, Option, none,
  some, ◌>>=◌, arith, if◌then◌else◌, ◌==◌, true, false, get_elem?, store_of_lt, length, set,
  length-set, length-replicate, inl, inr, ◌⊎◌, get_elem?-set_self, get_elem?-set_ne, length-append,
  lt_of_get_elem?, ltb,
}
use k23_search_engine.CyclicBuffer.{CyclicBuffer, make, is_empty, push, pop, pos_increment}

-- The position `n` of the endless array in the cyclic one, for `n` below twice the capacity.
abbrev wrap : ℕ → ℕ → ℕ
wrap capacity n = if ltb n capacity then n else n - capacity

mod-wrap : (capacity pos : ℕ) → pos < capacity → (pos + 1) % capacity ≡ wrap capacity (pos + 1)
mod-wrap capacity pos h = elim (dec_lt (pos + 1) capacity) [
  | yes below ↦ mod-eq_of_lt below ∙ ground arith
  | no last ↦
      let full : pos + 1 ≡ capacity = omega arith in rw full (mod_self capacity ∙ ground arith)
]

wrap_suc :
    (capacity n : ℕ)
    → n + 1 < capacity + capacity
    → wrap capacity (wrap capacity n + 1) ≡ wrap capacity (n + 1)
wrap_suc capacity n h = elim (dec_lt n capacity) [
  | yes below ↦ let e : wrap capacity n ≡ n = ground arith in rw e refl
  | no above ↦ let e : wrap capacity n ≡ n - capacity = ground arith in rw e (ground arith)
]

wrap_shift :
    (capacity r n : ℕ)
    → r < capacity
    → n < capacity
    → wrap capacity (wrap capacity (r + 1) + n) ≡ wrap capacity (r + suc n)
wrap_shift capacity r n h lt = elim (dec_lt (r + 1) capacity) [
  | yes below ↦
      let e : wrap capacity (r + 1) ≡ r + 1 = ground arith in
      rw e (ap (wrap capacity) (omega arith))
  | no above ↦ let e : wrap capacity (r + 1) ≡ 0 = ground arith in rw e (ground arith)
]

module _ {T : Type 0} where
  -- The buffer holds the items, the oldest first.
  pub record IsQueue (b : CyclicBuffer T) (items : List T) : Type 0 where
    pub width : length b.buffer ≡ b.capacity
    pub room : length items < b.capacity
    pub inside : b.read < b.capacity
    pub counted : b.size ≡ length items
    pub ahead : b.write ≡ wrap b.capacity (b.read + length items)
    pub held :
        (i : ℕ) (x : T)
        → get_elem? items i ≡ some x
        → get_elem? b.buffer (wrap b.capacity (b.read + i)) ≡ some x

  pub make-IsQueue : (initial : T) (size : ℕ) → IsQueue (make initial size) []
  unfolding make
  make-IsQueue initial size = record {
    width = length-replicate (size + 1) initial;
    room = omega arith;
    inside = omega arith;
    counted = refl;
    ahead = ground arith;
    held = λ i x h. absurd cc;
  }

  elem-append :
      (xs : List T) (x y : T) (i : ℕ)
      → get_elem? (xs ++ x ∷ []) i ≡ some y
      → (get_elem? xs i ≡ some y) ⊎ ((i ≡ length xs) × (x ≡ y))
  elem-append [] x y zero h = inr (refl, some-injective _ _ h)
  elem-append [] x y (suc i) h = absurd cc
  elem-append (z ∷ xs) x y zero h = inl h
  elem-append (z ∷ xs) x y (suc i) h = elim (elem-append xs x y i h) [
    | inl e ↦ inl e
    | inr (e, same) ↦ inr (ap suc e, same)
  ]

  -- On a buffer that holds fewer items than it was made for, `push` does not fault, and appends the
  -- item.
  pub push-IsQueue :
      (b : CyclicBuffer T) (items : List T) (x : T)
      → IsQueue b items
      → length items + 1 < b.capacity
      → (r : CyclicBuffer T) × (push x b ≡ some r) × IsQueue r (items ++ x ∷ [])
  unfolding push
  push-IsQueue b items x q free =
      let lt : b.write < length b.buffer = ground (arith, q.ahead, q.width, q.inside) in
      let long = length-append items (x ∷ []) in
      (
        record b {
          buffer = set b.buffer b.write x;
          write = pos_increment b b.write;
          size = b.size + 1;
        },
        rw (store_of_lt b.buffer b.write x lt, ◌>>=◌) refl,
        record {
          width = length-set b.buffer b.write x ∙ q.width;
          room = omega (arith, long);
          inside = q.inside;
          counted = omega (arith, long, q.counted);
          ahead =
              mod-wrap b.capacity b.write (omega (arith, lt, q.width))
              ∙ ap (λ w. wrap b.capacity (w + 1)) q.ahead
              ∙ wrap_suc b.capacity (b.read + length items) (omega (arith, q.inside))
              ∙ ap (wrap b.capacity) (omega (arith, long));
          held = λ i y h. elim (elem-append items x y i h) [
            | inl e ↦
                get_elem?-set_ne b.buffer b.write (wrap b.capacity (b.read + i)) x
                  (λ p. ground (arith, p, q.ahead, q.inside, q.room, lt_of_get_elem? items i y e))
                ∙ q.held i y e
            | inr (e, same) ↦
                ap (get_elem? (set b.buffer b.write x))
                  (ap (λ n. wrap b.capacity (b.read + n)) e ∙ sym q.ahead)
                ∙ get_elem?-set_self b.buffer b.write x lt
                ∙ ap some same
          ];
        },
      )

  -- What `pop` returns on a buffer that holds the items.
  abbrev pub Pops : List T → CyclicBuffer T × Option T → Type 0
  Pops [] (r, o) = (o ≡ none) × IsQueue r []
  Pops (x ∷ items) (r, o) = (o ≡ some x) × IsQueue r items

  -- On a buffer that holds some items, `pop` does not fault: it returns and removes the oldest item, or
  -- returns nothing if there is none.
  pub pop-Pops :
      (b : CyclicBuffer T) (items : List T)
      → IsQueue b items
      → (r : CyclicBuffer T × Option T) × (pop b ≡ some r) × Pops items r
  unfolding pop is_empty
  pop-Pops b [] q =
      let same : (b.write == b.read) ≡ true = ground (arith, q.ahead, q.inside) in
      ((b, none), rw same refl, (refl, q))
  pop-Pops b (x ∷ items) q =
      let other : (b.write == b.read) ≡ false = ground (arith, q.ahead, q.inside, q.room) in
      let read : get_elem? b.buffer b.read ≡ some x =
        ap (get_elem? b.buffer) (ground (arith, q.inside)) ∙ q.held 0 x refl in
      (
        (record b { read = pos_increment b b.read; size = b.size - 1 }, some x),
        rw (other, read, ◌>>=◌) refl,
        (
          refl,
          record {
            width = q.width;
            room = omega (arith, q.room);
            inside = rw (mod-wrap b.capacity b.read q.inside) (ground (arith, q.inside));
            counted = omega (arith, q.counted);
            ahead =
                q.ahead
                ∙ sym (
                    ap (λ p. wrap b.capacity (p + length items))
                      (mod-wrap b.capacity b.read q.inside)
                    ∙ wrap_shift b.capacity b.read (length items) q.inside (omega (arith, q.room)));
            held = λ i y h.
                ap (get_elem? b.buffer) (
                  ap (λ p. wrap b.capacity (p + i)) (mod-wrap b.capacity b.read q.inside)
                  ∙ wrap_shift b.capacity b.read i q.inside
                      (omega (arith, q.room, lt_of_get_elem? items i y h)))
                ∙ q.held (suc i) y h;
          },
        ),
      )
