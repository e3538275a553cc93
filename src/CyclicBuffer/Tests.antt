-- ===== src/CyclicBuffer/Tests.antt =====
-- Runs of include/qs/cyclic_buffer.hpp.
use mathlib.Core.Option.{some-injective}
use k23_search_engine.Prelude.{
  ℕ, ◌≡◌, refl, [], ◌∷◌, none, some, ◌>>=◌, arith, store, subst, sym, ◌∙◌,
}
use k23_search_engine.CyclicBuffer.{CyclicBuffer, make, push, pop}
use k23_search_engine.CyclicBuffer.Fifo.{IsQueue, push-IsQueue}

-- An empty buffer made for 2 items, and the same with 5 in it.
abbrev empty_buffer : CyclicBuffer ℕ
empty_buffer = record { size = 0; capacity = 3; buffer = 0 ∷ 0 ∷ 0 ∷ []; read = 2; write = 2 }

abbrev wrapped_buffer : CyclicBuffer ℕ
wrapped_buffer = record { size = 1; capacity = 3; buffer = 0 ∷ 0 ∷ 5 ∷ []; read = 2; write = 0 }

empty_buffer-IsQueue : IsQueue empty_buffer []
empty_buffer-IsQueue = record {
  width = refl;
  room = omega arith;
  inside = omega arith;
  counted = refl;
  ahead = refl;
  held = λ i x h. absurd cc;
}

push_run : push 5 empty_buffer ≡ some wrapped_buffer
unfolding push store
push_run = refl

wrapped_buffer-IsQueue : IsQueue wrapped_buffer (5 ∷ [])
wrapped_buffer-IsQueue =
    let (r, run, q) = push-IsQueue empty_buffer [] 5 empty_buffer-IsQueue (omega arith) in
    subst (λ b. IsQueue b (5 ∷ [])) (some-injective r wrapped_buffer (sym run ∙ push_run)) q

-- A `push` on a full buffer does not overwrite the oldest item: it leaves an empty buffer.
push_on_full :
    (push {T = ℕ} 7 (make 0 1) >>= λ a. push 8 a >>= λ b. pop b >>= λ r. some r.1) ≡ some none
unfolding make push pop store
push_on_full = refl
