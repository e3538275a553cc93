-- ===== src/Parser/Tokens.antt =====
-- The tokens of a text, for include/qs/parser.hpp.
use mathlib.Core.List.{append_assoc}
use native.Mathlib.Decide.{dec_lt}
use k23_search_engine.Prelude.{
  ℕ, zero, suc, ◌<◌, ◌≡◌, ◌≢◌, refl, ap, ◌∙◌, List, [], ◌∷◌, ◌++◌, some, true, false, arith, length,
  All, length-append, nil_of_length, Bool-cases, inl, inr, ◌>>=◌,
}
use k23_search_engine.StringView
use k23_search_engine.StringView.Split.{
  IsWord, equals_iff, split_nil, split-word, split_whole, split_dropped, split_lem,
}
use k23_search_engine.Parser.{parse_loop, parse_string, join}

equals-nil : (c : ℕ) (w : List ℕ) → StringView.equals (c ∷ w) [] ≡ false
equals-nil c w = elim (Bool-cases (StringView.equals (c ∷ w) [])) [
  | inl e ↦ cc ((equals_iff (c ∷ w) []).0 e)
  | inr e ↦ e
]

equals-nil_self : StringView.equals [] [] ≡ true
equals-nil_self = (equals_iff [] []).1 refl

module _ (del : ℕ) where
  -- One round that finds a token, and one that ends the loop.
  parse_loop_next :
      (fuel : ℕ) (v w rest : List ℕ) (us : List (List ℕ))
      → StringView.split del 0 v ≡ some (w, rest)
      → 0 < length w
      → parse_loop fuel del rest ≡ some us
      → parse_loop (suc fuel) del v ≡ some (w ∷ us)
  unfolding parse_loop
  parse_loop_next fuel v [] rest us e pos run = absurd (omega arith)
  parse_loop_next fuel v (c ∷ w) rest us e pos run = rw (e, ◌>>=◌, equals-nil c w, run)

  parse_loop_stop :
      (fuel : ℕ) (v rest : List ℕ)
      → StringView.split del 0 v ≡ some ([], rest)
      → 0 < fuel
      → parse_loop fuel del v ≡ some []
  unfolding parse_loop
  parse_loop_stop zero v rest e pos = absurd (omega arith)
  parse_loop_stop (suc fuel) v rest e pos = rw (e, ◌>>=◌, equals-nil_self)

  -- With enough fuel, the tokens of `v` are `us`.
  abbrev Parses : List ℕ → List (List ℕ) → Type 0
  Parses v us = (fuel : ℕ) → length v < fuel → parse_loop fuel del v ≡ some us

  Parses-nil : Parses [] []
  Parses-nil fuel h = parse_loop_stop fuel [] [] (split_nil del) (omega arith)

  Parses-word :
      (w t : List ℕ) (us : List (List ℕ))
      → IsWord del w
      → 0 < length t
      → Parses t us
      → Parses (w ++ del ∷ t) (w ∷ us)
  Parses-word w [] us h pos p fuel enough = absurd (omega arith)
  Parses-word w (c ∷ t) us h pos p zero enough = absurd (omega arith)
  Parses-word w (c ∷ t) us h pos p (suc fuel) enough =
      parse_loop_next fuel _ w (c ∷ t) us (split-word del w c t h.clean) h.nonempty
        (p fuel (omega (arith, length-append w (del ∷ c ∷ t))))

  last_byte :
      (w : List ℕ)
      → IsWord del w
      → (i : List ℕ) × (c : ℕ) × (w ≡ i ++ c ∷ []) × All (λ d. d ≢ del) i × (c ≢ del)
  last_byte [] h = absurd (omega (arith, h.nonempty))
  last_byte (c ∷ []) h = ([], c, refl, tt, h.clean.0)
  last_byte (c ∷ d ∷ w) h =
      let (i, z, e, clean, other) =
        last_byte (d ∷ w) (record { nonempty = omega arith; clean = h.clean.1 }) in
      (c ∷ i, z, ap (λ t. c ∷ t) e, (h.clean.0, clean), other)

  Parses-last : (w : List ℕ) → IsWord del w → Parses w (w ∷ [])
  Parses-last w h zero enough = absurd (omega arith)
  Parses-last w h (suc fuel) enough =
      let (i, c, e, clean, other) = last_byte w h in
      parse_loop_next fuel w w [] [] (rw e (split_whole del i c clean other)) h.nonempty
        (Parses-nil fuel (omega (arith, h.nonempty)))

  join-pos : (w : List ℕ) (ws : List (List ℕ)) → IsWord del w → 0 < length (join del (w ∷ ws))
  unfolding join
  join-pos w [] h = h.nonempty
  join-pos w (v ∷ ws) h = omega (arith, h.nonempty, length-append w (del ∷ join del (v ∷ ws)))

  Parses-join : (ws : List (List ℕ)) → All (IsWord del) ws → Parses (join del ws) ws
  unfolding join
  Parses-join [] h = Parses-nil
  Parses-join (w ∷ []) h = Parses-last w h.0
  Parses-join (w ∷ v ∷ ws) h =
      Parses-word w _ (v ∷ ws) h.0 (join-pos v ws h.1.0) (Parses-join (v ∷ ws) h.1)

  -- A text of words with one separator between any two is parsed into exactly those words.
  pub parse_string-join :
      (ws : List (List ℕ)) → All (IsWord del) ws → parse_string del (join del ws) ≡ some ws
  unfolding parse_string
  parse_string-join ws h = Parses-join ws h (suc (length (join del ws))) (omega arith)

  Parses-separators : (rest : List ℕ) → Parses (del ∷ rest) []
  Parses-separators [] fuel enough =
      parse_loop_stop fuel (del ∷ []) [] (split_dropped del [] tt) (omega arith)
  Parses-separators (c ∷ rest) fuel enough =
      parse_loop_stop fuel (del ∷ c ∷ rest) (c ∷ rest) (split-word del [] c rest tt) (omega arith)

  Parses-join_twice :
      (ws : List (List ℕ)) (rest : List ℕ)
      → All (IsWord del) ws
      → Parses (join del ws ++ del ∷ del ∷ rest) ws
  unfolding join
  Parses-join_twice [] rest h = Parses-separators (del ∷ rest)
  Parses-join_twice (w ∷ []) rest h =
      Parses-word w (del ∷ rest) [] h.0 (omega arith) (Parses-separators rest)
  Parses-join_twice (w ∷ v ∷ ws) rest h =
      rw (append_assoc w (del ∷ join del (v ∷ ws)) (del ∷ del ∷ rest)) (
        Parses-word w (join del (v ∷ ws) ++ del ∷ del ∷ rest) (v ∷ ws) h.0
          (omega (arith, length-append (join del (v ∷ ws)) (del ∷ del ∷ rest)))
          (Parses-join_twice (v ∷ ws) rest h.1))

  -- Behind words with one separator between any two, two separators in a row end the parse: what
  -- follows them is not handed over.
  pub parse_string_stops :
      (ws : List (List ℕ)) (rest : List ℕ)
      → All (IsWord del) ws
      → parse_string del (join del ws ++ del ∷ del ∷ rest) ≡ some ws
  unfolding parse_string
  parse_string_stops ws rest h =
      let text = join del ws ++ del ∷ del ∷ rest in
      Parses-join_twice ws rest h (suc (length text)) (omega arith)

  Parses-join_trailing :
      (ws : List (List ℕ)) (w : List ℕ)
      → All (IsWord del) ws
      → IsWord del w
      → Parses (join del (ws ++ w ∷ []) ++ del ∷ []) ws
  unfolding join
  Parses-join_trailing [] w h last = λ fuel enough.
      parse_loop_stop fuel (w ++ del ∷ []) [] (split_dropped del w last.clean) (omega arith)
  Parses-join_trailing (v ∷ []) w h last = rw (append_assoc v (del ∷ w) (del ∷ [])) (
      Parses-word v (w ++ del ∷ []) [] h.0 (omega (arith, length-append w (del ∷ [])))
        (Parses-join_trailing [] w tt last))
  Parses-join_trailing (v ∷ u ∷ ws) w h last =
      rw (append_assoc v (del ∷ join del (u ∷ (ws ++ w ∷ []))) (del ∷ [])) (
        Parses-word v (join del (u ∷ (ws ++ w ∷ [])) ++ del ∷ []) (u ∷ ws) h.0
          (omega (arith, length-append (join del (u ∷ (ws ++ w ∷ []))) (del ∷ [])))
          (Parses-join_trailing (u ∷ ws) w h.1 last))

  -- In a text of words with one separator between any two, a separator at the end makes the last word
  -- disappear.
  pub parse_string_loses_last :
      (ws : List (List ℕ)) (w : List ℕ)
      → All (IsWord del) ws
      → IsWord del w
      → parse_string del (join del (ws ++ w ∷ []) ++ del ∷ []) ≡ some ws
  unfolding parse_string
  parse_string_loses_last ws w h last =
      let text = join del (ws ++ w ∷ []) ++ del ∷ [] in
      Parses-join_trailing ws w h last (suc (length text)) (omega arith)

  parse_loop_total :
      (fuel : ℕ) (v : List ℕ)
      → length v < fuel
      → (us : List (List ℕ)) × (parse_loop fuel del v ≡ some us) × All (IsWord del) us
  parse_loop_total zero v enough = absurd (omega arith)
  parse_loop_total (suc fuel) v enough =
      let ((token, rest), run, clean, fewer) = split_lem del v in
      elim (dec_lt 0 (length token)) [
        | yes pos ↦
            let (us, more, words) = parse_loop_total fuel rest (omega (arith, fewer pos)) in
            (
              token ∷ us,
              parse_loop_next fuel v token rest us run pos more,
              (record { nonempty = pos; clean = clean }, words),
            )
        | no none_left ↦ (
          [],
          parse_loop_stop (suc fuel) v rest
              (run ∙ ap (λ xs. some (xs, rest)) (nil_of_length token (omega arith))) (omega arith),
          tt,
        )
      ]

  -- On every text `parse_string` ends, reads inside the text, and hands over only words that are not
  -- empty and hold no separator.
  pub parse_string_total :
      (text : List ℕ)
      → (us : List (List ℕ)) × (parse_string del text ≡ some us) × All (IsWord del) us
  unfolding parse_string
  parse_string_total text = parse_loop_total (suc (length text)) text (omega arith)
