-- ===== src/String/Memory.antt =====
-- The calls of the C library in src/lib/string.cpp. A buffer is the list of its bytes, and a byte that
-- was not written yet is `none`. Their result is `none` where they read or write past the end of a
-- buffer.
use k23_search_engine.Prelude.{
  ℕ, zero, suc, ◌+◌, List, [], ◌∷◌, ◌++◌, Option, none, some, ◌>>=◌, ◌==◌, leb, ltb, if◌then◌else◌,
  length, take, drop, replicate,
}

abbrev pub Buffer : Type 0
Buffer = List (Option ℕ)

-- `new char[n]`
abbrev pub new_char : ℕ → Buffer
new_char n = replicate n none

-- The `n` bytes from `from` on.
unfoldable pub read : Buffer → ℕ → ℕ → Option Buffer
read buf from n = if leb (from + n) (length buf) then some (take n (drop from buf)) else none

-- Bytes written from `to` on.
unfoldable pub write : Buffer → ℕ → Buffer → Option Buffer
write buf to bytes =
    if leb (to + length bytes) (length buf)
    then some (take to buf ++ (bytes ++ drop (to + length bytes) buf))
    else none

-- `memcpy(to + at, from, n)` and `memmove` of a buffer to itself
unfoldable pub memcpy : Buffer → ℕ → Buffer → ℕ → ℕ → Option Buffer
unfolding read write
memcpy to at source from n = read source from n >>= λ bytes. write to at bytes

-- `strchr`: the position of a byte up to the NUL.
unfoldable pub strchr : Buffer → ℕ → Option (Option ℕ)
strchr [] c = none
strchr (none ∷ buf) c = none
strchr (some b ∷ buf) c =
    let rest = strchr buf c >>= λ r. some (r >>= λ i. some (suc i)) in
    if b == c then some (some 0) else if b == 0 then some none else rest

-- The sign of what `memcmp` returns.
pub data Sign : Type 0 where
  below : Sign
  level : Sign
  above : Sign

unfoldable pub memcmp : Buffer → Buffer → ℕ → Option Sign
memcmp a b zero = some level
memcmp [] b (suc n) = none
memcmp (none ∷ a) b (suc n) = none
memcmp (some x ∷ a) [] (suc n) = none
memcmp (some x ∷ a) (none ∷ b) (suc n) = none
memcmp (some x ∷ a) (some y ∷ b) (suc n) =
    let rest = memcmp a b n in if ltb x y then some below else if ltb y x then some above else rest
