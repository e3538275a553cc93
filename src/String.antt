-- ===== src/String.antt =====
-- include/qs/string.h and src/lib/string.cpp: `qs::string`. `str` is the buffer, `none` for a null
-- pointer. The result of an operation is `none` where it throws, follows a null pointer, hands one to
-- the C library, or leaves a buffer. `print` is `snprintf` of the C library with "%d".
pub mod Memory
pub mod Texts
pub mod Build
pub mod Sanitize
pub mod Compare
mod Tests
use k23_search_engine.Prelude.{
  ℕ, zero, suc, ◌+◌, ◌-◌, List, [], ◌∷◌, Option, none, some, ◌>>=◌, ◌==◌, leb, ltb, not, Bool, true,
  false, ◌&&◌, if◌then◌else◌, get_elem?, length, map, min, ◌++◌,
}
use k23_search_engine.StringView
use k23_search_engine.String.Memory.{
  Buffer, new_char, read, write, memcpy, strchr, Sign, below, level, above, memcmp,
}

pub record String : Type 0 where
  pub str : Option Buffer
  pub cap : ℕ
  pub len : ℕ

-- `string()`
abbrev pub empty : String
empty = record { str = none; cap = 0; len = 0 }

unfoldable pub with_size : ℕ → Option String
unfolding write
with_size cap = do
  str ← write (new_char (cap + 1)) 0 (some 0 ∷ [])
  some (record { str = some str; cap = cap + 1; len = 0 })

-- `string(const char *source, size_t length)`
unfoldable pub of_bytes : Buffer → ℕ → Option String
unfolding write memcpy
of_bytes source length = do
  copied ← memcpy (new_char (length + 1)) 0 source 0 length
  str ← write copied length (some 0 ∷ [])
  some (record { str = some str; cap = length + 1; len = length })

-- `string(const char *source)`
unfoldable pub of_source : List ℕ → Option String
unfolding of_bytes
of_source source = StringView.of_c_str source >>= λ view. of_bytes (map some source) (length view)

-- `string(int num)`, for what `snprintf` prints of it.
unfoldable pub of_int : {I : Type 0} → (I → List ℕ) → I → Option String
unfolding write
of_int print num = do
  str ← write (new_char (length (print num) + 1)) 0 (map some (print num) ++ some 0 ∷ [])
  some (record { str = some str; cap = length (print num) + 1; len = length (print num) })

-- `string(const string &other)`
unfoldable pub copy : String → Option String
unfolding memcpy
copy other = do
  source ← other.str
  str ← memcpy (new_char (other.len + 1)) 0 source 0 (other.len + 1)
  some (record { str = some str; cap = other.len + 1; len = other.len })

-- `string(string &&other)`: the new string, and the other one.
unfoldable pub move : String → String × String
move other = (other, empty)

-- `operator=(const string &other)`; `same` is `this == &other`.
unfoldable pub assign : Bool → String → String → Option String
unfolding copy
assign same this other = elim same [ true ↦ some this | false ↦ copy other ]

-- `operator=(string &&other)`
unfoldable pub move_assign : Bool → String → String → String × String
move_assign same this other = elim same [ true ↦ (this, other) | false ↦ (other, empty) ]

unfoldable pub cat : String → String → Option String
unfolding write memcpy
cat this other =
    let new_length = this.len + other.len in
    elim (ltb new_length this.cap) [
      | true ↦ do
        str ← this.str
        source ← other.str
        copied ← memcpy str this.len source 0 other.len
        ended ← write copied new_length (some 0 ∷ [])
        some (record { str = some ended; cap = this.cap; len = new_length })
      | false ↦ do
        str ← this.str
        first ← memcpy (new_char (this.len + other.len + 1)) 0 str 0 this.len
        source ← other.str
        both ← memcpy first this.len source 0 (other.len + 1)
        some (record { str = some both; cap = this.len + other.len + 1; len = new_length })
    ]

-- `operator+`
unfoldable pub plus : String → String → Option String
unfolding with_size memcpy write
plus this other = do
  s ← with_size (this.len + other.len)
  buf ← s.str
  str ← this.str
  first ← memcpy buf 0 str 0 this.len
  source ← other.str
  both ← memcpy first this.len source 0 other.len
  ended ← write both (this.len + other.len) (some 0 ∷ [])
  some (record { str = some ended; cap = s.cap; len = this.len + other.len })

-- The `while` of `sanitize` for a byte.
unfoldable pub remove_byte : (fuel : ℕ) → ℕ → Buffer → ℕ → Option (Buffer × ℕ)
unfolding strchr memcpy
remove_byte zero c str len = none
remove_byte (suc fuel) c str len = do
  p ← strchr str c
  elim p [
    | none ↦ some (str, len)
    | some i ↦ do moved ← memcpy str i str (i + 1) (len - i); remove_byte fuel c moved (len - 1)
  ]

-- The loop over the bytes to remove; each round of the `while` takes a byte of the string.
unfoldable pub remove_bytes : Buffer → Buffer → ℕ → Option (Buffer × ℕ)
unfolding remove_byte
remove_bytes [] str len = some (str, len)
remove_bytes (none ∷ cs) str len = none
remove_bytes (some c ∷ cs) str len = do r ← remove_byte (len + 1) c str len; remove_bytes cs r.0 r.1

-- `remove_set` is another string than `this`.
unfoldable pub sanitize : String → String → Option String
unfolding remove_bytes read
sanitize this remove_set = elim (remove_set.len == 0) [
  | true ↦ some this
  | false ↦ do
    source ← remove_set.str
    bytes ← read source 0 remove_set.len
    str ← this.str
    r ← remove_bytes bytes str this.len
    some (record { str = some r.0; cap = this.cap; len = r.1 })
]

unfoldable pub pure_sanitize : String → String → Option String
unfolding copy sanitize
pure_sanitize this remove_set = copy this >>= λ s. sanitize s remove_set

-- `operator[]`
unfoldable pub index : String → ℕ → Option ℕ
index this i = do str ← this.str; cell ← get_elem? str i; cell

unfoldable pub at : String → ℕ → Option ℕ
unfolding index
at this i = if this.len == 0 then none else if leb this.len i then none else index this i

-- `operator==`
unfoldable pub equals : String → String → Option Bool
unfolding memcmp
equals first second = elim (first.len == second.len) [
  | true ↦ do
    a ← first.str
    b ← second.str
    r ← memcmp a b first.len
    some (elim r [ below ↦ false | level ↦ true | above ↦ false ])
  | false ↦ some false
]

-- What `operator<` and its kin compare.
unfoldable pub compare : String → String → Option Sign
unfolding memcmp
compare first second = do a ← first.str; b ← second.str; memcmp a b (min first.len second.len)

-- `operator<`
unfoldable pub less : String → String → Option Bool
unfolding compare
less first second =
    compare first second >>= λ r. some (elim r [ below ↦ true | level ↦ false | above ↦ false ])

-- `operator<=`
unfoldable pub less_or_equal : String → String → Option Bool
unfolding compare
less_or_equal first second =
    compare first second >>= λ r. some (elim r [ below ↦ true | level ↦ true | above ↦ false ])

-- `operator>`
unfoldable pub greater : String → String → Option Bool
unfolding compare
greater first second =
    compare first second >>= λ r. some (elim r [ below ↦ false | level ↦ false | above ↦ true ])

-- `operator>=`
unfoldable pub greater_or_equal : String → String → Option Bool
unfolding compare
greater_or_equal first second =
    compare first second >>= λ r. some (elim r [ below ↦ false | level ↦ true | above ↦ true ])

-- `length()`
abbrev pub size : String → ℕ
size this = this.len
