-- ===== src/PathUtils/Query.antt =====
-- `parse_query` and the functions that look a parameter up in it.
pub mod Bounds
pub mod RoundTrip
use cweb.Base.{
  ℕ, zero, suc, ◌+◌, ◌-◌, ◌%◌, ◌^◌, ◌≡◌, Bool, true, false, List, [], ◌∷◌, Option, none, some, leb,
  if◌then◌else◌, length, take, drop, Bytes, strchr, bytes_eq,
}

-- typedef struct { char key[64]; char value[256]; } QueryParam
pub record QueryParam : Type 0 where
  pub key : Bytes
  pub value : Bytes

-- The query part: what stands behind the first `?`.
pub get_query_string : Bytes → Option Bytes
get_query_string path = elim (strchr path b'?') [ none ↦ none | some q ↦ some (drop (suc q) path) ]

-- amp ? (size_t)(amp - eq - 1) : strlen(eq + 1). The difference wraps where `&` comes first.
unfoldable pub value_length : Bytes → ℕ → Option ℕ → ℕ
value_length p eq none = length (drop (suc eq) p)
value_length p eq (some amp) = (amp + 2 ^ 64 - eq - 1) % 2 ^ 64

-- if (len >= size) len = size - 1
unfoldable pub cap_length : ℕ → ℕ → ℕ
cap_length size len = if leb size len then size - 1 else len

-- strncpy copies up to the end of its source.
unfoldable pub param_at : Bytes → ℕ → ℕ → QueryParam
param_at p eq vlen = record { key = take (cap_length 64 eq) p; value = take vlen (drop (suc eq) p) }

-- p = amp ? amp + 1 : eq + 1 + vlen
unfoldable pub next_param : Bytes → ℕ → Option ℕ → ℕ → Bytes
next_param p eq none vlen = drop (eq + 1 + vlen) p
next_param p eq (some amp) vlen = drop (suc amp) p

-- The loop of `parse_query`, with `room` for the parameters that are still allowed.
unfoldable pub parse_query : ℕ → Bytes → List QueryParam
unfolding value_length cap_length param_at next_param
parse_query zero p = []
parse_query (suc room) [] = []
parse_query (suc room) (c ∷ cs) = elim (strchr (c ∷ cs) b'=') [
  | none ↦ []
  | some eq ↦
      let amp = strchr (c ∷ cs) b'&' in
      let vlen = cap_length 256 (value_length (c ∷ cs) eq amp) in
      param_at (c ∷ cs) eq vlen ∷ parse_query room (next_param (c ∷ cs) eq amp vlen)
]

-- The value of the first parameter with the key.
pub find_param : Bytes → List QueryParam → Option Bytes
find_param key [] = none
find_param key (q ∷ qs) = if bytes_eq q.key key then some q.value else find_param key qs

has_query_param : Bytes → Bytes → Bool
has_query_param path key = elim (get_query_string path) [
  | none ↦ false
  | some q ↦ elim (find_param key (parse_query 16 q)) [ none ↦ false | some v ↦ true ]
]

pub get_query_param : Bytes → Bytes → Option Bytes
get_query_param path key = elim (get_query_string path) [
  | none ↦ none
  | some q ↦ find_param key (parse_query 16 q)
]

parse_query_params : Bytes → ℕ → List QueryParam
parse_query_params query max_params = parse_query max_params query
