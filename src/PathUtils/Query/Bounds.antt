-- ===== src/PathUtils/Query/Bounds.antt =====
-- What `parse_query` writes fits its buffers.
use cweb.Base.{
  ℕ, zero, suc, ◌≤◌, ◌<◌, [], ◌∷◌, arith, length, take, drop, length-take, All, Bytes, strchr,
  Option-cases, inl, inr,
}
use cweb.PathUtils.Query.{QueryParam, value_length, cap_length, param_at, next_param, parse_query}

-- Key and value leave room for the NUL in char key[64] and char value[256].
abbrev pub Fits : QueryParam → Type 0
Fits q = (length q.key < 64) × (length q.value < 256)

cap_length-lt : (size len : ℕ) → 0 < size → cap_length size len < size
unfolding cap_length
cap_length-lt size len h = ground arith

length-take_lt : (n m : ℕ) (s : Bytes) → n < m → length (take n s) < m
length-take_lt n m s h = omega (arith, length-take n s)

param_at-Fits : (p : Bytes) (eq len : ℕ) → Fits (param_at p eq (cap_length 256 len))
unfolding param_at
param_at-Fits p eq len = (
  length-take_lt (cap_length 64 eq) 64 p (cap_length-lt 64 eq (omega arith)),
  length-take_lt (cap_length 256 len) 256 (drop (suc eq) p) (cap_length-lt 256 len (omega arith)),
)

-- `parse_query` finds no more parameters than it is given room for, and each key and each value
-- with its NUL fits the array that it is copied to, whatever the query holds.
parse_query_bounds :
    (room : ℕ) (p : Bytes) → All Fits (parse_query room p) × (length (parse_query room p) ≤ room)
unfolding parse_query
parse_query_bounds zero p = (tt, omega arith)
parse_query_bounds (suc room) [] = (tt, omega arith)
parse_query_bounds (suc room) (c ∷ cs) = elim (Option-cases (strchr (c ∷ cs) b'=')) [
  | inl e ↦ rw (e, parse_query) (tt, omega arith)
  | inr (eq, e) ↦
      let amp = strchr (c ∷ cs) b'&' in
      let len = value_length (c ∷ cs) eq amp in
      let rest = parse_query_bounds room (next_param (c ∷ cs) eq amp (cap_length 256 len)) in
      rw (e, parse_query) ((param_at-Fits (c ∷ cs) eq len, rest.0), omega (arith, rest.1))
]
