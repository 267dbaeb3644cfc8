-- ===== src/PathUtils/Query/RoundTrip.antt =====
-- Parameters that are written as a query are read back.
use cweb.Base.{
  drop-append_past, ℕ, zero, suc, ◌+◌, ◌-◌, ◌%◌, ◌^◌, ◌≤◌, ◌<◌, ◌≡◌, ◌≢◌, refl, sym, ap, ◌∙◌, List,
  [], ◌∷◌, ◌++◌, Option, none, some, arith, length, length-append, take-append, drop_all, All,
  All-append, append_assoc, append-nil, Bytes, strchr, strchr-Lacks, strchr-append, Lacks,
}
use cweb.PathUtils.Query.{
  QueryParam, get_query_string, value_length, cap_length, param_at, next_param, parse_query,
  find_param, get_query_param,
}

format_param : QueryParam → Bytes → Bytes
format_param q rest = q.key ++ (b'=' ∷ (q.value ++ rest))

-- key=value&key=value
pub format_query : List QueryParam → Bytes
unfolding format_param
format_query [] = []
format_query (q ∷ []) = format_param q []
format_query (q ∷ r ∷ qs) = format_param q (b'&' ∷ format_query (r ∷ qs))

-- A parameter that a query can express within the buffers' sizes.
pub record IsPlain (q : QueryParam) : Type 0 where
  pub key_no_eq : Lacks b'=' q.key
  pub key_no_amp : Lacks b'&' q.key
  pub value_no_amp : Lacks b'&' q.value
  pub key_fits : length q.key < 64
  pub value_fits : length q.value < 256

step_found :
    (room : ℕ) (p : Bytes) (eq : ℕ) (amp : Option ℕ)
    → strchr p b'=' ≡ some eq
    → strchr p b'&' ≡ amp
    → parse_query (suc room) p
      ≡ param_at p eq (cap_length 256 (value_length p eq amp))
        ∷ parse_query room (next_param p eq amp (cap_length 256 (value_length p eq amp)))
unfolding parse_query
step_found room [] eq amp e a = unfold strchr in cc
step_found room (c ∷ cs) eq amp e a = rw (e, parse_query) (rw a)

parse_query-nil : (room : ℕ) → parse_query room [] ≡ []
unfolding parse_query
parse_query-nil zero = refl
parse_query-nil (suc room) = refl

cap_small : (size n : ℕ) → n < size → cap_length size n ≡ n
unfolding cap_length
cap_small size n h = ground arith

param_at_format :
    (q : QueryParam) (rest : Bytes)
    → IsPlain q
    → param_at (format_param q rest) (length q.key) (length q.value) ≡ q
unfolding param_at format_param
param_at_format q rest h =
    rw (cap_small 64 (length q.key) h.key_fits, take-append, drop-append_past, take-append)

module _ (q : QueryParam) (h : IsPlain q) where
  key_and_eq : Lacks b'&' (q.key ++ (b'=' ∷ q.value))
  key_and_eq = All-append (λ x. x ≢ b'&') q.key _ h.key_no_amp (omega arith, h.value_no_amp)

  eq_found : (rest : Bytes) → strchr (format_param q rest) b'=' ≡ some (length q.key)
  unfolding format_param
  eq_found rest = strchr-append q.key (q.value ++ rest) b'=' h.key_no_eq

  amp_none : strchr (format_param q []) b'&' ≡ none
  unfolding format_param
  amp_none = rw append-nil (strchr-Lacks (q.key ++ (b'=' ∷ q.value)) b'&' key_and_eq)

  regroup : (rest : Bytes) → format_param q rest ≡ (q.key ++ (b'=' ∷ q.value)) ++ rest
  unfolding format_param
  regroup rest = sym (append_assoc q.key (b'=' ∷ q.value) rest)

  amp_found :
      (rest : Bytes)
      → strchr (format_param q (b'&' ∷ rest)) b'&' ≡ some (length (q.key ++ (b'=' ∷ q.value)))
  amp_found rest =
      rw (regroup (b'&' ∷ rest)) (strchr-append (q.key ++ (b'=' ∷ q.value)) rest b'&' key_and_eq)

  value_size_last :
      cap_length 256 (value_length (format_param q []) (length q.key) none) ≡ length q.value
  unfolding value_length format_param
  value_size_last =
      rw (append-nil, drop-append_past q.key q.value b'=')
        (cap_small 256 (length q.value) h.value_fits)

  value_size_more :
      (p : Bytes)
      → cap_length 256 (value_length p (length q.key) (some (length (q.key ++ (b'=' ∷ q.value)))))
        ≡ length q.value
  unfolding value_length
  value_size_more p =
      let e : (length (q.key ++ (b'=' ∷ q.value)) + 2 ^ 64 - length q.key - 1) % 2 ^ 64
          ≡ length q.value =
        omega (arith, length-append q.key (b'=' ∷ q.value), h.value_fits) in
      rw e (cap_small 256 (length q.value) h.value_fits)

  next_last : next_param (format_param q []) (length q.key) none (length q.value) ≡ []
  unfolding next_param format_param
  next_last = rw append-nil (
      drop_all (length q.key + 1 + length q.value) (q.key ++ (b'=' ∷ q.value))
        (omega (arith, length-append q.key (b'=' ∷ q.value))))

  next_more :
      (rest : Bytes)
      → next_param
          (format_param q (b'&' ∷ rest))
          (length q.key)
          (some (length (q.key ++ (b'=' ∷ q.value))))
          (length q.value)
        ≡ rest
  unfolding next_param
  next_more rest =
      rw (regroup (b'&' ∷ rest)) (drop-append_past (q.key ++ (b'=' ∷ q.value)) rest b'&')

  -- The last parameter: no `&` follows.
  step_last : (room : ℕ) → parse_query (suc room) (format_param q []) ≡ q ∷ []
  step_last room =
      step_found room (format_param q []) (length q.key) none (eq_found []) amp_none
      ∙ rw value_size_last (
          rw (param_at_format q [] h)
            (ap (◌∷◌ q) (ap (parse_query room) next_last ∙ parse_query-nil room)))

  step_more :
      (room : ℕ) (rest : Bytes)
      → parse_query (suc room) (format_param q (b'&' ∷ rest)) ≡ q ∷ parse_query room rest
  step_more room rest =
      step_found room (format_param q (b'&' ∷ rest)) (length q.key) _ (eq_found _) (amp_found rest)
      ∙ rw (value_size_more (format_param q (b'&' ∷ rest))) (
          rw (param_at_format q (b'&' ∷ rest) h)
            (ap (◌∷◌ q) (ap (parse_query room) (next_more rest))))

parse_query_plain :
    (room : ℕ) (qs : List QueryParam)
    → All IsPlain qs
    → length qs ≤ room
    → parse_query room (format_query qs) ≡ qs
unfolding format_query
parse_query_plain zero [] h n = unfold parse_query in refl
parse_query_plain (suc room) [] h n = unfold parse_query in refl
parse_query_plain zero (q ∷ qs) h n = absurd (omega arith)
parse_query_plain (suc room) (q ∷ []) h n = step_last q h.0 room
parse_query_plain (suc room) (q ∷ r ∷ qs) h n =
    step_more q h.0 room (format_query (r ∷ qs))
    ∙ ap (◌∷◌ q) (parse_query_plain room (r ∷ qs) h.1 (omega arith))

-- A request path over `base` with the parameters behind it.
abbrev with_query : Bytes → List QueryParam → Bytes
with_query base qs = base ++ (b'?' ∷ format_query qs)

-- `parse_query` reads back what was written: at most `room` parameters, each with a key and a
-- value that fit the buffers, no `=` in a key and no `&` in either.
pub parse-format_query :
    (room : ℕ) (qs : List QueryParam)
    → All IsPlain qs
    → length qs ≤ room
    → parse_query room (format_query qs) ≡ qs
parse-format_query room qs h n = parse_query_plain room qs h n

get_query_string_found :
    (base rest : Bytes) → Lacks b'?' base → get_query_string (base ++ (b'?' ∷ rest)) ≡ some rest
unfolding get_query_string
get_query_string_found base rest b =
    rw (strchr-append base rest b'?' b, get_query_string) (rw drop-append_past)

-- On a path whose base has no `?` and whose query holds at most sixteen such parameters, a key
-- has the value of the first parameter with that key, and no value where no parameter has it.
get_query_param_format :
    (base key : Bytes) (qs : List QueryParam)
    → Lacks b'?' base
    → All IsPlain qs
    → length qs ≤ 16
    → get_query_param (with_query base qs) key ≡ find_param key qs
unfolding get_query_param
get_query_param_format base key qs b h n =
    rw (get_query_string_found base (format_query qs) b, get_query_param)
      (ap (find_param key) (parse_query_plain 16 qs h n))
