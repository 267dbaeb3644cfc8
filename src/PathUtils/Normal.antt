-- ===== src/PathUtils/Normal.antt =====
-- `cweb_normalize_path`.
use cweb.Base.{
  ℕ, ◌≡◌, ◌≢◌, inl, inr, refl, ap, subst, ◌∙◌, Bool, true, false, ◌&&◌, [], ◌∷◌, arith, ◌==◌,
  if◌then◌else◌, Bytes, Bool-cases,
}

-- The copying loop: the flag says that the last byte copied was a slash, and the inner `while`
-- passes over the slashes behind it.
collapse_slashes : Bool → Bytes → Bytes
collapse_slashes after_slash [] = []
collapse_slashes after_slash (c ∷ cs) =
    let rest = collapse_slashes (c == b'/') cs in
    if after_slash && c == b'/' then rest else c ∷ rest

-- if (len > 1 && path[len-1] == '/') path[len-1] = '\0'
strip_slash : Bytes → Bytes
strip_slash [] = []
strip_slash (c ∷ []) = c ∷ []
strip_slash (c ∷ d ∷ []) = if d == b'/' then c ∷ [] else c ∷ d ∷ []
strip_slash (c ∷ d ∷ e ∷ cs) = c ∷ strip_slash (d ∷ e ∷ cs)

unfoldable pub normalize_path : Bytes → Bytes
unfolding collapse_slashes strip_slash
normalize_path path = strip_slash (collapse_slashes false path)

-- No slash follows another one; the flag says that one stands before.
abbrev NoDouble : Bool → Bytes → Type 0
NoDouble prev [] = Unit
NoDouble prev (c ∷ cs) = ((prev && c == b'/') ≡ false) × NoDouble (c == b'/') cs

-- The last byte of a path of two bytes or more is no slash.
abbrev NoTrailing : Bytes → Type 0
NoTrailing [] = Unit
NoTrailing (c ∷ []) = Unit
NoTrailing (c ∷ d ∷ []) = d ≢ b'/'
NoTrailing (c ∷ d ∷ e ∷ cs) = NoTrailing (d ∷ e ∷ cs)

both_same : (a b : Bool) → (a && b) ≡ true → a ≡ b
both_same a b h = ground arith

collapse-NoDouble : (prev : Bool) (s : Bytes) → NoDouble prev (collapse_slashes prev s)
unfolding collapse_slashes
collapse-NoDouble prev [] = tt
collapse-NoDouble prev (c ∷ cs) = elim (Bool-cases (prev && c == b'/')) [
  | inl y ↦ rw y (
      subst (λ b. NoDouble prev (collapse_slashes b cs)) (both_same prev (c == b'/') y)
        (collapse-NoDouble prev cs))
  | inr n ↦ rw n (n, collapse-NoDouble (c == b'/') cs)
]

collapse_fixed : (prev : Bool) (s : Bytes) → NoDouble prev s → collapse_slashes prev s ≡ s
unfolding collapse_slashes
collapse_fixed prev [] h = refl
collapse_fixed prev (c ∷ cs) h = rw h.0 (ap (◌∷◌ c) (collapse_fixed (c == b'/') cs h.1))

strip_fixed : (s : Bytes) → NoTrailing s → strip_slash s ≡ s
unfolding strip_slash
strip_fixed [] h = refl
strip_fixed (c ∷ []) h = refl
strip_fixed (c ∷ d ∷ []) h = ground arith
strip_fixed (c ∷ d ∷ e ∷ cs) h = ap (◌∷◌ c) (strip_fixed (d ∷ e ∷ cs) h)

strip-NoDouble : (prev : Bool) (s : Bytes) → NoDouble prev s → NoDouble prev (strip_slash s)
unfolding strip_slash
strip-NoDouble prev [] h = tt
strip-NoDouble prev (c ∷ []) h = h
strip-NoDouble prev (c ∷ d ∷ []) h = ground arith
strip-NoDouble prev (c ∷ d ∷ e ∷ cs) h = (h.0, strip-NoDouble (c == b'/') (d ∷ e ∷ cs) h.1)

strip_head : (c : ℕ) (cs : Bytes) → (rest : Bytes) × (strip_slash (c ∷ cs) ≡ c ∷ rest)
unfolding strip_slash
strip_head c [] = ([], refl)
strip_head c (d ∷ []) = (if d == b'/' then [] else d ∷ [], ground arith)
strip_head c (d ∷ e ∷ cs) = (strip_slash (d ∷ e ∷ cs), refl)

strip-NoTrailing : (prev : Bool) (s : Bytes) → NoDouble prev s → NoTrailing (strip_slash s)
unfolding strip_slash
strip-NoTrailing prev [] h = tt
strip-NoTrailing prev (c ∷ []) h = tt
strip-NoTrailing prev (c ∷ d ∷ []) h = ground arith
strip-NoTrailing prev (c ∷ d ∷ e ∷ []) h = ground arith
strip-NoTrailing prev (c ∷ d ∷ e ∷ f ∷ cs) h =
    let (rest, q) = strip_head e (f ∷ cs) in
    let ih = strip-NoTrailing (c == b'/') (d ∷ e ∷ f ∷ cs) h.1 in rw q (rw q at ih)

-- A normal path has no two slashes in a row and, unless it is one byte long, no slash at its end.
normalize_path_clean :
    (path : Bytes) → NoDouble false (normalize_path path) × NoTrailing (normalize_path path)
unfolding normalize_path
normalize_path_clean path =
    let h = collapse-NoDouble false path in (strip-NoDouble false _ h, strip-NoTrailing false _ h)

-- Normalising a normal path changes nothing.
normalize_path_idem : (path : Bytes) → normalize_path (normalize_path path) ≡ normalize_path path
unfolding normalize_path
normalize_path_idem path =
    let h = collapse-NoDouble false path in
    ap strip_slash (collapse_fixed false _ (strip-NoDouble false _ h))
    ∙ strip_fixed _ (strip-NoTrailing false _ h)
