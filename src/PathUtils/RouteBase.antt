-- ===== src/PathUtils/RouteBase.antt =====
-- `cweb_get_route_base`: the part of a path by which routes with a dynamic tail are found.
use cweb.Base.{
  ℕ, ◌≡◌, refl, ap, sym, ◌∙◌, Bool-cases, Bool, true, false, not, ◌&&◌, [], ◌∷◌, ◌++◌, Option, none,
  some, arith, ltb, ◌==◌, if◌then◌else◌, take, drop, Bytes, bump, strchr, inl, inr,
}

-- The second slash counts only where the path begins with the first.
second_slash : Bytes → Option ℕ → Option ℕ
second_slash path none = none
second_slash path (some i) = if i == 0 then bump (strchr (drop 1 path) b'/') else none

-- Whichever of `?` and the second slash comes first.
end_point : Option ℕ → Option ℕ → Option ℕ
end_point (some p) (some s) = some (if ltb p s then p else s)
end_point (some p) none = some p
end_point none s = s

cut_at : Option ℕ → Bytes → Bytes
cut_at none path = path
cut_at (some n) path = take n path

unfoldable pub get_route_base : Bytes → Bytes
unfolding second_slash end_point cut_at strchr
get_route_base path =
    cut_at (end_point (strchr path b'?') (second_slash path (strchr path b'/'))) path

-- The longest prefix of bytes that pass a test.
unfoldable pub take_while : (ℕ → Bool) → Bytes → Bytes
take_while p [] = []
take_while p (c ∷ cs) = if p c then c ∷ take_while p cs else []

abbrev in_query : ℕ → Bool
in_query c = c == b'?'

abbrev ends_base : ℕ → Bool
ends_base c = not (c == b'?') && not (c == b'/')

-- What a route base is, without positions: one slash at the front is skipped.
base_spec : Bytes → Bytes
base_spec [] = []
base_spec (c ∷ cs) =
    if c == b'/' then c ∷ take_while ends_base cs else take_while (λ x. not (in_query x)) (c ∷ cs)

cut_at_either :
    (cs : Bytes) → cut_at (end_point (strchr cs b'?') (strchr cs b'/')) cs ≡ take_while ends_base cs
unfolding cut_at end_point strchr take_while
cut_at_either [] = refl
cut_at_either (c ∷ cs) = ground (arith, cut_at_either cs)

cut_at_query : (cs : Bytes) → cut_at (strchr cs b'?') cs ≡ take_while (λ x. not (in_query x)) cs
unfolding cut_at strchr take_while
cut_at_query [] = refl
cut_at_query (c ∷ cs) = ground (arith, cut_at_query cs)

end_point-bump : (a b : Option ℕ) → end_point (bump a) (bump b) ≡ bump (end_point a b)
unfolding end_point
end_point-bump none none = refl
end_point-bump none (some b) = refl
end_point-bump (some a) none = refl
end_point-bump (some a) (some b) = ground arith

cut_at-bump : (n : Option ℕ) (c : ℕ) (cs : Bytes) → cut_at (bump n) (c ∷ cs) ≡ c ∷ cut_at n cs
unfolding cut_at
cut_at-bump none c cs = refl
cut_at-bump (some n) c cs = refl

base_with_slash :
    (c : ℕ) (cs : Bytes)
    → (c == b'/') ≡ true
    → get_route_base (c ∷ cs) ≡ c ∷ take_while ends_base cs
unfolding get_route_base
base_with_slash c cs h = ground (
  arith,
  end_point-bump (strchr cs b'?') (strchr cs b'/'),
  cut_at-bump (end_point (strchr cs b'?') (strchr cs b'/')) c cs,
  cut_at_either cs,
)

base_without_slash :
    (c : ℕ) (cs : Bytes)
    → (c == b'/') ≡ false
    → get_route_base (c ∷ cs) ≡ take_while (λ x. not (in_query x)) (c ∷ cs)
unfolding get_route_base
base_without_slash c cs h = ground (arith, cut_at_query (c ∷ cs))

-- The base of a path is its first segment with the slash before it, and without the query; of a
-- path with no slash at its front it is all that stands before the query.
get_route_base_lem : (path : Bytes) → get_route_base path ≡ base_spec path
unfolding base_spec
get_route_base_lem [] = unfold get_route_base in refl
get_route_base_lem (c ∷ cs) = elim (Bool-cases (c == b'/')) [
  | inl h ↦ rw h (base_with_slash c cs h)
  | inr h ↦ rw h (base_without_slash c cs h)
]

take_while_idem : (p : ℕ → Bool) (s : Bytes) → take_while p (take_while p s) ≡ take_while p s
unfolding take_while
take_while_idem p [] = refl
take_while_idem p (c ∷ cs) = ground (arith, take_while_idem p cs)

take_while-prefix : (p : ℕ → Bool) (s : Bytes) → (rest : Bytes) × (s ≡ take_while p s ++ rest)
unfolding take_while
take_while-prefix p [] = ([], refl)
take_while-prefix p (c ∷ cs) = elim (Bool-cases (p c)) [
  | inl h ↦ let (r, e) = take_while-prefix p cs in (r, rw h (ap (◌∷◌ c) e))
  | inr h ↦ (c ∷ cs, rw h)
]

base_spec_idem : (path : Bytes) → base_spec (base_spec path) ≡ base_spec path
unfolding base_spec take_while
base_spec_idem [] = refl
base_spec_idem (c ∷ cs) =
    ground (arith, take_while_idem ends_base cs, take_while_idem (λ x. not (in_query x)) cs)

-- Taking the base of a base changes nothing, so a registered base is found by any path over it.
get_route_base_idem : (path : Bytes) → get_route_base (get_route_base path) ≡ get_route_base path
get_route_base_idem path =
    ap get_route_base (get_route_base_lem path)
    ∙ get_route_base_lem (base_spec path)
    ∙ base_spec_idem path
    ∙ sym (get_route_base_lem path)
