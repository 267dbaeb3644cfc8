-- ===== src/Template/Runtime/Asset.antt =====
-- Where the words stand that `cweb_setAssetLink` looks for.
use cweb.Base.{
  bump-some, ℕ, zero, suc, ◌+◌, ◌≡◌, inl, inr, refl, ap, sym, ◌∙◌, true, [], ◌∷◌, ◌++◌, some, ltb,
  length, take, drop, Bytes, strstr, starts_with, arith, Bool-cases, if_true, if_false,
}
use cweb.Template.Security.Sanitize.{Occurs, found-Occurs, starts_with_splits, and_parts}
use cweb.Template.Runtime.{href, has_link}

-- Where `strstr` finds a word, the text behind begins with it.
pub drop-strstr :
    (s word : Bytes) (i : ℕ) → strstr s word ≡ some i → (after : Bytes) × (drop i s ≡ word ++ after)
unfolding strstr
drop-strstr [] word i h = elim (Bool-cases (starts_with [] word)) [
  | inl e ↦
      let (after, splits) = starts_with_splits [] word e in
      let here : i ≡ 0 = cc (sym (if_true (starts_with [] word) _ _ e) ∙ h) in
      (after, ap (λ k. drop k []) here ∙ splits)
  | inr e ↦ absurd (cc (sym (if_false (starts_with [] word) _ _ e) ∙ h))
]
drop-strstr (x ∷ xs) word i h = elim (Bool-cases (starts_with (x ∷ xs) word)) [
  | inl e ↦
      let (after, splits) = starts_with_splits (x ∷ xs) word e in
      let here : i ≡ 0 = cc (sym (if_true (starts_with (x ∷ xs) word) _ _ e) ∙ h) in
      (after, ap (λ k. drop k (x ∷ xs)) here ∙ splits)
  | inr e ↦
      let (j, found, next) =
        bump-some (strstr xs word) i (sym (if_false (starts_with (x ∷ xs) word) _ _ e) ∙ h) in
      let (after, splits) = drop-strstr xs word j found in
      (after, ap (λ k. drop k (x ∷ xs)) next ∙ splits)
]

pub plus_zero : (k : ℕ) → 0 + k ≡ k
plus_zero k = omega arith

pub plus_suc : (i k : ℕ) → suc i + k ≡ suc (i + k)
plus_suc i k = omega arith

take_nil : (k : ℕ) → take {A = ℕ} k [] ≡ []
take_nil zero = refl
take_nil (suc k) = refl

pub take_plus : (i k : ℕ) (s : Bytes) → take (i + k) s ≡ take i s ++ take k (drop i s)
take_plus zero k s = ap (λ n. take n s) (plus_zero k)
take_plus (suc i) k [] = ap (λ n. take n []) (plus_suc i k) ∙ sym (take_nil k)
take_plus (suc i) k (x ∷ xs) =
    ap (λ n. take n (x ∷ xs)) (plus_suc i k) ∙ ap (◌∷◌ x) (take_plus i k xs)

pub has_link-Occurs : (doc path : Bytes) → has_link doc path ≡ true → Occurs (href path) doc
unfolding has_link
has_link-Occurs doc path h =
    found-Occurs doc (href path) (and_parts (ltb (length (href path)) 256) _ h).1
