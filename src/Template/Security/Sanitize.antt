-- ===== src/Template/Security/Sanitize.antt =====
-- What `cweb_sanitize_c_code` and `cweb_validate_tag_name` test.
use cweb.Base.{
  ℕ, ◌≡◌, ◌↔◌, inl, inr, refl, ap, ap₂, sym, if_true, if_false, ◌∙◌, Bool, true, false, not, ◌&&◌,
  List, [], ◌∷◌, ◌++◌, ◌==◌, ==_iff, Option, none, some, Bytes, All, strstr, starts_with, arith,
  if_cases, bump, Bool-cases,
}
use cweb.Template.Security.{contains, free_of, dangerous, sanitize_c_code}

-- The word stands somewhere in the text.
abbrev pub Occurs : Bytes → Bytes → Type 0
Occurs word text = (before : Bytes) × (after : Bytes) × (text ≡ before ++ word ++ after)

starts_with_append : (word after : Bytes) → starts_with (word ++ after) word ≡ true
unfolding starts_with
starts_with_append [] after = refl
starts_with_append (c ∷ cs) after = ground (arith, starts_with_append cs after)

pub and_parts : (a b : Bool) → (a && b) ≡ true → (a ≡ true) × (b ≡ true)
and_parts true b h = (refl, h)
and_parts false b h = absurd (cc h)

and_both : {a b : Bool} → a ≡ true → b ≡ true → (a && b) ≡ true
and_both h k = rw (h, k) refl

pub starts_with_splits :
    (text word : Bytes) → starts_with text word ≡ true → (after : Bytes) × (text ≡ word ++ after)
unfolding starts_with
starts_with_splits text [] h = (text, refl)
starts_with_splits [] (c ∷ cs) h = absurd (cc h)
starts_with_splits (x ∷ xs) (c ∷ cs) h =
    let (head, tail) = and_parts (x == c) (starts_with xs cs) h in
    let (after, e) = starts_with_splits xs cs tail in
    (after, ap₂ (λ a s. a ∷ s) ((==_iff x c).0 head) e)

-- A test of `strstr` step by step.
abbrev found : Option ℕ → Bool
found none = false
found (some i) = true

found-bump : (o : Option ℕ) → found (bump o) ≡ found o
found-bump none = refl
found-bump (some i) = refl

found_here : (text word : Bytes) → starts_with text word ≡ true → found (strstr text word) ≡ true
unfolding strstr
found_here [] word h = rw h refl
found_here (c ∷ cs) word h = ap found (if_true (starts_with (c ∷ cs) word) _ _ h)

found_next :
    (c : ℕ) (cs word : Bytes) → found (strstr cs word) ≡ true → found (strstr (c ∷ cs) word) ≡ true
unfolding strstr
found_next c cs word h =
    if_cases (λ o. found o ≡ true) (starts_with (c ∷ cs) word) _ _ (λ e. refl)
      (λ e. found-bump _ ∙ h)

found_at : (before after word : Bytes) → found (strstr (before ++ word ++ after) word) ≡ true
found_at [] after word = found_here _ word (starts_with_append word after)
found_at (c ∷ cs) after word = found_next c _ word (found_at cs after word)

Occurs-cons : (c : ℕ) (text word : Bytes) → Occurs word text → Occurs word (c ∷ text)
Occurs-cons c text word (before, after, e) = (c ∷ before, after, ap (◌∷◌ c) e)

Occurs-head : (text word : Bytes) → starts_with text word ≡ true → Occurs word text
Occurs-head text word h = let (after, e) = starts_with_splits text word h in ([], after, e)

pub found-Occurs : (text word : Bytes) → found (strstr text word) ≡ true → Occurs word text
unfolding strstr
found-Occurs [] word h = elim (Bool-cases (starts_with [] word)) [
  | inl e ↦ Occurs-head [] word e
  | inr e ↦ absurd (cc (rw e at h))
]
found-Occurs (c ∷ cs) word h = elim (Bool-cases (starts_with (c ∷ cs) word)) [
  | inl e ↦ Occurs-head (c ∷ cs) word e
  | inr e ↦
      Occurs-cons c cs word
        (found-Occurs cs word (sym (found-bump _) ∙ ap found (sym (if_false _ _ _ e)) ∙ h))
]

free_of-All :
    (text : Bytes) (words : List Bytes)
    → free_of text words ≡ true
    → All (λ w. ¬ Occurs w text) words
free_of-All text [] h = tt
free_of-All text (w ∷ ws) h =
    let (head, tail) = and_parts (not (contains text w)) _ h in
    (
      (λ (before, after, e).
          cc (sym head ∙ ap not (ap (λ s. contains s w) e ∙ found_at before after w))),
      free_of-All text ws tail,
    )

All-free_of :
    (text : Bytes) (words : List Bytes)
    → All (λ w. ¬ Occurs w text) words
    → free_of text words ≡ true
All-free_of text [] h = refl
All-free_of text (w ∷ ws) h = elim (Bool-cases (contains text w)) [
  | inl e ↦ absurd (h.0 (found-Occurs text w e))
  | inr e ↦ and_both (ap not e) (All-free_of text ws h.1)
]

-- Code is accepted exactly if none of the listed words occurs anywhere in it.
sanitize_c_code_iff :
    (code : Bytes) → (sanitize_c_code code ≡ true) ↔ All (λ word. ¬ Occurs word code) dangerous
unfolding sanitize_c_code
sanitize_c_code_iff code = (free_of-All code dangerous, All-free_of code dangerous)
