-- ===== src/FileCache/Store/Lookup.antt =====
-- The slot that a name is found in.
use cweb.Base.{
  ℕ, zero, suc, ◌+◌, ◌<◌, ◌≤◌, ◌≡◌, ◌≢◌, refl, ap, ◌∙◌, inl, inr, false, none, some, ◌==◌, if_true,
  if_false, Bool-cases, ==_iff, Bytes, bytes_eq, bytes_eq_iff, bytes_eq_refl, arith,
}
use cweb.FileCache.Store.{CachedFile, find_slot}

bytes_eq_ne : (a b : Bytes) → a ≢ b → bytes_eq a b ≡ false
bytes_eq_ne a b h = elim (Bool-cases (bytes_eq a b)) [
  | inl e ↦ absurd (h ((bytes_eq_iff a b).0 e))
  | inr e ↦ e
]

pub find_slot-first :
    (left k i : ℕ) (slots : ℕ → CachedFile) (name : Bytes)
    → k ≤ i
    → i < k + left
    → (slots i).filename ≡ name
    → ((j : ℕ) → j < i → (slots j).filename ≢ name)
    → find_slot slots name left k ≡ some i
unfolding find_slot
find_slot-first zero k i slots name l m e first = absurd (omega arith)
find_slot-first (suc left) k i slots name l m e first = elim (Bool-cases (k == i)) [
  | inl same ↦
      let k_is_i = (==_iff k i).0 same in
      if_true _ _ _
        (ap (λ s. bytes_eq s name) (ap (λ n. (slots n).filename) k_is_i ∙ e) ∙ bytes_eq_refl name)
      ∙ ap some k_is_i
  | inr differs ↦
      let below : k < i = ground arith in
      if_false _ _ _ (bytes_eq_ne (slots k).filename name (first k below))
      ∙ find_slot-first left (suc k) i slots name below (omega arith) e first
]

pub find_slot-none :
    (left k : ℕ) (slots : ℕ → CachedFile) (name : Bytes)
    → ((j : ℕ) → j < k + left → (slots j).filename ≢ name)
    → find_slot slots name left k ≡ none
unfolding find_slot
find_slot-none zero k slots name h = refl
find_slot-none (suc left) k slots name h =
    if_false _ _ _ (bytes_eq_ne (slots k).filename name (h k (omega arith)))
    ∙ find_slot-none left (suc k) slots name (λ j l. h j (omega arith))
