-- ===== src/LeakTracker/Removal.antt =====
-- What the table of leakdetect.c holds after its last record is moved into a gap.
use cweb.Base.{
  ℕ, zero, suc, ◌-◌, ◌≤◌, ◌<◌, ◌≡◌, inl, inr, refl, ap, sym, ◌∙◌, subst, true, false, List, [], ◌∷◌,
  ◌++◌, Option, none, some, ◌==◌, ==_iff, if◌then◌else◌, if_true, if_false, if_cases, Bool-cases,
  bump, bump-some, length, length-append, length-set, get_elem?, set, take, take-append, arith,
}
use cweb.LeakTracker.{LeakRecord, find_record_index, remove_record}

-- The record of a pointer.
abbrev pub lookup : ℕ → List LeakRecord → Option LeakRecord
lookup p [] = none
lookup p (r ∷ rs) = if r.pointer == p then some r else lookup p rs

-- No pointer has two records.
abbrev pub IsDistinct : List LeakRecord → Type 0
IsDistinct [] = Unit
IsDistinct (r ∷ rs) = (lookup r.pointer rs ≡ none) × IsDistinct rs

-- The same table without one pointer.
abbrev pub without : ℕ → ℕ → Option LeakRecord → Option LeakRecord
without p q o = if p == q then none else o

pub lookup_snoc :
    (q : ℕ) (xs : List LeakRecord) (l : LeakRecord)
    → lookup q xs ≡ none
    → lookup q (xs ++ l ∷ []) ≡ (if l.pointer == q then some l else none)
lookup_snoc q [] l h = refl
lookup_snoc q (x ∷ xs) l h = elim (Bool-cases (x.pointer == q)) [
  | inl e ↦ absurd (cc (sym h ∙ if_true _ _ _ e))
  | inr e ↦ if_false _ _ _ e ∙ lookup_snoc q xs l (sym (if_false _ _ _ e) ∙ h)
]

-- A pointer that the longer table lacks is missing in the shorter one, and is not the last.
lookup_snoc_none :
    (q : ℕ) (xs : List LeakRecord) (l : LeakRecord)
    → lookup q (xs ++ l ∷ []) ≡ none
    → (lookup q xs ≡ none) × ((l.pointer == q) ≡ false)
lookup_snoc_none q [] l h = elim (Bool-cases (l.pointer == q)) [
  | inl e ↦ absurd (cc (sym h ∙ if_true _ _ _ e))
  | inr e ↦ (refl, e)
]
lookup_snoc_none q (x ∷ xs) l h = elim (Bool-cases (x.pointer == q)) [
  | inl e ↦ absurd (cc (sym h ∙ if_true _ _ _ e))
  | inr e ↦
      let (missing, other) = lookup_snoc_none q xs l (sym (if_false _ _ _ e) ∙ h) in
      (if_false _ _ _ e ∙ missing, other)
]

IsDistinct-init :
    (xs : List LeakRecord) (l : LeakRecord) → IsDistinct (xs ++ l ∷ []) → IsDistinct xs
IsDistinct-init [] l h = tt
IsDistinct-init (x ∷ xs) l h = ((lookup_snoc_none x.pointer xs l h.0).0, IsDistinct-init xs l h.1)

last_missing :
    (xs : List LeakRecord) (l : LeakRecord) → IsDistinct (xs ++ l ∷ []) → lookup l.pointer xs ≡ none
last_missing [] l h = refl
last_missing (x ∷ xs) l h =
    let other = (lookup_snoc_none x.pointer xs l h.0).1 in
    if_false (x.pointer == l.pointer) _ _ (ground arith) ∙ last_missing xs l h.1

pub lookup_snoc_other :
    (q : ℕ) (xs : List LeakRecord) (l : LeakRecord)
    → (l.pointer == q) ≡ false
    → lookup q (xs ++ l ∷ []) ≡ lookup q xs
lookup_snoc_other q [] l h = if_false _ _ _ h
lookup_snoc_other q (x ∷ xs) l h =
    ap (λ o. if x.pointer == q then some x else o) (lookup_snoc_other q xs l h)

-- The first record of the pointer is overwritten by the last.
lookup_first :
    (p q : ℕ) (x l : LeakRecord) (xs : List LeakRecord)
    → x.pointer ≡ p
    → IsDistinct (x ∷ xs ++ l ∷ [])
    → lookup q (l ∷ xs) ≡ without p q (lookup q (x ∷ xs ++ l ∷ []))
lookup_first p q x l xs here h = elim (Bool-cases (p == q)) [
  | inl e ↦
      let same : x.pointer ≡ q = here ∙ (==_iff p q).0 e in
      let (missing, other) =
        lookup_snoc_none q xs l (subst (λ k. lookup k (xs ++ l ∷ []) ≡ none) same h.0) in
      if_false _ _ _ other ∙ missing ∙ sym (if_true _ _ _ e)
  | inr e ↦
      let not_here =
        if_false (x.pointer == q) (some x) (lookup q (xs ++ l ∷ []))
          (subst (λ k. (k == q) ≡ false) (sym here) e) in
      elim (Bool-cases (l.pointer == q)) [
        | inl f ↦
            let missing =
              subst (λ k. lookup k xs ≡ none) ((==_iff l.pointer q).0 f) (last_missing xs l h.1) in
            if_true _ _ _ f
            ∙ sym (if_false _ _ _ e ∙ not_here ∙ lookup_snoc q xs l missing ∙ if_true _ _ _ f)
        | inr f ↦ if_false _ _ _ f ∙ sym (if_false _ _ _ e ∙ not_here ∙ lookup_snoc_other q xs l f)
      ]
]

pub flip : (a b : ℕ) → (a == b) ≡ false → (b == a) ≡ false
flip a b h = ground arith

lookup-set :
    (p q i : ℕ) (xs : List LeakRecord) (l : LeakRecord)
    → find_record_index p xs ≡ some i
    → IsDistinct (xs ++ l ∷ [])
    → lookup q (set xs i l) ≡ without p q (lookup q (xs ++ l ∷ []))
unfolding find_record_index
lookup-set p q i [] l found h = absurd (cc found)
lookup-set p q i (x ∷ xs) l found h = elim (Bool-cases (x.pointer == p)) [
  | inl e ↦
      let first : i ≡ 0 = cc (sym found ∙ if_true _ _ _ e) in
      subst (λ k. lookup q (set (x ∷ xs) k l) ≡ without p q (lookup q (x ∷ xs ++ l ∷ [])))
        (sym first) (lookup_first p q x l xs ((==_iff x.pointer p).0 e) h)
  | inr e ↦
      let (j, later, next) =
        bump-some (find_record_index p xs) i (sym (if_false (x.pointer == p) _ _ e) ∙ found) in
      let rest = lookup-set p q j xs l later h.1 in
      subst (λ k. lookup q (set (x ∷ xs) k l) ≡ without p q (lookup q (x ∷ xs ++ l ∷ [])))
        (sym next)
        (elim (Bool-cases (x.pointer == q)) [
          | inl f ↦
              let other =
                subst (λ k. (p == k) ≡ false) ((==_iff x.pointer q).0 f) (flip x.pointer p e) in
              if_true _ _ _ f ∙ sym (if_false _ _ _ other ∙ if_true _ _ _ f)
          | inr f ↦ if_false _ _ _ f ∙ rest ∙ ap (without p q) (sym (if_false _ _ _ f))
        ])
]

snoc_view :
    (x : LeakRecord) (xs : List LeakRecord)
    → (ys : List LeakRecord) × (l : LeakRecord) × (x ∷ xs ≡ ys ++ l ∷ [])
snoc_view x [] = ([], x, refl)
snoc_view x (y ∷ ys) = let (zs, l, e) = snoc_view y ys in (x ∷ zs, l, ap (◌∷◌ x) e)

get_last : (xs : List LeakRecord) (l : LeakRecord) → get_elem? (xs ++ l ∷ []) (length xs) ≡ some l
get_last [] l = refl
get_last (x ∷ xs) l = get_last xs l

set-append :
    (xs : List LeakRecord) (i : ℕ) (l m : LeakRecord)
    → i < length xs
    → set (xs ++ m ∷ []) i l ≡ set xs i l ++ m ∷ []
set-append [] i l m h = absurd (omega arith)
set-append (x ∷ xs) zero l m h = refl
set-append (x ∷ xs) (suc i) l m h = ap (◌∷◌ x) (set-append xs i l m (omega arith))

last_index : (xs : List LeakRecord) (l : LeakRecord) → length (xs ++ l ∷ []) - 1 ≡ length xs
last_index xs l = omega (arith, length-append xs (l ∷ []))

-- The table after a removal, cut into the records before the last one and the last.
remove_record-snoc :
    (i : ℕ) (xs : List LeakRecord) (l : LeakRecord)
    → i ≤ length xs
    → remove_record i (xs ++ l ∷ []) ≡ (if i == length xs then xs else set xs i l)
unfolding remove_record
remove_record-snoc i xs l h =
    let rs = xs ++ l ∷ [] in
    let moved : ℕ → Option LeakRecord → List LeakRecord =
      λ last o. elim o [ none ↦ rs | some r ↦ if i == last then rs else set rs i r ] in
    ap (λ n. take n (moved n (get_elem? rs n))) (last_index xs l)
    ∙ ap (λ o. take (length xs) (moved (length xs) o)) (get_last xs l)
    ∙ elim (Bool-cases (i == length xs)) [
      | inl e ↦
          ap (take (length xs)) (if_true _ _ _ e) ∙ take-append xs (l ∷ []) ∙ sym (if_true _ _ _ e)
      | inr e ↦
          ap (take (length xs)) (if_false _ _ _ e ∙ set-append xs i l l (ground arith))
          ∙ ap (λ n. take n (set xs i l ++ l ∷ [])) (sym (length-set xs i l))
          ∙ take-append (set xs i l) (l ∷ [])
          ∙ sym (if_false _ _ _ e)
    ]

-- Where the pointer's record is the last, and where it stands before it.
find_last :
    (p i : ℕ) (xs : List LeakRecord) (l : LeakRecord)
    → find_record_index p (xs ++ l ∷ []) ≡ some i
    → (i ≤ length xs)
      × ((i == length xs) ≡ true → (lookup p xs ≡ none) × (l.pointer ≡ p))
      × ((i == length xs) ≡ false → find_record_index p xs ≡ some i)
unfolding find_record_index
find_last p i [] l h = elim (Bool-cases (l.pointer == p)) [
  | inl e ↦
      let here : i ≡ 0 = cc (sym h ∙ if_true _ _ _ e) in
      (omega arith, λ z. (refl, (==_iff l.pointer p).0 e), λ n. absurd (ground arith))
  | inr e ↦ absurd (cc (sym h ∙ if_false _ _ _ e))
]
find_last p i (x ∷ xs) l h = elim (Bool-cases (x.pointer == p)) [
  | inl e ↦
      let here : i ≡ 0 = cc (sym h ∙ if_true _ _ _ e) in
      (omega arith, λ z. absurd (ground arith), λ n. if_true _ _ _ e ∙ ap some (sym here))
  | inr e ↦
      let (j, later, next) =
        bump-some (find_record_index p (xs ++ l ∷ [])) i
          (sym (if_false (x.pointer == p) _ _ e) ∙ h) in
      let (bound, at_end, before) = find_last p j xs l later in
      (
        omega arith,
        (λ z. let (missing, same) = at_end (ground arith) in (if_false _ _ _ e ∙ missing, same)),
        λ n. if_false _ _ _ e ∙ ap bump (before (ground arith)) ∙ ap some (sym next),
      )
]

last_removed :
    (p q : ℕ) (xs : List LeakRecord) (l : LeakRecord)
    → lookup p xs ≡ none
    → l.pointer ≡ p
    → lookup q xs ≡ without p q (lookup q (xs ++ l ∷ []))
last_removed p q xs l missing same = elim (Bool-cases (p == q)) [
  | inl e ↦ subst (λ k. lookup k xs ≡ none) ((==_iff p q).0 e) missing ∙ sym (if_true _ _ _ e)
  | inr e ↦
      let other = subst (λ k. (k == q) ≡ false) (sym same) e in
      sym (if_false _ _ _ e ∙ lookup_snoc_other q xs l other)
]

-- With the pointer's record removed, a lookup finds what it found before, and nothing for the pointer.
pub remove_record-lookup :
    (p q i : ℕ) (rs : List LeakRecord)
    → find_record_index p rs ≡ some i
    → IsDistinct rs
    → lookup q (remove_record i rs) ≡ without p q (lookup q rs)
unfolding find_record_index
remove_record-lookup p q i [] found h = absurd (cc found)
remove_record-lookup p q i (x ∷ xs) found h =
    let (ys, l, e) = snoc_view x xs in
    let (bound, at_end, before) = find_last p i ys l (ap (find_record_index p) (sym e) ∙ found) in
    let distinct = subst IsDistinct e h in
    ap (λ rs. lookup q (remove_record i rs)) e
    ∙ ap (lookup q) (remove_record-snoc i ys l bound)
    ∙ if_cases (λ rs. lookup q rs ≡ without p q (lookup q (ys ++ l ∷ []))) (i == length ys) _ _
        (λ z. let (missing, same) = at_end z in last_removed p q ys l missing same)
        (λ z. lookup-set p q i ys l (before z) distinct)
    ∙ ap (λ rs. without p q (lookup q rs)) (sym e)

set-IsDistinct :
    (p i : ℕ) (xs : List LeakRecord) (l : LeakRecord)
    → find_record_index p xs ≡ some i
    → IsDistinct (xs ++ l ∷ [])
    → IsDistinct (set xs i l)
unfolding find_record_index
set-IsDistinct p i [] l found h = tt
set-IsDistinct p i (x ∷ xs) l found h = elim (Bool-cases (x.pointer == p)) [
  | inl e ↦
      let first : i ≡ 0 = cc (sym found ∙ if_true _ _ _ e) in
      subst (λ k. IsDistinct (set (x ∷ xs) k l)) (sym first)
        (last_missing xs l h.1, IsDistinct-init xs l h.1)
  | inr e ↦
      let (j, later, next) =
        bump-some (find_record_index p xs) i (sym (if_false (x.pointer == p) _ _ e) ∙ found) in
      let missing =
        lookup-set p x.pointer j xs l later h.1
        ∙ ap (without p x.pointer) h.0
        ∙ without-none p x.pointer in
      subst (λ k. IsDistinct (set (x ∷ xs) k l)) (sym next)
        (missing, set-IsDistinct p j xs l later h.1)
]
  where
    without-none : (p q : ℕ) → without p q none ≡ none
    without-none p q = ground arith

pub remove_record-IsDistinct :
    (p i : ℕ) (rs : List LeakRecord)
    → find_record_index p rs ≡ some i
    → IsDistinct rs
    → IsDistinct (remove_record i rs)
unfolding find_record_index
remove_record-IsDistinct p i [] found h = absurd (cc found)
remove_record-IsDistinct p i (x ∷ xs) found h =
    let (ys, l, e) = snoc_view x xs in
    let (bound, at_end, before) = find_last p i ys l (ap (find_record_index p) (sym e) ∙ found) in
    let distinct = subst IsDistinct e h in
    subst IsDistinct (sym (ap (remove_record i) e ∙ remove_record-snoc i ys l bound)) (
      if_cases IsDistinct (i == length ys) _ _ (λ z. IsDistinct-init ys l distinct)
        (λ z. set-IsDistinct p i ys l (before z) distinct))

pub length-remove_record :
    (p i : ℕ) (rs : List LeakRecord)
    → find_record_index p rs ≡ some i
    → suc (length (remove_record i rs)) ≡ length rs
unfolding find_record_index
length-remove_record p i [] found = absurd (cc found)
length-remove_record p i (x ∷ xs) found =
    let (ys, l, e) = snoc_view x xs in
    let (bound, at_end, before) = find_last p i ys l (ap (find_record_index p) (sym e) ∙ found) in
    ap (λ rs. suc (length rs)) (ap (remove_record i) e ∙ remove_record-snoc i ys l bound)
    ∙ if_cases (λ rs. suc (length rs) ≡ length (x ∷ xs)) (i == length ys) ys (set ys i l)
        (λ z. omega (arith, ap length e, length-append ys (l ∷ [])))
        (λ z. omega (arith, ap length e, length-append ys (l ∷ []), length-set ys i l))
