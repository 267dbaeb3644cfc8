-- ===== src/LeakTracker/Contents.antt =====
-- The table of leakdetect.c as a map from pointers to records.
use cweb.Base.{
  ℕ, ◌*◌, ◌%◌, ◌^◌, ◌≤◌, ◌<◌, ◌≡◌, inl, inr, refl, ap, sym, ◌∙◌, subst, Bool, true, false, List, [],
  ◌∷◌, ◌++◌, Option, none, some, ◌==◌, ==_iff, if◌then◌else◌, if_true, if_false, if_cases,
  Bool-cases, Option-cases, bump, bump-some, length, length-append, length-set, set, ltb, ltb→lt,
  lt→ltb, Bytes, arith,
}
use cweb.Logger.{dev}
use cweb.LeakTracker.{
  LeakRecord, Tracker, find_record_index, ensure_capacity, duplicate_name, push_record,
  rename_record, remove_record, track, untrack, leak_tracker_record,
}
use cweb.LeakTracker.Removal.{
  flip, lookup, IsDistinct, lookup_snoc, lookup_snoc_other, remove_record-lookup,
  remove_record-IsDistinct, length-remove_record,
}

-- No pointer has two records, and the records fit the array.
pub record IsTracker (t : Tracker) : Type 0 where
  pub distinct : IsDistinct t.records
  pub fits : length t.records ≤ t.capacity

-- A map that is changed at one pointer.
abbrev updated : ℕ → Option LeakRecord → ℕ → Option LeakRecord → Option LeakRecord
updated p new q old = if p == q then new else old

-- A table that holds what another holds, but at one pointer.
abbrev pub Updates : ℕ → Option LeakRecord → Tracker → Tracker → Type 0
Updates p new t t' =
    IsTracker t' × ((q : ℕ) → lookup q t'.records ≡ updated p new q (lookup q t.records))

find_none : (p : ℕ) (rs : List LeakRecord) → find_record_index p rs ≡ none → lookup p rs ≡ none
unfolding find_record_index
find_none p [] h = refl
find_none p (r ∷ rs) h = elim (Bool-cases (r.pointer == p)) [
  | inl e ↦ absurd (cc (sym h ∙ if_true _ _ _ e))
  | inr e ↦
      if_false _ _ _ e
      ∙ find_none p rs
          (bump_none (find_record_index p rs) (sym (if_false (r.pointer == p) _ _ e) ∙ h))
]
  where
    bump_none : (o : Option ℕ) → bump o ≡ none → o ≡ none
    bump_none none h = refl
    bump_none (some i) h = absurd (cc h)

IsDistinct-snoc :
    (rs : List LeakRecord) (r : LeakRecord)
    → IsDistinct rs
    → lookup r.pointer rs ≡ none
    → IsDistinct (rs ++ r ∷ [])
IsDistinct-snoc [] r h m = (refl, tt)
IsDistinct-snoc (x ∷ xs) r h m = elim (Bool-cases (x.pointer == r.pointer)) [
  | inl e ↦ absurd (cc (sym m ∙ if_true _ _ _ e))
  | inr e ↦ (
    lookup_snoc_other x.pointer xs r (ground arith) ∙ h.0,
    IsDistinct-snoc xs r h.1 (sym (if_false _ _ _ e) ∙ m),
  )
]

-- The new record of a pointer that had none.
snoc-lookup :
    (q : ℕ) (rs : List LeakRecord) (r : LeakRecord)
    → lookup r.pointer rs ≡ none
    → lookup q (rs ++ r ∷ []) ≡ updated r.pointer (some r) q (lookup q rs)
snoc-lookup q rs r m = elim (Bool-cases (r.pointer == q)) [
  | inl e ↦
      lookup_snoc q rs r (subst (λ k. lookup k rs ≡ none) ((==_iff r.pointer q).0 e) m)
      ∙ if_true _ _ _ e
      ∙ sym (if_true _ _ _ e)
  | inr e ↦ lookup_snoc_other q rs r e ∙ sym (if_false _ _ _ e)
]

rename-lookup :
    (q i : ℕ) (rs : List LeakRecord) (r : LeakRecord)
    → find_record_index r.pointer rs ≡ some i
    → lookup q (rename_record i r rs) ≡ updated r.pointer (some r) q (lookup q rs)
unfolding rename_record find_record_index
rename-lookup q i [] r h = absurd (cc h)
rename-lookup q i (x ∷ xs) r h = elim (Bool-cases (x.pointer == r.pointer)) [
  | inl e ↦
      let first : i ≡ 0 = cc (sym h ∙ if_true _ _ _ e) in
      subst (λ k. lookup q (set (x ∷ xs) k r) ≡ updated r.pointer (some r) q (lookup q (x ∷ xs)))
        (sym first)
        (elim (Bool-cases (r.pointer == q)) [
          | inl f ↦ if_true _ _ _ f ∙ sym (if_true _ _ _ f)
          | inr f ↦
              let other =
                subst (λ k. (k == q) ≡ false) (sym ((==_iff x.pointer r.pointer).0 e)) f in
              if_false _ _ _ f ∙ sym (if_false _ _ _ f ∙ if_false _ _ _ other)
        ])
  | inr e ↦
      let (j, later, next) =
        bump-some (find_record_index r.pointer xs) i
          (sym (if_false (x.pointer == r.pointer) _ _ e) ∙ h) in
      let rest = rename-lookup q j xs r later in
      subst (λ k. lookup q (set (x ∷ xs) k r) ≡ updated r.pointer (some r) q (lookup q (x ∷ xs)))
        (sym next)
        (elim (Bool-cases (x.pointer == q)) [
          | inl f ↦
              let other =
                subst (λ k. (r.pointer == k) ≡ false) ((==_iff x.pointer q).0 f)
                  (flip x.pointer r.pointer e) in
              if_true _ _ _ f ∙ sym (if_false _ _ _ other ∙ if_true _ _ _ f)
          | inr f ↦
              if_false _ _ _ f ∙ rest ∙ ap (updated r.pointer (some r) q) (sym (if_false _ _ _ f))
        ])
]

rename-IsDistinct :
    (i : ℕ) (rs : List LeakRecord) (r : LeakRecord)
    → find_record_index r.pointer rs ≡ some i
    → IsDistinct rs
    → IsDistinct (rename_record i r rs)
unfolding rename_record find_record_index
rename-IsDistinct i [] r found h = absurd (cc found)
rename-IsDistinct i (x ∷ xs) r found h = elim (Bool-cases (x.pointer == r.pointer)) [
  | inl e ↦
      let first : i ≡ 0 = cc (sym found ∙ if_true _ _ _ e) in
      subst (λ k. IsDistinct (set (x ∷ xs) k r)) (sym first)
        (subst (λ k. lookup k xs ≡ none) ((==_iff x.pointer r.pointer).0 e) h.0, h.1)
  | inr e ↦
      let (j, later, next) =
        bump-some (find_record_index r.pointer xs) i
          (sym (if_false (x.pointer == r.pointer) _ _ e) ∙ found) in
      let missing =
        rename-lookup x.pointer j xs r later ∙ if_false _ _ _ (flip x.pointer r.pointer e) ∙ h.0 in
      subst (λ k. IsDistinct (set (x ∷ xs) k r)) (sym next)
        (missing, rename-IsDistinct j xs r later h.1)
]

-- The array is made larger when it is full, so the record always fits.
grown_capacity : (c : ℕ) → c < 2 ^ 63 → c < (if c == 0 then 16 else (c * 2) % 2 ^ 64)
grown_capacity c h = ground arith

ensure_room :
    (t : Tracker)
    → IsTracker t
    → t.capacity < 2 ^ 63
    → ((ensure_capacity t).records ≡ t.records) × (length t.records < (ensure_capacity t).capacity)
unfolding ensure_capacity
ensure_room t h small =
    if_cases (λ (u : Tracker). (u.records ≡ t.records) × (length t.records < u.capacity))
      (ltb (length t.records) t.capacity) _ _ (λ e. (refl, ltb→lt _ _ e))
      (λ e. (refl, le_lt h.fits (grown_capacity t.capacity small)))
  where
    le_lt : {a b c : ℕ} → a ≤ b → b < c → a < c
    le_lt h k = omega arith

push_records :
    (r : LeakRecord) (t : Tracker)
    → IsTracker t
    → t.capacity < 2 ^ 63
    → ((push_record r t).records ≡ t.records ++ r ∷ [])
      × (length t.records < (push_record r t).capacity)
unfolding push_record
push_records r t h small =
    let u = ensure_capacity t in
    let (same, room) = ensure_room t h small in
    let there : ltb (length u.records) u.capacity ≡ true =
      lt→ltb _ _ (subst (λ rs. length rs < u.capacity) (sym same) room) in
    let placed = if_true {A = Tracker} _ (record u { records = u.records ++ r ∷ [] }) u there in
    (
      ap (λ v. v.records) placed ∙ ap (λ rs. rs ++ r ∷ []) same,
      subst (λ (v : Tracker). length t.records < v.capacity) (sym placed) room,
    )

-- Tracking a pointer.
track-Updates :
    (p : ℕ) (name : Option Bytes) (size : ℕ) (t : Tracker)
    → IsTracker t
    → t.capacity < 2 ^ 63
    → Updates p
        (some (record { pointer = p; name = duplicate_name name; size = size }))
        t
        (track p name size t)
unfolding track
track-Updates p name size t h small =
    let r : LeakRecord = record { pointer = p; name = duplicate_name name; size = size } in
    let run : Option ℕ → Tracker = λ o. elim o [
      | none ↦ push_record r t
      | some i ↦ record t { records = rename_record i r t.records }
    ] in
    elim (Option-cases (find_record_index p t.records)) [
      | inl e ↦
          let missing = find_none p t.records e in
          let (records, room) = push_records r t h small in
          subst (Updates p (some r) t) (sym (ap run e)) (
            record {
              distinct =
                  subst IsDistinct (sym records) (IsDistinct-snoc t.records r h.distinct missing);
              fits = omega (arith, ap length records, length-append t.records (r ∷ []));
            },
            λ q. ap (lookup q) records ∙ snoc-lookup q t.records r missing,
          )
      | inr (i, e) ↦ subst (Updates p (some r) t) (sym (ap run e)) (
        record {
          distinct = rename-IsDistinct i t.records r e h.distinct;
          fits = omega (arith, length-rename i r t.records, h.fits);
        },
        λ q. rename-lookup q i t.records r e,
      )
    ]
  where
    length-rename :
        (i : ℕ) (r : LeakRecord) (rs : List LeakRecord) → length (rename_record i r rs) ≡ length rs
    length-rename i r rs = length-set rs i r

untrack-Updates : (p : ℕ) (t : Tracker) → IsTracker t → Updates p none t (untrack p t)
unfolding untrack
untrack-Updates p t h =
    let run : Option ℕ → Tracker =
      λ o. elim o [ none ↦ t | some i ↦ record t { records = remove_record i t.records } ] in
    elim (Option-cases (find_record_index p t.records)) [
      | inl e ↦
          subst (Updates p none t) (sym (ap run e))
            (h, λ q. nothing_there q (find_none p t.records e))
      | inr (i, e) ↦ subst (Updates p none t) (sym (ap run e)) (
        record {
          distinct = remove_record-IsDistinct p i t.records e h.distinct;
          fits = omega (arith, length-remove_record p i t.records e, h.fits);
        },
        λ q. remove_record-lookup p q i t.records e h.distinct,
      )
    ]
  where
    nothing_there :
        (q : ℕ)
        → lookup p t.records ≡ none
        → lookup q t.records ≡ updated p none q (lookup q t.records)
    nothing_there q m = elim (Bool-cases (p == q)) [
      | inl e ↦ subst (λ k. lookup k t.records ≡ none) ((==_iff p q).0 e) m ∙ sym (if_true _ _ _ e)
      | inr e ↦ sym (if_false _ _ _ e)
    ]

-- What a call makes of the pointer's record.
abbrev pub tracked : ℕ → Option Bytes → ℕ → Bool → Option LeakRecord
tracked p name size false = none
tracked p name size true = some (record { pointer = p; name = duplicate_name name; size = size })

-- In development mode the table is a map from pointers to records: a call for an allocation sets the record
-- of its pointer, a call for a free removes it, whatever place it had in the array, and no other pointer's
-- record changes. No pointer gets a second record, and the array is always large enough. The pointer is
-- not NULL, and the array has fewer than 2^63 entries.
pub leak_tracker_record-Updates :
    (name : Option Bytes) (p size : ℕ) (is_allocation : Bool) (t : Tracker)
    → (p == 0) ≡ false
    → IsTracker t
    → t.capacity < 2 ^ 63
    → Updates p
        (tracked p name size is_allocation)
        t
        (leak_tracker_record dev name p size is_allocation t)
unfolding leak_tracker_record
leak_tracker_record-Updates name p size true t n h small =
    let u : Tracker = record t { exit_handler_registered = true } in
    subst (Updates p (tracked p name size true) t) (sym (if_false {A = Tracker} (p == 0) _ _ n))
      (track-Updates p name size u (record { distinct = h.distinct; fits = h.fits }) small)
leak_tracker_record-Updates name p size false t n h small =
    let u : Tracker = record t { exit_handler_registered = true } in
    subst (Updates p none t) (sym (if_false {A = Tracker} (p == 0) _ _ n))
      (untrack-Updates p u (record { distinct = h.distinct; fits = h.fits }))
