-- ===== src/Compress/Encoding/Quality.antt =====
-- Which encoding is chosen from an Accept-Encoding header.
use cweb.Base.{
  ◌≡◌, ◌≢◌, ◌⊎◌, refl, ap, sym, ◌∙◌, inl, inr, true, false, List, [], ◌∷◌, ◌++◌, some, Bool-cases,
  All, length, Bytes, codes, arith,
}
use cweb.Compress.Asset.{starts_with_ci}
use cweb.Compress.Encoding.{
  Doubles, CompressionType, extract_q, Qualities, read_item, choose, pick_compression,
  encoding_name,
}
use cweb.Compress.Encoding.Items.{list_items, read_all, read_items-eq-read_all}

-- The last item that begins with a name.
pub record IsLast (name : Bytes) (items : List Bytes) (item : Bytes) : Type 0 where
  pub earlier : List Bytes
  pub later : List Bytes
  pub splits : items ≡ earlier ++ item ∷ later
  pub named : starts_with_ci item name ≡ true
  pub none_later : All (λ i. starts_with_ci i name ≡ false) later

IsLast-after :
    (name : Bytes) (i : Bytes) (items : List Bytes) (item : Bytes)
    → IsLast name items item
    → IsLast name (i ∷ items) item
IsLast-after name i items item l = record {
  earlier = i ∷ l.earlier;
  later = l.later;
  splits = ap (◌∷◌ i) l.splits;
  named = l.named;
  none_later = l.none_later;
}

-- No item begins with both names.
br_no_gzip :
    (item : Bytes)
    → starts_with_ci item (codes "br") ≡ true
    → starts_with_ci item (codes "gzip") ≡ false
unfolding starts_with_ci
br_no_gzip [] e = refl
br_no_gzip (c ∷ cs) e = ground arith

module _ (d : Doubles) where
  open d use {Double, lt, q_zero, q_minus_one}

  -- What the items leave of a quality: it stays if none begins with the name, and is that of the last one that does.
  Kept : Bytes → List Bytes → Double → Double → Type 0
  Kept name items q q' =
      (All (λ i. starts_with_ci i name ≡ false) items × (q' ≡ q))
      ⊎ ((item : Bytes) × IsLast name items item × (q' ≡ extract_q d item))

  Kept-after :
      (name i : Bytes) (items : List Bytes) (q r q' : Double)
      → ((starts_with_ci i name ≡ false) × (r ≡ q))
        ⊎ ((starts_with_ci i name ≡ true) × (r ≡ extract_q d i))
      → Kept name items r q'
      → Kept name (i ∷ items) q q'
  unfolding Kept
  Kept-after name i items q r q' step (inr (item, l, e)) =
      inr (item, IsLast-after name i items item l, e)
  Kept-after name i items q r q' (inl (other, same)) (inl (unnamed, e)) =
      inl ((other, unnamed), e ∙ same)
  Kept-after name i items q r q' (inr (named, same)) (inl (unnamed, e)) = inr (
    i,
    record { earlier = []; later = items; splits = refl; named = named; none_later = unnamed },
    e ∙ same,
  )

  br_step :
      (i : Bytes) (q : Qualities d)
      → ((starts_with_ci i (codes "br") ≡ false) × ((read_item d i q).q_br ≡ q.q_br))
        ⊎ ((starts_with_ci i (codes "br") ≡ true) × ((read_item d i q).q_br ≡ extract_q d i))
  unfolding read_item
  br_step i q = elim (Bool-cases (starts_with_ci i (codes "br"))) [
    | inl e ↦ inr (e, cc e)
    | inr e ↦ elim (Bool-cases (starts_with_ci i (codes "gzip"))) [
      | inl g ↦ inl (e, cc (e, g))
      | inr g ↦ inl (e, cc (e, g))
    ]
  ]

  gzip_step :
      (i : Bytes) (q : Qualities d)
      → ((starts_with_ci i (codes "gzip") ≡ false) × ((read_item d i q).q_gz ≡ q.q_gz))
        ⊎ ((starts_with_ci i (codes "gzip") ≡ true) × ((read_item d i q).q_gz ≡ extract_q d i))
  unfolding read_item
  gzip_step i q = elim (Bool-cases (starts_with_ci i (codes "br"))) [
    | inl e ↦ inl (br_no_gzip i e, cc e)
    | inr e ↦ elim (Bool-cases (starts_with_ci i (codes "gzip"))) [
      | inl g ↦ inr (g, cc (e, g))
      | inr g ↦ inl (g, cc (e, g))
    ]
  ]

  br_Kept :
      (items : List Bytes) (q : Qualities d)
      → Kept (codes "br") items q.q_br (read_all d items q).q_br
  unfolding Kept read_all
  br_Kept [] q = inl (tt, refl)
  br_Kept (i ∷ items) q =
      Kept-after (codes "br") i items q.q_br (read_item d i q).q_br
        (read_all d items (read_item d i q)).q_br (br_step i q) (br_Kept items (read_item d i q))

  gzip_Kept :
      (items : List Bytes) (q : Qualities d)
      → Kept (codes "gzip") items q.q_gz (read_all d items q).q_gz
  unfolding Kept read_all
  gzip_Kept [] q = inl (tt, refl)
  gzip_Kept (i ∷ items) q =
      Kept-after (codes "gzip") i items q.q_gz (read_item d i q).q_gz
        (read_all d items (read_item d i q)).q_gz (gzip_step i q)
        (gzip_Kept items (read_item d i q))

  choose_br : (q : Qualities d) → choose d q ≡ CompressionType.comp_br → lt q_zero q.q_br ≡ true
  unfolding choose
  choose_br q e = ground arith

  choose_gzip : (q : Qualities d) → choose d q ≡ CompressionType.comp_gzip → lt q_zero q.q_gz ≡ true
  unfolding choose
  choose_gzip q e = ground arith

  abbrev start : Qualities d
  start = record { q_br = q_minus_one; q_gz = q_minus_one }

  chosen_from :
      (accept : Bytes)
      → pick_compression d (some accept) ≡ choose d (read_all d (list_items accept) start)
  unfolding pick_compression
  chosen_from accept =
      ap (choose d) (read_items-eq-read_all d (length accept) accept start (omega arith))

  from_item :
      (name : Bytes) (items : List Bytes) (q : Double)
      → lt q_zero q_minus_one ≡ false
      → lt q_zero q ≡ true
      → Kept name items q_minus_one q
      → (item : Bytes) × IsLast name items item × (lt q_zero (extract_q d item) ≡ true)
  unfolding Kept
  from_item name items q neg above (inl (unnamed, e)) =
      absurd (cc (sym neg ∙ ap (lt q_zero) (sym e) ∙ above))
  from_item name items q neg above (inr (item, l, e)) = (item, l, ap (lt q_zero) (sym e) ∙ above)

  -- Where -1 is not above 0, an encoding is chosen only if the last item of the header that begins with its name has a
  -- quality above 0. The items are what stands between the commas of the header, the blank ones left out, without the
  -- blanks in front, cut off at 159 bytes and then without the blanks behind.
  pub pick_compression_listed :
      (accept : Bytes) (chosen : CompressionType)
      → lt q_zero q_minus_one ≡ false
      → pick_compression d (some accept) ≡ chosen
      → chosen ≢ CompressionType.comp_none
      → (item : Bytes) × IsLast (encoding_name chosen) (list_items accept) item
        × (lt q_zero (extract_q d item) ≡ true)
  unfolding encoding_name
  pick_compression_listed accept CompressionType.comp_none neg e some_one = absurd (some_one refl)
  pick_compression_listed accept CompressionType.comp_br neg e some_one =
      let q = read_all d (list_items accept) start in
      from_item (codes "br") (list_items accept) q.q_br neg
        (choose_br q (sym (chosen_from accept) ∙ e)) (br_Kept (list_items accept) start)
  pick_compression_listed accept CompressionType.comp_gzip neg e some_one =
      let q = read_all d (list_items accept) start in
      from_item (codes "gzip") (list_items accept) q.q_gz neg
        (choose_gzip q (sym (chosen_from accept) ∙ e)) (gzip_Kept (list_items accept) start)
