-- ===== src/PathUtils/Segments/Split.antt =====
-- What `cweb_split_path_segments` finds, and that it takes apart what slashes join.
use cweb.Base.{
  ℕ, zero, suc, ◌≤◌, ◌<◌, ◌≡◌, ◌≢◌, ◌⊎◌, drop_all, refl, ap, ◌∙◌, inl, inr, List, [], ◌∷◌, ◌++◌,
  Option, none, some, arith, length, take, length-take, take_all, take-append, drop-append, All,
  Bytes, strchr, strchr-Lacks, strchr-append, Lacks, Option-cases, append-nil,
}
use cweb.PathUtils.Segments.{skip_slashes, segment_length, after_segment, split_path_segments}

-- A segment that fits its buffer: not empty, no slash, at most 255 bytes.
pub record IsSegment (s : Bytes) : Type 0 where
  pub not_empty : s ≢ []
  pub no_slash : Lacks b'/' s
  pub fits : length s < 256

-- /a/b/c
abbrev pub join_segments : List Bytes → Bytes
join_segments [] = []
join_segments (s ∷ ss) = b'/' ∷ (s ++ join_segments ss)

take_nonempty : (n : ℕ) (c : ℕ) (cs : Bytes) → 0 < n → take n (c ∷ cs) ≢ []
take_nonempty zero c cs h = absurd (omega arith)
take_nonempty (suc n) c cs h = λ e. cc

-- No byte before the first slash is one.
take-Lacks : (s : Bytes) (n c i : ℕ) → strchr s c ≡ some i → n ≤ i → Lacks c (take n s)
unfolding strchr
take-Lacks s zero c i e h = tt
take-Lacks [] (suc n) c i e h = tt
take-Lacks (x ∷ s) (suc n) c i e h = elim (Option-cases (strchr s c)) [
  | inl e' ↦ absurd (ground arith)
  | inr (j, e') ↦ (ground arith, take-Lacks s n c j e' (ground arith))
]

take-Lacks-none : (s : Bytes) (n c : ℕ) → strchr s c ≡ none → Lacks c (take n s)
unfolding strchr
take-Lacks-none s zero c e = tt
take-Lacks-none [] (suc n) c e = tt
take-Lacks-none (x ∷ s) (suc n) c e = (ground arith, take-Lacks-none s n c (ground arith))

skip_slashes_first : (p : Bytes) (c : ℕ) (cs : Bytes) → skip_slashes p ≡ c ∷ cs → c ≢ b'/'
unfolding skip_slashes
skip_slashes_first [] c cs e = cc
skip_slashes_first (x ∷ p) c cs e = ground (arith, skip_slashes_first p c cs)

strchr_first : (c d : ℕ) (cs : Bytes) (i : ℕ) → c ≢ d → strchr (c ∷ cs) d ≡ some i → 0 < i
unfolding strchr
strchr_first c d cs i h e = ground arith

segment_length_le :
    (p : Bytes) (i : ℕ) → (segment_length p (some i) ≤ i) × (segment_length p (some i) < 256)
unfolding segment_length
segment_length_le p i = ground arith

segment_length_pos : (p : Bytes) (i : ℕ) → 0 < i → 0 < segment_length p (some i)
unfolding segment_length
segment_length_pos p i h = ground arith

segment_length-none :
    (c : ℕ) (cs : Bytes) → (0 < segment_length (c ∷ cs) none) × (segment_length (c ∷ cs) none < 256)
unfolding segment_length
segment_length-none c cs = ground arith

split_step-IsSegment :
    (c : ℕ) (cs : Bytes) (next : Option ℕ)
    → c ≢ b'/'
    → strchr (c ∷ cs) b'/' ≡ next
    → IsSegment (take (segment_length (c ∷ cs) next) (c ∷ cs))
split_step-IsSegment c cs none h e = record {
  not_empty = take_nonempty (segment_length (c ∷ cs) none) c cs (segment_length-none c cs).0;
  no_slash = take-Lacks-none (c ∷ cs) _ b'/' e;
  fits =
      omega (arith, length-take (segment_length (c ∷ cs) none) (c ∷ cs), segment_length-none c cs);
}
split_step-IsSegment c cs (some i) h e = record {
  not_empty =
      take_nonempty (segment_length (c ∷ cs) (some i)) c cs
        (segment_length_pos (c ∷ cs) i (strchr_first c b'/' cs i h e));
  no_slash = take-Lacks (c ∷ cs) _ b'/' i e (segment_length_le (c ∷ cs) i).0;
  fits = omega (
    arith,
    length-take (segment_length (c ∷ cs) (some i)) (c ∷ cs),
    segment_length_le (c ∷ cs) i,
  );
}

skip_cases :
    (p : Bytes) → (skip_slashes p ≡ []) ⊎ ((c : ℕ) × (cs : Bytes) × (skip_slashes p ≡ c ∷ cs))
skip_cases p = cases (skip_slashes p) refl
  where
    cases :
        (q : Bytes)
        → skip_slashes p ≡ q
        → (skip_slashes p ≡ []) ⊎ ((c : ℕ) × (cs : Bytes) × (skip_slashes p ≡ c ∷ cs))
    cases [] e = inl e
    cases (c ∷ cs) e = inr (c, cs, e)

-- Whatever the path, there are at most `room` segments, and each is not empty, has no slash, and
-- fits with its NUL the 256 bytes that it is copied to.
split_path_segments_bounds :
    (room : ℕ) (p : Bytes)
    → All IsSegment (split_path_segments room p) × (length (split_path_segments room p) ≤ room)
unfolding split_path_segments
split_path_segments_bounds zero p = (tt, omega arith)
split_path_segments_bounds (suc room) p = elim (skip_cases p) [
  | inl e ↦ rw (e, split_path_segments) (tt, omega arith)
  | inr (c, cs, e) ↦
      let next = strchr (c ∷ cs) b'/' in
      let rest =
        split_path_segments_bounds room
          (after_segment (c ∷ cs) next (segment_length (c ∷ cs) next)) in
      rw (e, split_path_segments)
        (
          (split_step-IsSegment c cs next (skip_slashes_first p c cs e) refl, rest.0),
          omega (arith, rest.1),
        )
]

-- The round trip, one segment at a time.
skip_plain : (s rest : Bytes) → IsSegment s → skip_slashes (b'/' ∷ (s ++ rest)) ≡ s ++ rest
unfolding skip_slashes
skip_plain [] rest h = absurd (h.not_empty refl)
skip_plain (c ∷ cs) rest h = ground (arith, h.no_slash.0)

split_nonempty :
    (room : ℕ) (p q : Bytes) (next : Option ℕ)
    → skip_slashes p ≡ q
    → q ≢ []
    → strchr q b'/' ≡ next
    → split_path_segments (suc room) p
      ≡ take (segment_length q next) q
        ∷ split_path_segments room (after_segment q next (segment_length q next))
unfolding split_path_segments
split_nonempty room p [] next e h n = absurd (h refl)
split_nonempty room p (c ∷ cs) next e h n = rw (e, split_path_segments) (rw n)

split-nil : (room : ℕ) → split_path_segments room [] ≡ []
unfolding split_path_segments
split-nil zero = refl
split-nil (suc room) = refl

append_nonempty : (s rest : Bytes) → s ≢ [] → s ++ rest ≢ []
append_nonempty [] rest h = absurd (h refl)
append_nonempty (c ∷ cs) rest h = λ e. cc

segment_length_plain : (s : Bytes) → length s < 256 → segment_length s none ≡ length s
unfolding segment_length
segment_length_plain s h = ground arith

segment_length-some : (p : Bytes) (n : ℕ) → n < 256 → segment_length p (some n) ≡ n
unfolding segment_length
segment_length-some p n h = ground arith

split_last :
    (room : ℕ) (s : Bytes)
    → IsSegment s
    → split_path_segments (suc room) (b'/' ∷ (s ++ [])) ≡ s ∷ []
unfolding after_segment
split_last room s h =
    split_nonempty room _ s none (skip_plain s [] h ∙ append-nil s) h.not_empty
      (strchr-Lacks s b'/' h.no_slash)
    ∙ rw (
      segment_length_plain s h.fits,
      take_all (length s) s (omega arith),
      drop_all (length s) s (omega arith),
      split-nil,
    )

split_more :
    (room : ℕ) (s rest : Bytes)
    → IsSegment s
    → split_path_segments (suc room) (b'/' ∷ (s ++ (b'/' ∷ rest)))
      ≡ s ∷ split_path_segments room (b'/' ∷ rest)
unfolding after_segment
split_more room s rest h =
    split_nonempty room _ (s ++ (b'/' ∷ rest)) (some (length s)) (skip_plain s _ h)
      (append_nonempty s _ h.not_empty) (strchr-append s rest b'/' h.no_slash)
    ∙ rw (segment_length-some (s ++ (b'/' ∷ rest)) (length s) h.fits, take-append, drop-append)

-- Segments that are not empty, have no slash and at most 255 bytes each, joined with a slash in front of each, come apart
-- again, if there are at most `room` of them.
pub split-join_segments :
    (room : ℕ) (ss : List Bytes)
    → All IsSegment ss
    → length ss ≤ room
    → split_path_segments room (join_segments ss) ≡ ss
split-join_segments room [] h n = split-nil room
split-join_segments zero (s ∷ ss) h n = absurd (omega arith)
split-join_segments (suc room) (s ∷ []) h n = split_last room s h.0
split-join_segments (suc room) (s ∷ t ∷ ss) h n =
    split_more room s (t ++ join_segments ss) h.0
    ∙ ap (◌∷◌ s) (split-join_segments room (t ∷ ss) h.1 (omega arith))
