-- ===== src/Compress/Encoding/Items.antt =====
-- The items of an Accept-Encoding header, as the loop of `cweb_pick_compression` reads them.
use cweb.Base.{
  ℕ, zero, suc, ◌≤◌, ◌≡◌, refl, ap, ap₂, subst, sym, ◌∙◌, inl, inr, Bool, true, false, ◌||◌, List,
  [], ◌∷◌, map, ◌==◌, if◌then◌else◌, if_true, if_false, if_cases, Bool-cases, length, length-drop,
  drop, Bytes, pieces, nonempty, arith,
}
use cweb.Compress.Encoding.{
  Doubles, skip_separators, until_comma, item_of, Qualities, read_item, read_items,
}

-- A piece without the blanks at its front.
unfoldable without_blanks : Bytes → Bytes
without_blanks [] = []
without_blanks (c ∷ cs) = let rest = without_blanks cs in if c == 32 || c == 9 then rest else c ∷ cs

abbrev is_comma : ℕ → Bool
is_comma c = c == b','

-- Pieces without their blanks, those left out of which nothing is left.
abbrev bare : List Bytes → List Bytes
bare ps = nonempty (map without_blanks ps)

-- What stands between commas, without the blanks at its front.
unfoldable list_pieces : Bytes → List Bytes
unfolding without_blanks
list_pieces s = let (first, others) = pieces is_comma s in bare (first ∷ others)

-- The items of a header: its pieces between commas that are not blank, each cut off at 159 bytes and trimmed.
unfoldable pub list_items : Bytes → List Bytes
unfolding list_pieces item_of
list_items accept = map item_of (list_pieces accept)

abbrev split_here : Bytes → Bytes × List Bytes
split_here cs = ([], (pieces is_comma cs).0 ∷ (pieces is_comma cs).1)

abbrev split_later : ℕ → Bytes → Bytes × List Bytes
split_later c cs = (c ∷ (pieces is_comma cs).0, (pieces is_comma cs).1)

list_pieces-comma :
    (c : ℕ) (cs : Bytes) → (c == b',') ≡ true → list_pieces (c ∷ cs) ≡ list_pieces cs
unfolding list_pieces
list_pieces-comma c cs e =
    ap (λ (r : Bytes × List Bytes). bare (r.0 ∷ r.1))
      (if_true (c == b',') (split_here cs) (split_later c cs) e)

list_pieces-other :
    (c : ℕ) (cs : Bytes)
    → (c == b',') ≡ false
    → list_pieces (c ∷ cs) ≡ bare ((c ∷ (pieces is_comma cs).0) ∷ (pieces is_comma cs).1)
unfolding list_pieces
list_pieces-other c cs e =
    ap (λ (r : Bytes × List Bytes). bare (r.0 ∷ r.1))
      (if_false (c == b',') (split_here cs) (split_later c cs) e)

abbrev is_blank : ℕ → Bool
is_blank c = c == 32 || c == 9

list_pieces-separator :
    (c : ℕ) (cs : Bytes)
    → (c == 32 || c == 9 || c == b',') ≡ true
    → list_pieces (c ∷ cs) ≡ list_pieces cs
unfolding list_pieces without_blanks
list_pieces-separator c cs e = elim (Bool-cases (c == b',')) [
  | inl comma ↦ list_pieces-comma c cs comma
  | inr other ↦
      let blank : is_blank c ≡ true = ground arith in
      let (first, others) = pieces is_comma cs in
      list_pieces-other c cs other
      ∙ ap (λ s. nonempty (s ∷ map without_blanks others))
          (if_true (is_blank c) (without_blanks first) (c ∷ first) blank)
]

list_pieces-skip_separators : (p : Bytes) → list_pieces (skip_separators p) ≡ list_pieces p
unfolding skip_separators
list_pieces-skip_separators [] = refl
list_pieces-skip_separators (c ∷ cs) =
    if_cases (λ s. list_pieces s ≡ list_pieces (c ∷ cs)) (c == 32 || c == 9 || c == b',')
      (skip_separators cs) (c ∷ cs)
      (λ e. list_pieces-skip_separators cs ∙ sym (list_pieces-separator c cs e)) (λ _. refl)

-- The first piece ends where the comma is, and the others are those behind it.
first_piece : (s : Bytes) → (pieces is_comma s).0 ≡ until_comma s
unfolding until_comma
first_piece [] = refl
first_piece (c ∷ cs) = elim (Bool-cases (c == b',')) [
  | inl e ↦ cc e
  | inr e ↦ cc (e, first_piece cs)
]

other_pieces :
    (s : Bytes) → bare (pieces is_comma s).1 ≡ list_pieces (drop (suc (length (until_comma s))) s)
unfolding until_comma list_pieces
other_pieces [] = refl
other_pieces (c ∷ cs) = elim (Bool-cases (c == b',')) [
  | inl e ↦
      ap (λ (r : Bytes × List Bytes). bare r.1)
        (if_true (c == b',') (split_here cs) (split_later c cs) e)
      ∙ sym (
          ap (λ (u : Bytes). list_pieces (drop (length u) cs))
            (if_true (c == b',') [] (c ∷ until_comma cs) e))
  | inr e ↦
      ap (λ (r : Bytes × List Bytes). bare r.1)
        (if_false (c == b',') (split_here cs) (split_later c cs) e)
      ∙ other_pieces cs
      ∙ sym (
          ap (λ (u : Bytes). list_pieces (drop (length u) cs))
            (if_false (c == b',') [] (c ∷ until_comma cs) e))
]

-- From a byte that is no separator on, the first piece goes to the comma.
list_pieces-item :
    (c : ℕ) (cs : Bytes)
    → (c == 32 || c == 9 || c == b',') ≡ false
    → let item = until_comma (c ∷ cs) in
      list_pieces (c ∷ cs) ≡ item ∷ list_pieces (drop (suc (length item)) (c ∷ cs))
unfolding list_pieces without_blanks until_comma
list_pieces-item c cs e =
    let other : (c == b',') ≡ false = ground arith in
    let dark : is_blank c ≡ false = ground arith in
    let item = until_comma (c ∷ cs) in
    let whole : item ≡ c ∷ until_comma cs = if_false (c == b',') [] (c ∷ until_comma cs) other in
    ap (λ (s : Bytes). bare (s ∷ (pieces is_comma (c ∷ cs)).1)) (first_piece (c ∷ cs) ∙ whole)
    ∙ ap (λ (s : Bytes). nonempty (s ∷ map without_blanks (pieces is_comma (c ∷ cs)).1))
        (if_false (is_blank c) (without_blanks (until_comma cs)) (c ∷ until_comma cs) dark)
    ∙ ap₂ (λ (s : Bytes) (l : List Bytes). s ∷ l) (sym whole) (other_pieces (c ∷ cs))

skip_separators_le : (p : Bytes) → length (skip_separators p) ≤ length p
unfolding skip_separators
skip_separators_le [] = omega arith
skip_separators_le (c ∷ cs) =
    let h = skip_separators_le cs in
    if_cases (λ (s : Bytes). length s ≤ length (c ∷ cs)) (c == 32 || c == 9 || c == b',')
      (skip_separators cs) (c ∷ cs) (λ _. omega (arith, h)) (λ _. omega arith)

no_separator :
    (p : Bytes) (c : ℕ) (cs : Bytes)
    → skip_separators p ≡ c ∷ cs
    → (c == 32 || c == 9 || c == b',') ≡ false
unfolding skip_separators
no_separator [] c cs e = absurd (cc e)
no_separator (x ∷ p) c cs h =
    if_cases (λ s. s ≡ c ∷ cs → (c == 32 || c == 9 || c == b',') ≡ false)
      (x == 32 || x == 9 || x == b',') (skip_separators p) (x ∷ p) (λ _. no_separator p c cs)
      (λ dark e. subst (λ y. (y == 32 || y == 9 || y == b',') ≡ false) (head_same e) dark) h
  where
    head_same : {x c : ℕ} {p cs : Bytes} → x ∷ p ≡ c ∷ cs → x ≡ c
    head_same e = cc e

module _ (d : Doubles) where
  -- The items, read one after another.
  unfoldable pub read_all : List Bytes → Qualities d → Qualities d
  read_all [] q = q
  read_all (item ∷ items) q = read_all items (read_item d item q)

  start_cases :
      (start : Bytes) (more q result : Qualities d)
      → (start ≡ [] → q ≡ result)
      → ((c : ℕ) (cs : Bytes) → start ≡ c ∷ cs → more ≡ result)
      → elim start [ [] ↦ q | c ∷ cs ↦ more ] ≡ result
  start_cases [] more q result f g = f refl
  start_cases (c ∷ cs) more q result f g = g c cs refl

  -- The loop reads the items of the text, in their order and no others.
  pub read_items-eq-read_all :
      (turns : ℕ) (p : Bytes) (q : Qualities d)
      → length p ≤ turns
      → read_items d turns p q ≡ read_all (list_items p) q
  unfolding read_items read_all list_items
  read_items-eq-read_all zero [] q h = refl
  read_items-eq-read_all zero (c ∷ cs) q h = absurd (omega (arith, h))
  read_items-eq-read_all (suc turns) p q h =
      let start = skip_separators p in
      let item = until_comma start in
      let rest = drop (suc (length item)) start in
      let more = read_items d turns rest (read_item d (item_of item) q) in
      let same = list_pieces-skip_separators p in
      start_cases start more q (read_all (map item_of (list_pieces p)) q)
        (λ e. ap (λ l. read_all (map item_of l) q) (ap list_pieces (sym e) ∙ same))
        (λ c cs e.
          let shorter : length rest ≤ turns =
            omega (arith, length-drop (suc (length item)) start, skip_separators_le p, h) in
          let split : list_pieces start ≡ item ∷ list_pieces rest =
            subst
              (λ s.
                list_pieces s ≡ until_comma s ∷ list_pieces (drop (suc (length (until_comma s))) s))
              (sym e) (list_pieces-item c cs (no_separator p c cs e)) in
          read_items-eq-read_all turns rest (read_item d (item_of item) q) shorter
          ∙ ap (λ l. read_all (map item_of l) q) (sym split ∙ same))
