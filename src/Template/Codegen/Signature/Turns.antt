-- ===== src/Template/Codegen/Signature/Turns.antt =====
-- The search for a declaration ends by itself: its fuel never runs out.
use cweb.Base.{
  ℕ, zero, suc, ◌+◌, ◌≤◌, ◌≡◌, refl, [], ◌∷◌, Option, none, some, length, length-drop, drop, Bytes,
  codes, strstr, arith,
}
use cweb.Template.Codegen.Signature.{
  Found, goes_on, ends, found, read_declaration, search_declaration,
}

same_found :
    (n m : ℕ) (later : Bytes) (f : Found)
    → search_declaration n later ≡ search_declaration m later
    → elim f [
      | goes_on ↦ search_declaration n later
      | ends ↦ none
      | found name params ↦ some (name, params)
    ]
      ≡ elim f [
        | goes_on ↦ search_declaration m later
        | ends ↦ none
        | found name params ↦ some (name, params)
      ]
same_found n m later goes_on e = e
same_found n m later ends e = refl
same_found n m later (found name params) e = refl

-- What the search does where strstr gives that.
abbrev at_word : ℕ → Bytes → Option ℕ → Option (Bytes × Bytes)
at_word n text none = none
at_word n text (some i) = elim (read_declaration (drop (i + 4) text)) [
  | goes_on ↦ search_declaration n (drop (i + 4) text)
  | ends ↦ none
  | found name params ↦ some (name, params)
]

same_word :
    (n m : ℕ) (text : Bytes) (o : Option ℕ)
    → ((i : ℕ)
        → search_declaration n (drop (i + 4) text) ≡ search_declaration m (drop (i + 4) text))
    → at_word n text o ≡ at_word m text o
same_word n m text none h = refl
same_word n m text (some i) h =
    same_found n m (drop (i + 4) text) (read_declaration (drop (i + 4) text)) (h i)

-- With fuel for each byte of the text, more fuel changes nothing.
search_declaration_enough :
    (n m : ℕ) (text : Bytes)
    → length text ≤ n
    → length text ≤ m
    → search_declaration n text ≡ search_declaration m text
unfolding search_declaration strstr
search_declaration_enough zero zero text h k = refl
search_declaration_enough zero (suc m) [] h k = refl
search_declaration_enough zero (suc m) (c ∷ cs) h k = absurd (omega (arith, h))
search_declaration_enough (suc n) zero [] h k = refl
search_declaration_enough (suc n) zero (c ∷ cs) h k = absurd (omega (arith, k))
search_declaration_enough (suc n) (suc m) text h k =
    same_word n m text (strstr text (codes "char")) (λ i.
      search_declaration_enough n m (drop (i + 4) text) (omega (arith, length-drop (i + 4) text, h))
        (omega (arith, length-drop (i + 4) text, k)))
