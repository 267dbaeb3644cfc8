-- ===== src/Template/Security/Escape.antt =====
-- What `cweb_escape_html` guarantees of its output.
use cweb.Base.{
  ℕ, ◌*◌, ◌≤◌, ◌≡◌, refl, Bool, true, ◌||◌, not, ◌&&◌, [], ◌∷◌, ◌++◌, ◌==◌, length, Bytes, inl, inr,
  Bool-cases, leb, leb→le, length-append, arith, if_cases,
}
use cweb.Template.Security.{escape_char, escape_html}

-- A byte that means nothing in the text or in a quoted attribute of HTML.
abbrev is_inert : ℕ → Bool
is_inert c = not (c == b'<' || c == b'>' || c == 34 || c == 39)

abbrev pub all_inert : Bytes → Bool
all_inert [] = true
all_inert (c ∷ cs) = is_inert c && all_inert cs

all_inert-append :
    (s t : Bytes) → all_inert s ≡ true → all_inert t ≡ true → all_inert (s ++ t) ≡ true
all_inert-append [] t h k = k
all_inert-append (c ∷ cs) t h k = elim (Bool-cases (is_inert c)) [
  | inl e ↦ rw e (all_inert-append cs t (rw e at h) k)
  | inr e ↦ absurd (cc (rw e at h))
]

abbrev Fine : Bytes → Type 0
Fine s = (all_inert s ≡ true) × (leb (length s) 6 ≡ true)

escape_char-Fine : (c : ℕ) → Fine (escape_char c)
unfolding escape_char
escape_char-Fine c =
    if_cases Fine (c == b'<') _ _ (λ e. (refl, refl))
      (λ a.
        if_cases Fine (c == b'>') _ _ (λ e. (refl, refl))
          (λ b.
            if_cases Fine (c == b'&') _ _ (λ e. (refl, refl))
              (λ e.
                if_cases Fine (c == 34) _ _ (λ e. (refl, refl))
                  (λ f.
                    if_cases Fine (c == 39) _ _ (λ e. (refl, refl))
                      (λ g. (rw (a, b, f, g) refl, refl))))))

-- The escaped text holds none of `<`, `>` and the two quotes, and it is at most six times as long as
-- the input, so the output buffer holds it.
pub escape_html_safe :
    (s : Bytes) → (all_inert (escape_html s) ≡ true) × (length (escape_html s) ≤ 6 * length s)
unfolding escape_html
escape_html_safe [] = (refl, omega arith)
escape_html_safe (c ∷ cs) =
    let (inert, short) = escape_html_safe cs in
    let (fine, six) = escape_char-Fine c in
    (
      all_inert-append (escape_char c) (escape_html cs) fine inert,
      omega (arith, length-append (escape_char c) (escape_html cs), leb→le _ _ six),
    )
