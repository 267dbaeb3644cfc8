-- ===== src/Base/Tokens.antt =====
-- Laws of `strtok` and of scanning blanks.
use Prim.Native.Nat.{ℕ}
use mathlib.Core.Path.{◌≡◌, refl, ap, ◌∙◌}
use mathlib.Core.Logic.{◌≢◌, inl, inr}
use mathlib.Core.Bool.{Bool, true, false}
use mathlib.Core.List.{List, [], ◌∷◌, ◌++◌}
use cweb.Base.Tests.{Bool-cases}
use native.Mathlib.Omega.{arith}
use cweb.Base.Lists.{All}
use cweb.Base.Text.{Bytes, pieces, nonempty, strtok, c_string, Lacks}

nonempty-append : (ps qs : List Bytes) → nonempty (ps ++ qs) ≡ nonempty ps ++ nonempty qs
nonempty-append [] qs = refl
nonempty-append ([] ∷ ps) qs = nonempty-append ps qs
nonempty-append ((c ∷ cs) ∷ ps) qs = ap (◌∷◌ (c ∷ cs)) (nonempty-append ps qs)

pieces-append :
    (d : ℕ → Bool) (s : Bytes) (c : ℕ) (rest : Bytes)
    → d c ≡ true
    → pieces d (s ++ c ∷ rest)
      ≡ ((pieces d s).0, (pieces d s).1 ++ (pieces d rest).0 ∷ (pieces d rest).1)
pieces-append d [] c rest h = rw h refl
pieces-append d (x ∷ xs) c rest h =
    let e = pieces-append d xs c rest h in
    elim (Bool-cases (d x)) [ inl y ↦ rw (e, y) refl | inr n ↦ rw (e, n) refl ]

-- A delimiter parts the tokens before it from those behind it.
pub strtok-append :
    (d : ℕ → Bool) (s : Bytes) (c : ℕ) (rest : Bytes)
    → d c ≡ true
    → strtok d (s ++ c ∷ rest) ≡ strtok d s ++ strtok d rest
unfolding strtok
strtok-append d s c rest h =
    ap (λ (first, others). nonempty (first ∷ others)) (pieces-append d s c rest h)
    ∙ nonempty-append ((pieces d s).0 ∷ (pieces d s).1) _

-- No byte of the text is a delimiter.
abbrev pub IsWhole : (ℕ → Bool) → Bytes → Type 0
IsWhole d = All (λ c. d c ≡ false)

pieces_whole : (d : ℕ → Bool) (s : Bytes) → IsWhole d s → pieces d s ≡ (s, [])
pieces_whole d [] h = refl
pieces_whole d (c ∷ cs) h = rw (pieces_whole d cs h.1, h.0) refl

pub strtok_whole : (d : ℕ → Bool) (s : Bytes) → IsWhole d s → s ≢ [] → strtok d s ≡ s ∷ []
unfolding strtok
strtok_whole d [] h n = absurd (n refl)
strtok_whole d (c ∷ cs) h n =
    ap (λ (first, others). nonempty (first ∷ others)) (pieces_whole d (c ∷ cs) h)

pub c_string-append : (s rest : Bytes) → Lacks 0 s → c_string (s ++ rest) ≡ s ++ c_string rest
unfolding c_string
c_string-append [] rest h = refl
c_string-append (c ∷ cs) rest h = ground (arith, c_string-append cs rest h.1, h.0)
