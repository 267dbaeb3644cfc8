-- ===== src/Compress/Turns.antt =====
-- What the minifiers of framework/src/compress share: the loop over the input, the output with its
-- last byte first, and looking at the bytes on both sides.
pub mod Bounds
use cweb.Base.{
  ℕ, zero, suc, ◌≡◌, Bool, true, false, not, ◌&&◌, ◌||◌, List, [], ◌∷◌, Option, none, some, ◌==◌,
  ◌>>=◌, if◌then◌else◌, length, get_or, drop, Bytes, codes, reverse, is_space, skip_spaces,
}

abbrev pub one_of : ℕ → Bytes → Bool
one_of c [] = false
one_of c (d ∷ ds) = c == d || one_of c ds

-- out[o - 1], and NUL for an empty output
unfoldable pub last_byte : Bytes → ℕ
last_byte out = get_or out 0 0

-- The first byte behind blanks.
unfoldable pub next_byte : Bytes → ℕ
unfolding skip_spaces
next_byte s = get_or (skip_spaces s) 0 0

abbrev pub is_empty : Bytes → Bool
is_empty [] = true
is_empty (c ∷ cs) = false

-- while (o && (out[o - 1] == ' ' || ...)) --o;
unfoldable pub drop_blanks : Bytes → Bytes
drop_blanks [] = []
drop_blanks (c ∷ cs) = if one_of c (codes " \n\t\r") then drop_blanks cs else c ∷ cs

-- The loop: a turn takes a byte and what follows it, and gives what is left to read and the new local
-- variables. `none` means that the count of turns ran out.
module _ {S : Type 0} (turn : ℕ → Bytes → S → Bytes × S) where
  unfoldable pub turns : ℕ → Bytes → S → Option S
  turns n [] s = some s
  turns zero (c ∷ rest) s = none
  turns (suc n) (c ∷ rest) s = let (rest', s') = turn c rest s in turns n rest' s'
