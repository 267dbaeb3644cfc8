-- ===== src/Compress/Turns/Bounds.antt =====
-- What holds of the shared loop: it ends, and it writes no more than it reads, if every turn does.
use mathlib.Core.List.{reverse-cons}
use cweb.Base.{
  length-append, ℕ, zero, suc, ◌+◌, ◌≤◌, ◌≡◌, refl, ap, ◌∙◌, [], ◌∷◌, Option, some, ◌>>=◌, if_cases,
  length, drop, Bytes, reverse, is_space, skip_spaces, arith,
}
use native.Mathlib.Nat.{le_refl}
use cweb.Compress.Turns.{drop_blanks, turns}

pub skip_spaces_le : (s : Bytes) → length (skip_spaces s) ≤ length s
unfolding skip_spaces
skip_spaces_le [] = omega arith
skip_spaces_le (c ∷ cs) =
    let rest = skip_spaces_le cs in
    if_cases (λ s. length s ≤ suc (length cs)) (is_space c) (skip_spaces cs) (c ∷ cs)
      (λ e. omega arith) (λ e. omega arith)

pub drop_one_le : (s : Bytes) → length (drop 1 s) ≤ length s
drop_one_le [] = omega arith
drop_one_le (c ∷ cs) = omega arith

pub drop_blanks_le : (s : Bytes) → length (drop_blanks s) ≤ length s
unfolding drop_blanks
drop_blanks_le [] = omega arith
drop_blanks_le (c ∷ cs) =
    let rest = drop_blanks_le cs in
    if_cases (λ s. length s ≤ suc (length cs)) _ (drop_blanks cs) (c ∷ cs) (λ e. omega arith)
      (λ e. omega arith)

-- A turn at a byte reads on, and writes no more than it reads.
pub record IsTurn (rest out rest' out' : Bytes) : Type 0 where
  pub reads : length rest' ≤ length rest
  pub writes : length out' + length rest' ≤ suc (length rest + length out)

pub idle-IsTurn : (rest out : Bytes) → IsTurn rest out rest out
idle-IsTurn rest out = record { reads = le_refl (length rest); writes = omega arith }

pub push-IsTurn : (rest out : Bytes) (c : ℕ) → IsTurn rest out rest (c ∷ out)
push-IsTurn rest out c = record { reads = le_refl (length rest); writes = omega arith }

-- What the loop leaves.
record IsDone {S : Type 0} (out : S → Bytes) (bound : ℕ) (o : Option S) : Type 0 where
  pub state : S
  pub gives : o ≡ some state
  pub fits : length (out state) ≤ bound

module _ {S : Type 0} (turn : ℕ → Bytes → S → Bytes × S) (out : S → Bytes)
    (bounded : (c : ℕ) (rest : Bytes) (s : S)
      → IsTurn rest (out s) (turn c rest s).0 (out (turn c rest s).1)) where
  turns-IsDone :
      (n : ℕ) (input : Bytes) (s : S)
      → length input ≤ n
      → IsDone out (length (out s) + length input) (turns turn n input s)
  unfolding turns
  turns-IsDone n [] s h = record { state = s; gives = refl; fits = omega arith }
  turns-IsDone zero (c ∷ rest) s h = absurd (omega arith)
  turns-IsDone (suc n) (c ∷ rest) s h =
      let t = bounded c rest s in
      let r = turns-IsDone n (turn c rest s).0 (turn c rest s).1 (omega (arith, t.reads)) in
      record { state = r.state; gives = r.gives; fits = omega (arith, t.writes, r.fits) }

length-reverse : (s : Bytes) → length (reverse s) ≡ length s
length-reverse [] = refl
length-reverse (c ∷ cs) =
    ap length (reverse-cons c cs)
    ∙ length-append (reverse cs) (c ∷ [])
    ∙ plus_one (length-reverse cs)
  where
    plus_one : {a b : ℕ} → a ≡ b → a + 1 ≡ suc b
    plus_one e = omega arith

-- The text that a minifier gives: the output in its order, after the loop has cut something off its end.
module _ {S : Type 0} (turn : ℕ → Bytes → S → Bytes × S) (out cut : S → Bytes)
    (bounded : (c : ℕ) (rest : Bytes) (s : S)
      → IsTurn rest (out s) (turn c rest s).0 (out (turn c rest s).1))
    (shorter : (s : S) → length (cut s) ≤ length (out s)) where
  pub turns_fit :
      (input : Bytes) (start : S)
      → length (out start) ≡ 0
      → (text : Bytes) × ((turns turn (length input) input start >>= λ s. some (reverse (cut s)))
          ≡ some text)
        × (length text ≤ length input)
  turns_fit input start h =
      let r = turns-IsDone turn out bounded (length input) input start (le_refl (length input)) in
      (
        reverse (cut r.state),
        ap (λ o. o >>= λ s. some (reverse (cut s))) r.gives,
        omega (arith, length-reverse (cut r.state), shorter r.state, r.fits),
      )
