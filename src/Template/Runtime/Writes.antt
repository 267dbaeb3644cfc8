-- ===== src/Template/Runtime/Writes.antt =====
-- The buffer of runtime.c holds what was written to it.
use cweb.Base.{
  ℕ, zero, suc, ◌+◌, ◌*◌, ◌%◌, ◌^◌, ◌≤◌, ◌<◌, ◌≡◌, inl, inr, refl, ap, sym, ◌∙◌, subst, false, List,
  [], ◌∷◌, ◌++◌, Option, none, some, ltb, length, length-append, take, take_all, Bytes, arith,
  Bool-cases, if_true, if_false, ltb→lt, lt→ltb, ◌>>=◌, append_assoc, append-nil,
}
use cweb.Template.Runtime.{
  Buffer, no_buffer, buffer_init, grow, buffer_append, Output, written, output, output_all,
}

-- A capacity after `k` doublings.
abbrev twice : ℕ → ℕ → ℕ
twice zero c = c
twice (suc k) c = twice k (c * 2)

twice_le : (k a b : ℕ) → a ≤ b → twice k a ≤ twice k b
twice_le zero a b h = h
twice_le (suc k) a b h = twice_le k (a * 2) (b * 2) (omega arith)

twice_63 : twice 63 1 ≡ 2 ^ 63
twice_63 = refl

mod_small : (n : ℕ) → n < 2 ^ 64 → n % 2 ^ 64 ≡ n
mod_small n h = omega arith

not_ltb : (a b : ℕ) → b ≤ a → ltb a b ≡ false
not_ltb a b h = ground arith

le_of_ltb : (a b : ℕ) → ltb a b ≡ false → b ≤ a
le_of_ltb a b h = ground arith

le_trans : {a b c : ℕ} → a ≤ b → b ≤ c → a ≤ c
le_trans h k = omega arith

-- What the loop returns: room enough.
record IsGrown (needed : ℕ) (o : Option ℕ) : Type 0 where
  room : ℕ
  gives : o ≡ some room
  enough : needed ≤ room

grow-IsGrown :
    (k capacity needed : ℕ)
    → needed ≤ 2 ^ 63
    → needed ≤ twice k capacity
    → IsGrown needed (grow (suc k) capacity needed)
unfolding grow
grow-IsGrown zero capacity needed h t = record {
  room = capacity;
  gives = if_false (ltb capacity needed) _ _ (not_ltb capacity needed t);
  enough = t;
}
grow-IsGrown (suc k) capacity needed h t = elim (Bool-cases (ltb capacity needed)) [
  | inl e ↦
      let same = mod_small (capacity * 2) (omega (arith, ltb→lt capacity needed e)) in
      let r =
        grow-IsGrown k ((capacity * 2) % 2 ^ 64) needed h
          (subst (λ c. needed ≤ twice k c) (sym same) t) in
      record {
        room = r.room;
        gives = if_true (ltb capacity needed) _ _ e ∙ r.gives;
        enough = r.enough;
      }
  | inr e ↦ record {
    room = capacity;
    gives = if_false (ltb capacity needed) _ _ e;
    enough = le_of_ltb capacity needed e;
  }
]

-- The string in the buffer, its NUL included, fits the capacity.
pub record IsBuffer (b : Buffer) : Type 0 where
  pub right_size : b.size ≡ length b.content
  pub fits : b.size < b.capacity

pub buffer_init-IsBuffer : IsBuffer buffer_init
buffer_init-IsBuffer = record { right_size = refl; fits = omega arith }

-- A write that ends: the string stands behind what was there.
pub record Holds (o : Option Buffer) (content : Bytes) : Type 0 where
  pub buffer : Buffer
  pub ends : o ≡ some buffer
  pub right : buffer.content ≡ content
  pub is_buffer : IsBuffer buffer

append-Holds :
    (b : Buffer) (str : Bytes)
    → IsBuffer b
    → length b.content + length str < 2 ^ 63
    → Holds (buffer_append 64 b str) (b.content ++ str)
unfolding buffer_append
append-Holds b str h small =
    let n = b.size + length str in
    let same = mod_small n (omega (arith, h.right_size)) in
    let same' = mod_small (n + 1) (omega (arith, h.right_size)) in
    let room : n + 1 ≤ 2 ^ 63 = omega (arith, h.right_size) in
    let r = grow-IsGrown 63 b.capacity (n + 1) room (
      le_trans room (
        subst (λ k. k ≤ twice 63 b.capacity) twice_63
          (twice_le 63 1 b.capacity (omega (arith, h.fits))))) in
    let kept = ap (λ s. s ++ str) (take_all b.size b.content (omega (arith, h.right_size))) in
    record {
      buffer = record {
        content = take b.size b.content ++ str;
        capacity = r.room;
        size = n % 2 ^ 64;
      };
      ends =
          ap
            (λ o. o >>= λ capacity. some (record {
              content = take b.size b.content ++ str;
              capacity = capacity;
              size = n % 2 ^ 64;
            }))
            (ap (grow 64 b.capacity) same' ∙ r.gives);
      right = kept;
      is_buffer = record {
        right_size =
            same
            ∙ ap (λ k. k + length str) h.right_size
            ∙ sym (length-append b.content str)
            ∙ ap length (sym kept);
        fits = omega (arith, same, r.enough);
      };
    }

-- What a page writes, one output behind the other.
abbrev pub joined : List Output → Bytes
joined [] = []
joined (o ∷ os) = written o ++ joined os

-- A page's outputs end, and the buffer then holds them in order behind what it held: raw text as it is and
-- the rest escaped. The text has fewer than 2^63 bytes; the capacity is doubled at most 63 times in a
-- call.
pub output_all-Holds :
    (os : List Output) (b : Buffer)
    → IsBuffer b
    → length b.content + length (joined os) < 2 ^ 63
    → Holds (output_all 64 b os) (b.content ++ joined os)
unfolding output_all
output_all-Holds [] b h small = record {
  buffer = b;
  ends = refl;
  right = sym (append-nil b.content);
  is_buffer = h;
}
output_all-Holds (o ∷ os) b h small =
    let lengths = length-append (written o) (joined os) in
    let first = append-Holds b (written o) h (omega arith) in
    let all = length-append b.content (written o) in
    let rest =
      output_all-Holds os first.buffer first.is_buffer (omega (arith, ap length first.right)) in
    record {
      buffer = rest.buffer;
      ends = ap (λ r. r >>= λ b'. output_all 64 b' os) first.ends ∙ rest.ends;
      right =
          rest.right
          ∙ ap (λ s. s ++ joined os) first.right
          ∙ append_assoc b.content (written o) (joined os);
      is_buffer = rest.is_buffer;
    }

grow_zero : (fuel needed : ℕ) → 0 < needed → grow fuel 0 needed ≡ none
unfolding grow
grow_zero zero needed h = refl
grow_zero (suc n) needed h = if_true (ltb 0 needed) _ _ (lt→ltb 0 needed h) ∙ grow_zero n needed h

-- A write to the buffer before it is initialised, or after its cleanup, never ends: doubling the
-- capacity 0 gives no room, whatever the fuel.
pub output-no_buffer :
    (fuel : ℕ) (o : Output) → length (written o) < 2 ^ 63 → output fuel no_buffer o ≡ none
unfolding output
output-no_buffer fuel o small =
    ap
      (λ r. r >>= λ capacity. some (record {
        content = written o;
        capacity = capacity;
        size = (0 + length (written o)) % 2 ^ 64;
      }))
      (grow_zero fuel _ (omega (arith, mod_small (0 + length (written o) + 1) (omega arith))))
