-- ===== src/Template/Codegen/Output/Literal.antt =====
-- The string literals of the generated code, and the programs that consist of prints of them, read the way C reads them.
use cweb.Base.{
  ℕ, ◌≡◌, refl, ap, ◌∙◌, Bool, true, false, [], ◌∷◌, ◌++◌, append_assoc, Option, none, some, ◌==◌,
  ◌>>=◌, if◌then◌else◌, Bytes, codes, arith,
}
use cweb.Template.Codegen.Output.{escaped_char, escaped_chars, write_escaped_string}

abbrev push_byte : ℕ → Option (Bytes × Bytes) → Option (Bytes × Bytes)
push_byte c o = o >>= λ (s, rest). some (c ∷ s, rest)

-- The byte that a simple escape sequence stands for.
abbrev escape : ℕ → Option ℕ
escape c =
    if c == b'n'
    then some 10
    else if c == b'r'
    then some 13
    else if c == b't'
    then some 9
    else if c == 92
    then some 92
    else if c == 34
    then some 34
    else none

-- The bytes of a literal behind its first quote, and what follows its last. The flag says that a backslash came before.
-- `none` is a literal that is not ended on its line or has another escape sequence.
unfoldable read_chars : Bool → Bytes → Option (Bytes × Bytes)
read_chars after [] = none
read_chars true (c ∷ cs) = let rest = read_chars false cs in escape c >>= λ e. push_byte e rest
read_chars false (c ∷ cs) =
    let escaped = read_chars true cs in
    let plain = read_chars false cs in
    if c == 34
    then some ([], cs)
    else if c == 92
    then escaped
    else if c == 10
    then none
    else push_byte c plain

unfoldable pub read_literal : Bytes → Option (Bytes × Bytes)
unfolding read_chars
read_literal [] = none
read_literal (c ∷ cs) = if c == 34 then read_chars false cs else none

read_chars-escaped_char :
    (c : ℕ) (tail : Bytes)
    → read_chars false (escaped_char c ++ tail) ≡ push_byte c (read_chars false tail)
unfolding read_chars escaped_char
read_chars-escaped_char c tail = ground arith

read_chars-escaped_chars :
    (s rest : Bytes) → read_chars false (escaped_chars s ++ (codes "\"" ++ rest)) ≡ some (s, rest)
unfolding read_chars escaped_chars
read_chars-escaped_chars [] rest = refl
read_chars-escaped_chars (c ∷ s) rest =
    ap (read_chars false) (append_assoc (escaped_char c) (escaped_chars s) (codes "\"" ++ rest))
    ∙ read_chars-escaped_char c (escaped_chars s ++ (codes "\"" ++ rest))
    ∙ ap (push_byte c) (read_chars-escaped_chars s rest)

-- A C compiler reads a written string literal back to the very bytes of the string, and goes on behind it.
pub read-write_escaped_string :
    (s rest : Bytes) → read_literal (write_escaped_string s ++ rest) ≡ some (s, rest)
unfolding read_literal write_escaped_string
read-write_escaped_string s rest =
    ap (read_chars false) (append_assoc (escaped_chars s) (codes "\"") rest)
    ∙ read_chars-escaped_chars s rest
