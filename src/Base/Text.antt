-- ===== src/Base/Text.antt =====
-- C strings as lists of their bytes, without the terminating NUL; a pointer into a string is the
-- offset from its start. The functions of <string.h> and <ctype.h> that the sources call.
use Prim.Native.Nat.{ℕ, zero, suc, ◌+◌, ◌/◌, ◌%◌}
use Prim.Native.Char.{code}
use Prim.Native.String.{String}
use mathlib.Core.Path.{◌≡◌, refl, sym, ◌∙◌}
use mathlib.Core.Logic.{◌↔◌, ◌≢◌}
use mathlib.Core.Bool.{Bool, true, false, ◌&&◌, ◌||◌}
use mathlib.Core.List.{List, [], ◌∷◌, ◌++◌}
use mathlib.Core.Option.{Option, none, some}
use native.Mathlib.Omega.{arith}
use cweb.Base.Tests.{◌==◌, leb, if◌then◌else◌}
use cweb.Base.Lists.{length, All}

abbrev pub Bytes : Type 0
Bytes = List ℕ

-- The bytes of a literal; every literal of the development is ASCII.
abbrev pub codes : String → Bytes
codes String.[] = []
codes (String.◌∷◌ c s) = code c ∷ codes s

-- strcmp(a, b) == 0
unfoldable pub bytes_eq : Bytes → Bytes → Bool
bytes_eq [] [] = true
bytes_eq (x ∷ xs) (y ∷ ys) = x == y && bytes_eq xs ys
bytes_eq _ _ = false

pub bytes_eq_iff : (a b : Bytes) → (bytes_eq a b ≡ true) ↔ (a ≡ b)
unfolding bytes_eq
bytes_eq_iff (x ∷ a) (y ∷ b) = ground (arith, bytes_eq_iff a b)
bytes_eq_iff _ _ = ground arith

pub bytes_eq_refl : (a : Bytes) → bytes_eq a a ≡ true
bytes_eq_refl a = (bytes_eq_iff a a).1 refl

abbrev pub bump : Option ℕ → Option ℕ
bump none = none
bump (some n) = some (suc n)

pub bump-some : (o : Option ℕ) (i : ℕ) → bump o ≡ some i → (j : ℕ) × (o ≡ some j) × (i ≡ suc j)
bump-some none i h = absurd (cc h)
bump-some (some j) i h = (j, refl, cc h)

-- strchr(s, c), as an offset
unfoldable pub strchr : Bytes → ℕ → Option ℕ
strchr [] c = none
strchr (x ∷ xs) c = if x == c then some 0 else bump (strchr xs c)

-- strncmp(s, prefix, strlen(prefix)) == 0
unfoldable pub starts_with : Bytes → Bytes → Bool
starts_with s [] = true
starts_with [] (p ∷ ps) = false
starts_with (c ∷ cs) (p ∷ ps) = c == p && starts_with cs ps

-- strstr(s, needle), as an offset
unfoldable pub strstr : Bytes → Bytes → Option ℕ
unfolding starts_with
strstr [] needle = if starts_with [] needle then some 0 else none
strstr (c ∷ cs) needle = if starts_with (c ∷ cs) needle then some 0 else bump (strstr cs needle)

-- isspace of <ctype.h>, in the C locale
unfoldable pub is_space : ℕ → Bool
is_space c = c == 32 || (leb 9 c && leb c 13)

unfoldable pub is_digit : ℕ → Bool
is_digit c = leb b'0' c && leb c b'9'

unfoldable pub is_alpha : ℕ → Bool
is_alpha c = (leb b'a' c && leb c b'z') || (leb b'A' c && leb c b'Z')

unfoldable pub is_alnum : ℕ → Bool
unfolding is_digit is_alpha
is_alnum c = is_digit c || is_alpha c

unfoldable pub to_lower : ℕ → ℕ
to_lower c = if leb b'A' c && leb c b'Z' then c + 32 else c

-- strcasecmp(a, b) == 0
unfoldable pub case_eq : Bytes → Bytes → Bool
unfolding to_lower
case_eq [] [] = true
case_eq (x ∷ xs) (y ∷ ys) = to_lower x == to_lower y && case_eq xs ys
case_eq _ _ = false

-- No byte of the text is `c`.
abbrev pub Lacks : ℕ → Bytes → Type 0
Lacks c = All (λ x. x ≢ c)

pub strchr-Lacks : (s : Bytes) (c : ℕ) → Lacks c s → strchr s c ≡ none
unfolding strchr
strchr-Lacks [] c h = refl
strchr-Lacks (x ∷ xs) c h = ground (arith, strchr-Lacks xs c h.1)

-- The first occurrence is the one behind a prefix that lacks the byte.
pub strchr-append :
    (s rest : Bytes) (c : ℕ) → Lacks c s → strchr (s ++ c ∷ rest) c ≡ some (length s)
unfolding strchr
strchr-append [] rest c h = ground arith
strchr-append (x ∷ xs) rest c h = ground (arith, strchr-append xs rest c h.1)

pub ne_of_bytes_eq : (a b : Bytes) → bytes_eq a b ≡ false → a ≢ b
ne_of_bytes_eq a b h e = cc (sym h ∙ (bytes_eq_iff a b).1 e)

-- The same as a test.
abbrev pub lacks : ℕ → Bytes → Bool
lacks c [] = true
lacks c (x ∷ xs) = if x == c then false else lacks c xs

pub lacks-Lacks : (c : ℕ) (s : Bytes) → lacks c s ≡ true → Lacks c s
lacks-Lacks c [] h = tt
lacks-Lacks c (x ∷ xs) h = ground (arith, lacks-Lacks c xs)

-- while (isspace(*s)) s++
unfoldable pub skip_spaces : Bytes → Bytes
unfolding is_space
skip_spaces [] = []
skip_spaces (c ∷ cs) = if is_space c then skip_spaces cs else c ∷ cs

-- The text up to the first NUL.
unfoldable pub c_string : Bytes → Bytes
c_string [] = []
c_string (c ∷ cs) = if c == 0 then [] else c ∷ c_string cs

-- The first piece of a text that is split at every delimiter, and the other pieces.
abbrev pub pieces : (ℕ → Bool) → Bytes → Bytes × List Bytes
pieces d [] = ([], [])
pieces d (c ∷ cs) =
    let (first, others) = pieces d cs in if d c then ([], first ∷ others) else (c ∷ first, others)

abbrev pub nonempty : List Bytes → List Bytes
nonempty [] = []
nonempty ([] ∷ ps) = nonempty ps
nonempty ((c ∷ cs) ∷ ps) = (c ∷ cs) ∷ nonempty ps

-- What the calls of `strtok` on a text give, one after the other: no token is empty.
unfoldable pub strtok : (ℕ → Bool) → Bytes → List Bytes
strtok d s = let (first, others) = pieces d s in nonempty (first ∷ others)

-- The digits that `%d` and `%zu` print: one for each unit of fuel at most.
unfoldable pub digits : ℕ → ℕ → Bytes → Bytes
digits zero n rest = rest
digits (suc fuel) n rest =
    if leb n 9 then (b'0' + n) ∷ rest else digits fuel (n / 10) ((b'0' + n % 10) ∷ rest)

unfoldable pub decimal : ℕ → Bytes
unfolding digits
decimal n = digits (suc n) n []
