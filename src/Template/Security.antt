-- ===== src/Template/Security.antt =====
-- framework/src/templatengine/security.c. No argument is NULL.
pub mod Escape
pub mod Sanitize
use cweb.Base.{
  ℕ, ◌≡◌, Bool, true, false, not, ◌&&◌, ◌||◌, List, [], ◌∷◌, ◌++◌, Option, none, some, ◌==◌,
  if◌then◌else◌, Bytes, codes, strstr, is_alpha, is_alnum,
}

-- One turn of the switch in `cweb_escape_html`.
unfoldable pub escape_char : ℕ → Bytes
escape_char c =
    if c == b'<'
    then codes "&lt;"
    else if c == b'>'
    then codes "&gt;"
    else if c == b'&'
    then codes "&amp;"
    else if c == 34
    then codes "&quot;"
    else if c == 39
    then codes "&#x27;"
    else c ∷ []

-- The output has room for six bytes per byte of the input, so the loop's second test never ends it.
unfoldable pub escape_html : Bytes → Bytes
unfolding escape_char
escape_html [] = []
escape_html (c ∷ cs) = escape_char c ++ escape_html cs

-- The loop over the bytes behind the first.
abbrev tag_tail : Bytes → Bool
tag_tail [] = true
tag_tail (c ∷ cs) = (is_alnum c || c == b'_') && tag_tail cs

validate_tag_name : Bytes → Bool
validate_tag_name [] = false
validate_tag_name (c ∷ cs) = is_alpha c && tag_tail cs

abbrev pub dangerous : List Bytes
dangerous =
    codes "system("
    ∷ codes "exec("
    ∷ codes "popen("
    ∷ codes "fork("
    ∷ codes "unlink("
    ∷ codes "remove("
    ∷ codes "rmdir("
    ∷ codes "#include"
    ∷ codes "#define"
    ∷ codes "#pragma"
    ∷ []

abbrev pub contains : Bytes → Bytes → Bool
contains code word = elim (strstr code word) [ none ↦ false | some i ↦ true ]

abbrev pub free_of : Bytes → List Bytes → Bool
free_of code [] = true
free_of code (word ∷ words) = not (contains code word) && free_of code words

unfoldable pub sanitize_c_code : Bytes → Bool
unfolding strstr
sanitize_c_code code = free_of code dangerous
