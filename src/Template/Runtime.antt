-- ===== src/Template/Runtime.antt =====
-- framework/src/templatengine/runtime.c: the buffer that a page's code writes to, and
-- `cweb_setAssetLink`. Allocation succeeds; lengths are size_t.
pub mod Writes
pub mod Asset
pub mod Links
use cweb.Base.{
  ℕ, zero, suc, ◌+◌, ◌-◌, ◌*◌, ◌%◌, ◌^◌, Bool, true, false, List, [], ◌∷◌, ◌++◌, Option, none, some,
  ltb, leb, ◌==◌, if◌then◌else◌, length, take, drop, Bytes, codes, strchr, strstr, to_lower, bump,
  ◌>>=◌, ◌&&◌,
}
use cweb.Template.Security.{escape_html}

-- `content` is the string that `data` points to, and [] for NULL.
pub record Buffer : Type 0 where
  pub content : Bytes
  pub capacity : ℕ
  pub size : ℕ

-- g_output_buffer before it is initialised, and after `cweb_buffer_cleanup`.
abbrev pub no_buffer : Buffer
no_buffer = record { content = []; capacity = 0; size = 0 }

-- cweb_buffer_init
abbrev pub buffer_init : Buffer
buffer_init = record { content = []; capacity = 8096; size = 0 }

-- The loop that doubles the capacity; none is for a run that needs more fuel.
pub grow : ℕ → ℕ → ℕ → Option ℕ
grow zero capacity needed = none
grow (suc n) capacity needed =
    let rest = grow n ((capacity * 2) % 2 ^ 64) needed in
    if ltb capacity needed then rest else some capacity

pub buffer_append : ℕ → Buffer → Bytes → Option Buffer
unfolding grow
buffer_append fuel b str =
    let needed = (b.size + length str + 1) % 2 ^ 64 in
    grow fuel b.capacity needed >>= λ capacity. some (record {
      content = take b.size b.content ++ str;
      capacity = capacity;
      size = (b.size + length str) % 2 ^ 64;
    })

-- cweb_output_raw and cweb_output_html
pub data Output : Type 0 where
  raw html : Bytes → Output

abbrev pub written : Output → Bytes
written (raw s) = s
written (html s) = escape_html s

pub output : ℕ → Buffer → Output → Option Buffer
unfolding buffer_append
output fuel b o = buffer_append fuel b (written o)

-- What the code of a page does between `cweb_output_init` and `cweb_output_get`.
pub output_all : ℕ → Buffer → List Output → Option Buffer
unfolding output
output_all fuel b [] = some b
output_all fuel b (o ∷ os) = output fuel b o >>= λ b'. output_all fuel b' os

-- strcasestr(s, needle), as an offset
abbrev pub starts_with_case : Bytes → Bytes → Bool
starts_with_case s [] = true
starts_with_case [] (p ∷ ps) = false
starts_with_case (c ∷ cs) (p ∷ ps) = to_lower c == to_lower p && starts_with_case cs ps

abbrev pub strcasestr : Bytes → Bytes → Option ℕ
strcasestr [] needle = if starts_with_case [] needle then some 0 else none
strcasestr (c ∷ cs) needle =
    if starts_with_case (c ∷ cs) needle then some 0 else bump (strcasestr cs needle)

abbrev pub href : Bytes → Bytes
href name = codes "href=\"" ++ (name ++ codes "\"")

-- if (!rel_attr) rel_attr = "stylesheet"
abbrev pub rel_or_default : Option Bytes → Bytes
rel_or_default none = codes "stylesheet"
rel_or_default (some rel) = rel

abbrev pub link_tag : Bytes → Bytes → Bytes
link_tag rel path = codes "<link rel=\"" ++ (rel ++ (codes "\" " ++ (href path ++ codes " />\n")))

-- The value of the attribute at `hit` is replaced.
unfoldable pub replace_value : Bytes → ℕ → Bytes → Option Bytes
unfolding strchr
replace_value doc hit path =
    let value = drop (hit + 6) doc in
    elim (strchr value b'"') [
      | none ↦ none
      | some old_len ↦ some (take (hit + 6) doc ++ (path ++ drop old_len value))
    ]

-- n2 > 0 && (size_t)n2 < sizeof(new_pattern) && strstr(doc, new_pattern)
unfoldable pub has_link : Bytes → Bytes → Bool
unfolding strstr
has_link doc path =
    ltb (length (href path)) 256 && elim (strstr doc (href path)) [ none ↦ false | some i ↦ true ]

abbrev pub insert_at : ℕ → Bytes → Bytes → Bytes
insert_at pos text doc = take pos doc ++ (text ++ drop pos doc)

abbrev pub insert_pos : Bytes → ℕ
insert_pos doc = elim (strcasestr doc (codes "</head>")) [ none ↦ length doc | some i ↦ i ]

-- The document behind `*html` afterwards, if the call returns true; a call that returns false leaves
-- it as it was.
unfoldable pub set_asset_link : Bytes → Bytes → Bytes → Option Bytes → Option Bytes
unfolding replace_value has_link strstr to_lower
set_asset_link doc name path rel =
    let tag = link_tag (rel_or_default rel) path in
    let inserted : Option Bytes =
      if ltb (length tag) 512 then some (insert_at (insert_pos doc) tag doc) else none in
    let found : Option Bytes = elim (strstr doc (href name)) [
      | some hit ↦ if has_link doc path then some doc else replace_value doc hit path
      | none ↦ inserted
    ] in
    if ltb (length (href name)) 256 then found else none
