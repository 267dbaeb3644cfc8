-- ===== src/Template/Runtime/Links.antt =====
-- The three things that `cweb_setAssetLink` does to a document.
use cweb.Base.{◌≡◌, ◌⊎◌, false, [], ◌++◌, none, some, length, Bytes, codes, strstr}
use cweb.Template.Security.Sanitize.{Occurs}
use cweb.Template.Runtime.{href, link_tag, has_link, strcasestr}

-- The place before the first end of a head, in whatever case, and the end of the text where there is none.
abbrev EndsHead : Bytes → Bytes → Bytes → Type 0
EndsHead doc before after =
    (strcasestr doc (codes "</head>") ≡ some (length before))
    ⊎ ((strcasestr doc (codes "</head>") ≡ none) × (after ≡ []))

-- What becomes of a document: it stays, where it links to both; the first link to the name gets the path; or a tag stands
-- before the end of the head. Nothing else changes.
pub data Linked (doc name path rel doc' : Bytes) : Type 0 where
  already :
      (before after : Bytes)
      → doc ≡ before ++ (href name ++ after)
      → Occurs (href path) doc
      → doc' ≡ doc
      → Linked doc name path rel doc'
  replaced :
      (before after : Bytes)
      → doc ≡ before ++ (href name ++ after)
      → strstr doc (href name) ≡ some (length before)
      → has_link doc path ≡ false
      → doc' ≡ before ++ (href path ++ after)
      → Linked doc name path rel doc'
  inserted :
      (before after : Bytes)
      → doc ≡ before ++ after
      → strstr doc (href name) ≡ none
      → EndsHead doc before after
      → doc' ≡ before ++ (link_tag rel path ++ after)
      → Linked doc name path rel doc'
