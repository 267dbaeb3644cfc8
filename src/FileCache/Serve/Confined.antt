-- ===== src/FileCache/Serve/Confined.antt =====
-- Which files a request can reach.
use cweb.Base.{
  ℕ, zero, suc, ◌≡◌, refl, ap, subst, sym, ◌∙◌, inl, inr, true, false, [], ◌∷◌, ◌++◌, Option, none,
  some, if_true, if_false, if_cases, Bool-cases, length, drop, Bytes, codes, bump, starts_with,
  strstr, arith,
}
use cweb.FileCache.Store.{FileServerMode, FileServer}
use cweb.FileCache.Serve.{
  FileResponse, or_from, normalize_cache_path, serve_from_filesystem, serve_from_memory,
  is_forbidden, serve_below, serve_mode, handle_request,
}

-- Two disks that agree on the files below a directory, whatever lies outside it: the paths that go on with a slash
-- behind its name and hold no two full stops behind that.
abbrev pub AgreeBelow : Bytes → (Bytes → Option Bytes) → (Bytes → Option Bytes) → Type 0
AgreeBelow dir disk disk' =
    (path : Bytes)
    → strstr path (codes "..") ≡ none
    → disk (dir ++ b'/' ∷ path) ≡ disk' (dir ++ b'/' ∷ path)

bump-none : (o : Option ℕ) → bump o ≡ none → o ≡ none
bump-none none h = refl
bump-none (some i) h = absurd (cc h)

strstr-tail :
    (needle : Bytes) (c : ℕ) (cs : Bytes) → strstr (c ∷ cs) needle ≡ none → strstr cs needle ≡ none
unfolding strstr
strstr-tail needle c cs h = elim (Bool-cases (starts_with (c ∷ cs) needle)) [
  | inl e ↦ absurd (cc (sym (if_true _ (some 0) (bump (strstr cs needle)) e) ∙ h))
  | inr e ↦ bump-none (strstr cs needle) (sym (if_false _ (some 0) (bump (strstr cs needle)) e) ∙ h)
]

strstr-drop :
    (needle : Bytes) (n : ℕ) (s : Bytes) → strstr s needle ≡ none → strstr (drop n s) needle ≡ none
strstr-drop needle zero s h = h
strstr-drop needle (suc n) [] h = h
strstr-drop needle (suc n) (c ∷ cs) h = strstr-drop needle n cs (strstr-tail needle c cs h)

slash_lacks : (s : Bytes) → strstr s (codes "..") ≡ none → strstr (b'/' ∷ s) (codes "..") ≡ none
unfolding strstr
slash_lacks s h = ap bump h

normal_lacks :
    (lookup path : Bytes)
    → strstr path (codes "..") ≡ none
    → strstr (normalize_cache_path lookup path) (codes "..") ≡ none
unfolding normalize_cache_path
normal_lacks lookup path h =
    if_cases (λ p. strstr p (codes "..") ≡ none) _ (b'/' ∷ drop (length lookup) path) path
      (λ _.
        slash_lacks (drop (length lookup) path) (strstr-drop (codes "..") (length lookup) path h))
      (λ _. h)

-- A path that the cache is asked for goes on with a slash if the request's does.
normal_slash :
    (lookup path : Bytes)
    → (rest : Bytes) × (normalize_cache_path lookup (b'/' ∷ path) ≡ b'/' ∷ rest)
unfolding normalize_cache_path
normal_slash lookup path =
    if_cases (λ p. (rest : Bytes) × (p ≡ b'/' ∷ rest)) _ (b'/' ∷ drop (length lookup) (b'/' ∷ path))
      (b'/' ∷ path) (λ _. (drop (length lookup) (b'/' ∷ path), refl)) (λ _. (path, refl))

contains_not : (o : Option ℕ) → (elim o [ none ↦ false | some i ↦ true ]) ≡ false → o ≡ none
contains_not none h = refl
contains_not (some i) h = absurd (cc h)

allowed_lacks : (path : Bytes) → is_forbidden path ≡ false → strstr path (codes "..") ≡ none
unfolding is_forbidden
allowed_lacks path h = contains_not (strstr path (codes "..")) (ground arith)

module _ (disk disk' : Bytes → Option Bytes) where
  below_agree :
      (dir : Option Bytes) (path : Bytes) (res : FileResponse)
      → ((d : Bytes) → dir ≡ some d → AgreeBelow d disk disk')
      → strstr (b'/' ∷ path) (codes "..") ≡ none
      → serve_below disk dir (b'/' ∷ path) res ≡ serve_below disk' dir (b'/' ∷ path) res
  unfolding serve_below serve_from_filesystem
  below_agree none path res h l = refl
  below_agree (some d) path res h l =
      rw (h d refl path (strstr-tail (codes "..") b'/' path l), serve_from_filesystem)

  mode_agree :
      (s : FileServer) (mode : FileServerMode) (path : Bytes) (res : FileResponse)
      → ((d : Bytes) → s.server_config.static_dir ≡ some d → AgreeBelow d disk disk')
      → strstr (b'/' ∷ path) (codes "..") ≡ none
      → serve_mode disk s mode (b'/' ∷ path) res ≡ serve_mode disk' s mode (b'/' ∷ path) res
  unfolding serve_mode
  mode_agree s FileServerMode.memory path res h l = refl
  mode_agree s FileServerMode.filesystem path res h l =
      below_agree s.server_config.static_dir path res h l
  mode_agree s FileServerMode.hybrid path res h l =
      let lookup = s.server_config.lookup_path in
      let asked = normalize_cache_path lookup (b'/' ∷ path) in
      let (rest, slash) = normal_slash lookup path in
      let lacks_dots = normal_lacks lookup (b'/' ∷ path) l in
      let dir = s.server_config.static_dir in
      ap (λ o. or_from (serve_from_memory s asked res) o)
        (subst (λ p. serve_below disk dir p res ≡ serve_below disk' dir p res) (sym slash)
          (below_agree dir rest res h (subst (λ p. strstr p (codes "..") ≡ none) slash lacks_dots)))

-- A request whose path begins with a slash reads no file but those below the static directory: on two disks that agree
-- on every path that consists of that directory, a slash and a rest without two full stops, it has the same response,
-- in every mode.
pub handle_request-confined :
    (disk disk' : Bytes → Option Bytes) (s : FileServer) (path : Bytes) (res : FileResponse)
    → ((dir : Bytes) → s.server_config.static_dir ≡ some dir → AgreeBelow dir disk disk')
    → handle_request disk s (b'/' ∷ path) res ≡ handle_request disk' s (b'/' ∷ path) res
unfolding handle_request
handle_request-confined disk disk' s path res h = elim (Bool-cases (is_forbidden (b'/' ∷ path))) [
  | inl e ↦ rw e refl
  | inr e ↦
      rw (mode_agree disk disk' s s.server_config.mode path res h (allowed_lacks (b'/' ∷ path) e))
        refl
]
