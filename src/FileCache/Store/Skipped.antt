-- ===== src/FileCache/Store/Skipped.antt =====
-- A saved file that is over the limit of the server that loads the cache.
use cweb.Base.{
  ℕ, zero, suc, ◌+◌, List, ◌∷◌, ◌^◌, ◌≤◌, ◌<◌, ◌≡◌, ◌≢◌, inl, inr, refl, ap, ap₂, sym, ◌∙◌, subst,
  Bool, true, not, ◌&&◌, [], ◌++◌, none, some, ◌>>=◌, ltb, ◌==◌, if_true, Bool-cases, ==_iff,
  length, take-append, drop-append, Bytes, reverse, append_assoc, arith,
}
use cweb.FileCache.Streams.{InFile, u32_le, u64_le, skip_bytes, read_u64_le}
use cweb.FileCache.Streams.Codec.{past, read_u64_le-append}
use cweb.FileCache.Store.{
  CachedFile, FileServer, max_filename, max_mime_type, read_text, read_data, read_entry, skip,
  find_cached_file, load_loop, load_cache, clear_cache, magic, set_slot,
}
use cweb.FileCache.Store.Image.{
  Reads, Reads-bind, Reads-text, text_image, IsCached, IsCache, image, entry_image, entries_image,
  content_of,
}
use cweb.FileCache.Store.Lookup.{find_slot-none}
use cweb.FileCache.Store.RoundTrip.{IsLoaded, load_loop-IsLoaded, load_image}

skip_bytes-append :
    (s b rest : Bytes)
    → length s < 2 ^ 63
    → skip_bytes (length s) (record { behind = b; ahead = s ++ rest }) ≡ some (past s b rest)
unfolding skip_bytes
skip_bytes-append s b rest h =
    if_true (ltb (length s) (2 ^ 63)) _ _ (ground arith)
    ∙ ap₂ (λ u v. some (record { behind = reverse u ++ b; ahead = v })) (take-append s rest)
        (drop-append s rest)

-- What is left in the slot of a file that is too large.
abbrev pub skipped : CachedFile → CachedFile → CachedFile
skipped slot c = record slot { filename = c.filename; mime_type = c.mime_type }

Reads-large :
    (limit : ℕ) (slot c : CachedFile) (h : IsCached c)
    → 0 < limit
    → limit < c.size
    → c.size < 2 ^ 63
    → Reads (read_data limit slot c.size c.last_modified) (content_of c) (skip slot)
unfolding read_data
Reads-large limit slot c h pos large small b rest = rw h.has_content (
    if_true (not (limit == 0) && ltb limit c.size) _ _ (ground arith)
    ∙ ap (λ o. o >>= λ f. some (skip slot, f))
        (subst
          (λ n.
            skip_bytes n (record { behind = b; ahead = h.bytes ++ rest })
            ≡ some (past h.bytes b rest))
          h.whole (skip_bytes-append h.bytes b rest (omega (arith, h.whole)))))

Reads-skipped :
    (limit : ℕ) (slot c : CachedFile) (h : IsCached c)
    → 0 < limit
    → limit < c.size
    → c.size < 2 ^ 63
    → Reads (read_entry limit slot) (entry_image c) (skip (skipped slot c))
unfolding read_entry
Reads-skipped limit slot c h pos large small =
    Reads-bind (read_text max_filename) _ (text_image c.filename) _ c.filename _
      (Reads-text max_filename c.filename (omega arith) h.name)
      (Reads-bind (read_text max_mime_type) _ (text_image c.mime_type) _ c.mime_type _
        (Reads-text max_mime_type c.mime_type (omega arith) h.mime)
        (Reads-bind read_u64_le _ (u64_le c.size) _ c.size _
          (λ b rest. read_u64_le-append c.size b rest h.size_bound)
          (Reads-bind read_u64_le _ (u64_le c.last_modified) _ c.last_modified _
            (λ b rest. read_u64_le-append c.last_modified b rest h.time_bound)
            (Reads-large limit (skipped slot c) c h pos large small))))

skip_step :
    (n i : ℕ) (t : FileServer) (f f' : InFile) (c : CachedFile)
    → read_entry t.server_config.max_file_size (t.file_cache i) f ≡ some (skip c, f')
    → load_loop (suc n) i t f ≡ load_loop n (suc i) (set_slot i c t) f'
unfolding load_loop
skip_step n i t f f' c e = rw (e, load_loop) refl

-- The `n` slots from the `i`-th on.
abbrev pub slots_from : ℕ → ℕ → (ℕ → CachedFile) → List CachedFile
slots_from zero i slots = []
slots_from (suc n) i slots = slots i ∷ slots_from n (suc i) slots

slots_from_same :
    (n i : ℕ) (f g : ℕ → CachedFile)
    → ((j : ℕ) → i ≤ j → j < i + n → f j ≡ g j)
    → slots_from n i f ≡ slots_from n i g
slots_from_same zero i f g h = refl
slots_from_same (suc n) i f g h =
    ap₂ (λ c l. c ∷ l) (h i (omega arith) (omega arith))
      (slots_from_same n (suc i) f g (λ j low high. h j (omega (arith, low)) (omega (arith, high))))

-- Of a cache whose files are all loaded and bounded as the arrays are, the image is read by a server with a limit on the
-- size of files. Where the first file is over that limit and below 2^63 bytes, and the others are not over it, every
-- other file is read into its slot, but the count stops one short of the slots: the last file of the image, which is
-- in its slot, cannot be found, unless another one bears its name.
pub load_cache_loses_last :
    (s t : FileServer) (n : ℕ)
    → IsCache s
    → s.cache_count ≡ suc n
    → 0 < t.server_config.max_file_size
    → t.server_config.max_file_size < (s.file_cache 0).size
    → (s.file_cache 0).size < 2 ^ 63
    → ((i : ℕ) → 0 < i → i < suc n → (s.file_cache i).size ≤ t.server_config.max_file_size)
    → ((i : ℕ) → i < n → (s.file_cache i).filename ≢ (s.file_cache n).filename)
    → ((load_cache (some (image s)) t).1.cache_count ≡ n)
      × (slots_from n 1 (load_cache (some (image s)) t).1.file_cache ≡ slots_from n 1 s.file_cache)
      × (find_cached_file (s.file_cache n).filename (load_cache (some (image s)) t).1 ≡ none)
unfolding clear_cache find_cached_file
load_cache_loses_last s t n h count pos large small fits distinct =
    let c = s.file_cache 0 in
    let t' = set_slot 0 (skipped ((clear_cache t).file_cache 0) c) (clear_cache t) in
    let limit = t.server_config.max_file_size in
    let cached : (i : ℕ) → i < suc n → IsCached (s.file_cache i) = λ i l. h.slot i (omega arith) in
    let start = reverse (u32_le magic ++ (u32_le 1 ++ u32_le s.cache_count)) ++ [] in
    let more = entries_image n 1 s.file_cache ++ [] in
    let ran : FileServer = load_loop n 1 t' (past (entry_image c) start more) in
    let same : load_cache (some (image s)) t ≡ (true, ran) =
      load_image s t h
      ∙ ap
          (λ m. (
            true,
            load_loop m 0 (clear_cache t)
                (record { behind = start; ahead = entries_image m 0 s.file_cache ++ [] }),
          ))
          count
      ∙ ap (λ u. (true, load_loop (suc n) 0 (clear_cache t) (record { behind = start; ahead = u })))
          (append_assoc (entry_image c) (entries_image n 1 s.file_cache) [])
      ∙ ap (λ u. (true, u))
          (skip_step n 0 (clear_cache t) _ (past (entry_image c) start more)
            (skipped ((clear_cache t).file_cache 0) c)
            (Reads-skipped limit ((clear_cache t).file_cache 0) c (cached 0 (omega arith)) pos large
              small start more)) in
    let r : IsLoaded 1 n s.file_cache t' ran =
      load_loop-IsLoaded n 1 s.file_cache t' _ [] (λ j k l. cached j (omega arith))
        (λ j k l. inr (fits j (omega arith) (omega arith))) in
    let name_of : (j : ℕ) → j < n → (ran.file_cache j).filename ≡ (s.file_cache j).filename = λ j l.
      elim (Bool-cases (j == 0)) [
        | inl e ↦
            subst (λ k. (ran.file_cache k).filename ≡ (s.file_cache k).filename)
              (sym ((==_iff j 0).0 e)) (ap (λ d. d.filename) (r.old_slot 0 (omega arith)))
        | inr e ↦ ap (λ d. d.filename) (r.new_slot j (ground arith) (omega arith))
      ] in
    let counted : ran.cache_count ≡ n = omega (arith, r.count) in
    (
      ap (λ (u : Bool × FileServer). u.1.cache_count) same ∙ counted,
      ap (λ (u : Bool × FileServer). slots_from n 1 u.1.file_cache) same
          ∙ slots_from_same n 1 ran.file_cache s.file_cache (λ j low high. r.new_slot j low high),
      ap (λ (u : Bool × FileServer). find_cached_file (s.file_cache n).filename u.1) same
          ∙ find_slot-none ran.cache_count 0 ran.file_cache (s.file_cache n).filename
              (λ j l e. distinct j (omega arith) (sym (name_of j (omega arith)) ∙ e)),
    )
