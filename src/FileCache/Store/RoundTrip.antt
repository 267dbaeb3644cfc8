-- ===== src/FileCache/Store/RoundTrip.antt =====
-- A cache that is saved and loaded again.
use native.Mathlib.Nat.{le_refl}
use cweb.Base.{
  ℕ, zero, suc, ◌+◌, ◌≤◌, ◌<◌, ◌≡◌, ◌⊎◌, inl, inr, refl, ap, sym, ◌∙◌, subst, Bool, true, false,
  not, ◌&&◌, [], ◌++◌, some, ◌>>=◌, ltb, ◌==◌, if◌then◌else◌, if_true, if_false, Bool-cases, ==_iff,
  length, Bytes, reverse, append_assoc, append-nil, arith,
}
use cweb.FileCache.Streams.{OutFile, ok, InFile, read_bytes, read_u64_le, u32_le, u64_le}
use cweb.FileCache.Streams.Codec.{past, read_bytes-append, read_u64_le-append}
use cweb.FileCache.Store.{
  CachedFile, FileServer, max_filename, max_mime_type, max_cached_files, save_cache, magic,
  read_text, read_data, read_entry, read_header, loaded, load_loop, load_cache, clear_cache,
  set_slot,
}
use cweb.FileCache.Store.Image.{
  Reads, Reads-bind, Reads-text, Reads-header, text_image, IsCached, IsCache, image, entry_image,
  entries_image, content_of, save_cache-image,
}

-- The limit on the size of a file lets it pass; 0 is no limit.
abbrev Passes : ℕ → ℕ → Type 0
Passes max_file_size size = (max_file_size ≡ 0) ⊎ (size ≤ max_file_size)

small-Passes : {limit size : ℕ} → Passes limit size → (not (limit == 0) && ltb limit size) ≡ false
small-Passes (inl e) = ground arith
small-Passes (inr h) = ground arith

Reads-data :
    (limit : ℕ) (slot c : CachedFile) (h : IsCached c)
    → Passes limit c.size
    → Reads (read_data limit slot c.size c.last_modified) (content_of c) (
        loaded (record slot {
          content = c.content;
          size = c.size;
          last_modified = c.last_modified;
          is_loaded = true;
        }))
unfolding read_data
Reads-data limit slot c h p b rest = rw h.has_content (
    if_false _ _ _ (small-Passes p)
    ∙ ap
        (λ o. o >>= λ r. some (
          loaded (record slot {
            content = some r.0;
            size = c.size;
            last_modified = c.last_modified;
            is_loaded = true;
          }),
          r.1,
        ))
        (subst
          (λ n.
            read_bytes n (record { behind = b; ahead = h.bytes ++ rest })
            ≡ some (h.bytes, past h.bytes b rest))
          h.whole (read_bytes-append h.bytes b rest)))

-- A turn of the loop gives the entry back.
Reads-entry :
    (limit : ℕ) (slot c : CachedFile) (h : IsCached c)
    → Passes limit c.size
    → Reads (read_entry limit slot) (entry_image c) (loaded c)
unfolding read_entry
Reads-entry limit slot c h p b rest =
    Reads-bind (read_text max_filename) _ (text_image c.filename) _ c.filename _
      (Reads-text max_filename c.filename (omega arith) h.name)
      (Reads-bind (read_text max_mime_type) _ (text_image c.mime_type) _ c.mime_type _
        (Reads-text max_mime_type c.mime_type (omega arith) h.mime)
        (Reads-bind read_u64_le _ (u64_le c.size) _ c.size _
          (λ b rest. read_u64_le-append c.size b rest h.size_bound)
          (Reads-bind read_u64_le _ (u64_le c.last_modified) _ c.last_modified _
            (λ b rest. read_u64_le-append c.last_modified b rest h.time_bound)
            (Reads-data limit (record slot { filename = c.filename; mime_type = c.mime_type }) c h
              p))))
      b rest
    ∙ ap (λ (v : Bool). some (loaded (record c { is_loaded = v }), past (entry_image c) b rest))
        (sym h.is_loaded)

-- The turn of the loop that fills a slot.
load_step :
    (n i : ℕ) (t : FileServer) (f f' : InFile) (c : CachedFile)
    → read_entry t.server_config.max_file_size (t.file_cache i) f ≡ some (loaded c, f')
    → load_loop (suc n) i t f
      ≡ load_loop n (suc i) (record (set_slot i c t) { cache_count = suc t.cache_count }) f'
unfolding load_loop
load_step n i t f f' c e = rw (e, load_loop) refl

-- What the loop leaves of a server.
pub record IsLoaded (i n : ℕ) (slots : ℕ → CachedFile) (t r : FileServer) : Type 0 where
  pub count : r.cache_count ≡ t.cache_count + n
  pub new_slot : (j : ℕ) → i ≤ j → j < i + n → r.file_cache j ≡ slots j
  pub old_slot : (j : ℕ) → j < i → r.file_cache j ≡ t.file_cache j

pub load_loop-IsLoaded :
    (n i : ℕ) (slots : ℕ → CachedFile) (t : FileServer) (b rest : Bytes)
    → ((j : ℕ) → i ≤ j → j < i + n → IsCached (slots j))
    → ((j : ℕ) → i ≤ j → j < i + n → Passes t.server_config.max_file_size (slots j).size)
    → IsLoaded i n slots t
        (load_loop n i t (record { behind = b; ahead = entries_image n i slots ++ rest }))
load_loop-IsLoaded zero i slots t b rest h p =
    unfold load_loop in
    record { count = omega arith; new_slot = λ j l m. absurd (omega arith); old_slot = λ j l. refl }
load_loop-IsLoaded (suc n) i slots t b rest h p =
    let c = slots i in
    let t' = record (set_slot i c t) { cache_count = suc t.cache_count } in
    let more = entries_image n (suc i) slots ++ rest in
    let ih =
      load_loop-IsLoaded n (suc i) slots t' (reverse (entry_image c) ++ b) rest
        (λ j l q. h j (omega arith) (omega arith)) (λ j l q. p j (omega arith) (omega arith)) in
    let turn =
      load_step n i t (record { behind = b; ahead = entry_image c ++ more })
        (past (entry_image c) b more) c
        (Reads-entry t.server_config.max_file_size (t.file_cache i) c
          (h i (le_refl i) (omega arith)) (p i (le_refl i) (omega arith)) b more) in
    rw (append_assoc (entry_image c) (entries_image n (suc i) slots) rest) (
      subst (IsLoaded i (suc n) slots t) (sym turn) (record {
        count = omega (arith, ih.count);
        new_slot = λ j l m. elim (Bool-cases (i == j)) [
          | inl e ↦ ih.old_slot j (ground arith) ∙ if_true _ _ _ e ∙ ap slots ((==_iff i j).0 e)
          | inr e ↦ ih.new_slot j (ground arith) (omega arith)
        ];
        old_slot = λ j l. ih.old_slot j (omega arith) ∙ if_false _ _ _ (ne_test l);
      }))
  where
    ne_test : {j i : ℕ} → j < i → (i == j) ≡ false
    ne_test l = ground arith

load_known :
    (content : Bytes) (t : FileServer) (n : ℕ) (f : InFile)
    → read_header (record { behind = []; ahead = content }) ≡ some (n, f)
    → n ≤ max_cached_files
    → load_cache (some content) t ≡ (true, load_loop n 0 (clear_cache t) f)
unfolding load_cache
load_known content t n f e h =
    rw (e, load_cache) (ap (λ m. (true, load_loop m 0 (clear_cache t) f)) (turns h))
  where
    turns : {n : ℕ} → n ≤ 1024 → (if ltb n 1024 then n else 1024) ≡ n
    turns h = ground arith

-- The loop over the image of a cache.
pub load_image :
    (s t : FileServer)
    → IsCache s
    → load_cache (some (image s)) t ≡ (
      true,
      load_loop s.cache_count 0 (clear_cache t) (record {
        behind = reverse (u32_le magic ++ (u32_le 1 ++ u32_le s.cache_count)) ++ [];
        ahead = entries_image s.cache_count 0 s.file_cache ++ [];
      }),
    )
load_image s t h =
    let n = s.cache_count in
    let entries = entries_image n 0 s.file_cache in
    let head = u32_le magic ++ (u32_le 1 ++ u32_le n) in
    let regroup : head ++ entries ≡ image s =
      append_assoc (u32_le magic) _ entries
      ∙ ap (◌++◌ (u32_le magic)) (append_assoc (u32_le 1) (u32_le n) entries) in
    let header = Reads-header n (omega (arith, h.few)) [] entries in
    load_known (image s) t n _
      (subst (λ u. read_header (record { behind = []; ahead = u }) ≡ some (n, past head [] entries))
        regroup header)
      h.few
    ∙ ap
        (λ u.
          (true, load_loop n 0 (clear_cache t) (record { behind = reverse head ++ []; ahead = u })))
        (sym (append-nil entries))

-- A server whose cache holds whole files, of names and types that fit and with no NUL inside, can be saved to a
-- file with room enough, and any server that loads that file, and whose limit on sizes lets the files pass,
-- has afterwards the same number of files, with the same names, types, contents, sizes and times, in the same order.
pub load-save_cache :
    (s t : FileServer) (room : ℕ)
    → IsCache s
    → ((i : ℕ) → i < s.cache_count → Passes t.server_config.max_file_size (s.file_cache i).size)
    → (file : OutFile) × (save_cache (length (image s) + room) s ≡ ok file)
      × ((load_cache (some file.written) t).0 ≡ true)
      × ((load_cache (some file.written) t).1.cache_count ≡ s.cache_count)
      × ((i : ℕ)
          → i < s.cache_count
          → (load_cache (some file.written) t).1.file_cache i ≡ s.file_cache i)
unfolding clear_cache
load-save_cache s t room h p =
    let n = s.cache_count in
    let known = load_image s t h in
    let r : IsLoaded 0 n s.file_cache (clear_cache t) (load_cache (some (image s)) t).1 = rw known (
      load_loop-IsLoaded n 0 s.file_cache (clear_cache t) _ [] (λ j l q. h.slot j (omega arith))
        (λ j l q. p j (omega arith))) in
    (
      record { written = image s; room = room },
      save_cache-image s room h,
      rw known refl,
      r.count ∙ omega arith,
      λ i q. r.new_slot i (omega arith) (omega arith),
    )
