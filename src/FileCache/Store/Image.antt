-- ===== src/FileCache/Store/Image.antt =====
-- The image of a cache on disk: what save_cache writes, and writers and readers put one after the other.
use mathlib.Core.List.{reverse-append}
use native.Mathlib.Nat.{le_refl}
use cweb.Base.{
  ℕ, zero, suc, ◌+◌, ◌%◌, ◌^◌, ◌≤◌, ◌<◌, ◌≡◌, refl, ap, ap₂, sym, ◌∙◌, true, false, [], ◌∷◌, ◌++◌,
  Option, none, some, ◌>>=◌, leb, ◌||◌, if◌then◌else◌, if_false, length, length-append, take,
  take_all, Bytes, reverse, append_assoc, append-nil, c_string, Lacks, arith,
}
use cweb.FileCache.Streams.{
  OutFile, Written, ok, ◌then_write◌, write_bytes, write_u32_le, write_u64_le, InFile, read_bytes,
  read_u32_le, u32_le, u64_le,
}
use cweb.FileCache.Streams.Codec.{past, read_bytes-append, read_u32_le-append, write_bytes_fits}
use cweb.FileCache.Store.{
  CachedFile, FileServer, max_filename, max_mime_type, write_data, write_text, write_entry,
  save_loop, save_cache, magic, max_cached_files, read_text, read_header,
}

-- A writer that appends `s`, where there is room.
abbrev Emits : (OutFile → Written) → Bytes → Type 0
Emits w s =
    (before : Bytes) (room : ℕ)
    → w (record { written = before; room = length s + room })
      ≡ ok (record { written = before ++ s; room = room })

Emits-nil : Emits (λ f. ok f) []
Emits-nil before room =
    ap₂ (λ u (r : ℕ). ok (record { written = u; room = r })) (sym (append-nil before)) (omega arith)

Emits-then :
    (w v : OutFile → Written) (s t : Bytes)
    → Emits w s
    → Emits v t
    → Emits (λ f. w f then_write v) (s ++ t)
Emits-then w v s t h k before room =
    let split : length (s ++ t) + room ≡ length s + (length t + room) =
      omega (arith, length-append s t) in
    rw split (
      ap (λ r. r then_write v) (h before (length t + room))
      ∙ k (before ++ s) room
      ∙ ap (λ u. ok (record { written = u; room = room })) (append_assoc before s t))

Emits-bytes : (s : Bytes) → Emits (write_bytes s) s
Emits-bytes s before room = write_bytes_fits s before room

Emits-u32 : (v : ℕ) → Emits (write_u32_le v) (u32_le v)
unfolding write_u32_le
Emits-u32 v before room = write_bytes_fits (u32_le v) before room

Emits-u64 : (v : ℕ) → Emits (write_u64_le v) (u64_le v)
unfolding write_u64_le
Emits-u64 v before room = write_bytes_fits (u64_le v) before room

-- A reader that takes `s`, and gives `a`.
abbrev pub Reads : {A : Type 0} → (InFile → Option (A × InFile)) → Bytes → A → Type 0
Reads r s a =
    (behind rest : Bytes)
    → r (record { behind = behind; ahead = s ++ rest }) ≡ some (a, past s behind rest)

past-append : (s t b rest : Bytes) → past t (reverse s ++ b) rest ≡ past (s ++ t) b rest
past-append s t b rest =
    ap (λ u. record { behind = u; ahead = rest })
      (sym (append_assoc (reverse t) (reverse s) b) ∙ ap (λ u. u ++ b) (sym (reverse-append s t)))

pub Reads-bind :
    {A B : Type 0} (r : InFile → Option (A × InFile)) (k : A → InFile → Option (B × InFile))
    (s t : Bytes) (a : A) (b : B)
    → Reads r s a
    → Reads (k a) t b
    → Reads (λ f. r f >>= λ p. k p.0 p.1) (s ++ t) b
Reads-bind r k s t a b h g behind rest = rw (append_assoc s t rest) (
    ap (λ o. o >>= λ p. k p.0 p.1) (h behind (t ++ rest))
    ∙ g (reverse s ++ behind) rest
    ∙ ap (λ f. some (b, f)) (past-append s t behind rest))

-- The image of a text: its length and its bytes.
abbrev pub text_image : Bytes → Bytes
text_image s = u32_le (length s) ++ s

abbrev pub content_of : CachedFile → Bytes
content_of c = elim c.content [ none ↦ [] | some d ↦ d ]

abbrev pub entry_image : CachedFile → Bytes
entry_image c =
    text_image c.filename
    ++ (text_image c.mime_type ++ (u64_le c.size ++ (u64_le c.last_modified ++ content_of c)))

abbrev pub entries_image : ℕ → ℕ → (ℕ → CachedFile) → Bytes
entries_image zero i slots = []
entries_image (suc left) i slots = entry_image (slots i) ++ entries_image left (suc i) slots

abbrev pub image : FileServer → Bytes
image s =
    u32_le magic
    ++ (u32_le 1 ++ (u32_le s.cache_count ++ entries_image s.cache_count 0 s.file_cache))

-- A text that fits a buffer and is a C string.
pub record IsText (limit : ℕ) (s : Bytes) : Type 0 where
  pub fits : length s < limit
  pub no_nul : Lacks 0 s

-- A slot that holds a whole file.
pub record IsCached (c : CachedFile) : Type 0 where
  pub name : IsText max_filename c.filename
  pub mime : IsText max_mime_type c.mime_type
  pub bytes : Bytes
  pub has_content : c.content ≡ some bytes
  pub whole : length bytes ≡ c.size
  pub size_bound : c.size < 2 ^ 64
  pub time_bound : c.last_modified < 2 ^ 64
  pub is_loaded : c.is_loaded ≡ true

c_string-Lacks : (s : Bytes) → Lacks 0 s → c_string s ≡ s
unfolding c_string
c_string-Lacks [] h = refl
c_string-Lacks (c ∷ cs) h = ground (arith, c_string-Lacks cs h.1)

Emits-text : (s : Bytes) → length s < 2 ^ 32 → Emits (write_text s) (text_image s)
unfolding write_text
Emits-text s h before room =
    let small : length s % 2 ^ 32 ≡ length s = omega arith in
    rw (small, take_all (length s) s (le_refl _))
      (Emits-then (write_u32_le (length s)) (write_bytes s) (u32_le (length s)) s
        (Emits-u32 (length s)) (Emits-bytes s) before room)

Emits-data : (c : CachedFile) → IsCached c → Emits (write_data c) (content_of c)
unfolding write_data
Emits-data c h before room =
    let all : take c.size h.bytes ≡ h.bytes = take_all c.size h.bytes (omega (arith, h.whole)) in
    rw h.has_content (rw all (write_bytes_fits h.bytes before room))

Emits-entry : (c : CachedFile) → IsCached c → Emits (write_entry c) (entry_image c)
unfolding write_entry
Emits-entry c h before room =
    let size : c.size % 2 ^ 64 ≡ c.size = omega (arith, h.size_bound) in
    let time : c.last_modified % 2 ^ 64 ≡ c.last_modified = omega (arith, h.time_bound) in
    rw (size, time)
      (if_false _ _ _ (short h.name.fits h.mime.fits)
        ∙ Emits-then (write_text c.filename) _ _ _
            (Emits-text c.filename (omega (arith, h.name.fits)))
            (Emits-then (write_text c.mime_type) _ _ _
              (Emits-text c.mime_type (omega (arith, h.mime.fits)))
              (Emits-then (write_u64_le c.size) _ _ _ (Emits-u64 c.size) (
                Emits-then (write_u64_le c.last_modified) (write_data c) _ _
                  (Emits-u64 c.last_modified) (Emits-data c h))))
            before room)
  where
    short : {n m : ℕ} → n < 256 → m < 64 → (leb 256 (n % 2 ^ 32) || leb 64 (m % 2 ^ 32)) ≡ false
    short p q = ground arith

Emits-entries :
    (left i : ℕ) (slots : ℕ → CachedFile)
    → ((j : ℕ) → j < i + left → IsCached (slots j))
    → Emits (save_loop left i slots) (entries_image left i slots)
unfolding save_loop
Emits-entries zero i slots h = Emits-nil
Emits-entries (suc left) i slots h =
    Emits-then (write_entry (slots i)) (save_loop left (suc i) slots) _ _
      (Emits-entry (slots i) (h i (omega arith)))
      (Emits-entries left (suc i) slots (λ j p. h j (omega arith)))

-- A server whose counted slots all hold whole files.
pub record IsCache (s : FileServer) : Type 0 where
  pub few : s.cache_count ≤ max_cached_files
  pub slot : (i : ℕ) → i < s.cache_count → IsCached (s.file_cache i)

-- Saving such a cache writes its image, where there is room for it.
pub save_cache-image :
    (s : FileServer) (room : ℕ)
    → IsCache s
    → save_cache (length (image s) + room) s ≡ ok (record { written = image s; room = room })
unfolding save_cache
save_cache-image s room h =
    let few : s.cache_count % 2 ^ 32 ≡ s.cache_count = omega (arith, h.few) in
    rw few (
      Emits-then (write_u32_le magic) _ _ _ (Emits-u32 magic)
        (Emits-then (write_u32_le 1) _ _ _ (Emits-u32 1) (
          Emits-then (write_u32_le s.cache_count) (save_loop s.cache_count 0 s.file_cache) _ _
            (Emits-u32 s.cache_count)
            (Emits-entries s.cache_count 0 s.file_cache (λ j p. h.slot j (omega (arith, p))))))
        [] room)

Reads-u32 : (v : ℕ) → v < 2 ^ 32 → Reads read_u32_le (u32_le v) v
Reads-u32 v h b rest = read_u32_le-append v b rest h

pub Reads-text :
    (limit : ℕ) (s : Bytes)
    → limit ≤ 2 ^ 32
    → IsText limit s
    → Reads (read_text limit) (text_image s) s
unfolding read_text
Reads-text limit s l h =
    Reads-bind read_u32_le
      (λ len f. if leb limit len then none else read_bytes len f >>= λ r. some (c_string r.0, r.1))
      (u32_le (length s)) s (length s) s (Reads-u32 (length s) (omega (arith, h.fits)))
      (λ b rest.
        if_false _ _ _ (le_test h.fits)
        ∙ ap (λ o. o >>= λ r. some (c_string r.0, r.1)) (read_bytes-append s b rest)
        ∙ ap (λ u. some (u, past s b rest)) (c_string-Lacks s h.no_nul))
  where
    le_test : {n m : ℕ} → n < m → leb m n ≡ false
    le_test p = ground arith

-- The header of the image, and the number of its entries.
pub Reads-header :
    (n : ℕ) → n < 2 ^ 32 → Reads read_header (u32_le magic ++ (u32_le 1 ++ u32_le n)) n
unfolding read_header
Reads-header n h =
    Reads-bind read_u32_le _ _ _ magic n (Reads-u32 magic (omega arith))
      (Reads-bind read_u32_le _ _ _ 1 n (Reads-u32 1 (omega arith)) (Reads-u32 n h))
