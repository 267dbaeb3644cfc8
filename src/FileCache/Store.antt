-- ===== src/FileCache/Store.antt =====
-- The state of the file server (fileserver_state.c, fileserver.h) and crud.c, fileserver.c, cleanup.c:
-- finding a cached file, and the cache's image on disk. The array of slots is a function from indices;
-- allocation succeeds. A read that fails half way leaves the slot, which is not counted, as it was.
pub mod Image
pub mod RoundTrip
pub mod Lookup
pub mod Skipped
use cweb.Base.{
  ℕ, zero, suc, ◌+◌, ◌%◌, ◌^◌, Bool, true, false, ◌&&◌, ◌||◌, not, List, [], ◌∷◌, ◌++◌, Option,
  none, some, ◌>>=◌, ltb, leb, ◌==◌, if◌then◌else◌, length, take, Bytes, bytes_eq, c_string,
}
use cweb.FileCache.Streams.{
  OutFile, Written, ok, failed, fault, ◌then_write◌, write_bytes, write_u32_le, write_u64_le,
  InFile, read_bytes, read_u32_le, read_u64_le, skip_bytes,
}

abbrev pub max_filename : ℕ
max_filename = 256

abbrev pub max_mime_type : ℕ
max_mime_type = 64

abbrev pub max_cached_files : ℕ
max_cached_files = 1024

-- `content` is the field `data`, with `none` for NULL; a time is kept modulo 2^64.
pub record CachedFile : Type 0 where
  pub filename : Bytes
  pub mime_type : Bytes
  pub content : Option Bytes
  pub size : ℕ
  pub last_modified : ℕ
  pub is_loaded : Bool

pub data FileServerMode : Type 0 where
  filesystem memory hybrid : FileServerMode

pub record FileServerConfig : Type 0 where
  pub static_dir : Option Bytes
  pub cache_file : Option Bytes
  pub lookup_path : Bytes
  pub mode : FileServerMode
  pub auto_reload : Bool
  pub max_file_size : ℕ
  pub exclude_patterns : List Bytes

pub record FileServer : Type 0 where
  pub file_cache : ℕ → CachedFile
  pub cache_count : ℕ
  pub server_config : FileServerConfig
  pub initialized : Bool

-- The index of the first slot of that name from `i` on.
unfoldable pub find_slot : (ℕ → CachedFile) → Bytes → ℕ → ℕ → Option ℕ
unfolding bytes_eq
find_slot slots name zero i = none
find_slot slots name (suc left) i =
    if bytes_eq (slots i).filename name then some i else find_slot slots name left (suc i)

unfoldable pub find_cached_file : Bytes → FileServer → Option ℕ
unfolding find_slot
find_cached_file name s = find_slot s.file_cache name s.cache_count 0

abbrev pub set_slot : ℕ → CachedFile → FileServer → FileServer
set_slot i c s = record s { file_cache = λ j. if i == j then c else s.file_cache j }

-- Every slot that is counted loses its data.
unfoldable pub clear_cache : FileServer → FileServer
clear_cache s =
    let cleared = λ (j : ℕ). record (s.file_cache j) { content = none; is_loaded = false } in
    record s {
      file_cache = λ j. if ltb j s.cache_count then cleared j else s.file_cache j;
      cache_count = 0;
    }

pub write_data : CachedFile → OutFile → Written
write_data c f = elim c.content [
  | none ↦ if c.size == 0 then ok f else fault
  | some d ↦ write_bytes (take c.size d) f
]

pub write_text : Bytes → OutFile → Written
write_text s f =
    write_u32_le (length s % 2 ^ 32) f then_write λ f. write_bytes (take (length s % 2 ^ 32) s) f

pub write_entry : CachedFile → OutFile → Written
write_entry c f =
    if leb max_filename (length c.filename % 2 ^ 32)
      || leb max_mime_type (length c.mime_type % 2 ^ 32)
    then failed f
    else write_text c.filename f then_write λ f. write_text c.mime_type f then_write λ f.
        write_u64_le (c.size % 2 ^ 64) f then_write λ f.
        write_u64_le (c.last_modified % 2 ^ 64) f then_write λ f. write_data c f

pub save_loop : ℕ → ℕ → (ℕ → CachedFile) → OutFile → Written
save_loop zero i slots f = ok f
save_loop (suc left) i slots f =
    write_entry (slots i) f then_write λ f. save_loop left (suc i) slots f

abbrev pub magic : ℕ
magic = 0xcafebabe

-- fopen has given an empty file with that much room.
pub save_cache : ℕ → FileServer → Written
save_cache room s = write_u32_le magic (record { written = []; room = room }) then_write λ f.
    write_u32_le 1 f then_write λ f.
    write_u32_le (s.cache_count % 2 ^ 32) f then_write λ f. save_loop s.cache_count 0 s.file_cache f

-- A length, and so many bytes below the limit. `none` is a break.
pub read_text : ℕ → InFile → Option (Bytes × InFile)
read_text limit f = do
  (len, f) ← read_u32_le f
  if leb limit len then none else read_bytes len f >>= λ r. some (c_string r.0, r.1)

-- What one turn of the loop leaves in its slot: `skip` is the entry that is too large.
pub data EntryRead : Type 0 where
  skip loaded : CachedFile → EntryRead

pub read_data : ℕ → CachedFile → ℕ → ℕ → InFile → Option (EntryRead × InFile)
read_data max_file_size slot data_size last_mod f =
    let large = skip_bytes data_size f >>= λ f. some (skip slot, f) in
    let small = read_bytes data_size f >>= λ r. some (
      loaded (record slot {
        content = some r.0;
        size = data_size;
        last_modified = last_mod;
        is_loaded = true;
      }),
      r.1,
    ) in
    if not (max_file_size == 0) && ltb max_file_size data_size then large else small

pub read_entry : ℕ → CachedFile → InFile → Option (EntryRead × InFile)
read_entry max_file_size slot f = do
  (filename, f) ← read_text max_filename f
  (mime_type, f) ← read_text max_mime_type f
  (data_size, f) ← read_u64_le f
  (last_mod, f) ← read_u64_le f
  read_data max_file_size (record slot { filename = filename; mime_type = mime_type }) data_size
      last_mod f

pub load_loop : ℕ → ℕ → FileServer → InFile → FileServer
load_loop zero i s f = s
load_loop (suc left) i s f = elim (read_entry s.server_config.max_file_size (s.file_cache i) f) [
  | none ↦ s
  | some (skip slot, f') ↦ load_loop left (suc i) (set_slot i slot s) f'
  | some (loaded slot, f') ↦
      load_loop left (suc i) (record (set_slot i slot s) { cache_count = suc s.cache_count }) f'
]

-- The three numbers of the header; `none` where one is missing or wrong.
pub read_header : InFile → Option (ℕ × InFile)
read_header f = do
  (m, f) ← read_u32_le f
  (version, f) ← if m == magic then read_u32_le f else none
  if version == 1 then read_u32_le f else none

-- The file's bytes, `none` where it cannot be opened; the answer says whether it is 0.
pub load_cache : Option Bytes → FileServer → Bool × FileServer
load_cache none s = (false, s)
load_cache (some content) s = elim (read_header (record { behind = []; ahead = content })) [
  | none ↦ (false, s)
  | some (file_count, f) ↦
      let turns = if ltb file_count max_cached_files then file_count else max_cached_files in
      (true, load_loop turns 0 (clear_cache s) f)
]
