-- ===== src/FileCache/Scan.antt =====
-- framework/src/filecache/fileserver.c and the rest of crud.c, configuration.c, cleanup.c: filling the cache from a
-- directory, and the life of the server. What is found on the disk is an argument; fnmatch is one too.
pub mod Kept
use cweb.Base.{
  ℕ, zero, suc, ◌+◌, ◌*◌, ◌^◌, Bool, true, false, ◌&&◌, ◌||◌, not, List, [], ◌∷◌, ◌++◌, Option,
  none, some, ltb, leb, ◌==◌, if◌then◌else◌, length, take, drop, get_or, Bytes, codes,
}
use cweb.FileCache.Streams.{Written, ok}
use cweb.FileCache.Mime.{get_mime_type, is_excluded_path}
use cweb.FileCache.Store.{
  CachedFile, FileServerMode, FileServerConfig, FileServer, max_filename, max_mime_type,
  max_cached_files, set_slot, clear_cache, save_cache, load_cache,
}

-- A regular file that can be opened and read to its end.
pub record DiskFile : Type 0 where
  pub content : Bytes
  pub mtime : ℕ

-- file_size > (long)max_file_size: a limit of 2^63 and more is negative as a long.
abbrev too_large : ℕ → ℕ → Bool
too_large file_size max_file_size = ltb max_file_size file_size || leb (2 ^ 63) max_file_size

unfoldable pub load_file_to_cache : Option DiskFile → Bytes → FileServer → Bool × FileServer
load_file_to_cache file relative_path s =
    let slot : DiskFile → CachedFile = λ f. record {
      filename = take 255 relative_path;
      mime_type = take 63 (get_mime_type relative_path);
      content = some f.content;
      size = length f.content;
      last_modified = f.mtime;
      is_loaded = true;
    } in
    let store = λ (f : DiskFile).
      if too_large (length f.content) s.server_config.max_file_size
      then (false, s)
      else (true, record (set_slot s.cache_count (slot f) s) { cache_count = suc s.cache_count }) in
    if leb max_cached_files s.cache_count
    then (false, s)
    else elim file [ none ↦ (false, s) | some f ↦ store f ]

-- What a directory holds. `other` is neither a regular file nor a directory that can be opened.
mutual
  pub data Node : Type 0 where
    file : DiskFile → Node
    dir : Entries → Node
    other : Node

  pub data Entries : Type 0 where
    nil : Entries
    cons : Bytes → Node → Entries → Entries

-- entry->d_name[0] == '.'
unfoldable pub is_hidden : Bytes → Bool
is_hidden name = get_or name 0 0 == b'.'

unfoldable pub relative_of : Bytes → Bytes → Bytes
relative_of full_path base_path =
    let rel_start = drop (length base_path) full_path in
    b'/' ∷ (if get_or rel_start 0 0 == b'/' then drop 1 rel_start else rel_start)

module _ (fnmatch : Bytes → Bytes → Bool) (base_path : Bytes) where
  abbrev pub is_excluded : Bytes → FileServer → Bool
  is_excluded rel s = is_excluded_path fnmatch s.server_config.exclude_patterns rel

  unfoldable mutual
    pub scan_directory_recursive : Bytes → Entries → FileServer → FileServer
    scan_directory_recursive dir_path nil s = s
    scan_directory_recursive dir_path (cons name node rest) s =
        let full_path = dir_path ++ b'/' ∷ name in
        let s' = scan_node full_path node s in
        scan_directory_recursive dir_path rest (if is_hidden name then s else s')

    pub scan_node : Bytes → Node → FileServer → FileServer
    scan_node full_path (file f) s =
        let rel = relative_of full_path base_path in
        if is_excluded rel s then s else (load_file_to_cache (some f) rel s).1
    scan_node full_path (dir entries) s =
        let rel = relative_of full_path base_path in
        let s' = scan_directory_recursive full_path entries s in if is_excluded rel s then s else s'
    scan_node full_path other s = s

-- The result says whether the directory could be opened; what the image is written to, if there is a cache file,
-- has so much room.
unfoldable pub build_cache :
    (Bytes → Bytes → Bool)
    → Bytes
    → Option Entries
    → Option ℕ
    → FileServer
    → Bool × FileServer × Option Written
build_cache fnmatch static_dir none cache_room s = (false, clear_cache s, none)
build_cache fnmatch static_dir (some entries) cache_room s =
    let s' = scan_directory_recursive fnmatch static_dir static_dir entries (clear_cache s) in
    (true, s', elim cache_room [ none ↦ none | some room ↦ some (save_cache room s') ])

-- The result is false for -1, and for a pattern that is empty.
config_add_exclude : Bytes → FileServerConfig → Bool × FileServerConfig
config_add_exclude [] cfg = (false, cfg)
config_add_exclude (c ∷ pattern') cfg =
    (true, record cfg { exclude_patterns = cfg.exclude_patterns ++ (c ∷ pattern') ∷ [] })

add_exclude : Bytes → FileServer → Bool × FileServer
unfolding config_add_exclude
add_exclude pattern' s =
    let (done, cfg) = config_add_exclude pattern' s.server_config in
    (done, record s { server_config = cfg })

config_free_excludes : FileServerConfig → FileServerConfig
config_free_excludes cfg = record cfg { exclude_patterns = [] }

abbrev no_config : FileServerConfig
no_config = record {
  static_dir = none;
  cache_file = none;
  lookup_path = [];
  mode = FileServerMode.filesystem;
  auto_reload = false;
  max_file_size = 0;
  exclude_patterns = [];
}

fileserver_destroy : FileServer → FileServer
fileserver_destroy s =
    if s.initialized
    then record (clear_cache s) { server_config = no_config; initialized = false }
    else s

-- What init finds: the bytes of the cache file where it can be read, and what the directory holds.
record Disk : Type 0 where
  pub cache_image : Option Bytes
  pub entries : Option Entries
  pub room : ℕ

abbrev uses_memory : FileServerMode → Bool
uses_memory FileServerMode.filesystem = false
uses_memory FileServerMode.memory = true
uses_memory FileServerMode.hybrid = true

abbrev or_else : Option Bytes → Bytes → Bytes
or_else none d = d
or_else (some b) d = b

-- The copy of the configuration that the server keeps. With an empty lookup path the directory is copied,
-- which must not be NULL then.
copy_config : FileServerConfig → FileServerConfig
copy_config cfg = record cfg {
  max_file_size = if cfg.max_file_size == 0 then 10 * 1024 * 1024 else cfg.max_file_size;
  lookup_path = if length cfg.lookup_path == 0 then or_else cfg.static_dir [] else cfg.lookup_path;
}

-- An image that can be read is loaded; else the cache is built, and saved where there is a cache file.
fill_cache : (Bytes → Bytes → Bool) → Disk → FileServer → FileServer
fill_cache fnmatch disk s =
    let build : FileServer = elim s.server_config.static_dir [
      | none ↦ s
      | some static_dir ↦
          (build_cache fnmatch static_dir disk.entries
            (elim s.server_config.cache_file [ none ↦ none | some f ↦ some disk.room ]) s).1
    ] in
    elim s.server_config.cache_file [
      | none ↦ build
      | some f ↦ elim disk.cache_image [ none ↦ build | some image ↦ (load_cache (some image) s).1 ]
    ]

fileserver_init : (Bytes → Bytes → Bool) → Disk → FileServerConfig → FileServer → FileServer
unfolding fileserver_destroy copy_config fill_cache
fileserver_init fnmatch disk cfg s =
    let s' = record (fileserver_destroy s) { server_config = copy_config cfg } in
    let filled = if uses_memory cfg.mode then fill_cache fnmatch disk s' else s' in
    record filled { initialized = true }

default_fileserver_config :
    (Bytes → Bytes → Bool) → Disk → FileServerMode → ℕ → Bool → FileServer → FileServer
unfolding fileserver_init config_add_exclude
default_fileserver_config fnmatch disk mode max_file_size auto_reload s =
    let cfg : FileServerConfig = record {
      static_dir = some (codes "./assets");
      cache_file = some (codes "./build/static_cache.bin");
      lookup_path = codes "/assets/";
      mode = mode;
      auto_reload = auto_reload;
      max_file_size = max_file_size;
      exclude_patterns = [];
    } in
    let cfg' =
      (config_add_exclude (codes "/privat/*")
        (config_add_exclude (codes "/*.zip") (config_add_exclude (codes "/*.map") cfg).1).1).1 in
    fileserver_init fnmatch disk cfg' s
