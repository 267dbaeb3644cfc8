-- ===== src/FileCache/Scan/Kept.antt =====
-- What holds of the cache after a scan, whatever the directory holds.
use cweb.Base.{
  ℕ, suc, ◌^◌, ◌≤◌, ◌<◌, ◌≡◌, refl, subst, Bool, false, ◌∷◌, ◌++◌, Option, some, leb, ◌==◌,
  if_cases, length, length-take, take, drop, get_or, Bytes, Lacks, All-append, All-take, All-drop,
  arith,
}
use cweb.FileCache.Mime.{get_mime_type, is_excluded_path}
use cweb.FileCache.Mime.Table.{get_mime_type-Lacks}
use cweb.FileCache.Store.{
  CachedFile, FileServerConfig, FileServer, max_cached_files, clear_cache, set_slot,
}
use cweb.FileCache.Store.Image.{IsCached, IsCache}
use cweb.FileCache.Scan.{
  DiskFile, load_file_to_cache, Node, file, dir, other, Entries, nil, cons, is_hidden, relative_of,
  is_excluded, scan_directory_recursive, scan_node, build_cache,
}

-- The names are C strings, and sizes and times fit 64 bits.
abbrev mutual
  IsNode : Node → Type 0
  IsNode (file f) = (length f.content < 2 ^ 64) × (f.mtime < 2 ^ 64)
  IsNode (dir entries) = IsEntries entries
  IsNode other = Unit {0}

  IsEntries : Entries → Type 0
  IsEntries nil = Unit {0}
  IsEntries (cons name node rest) = Lacks 0 name × IsNode node × IsEntries rest

module _ (fnmatch : Bytes → Bytes → Bool) (cfg : FileServerConfig) where
  -- A slot holds a file whose path no pattern excludes, and which is not over the limit.
  pub record IsAllowed (c : CachedFile) : Type 0 where
    pub path : Bytes
    pub name : c.filename ≡ take 255 path
    pub not_excluded : is_excluded_path fnmatch cfg.exclude_patterns path ≡ false
    pub size : c.size ≤ cfg.max_file_size

  pub record IsBuilt (s : FileServer) : Type 0 where
    pub config : s.server_config ≡ cfg
    pub cache : IsCache s
    pub allowed : (i : ℕ) → i < s.cache_count → IsAllowed (s.file_cache i)

  store_slot-IsBuilt :
      (c : CachedFile) (s : FileServer)
      → s.cache_count < max_cached_files
      → IsCached c
      → IsAllowed c
      → IsBuilt s
      → IsBuilt (record (set_slot s.cache_count c s) { cache_count = suc s.cache_count })
  store_slot-IsBuilt c s few new allowed h =
      let n = s.cache_count in
      record {
        config = h.config;
        cache = record {
          few = omega arith;
          slot = λ i l.
              if_cases IsCached (n == i) c (s.file_cache i) (λ e. new)
                (λ e. h.cache.slot i (below i n l e));
        };
        allowed = λ i l.
            if_cases IsAllowed (n == i) c (s.file_cache i) (λ e. allowed)
              (λ e. h.allowed i (below i n l e));
      }
    where
      below : (i n : ℕ) → i < suc n → (n == i) ≡ false → i < n
      below i n l e = ground arith

  load_file-IsBuilt :
      (f : DiskFile) (rel : Bytes) (s : FileServer)
      → IsNode (file f)
      → Lacks 0 rel
      → is_excluded_path fnmatch cfg.exclude_patterns rel ≡ false
      → IsBuilt s
      → IsBuilt (load_file_to_cache (some f) rel s).1
  unfolding load_file_to_cache
  load_file-IsBuilt f rel s n l e h =
      if_cases (λ (r : Bool × FileServer). IsBuilt r.1) (leb max_cached_files s.cache_count)
        (false, s) _ (λ _. h)
        (λ room.
          if_cases (λ (r : Bool × FileServer). IsBuilt r.1) _ (false, s) _ (λ _. h)
            (λ small.
              store_slot-IsBuilt _ s (ground arith)
                (record {
                  name = record {
                    fits = omega (arith, length-take 255 rel);
                    no_nul = All-take _ 255 rel l;
                  };
                  mime = record {
                    fits = omega (arith, length-take 63 (get_mime_type rel));
                    no_nul = All-take _ 63 (get_mime_type rel) (get_mime_type-Lacks rel);
                  };
                  bytes = f.content;
                  has_content = refl;
                  whole = refl;
                  size_bound = n.0;
                  time_bound = n.1;
                  is_loaded = refl;
                })
                (record {
                  path = rel;
                  name = refl;
                  not_excluded = e;
                  size =
                      subst (λ (c : FileServerConfig). length f.content ≤ c.max_file_size) h.config
                        (ground arith);
                })
                h))

  relative_of-Lacks : (full base : Bytes) → Lacks 0 full → Lacks 0 (relative_of full base)
  unfolding relative_of
  relative_of-Lacks full base h =
      let r = drop (length base) full in
      let l = All-drop _ (length base) full h in
      (
        omega arith,
        if_cases (Lacks 0) (get_or r 0 0 == b'/') (drop 1 r) r (λ _. All-drop _ 1 r l) (λ _. l),
      )

  mutual
    unfolding scan_directory_recursive scan_node

    scan-IsBuilt :
        (base path : Bytes) (es : Entries) (s : FileServer)
        → Lacks 0 path
        → IsEntries es
        → IsBuilt s
        → IsBuilt (scan_directory_recursive fnmatch base path es s)
    scan-IsBuilt base path nil s l w h = h
    scan-IsBuilt base path (cons name node rest) s l w h =
        let full = path ++ b'/' ∷ name in
        scan-IsBuilt base path rest _ l w.2 (
          if_cases IsBuilt (is_hidden name) s (scan_node fnmatch base full node s) (λ _. h)
            (λ _.
              node-IsBuilt base full node s (All-append _ path (b'/' ∷ name) l (omega arith, w.0))
                w.1 h))

    node-IsBuilt :
        (base full : Bytes) (node : Node) (s : FileServer)
        → Lacks 0 full
        → IsNode node
        → IsBuilt s
        → IsBuilt (scan_node fnmatch base full node s)
    node-IsBuilt base full (file f) s l w h =
        let rel = relative_of full base in
        if_cases IsBuilt (is_excluded fnmatch base rel s) s _ (λ _. h)
          (λ e.
            load_file-IsBuilt f rel s w (relative_of-Lacks full base l)
              (subst
                (λ (c : FileServerConfig). is_excluded_path fnmatch c.exclude_patterns rel ≡ false)
                h.config e)
              h)
    node-IsBuilt base full (dir es) s l w h =
        if_cases IsBuilt (is_excluded fnmatch base (relative_of full base) s) s _ (λ _. h)
          (λ e. scan-IsBuilt base full es s l w h)
    node-IsBuilt base full other s l w h = h

-- However a directory is laid out, the cache that is built from it holds at most 1024 files, each of them
-- whole and with a name and a type that fit, and each of them at a path that no pattern excludes and not over the limit
-- on sizes. The names must be without NUL, and sizes and times below 2^64.
pub build_cache-IsBuilt :
    (fnmatch : Bytes → Bytes → Bool) (static_dir : Bytes) (entries : Entries) (room : Option ℕ)
    (s : FileServer)
    → Lacks 0 static_dir
    → IsEntries entries
    → IsBuilt fnmatch s.server_config (build_cache fnmatch static_dir (some entries) room s).1
unfolding build_cache clear_cache
build_cache-IsBuilt fnmatch static_dir entries room s l w =
    scan-IsBuilt fnmatch s.server_config static_dir static_dir entries (clear_cache s) l w (record {
      config = refl;
      cache = record { few = omega arith; slot = λ i l. absurd (omega arith) };
      allowed = λ i l. absurd (omega arith);
    })
