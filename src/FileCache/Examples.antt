-- ===== src/FileCache/Examples.antt =====
-- The file server at concrete inputs.
use cweb.Base.{
  ℕ, zero, suc, ◌+◌, ◌<◌, ◌≤◌, ◌≡◌, ◌≢◌, refl, inr, Bool, true, false, [], ◌∷◌, Option, none, some,
  length, Bytes, codes, lacks-Lacks, arith, strstr, starts_with, case_eq, ◌==◌, if◌then◌else◌,
  subst,
}
use cweb.Pending.{ResponseState}
use cweb.FileCache.Streams.{OutFile, ok}
use cweb.FileCache.Mime.{
  get_mime_type, get_resource_priority, is_static_file, mapping_of, find_mapping, is_excluded_path,
}
use cweb.FileCache.Store.{
  CachedFile, FileServerMode, FileServerConfig, FileServer, save_cache, load_cache,
  find_cached_file, clear_cache,
}
use cweb.FileCache.Store.Image.{IsCached, IsCache, image}
use cweb.FileCache.Store.RoundTrip.{load-save_cache}
use cweb.FileCache.Store.Skipped.{slots_from, load_cache_loses_last}
use cweb.FileCache.Scan.{
  file, dir, nil, cons, Entries, build_cache, scan_directory_recursive, scan_node,
  load_file_to_cache, is_hidden, relative_of,
}
use cweb.FileCache.Scan.Kept.{IsBuilt, build_cache-IsBuilt}
use cweb.FileCache.Serve.{FileResponse, file_response, plain, is_forbidden, handle_request}
use cweb.FileCache.Serve.Confined.{AgreeBelow, handle_request-confined}
use cweb.FileCache.Serve.Modes.{handle_request_memory}

abbrev config : FileServerMode → FileServerConfig
config mode = record {
  static_dir = some (codes "./assets");
  cache_file = none;
  lookup_path = codes "/assets/";
  mode = mode;
  auto_reload = false;
  max_file_size = 3;
  exclude_patterns = codes "/privat/" ∷ [];
}

abbrev cached : Bytes → Bytes → CachedFile
cached name content = record {
  filename = name;
  mime_type = codes "text/css";
  content = some content;
  size = length content;
  last_modified = 7;
  is_loaded = true;
}

-- Two files, the first of them over the limit of 3 bytes.
abbrev two_slots : ℕ → CachedFile
two_slots zero = cached (codes "/big.css") (codes "abcd")
two_slots (suc i) = cached (codes "/a.css") (codes "xy")

abbrev server : FileServerMode → (ℕ → CachedFile) → ℕ → FileServer
server mode slots count = record {
  file_cache = slots;
  cache_count = count;
  server_config = config mode;
  initialized = true;
}

abbrev one_file : FileServer
one_file = server FileServerMode.hybrid (λ i. cached (codes "/a.css") (codes "xy")) 1

abbrev two_files : FileServer
two_files = server FileServerMode.hybrid two_slots 2

small-IsCached : IsCached (cached (codes "/a.css") (codes "xy"))
small-IsCached = record {
  name = record { fits = omega arith; no_nul = lacks-Lacks 0 (codes "/a.css") refl };
  mime = record { fits = omega arith; no_nul = lacks-Lacks 0 (codes "text/css") refl };
  bytes = codes "xy";
  has_content = refl;
  whole = refl;
  size_bound = omega arith;
  time_bound = omega arith;
  is_loaded = refl;
}

big-IsCached : IsCached (cached (codes "/big.css") (codes "abcd"))
big-IsCached = record {
  name = record { fits = omega arith; no_nul = lacks-Lacks 0 (codes "/big.css") refl };
  mime = record { fits = omega arith; no_nul = lacks-Lacks 0 (codes "text/css") refl };
  bytes = codes "abcd";
  has_content = refl;
  whole = refl;
  size_bound = omega arith;
  time_bound = omega arith;
  is_loaded = refl;
}

one_file-IsCache : IsCache one_file
one_file-IsCache = record { few = omega arith; slot = λ i l. small-IsCached }

two_slots-IsCached : (i : ℕ) → IsCached (two_slots i)
two_slots-IsCached zero = big-IsCached
two_slots-IsCached (suc i) = small-IsCached

two_files-IsCache : IsCache two_files
two_files-IsCache = record { few = omega arith; slot = λ i l. two_slots-IsCached i }

load-save_cache_example :
    (out : OutFile) × (save_cache (length (image one_file) + 100) one_file ≡ ok out)
    × ((load_cache (some out.written) two_files).0 ≡ true)
    × ((load_cache (some out.written) two_files).1.cache_count ≡ 1)
    × ((i : ℕ)
        → i < 1
        → (load_cache (some out.written) two_files).1.file_cache i ≡ one_file.file_cache i)
load-save_cache_example =
    load-save_cache one_file two_files 100 one_file-IsCache (λ i l. inr (omega arith))

other_name : (i : ℕ) → i < 1 → (two_slots i).filename ≢ codes "/a.css"
other_name zero l e = cc e
other_name (suc i) l e = absurd (omega arith)

small_rest : (i : ℕ) → 0 < i → i < 2 → (two_slots i).size ≤ 3
small_rest zero k l = absurd (omega arith)
small_rest (suc i) k l = omega arith

load_cache_loses_last_example :
    ((load_cache (some (image two_files)) one_file).1.cache_count ≡ 1)
    × (slots_from 1 1 (load_cache (some (image two_files)) one_file).1.file_cache
        ≡ cached (codes "/a.css") (codes "xy") ∷ [])
    × (find_cached_file (codes "/a.css") (load_cache (some (image two_files)) one_file).1 ≡ none)
load_cache_loses_last_example =
    load_cache_loses_last two_files one_file 1 two_files-IsCache refl (omega arith) (omega arith)
      (omega arith) small_rest other_name

abbrev no_match : Bytes → Bytes → Bool
no_match pattern' path = false

abbrev assets : Entries
assets = cons (codes "a.css") (file (record { content = codes "xy"; mtime = 7 })) (
    cons (codes "privat")
      (dir (cons (codes "key.txt") (file (record { content = codes "k"; mtime = 7 })) nil)) nil)

build_cache-IsBuilt_example :
    IsBuilt no_match
      (config FileServerMode.hybrid)
      (build_cache no_match (codes "./assets") (some assets) (some 9) one_file).1
build_cache-IsBuilt_example =
    build_cache-IsBuilt no_match (codes "./assets") assets (some 9) one_file
      (lacks-Lacks 0 (codes "./assets") refl)
      (
        lacks-Lacks 0 (codes "a.css") refl,
        (omega arith, omega arith),
        (
          lacks-Lacks 0 (codes "privat") refl,
          (lacks-Lacks 0 (codes "key.txt") refl, (omega arith, omega arith), tt),
          tt,
        ),
      )

abbrev empty : FileResponse
empty = record {
  response = record { status_code = 0; headers = []; body = [] };
  priority = 0;
  state = ResponseState.processing;
}

-- The directory is entered, and its file is not cached.
privat_left_out :
    (build_cache no_match (codes "./assets") (some assets) none one_file).1.cache_count ≡ 1
unfolding build_cache scan_directory_recursive scan_node load_file_to_cache is_hidden relative_of
    is_excluded_path starts_with clear_cache get_mime_type
privat_left_out = refl

static_css : is_static_file (codes "/assets/") (codes "/assets/site.CSS") ≡ true
unfolding is_static_file starts_with mapping_of find_mapping case_eq
static_css = refl

-- A disk with one file, outside of the directory.
abbrev disk_with : Bytes → Bytes → Option Bytes
disk_with secret [] = none
disk_with secret (c ∷ cs) = if c == b'/' then some secret else none

below_assets :
    (d : Bytes)
    → some (codes "./assets") ≡ some d
    → AgreeBelow d (disk_with (codes "s")) (disk_with (codes "t"))
below_assets d e =
    let same : codes "./assets" ≡ d = cc e in
    subst (λ u. AgreeBelow u (disk_with (codes "s")) (disk_with (codes "t"))) same (λ path l. refl)

handle_request-confined_example :
    handle_request (disk_with (codes "s")) one_file (codes "/assets/../x") empty
    ≡ handle_request (disk_with (codes "t")) one_file (codes "/assets/../x") empty
handle_request-confined_example =
    handle_request-confined (disk_with (codes "s")) (disk_with (codes "t")) one_file
      (codes "assets/../x") empty below_assets

-- A path without a slash in front would be read beside the directory, ./assets-old/x.css here. The server loop takes no
-- such path for a static file, as long as the lookup path begins with a slash.
sibling_not_static : is_static_file (codes "/assets/") (codes "-old/x.css") ≡ false
unfolding is_static_file starts_with mapping_of find_mapping case_eq
sibling_not_static = refl

allowed_path : is_forbidden (codes "/assets/a.css") ≡ false
unfolding is_forbidden strstr starts_with
allowed_path = refl

abbrev in_memory : FileServer
in_memory = server FileServerMode.memory (λ i. cached (codes "/a.css") (codes "xy")) 1

key_path : is_forbidden (codes "/a.css") ≡ false
unfolding is_forbidden strstr starts_with
key_path = refl

handle_request_memory_example :
    (handle_request (disk_with (codes "s")) in_memory (codes "/assets/a.css") empty
      ≡ plain 404 (codes "File not found") empty)
    × (handle_request (disk_with (codes "s")) in_memory (codes "/a.css") empty
        ≡ file_response
            (codes "text/css")
            (get_resource_priority (codes "/a.css"))
            (codes "xy")
            empty)
unfolding small-IsCached
handle_request_memory_example =
    handle_request_memory (disk_with (codes "s")) in_memory (codes "a.css") 0 empty small-IsCached
      refl refl allowed_path key_path
      (record { counted = omega arith; named = refl; first = λ j l. absurd (omega arith) })
      (λ i l e. cc e)
