-- ===== src/FileCache/Serve.antt =====
-- framework/src/filecache/serve.c: the response to a request for a static file. The argument `disk` is what fopen and
-- fread give of a path; building a path by asprintf does not fail.
pub mod Confined
pub mod Modes
pub mod Processed
use cweb.Base.{
  ℕ, zero, suc, Bool, true, false, ◌&&◌, ◌||◌, not, List, [], ◌∷◌, ◌++◌, Option, none, some, ltb,
  ◌==◌, if◌then◌else◌, length, take, drop, Bytes, codes, starts_with, strstr,
}
use cweb.Http.{Response, add_response_header}
use cweb.Pending.{ResponseState}
use cweb.FileCache.Mime.{get_mime_type, get_resource_priority}
use cweb.FileCache.Store.{CachedFile, FileServerMode, FileServer, find_cached_file}

-- The fields that http.c has no use for stand beside it.
pub record FileResponse : Type 0 where
  pub response : Response
  pub priority : ℕ
  pub state : ResponseState

-- A path below the lookup path loses it and gets a slash.
pub normalize_cache_path : Bytes → Bytes → Bytes
normalize_cache_path lookup_path url_path =
    if ltb 0 (length lookup_path) && starts_with url_path lookup_path
    then b'/' ∷ drop (length lookup_path) url_path
    else url_path

-- A status with a text for its body; the headers stay.
pub plain : ℕ → Bytes → FileResponse → FileResponse
plain code text res = record res {
  response = record res.response { status_code = code; body = text };
  state = ResponseState.processed;
}

-- The response that both sources give.
pub file_response : Bytes → ℕ → Bytes → FileResponse → FileResponse
file_response mime_type priority content res =
    let named =
      add_response_header (record res.response { status_code = 200; body = content })
        (codes "Content-Type") mime_type in
    record res {
      response =
          add_response_header named (codes "Cache-Control") (codes "public, max-age=31536000");
      priority = priority;
      state = ResponseState.processed;
    }

-- `none` is -1; then the response is as it was.
pub serve_from_filesystem : (Bytes → Option Bytes) → Bytes → FileResponse → Option FileResponse
serve_from_filesystem disk filepath res = elim (disk filepath) [
  | none ↦ none
  | some content ↦
      some (file_response (get_mime_type filepath) (get_resource_priority filepath) content res)
]

-- The data of a slot that is loaded is not NULL.
abbrev data_of : CachedFile → Bytes
data_of c = elim c.content [ none ↦ [] | some d ↦ take c.size d ]

pub serve_slot : CachedFile → Bytes → FileResponse → Option FileResponse
serve_slot c path res =
    if c.is_loaded
    then some (file_response c.mime_type (get_resource_priority path) (data_of c) res)
    else none

pub serve_from_memory : FileServer → Bytes → FileResponse → Option FileResponse
serve_from_memory s path res = elim (find_cached_file path s) [
  | none ↦ none
  | some i ↦ serve_slot (s.file_cache i) path res
]

abbrev contains : Bytes → Bytes → Bool
contains s word = elim (strstr s word) [ none ↦ false | some i ↦ true ]

-- strstr(path, "..") || strstr(path, "//")
unfoldable pub is_forbidden : Bytes → Bool
is_forbidden path = contains path (codes "..") || contains path (codes "//")

pub serve_below : (Bytes → Option Bytes) → Option Bytes → Bytes → FileResponse → Option FileResponse
serve_below disk none path res = none
serve_below disk (some static_dir) path res = serve_from_filesystem disk (static_dir ++ path) res

abbrev pub or_from : Option FileResponse → Option FileResponse → Option FileResponse
or_from none second = second
or_from (some r) second = some r

-- The switch over the modes.
pub serve_mode :
    (Bytes → Option Bytes)
    → FileServer
    → FileServerMode
    → Bytes
    → FileResponse
    → Option FileResponse
serve_mode disk s FileServerMode.memory path res = serve_from_memory s path res
serve_mode disk s FileServerMode.filesystem path res =
    serve_below disk s.server_config.static_dir path res
serve_mode disk s FileServerMode.hybrid path res =
    let lookup_path = normalize_cache_path s.server_config.lookup_path path in
    or_from (serve_from_memory s lookup_path res)
      (serve_below disk s.server_config.static_dir lookup_path res)

abbrev pub served : Option FileResponse → FileResponse → FileResponse
served none res = plain 404 (codes "File not found") res
served (some r) res = r

pub handle_request : (Bytes → Option Bytes) → FileServer → Bytes → FileResponse → FileResponse
handle_request disk s path res =
    if not s.initialized
    then plain 500 (codes "File server not initialized") res
    else if is_forbidden path
    then plain 403 (codes "Forbidden") res
    else served (serve_mode disk s s.server_config.mode path res) res
