-- ===== src/FileCache/Serve/Modes.antt =====
-- Where a cached file is found, mode by mode.
use cweb.Base.{
  ℕ, ◌<◌, ◌≡◌, ◌≢◌, refl, ap, ◌∙◌, true, false, not, ◌∷◌, ◌++◌, Option, none, some, if_true,
  if_false, take_all, Bytes, codes, arith,
}
use cweb.FileCache.Mime.{get_resource_priority}
use cweb.FileCache.Store.{FileServerMode, FileServer, find_cached_file}
use cweb.FileCache.Store.Image.{IsCached}
use cweb.FileCache.Store.Lookup.{find_slot-first, find_slot-none}
use cweb.FileCache.Serve.{
  FileResponse, file_response, plain, serve_from_memory, serve_slot, is_forbidden, serve_mode,
  served, handle_request,
}

-- The first slot of a name.
pub record IsFirst (name : Bytes) (i : ℕ) (s : FileServer) : Type 0 where
  pub counted : i < s.cache_count
  pub named : (s.file_cache i).filename ≡ name
  pub first : (j : ℕ) → j < i → (s.file_cache j).filename ≢ name

serve_first :
    (s : FileServer) (name : Bytes) (i : ℕ) (res : FileResponse) (h : IsCached (s.file_cache i))
    → IsFirst name i s
    → serve_from_memory s name res
      ≡ some (file_response (s.file_cache i).mime_type (get_resource_priority name) h.bytes res)
unfolding serve_from_memory serve_slot find_cached_file
serve_first s name i res h f =
    let found =
      find_slot-first s.cache_count 0 i s.file_cache name (omega arith) (omega (arith, f.counted))
        f.named f.first in
    rw (found, serve_from_memory)
      (if_true _ _ _ h.is_loaded
        ∙ ap
            (λ u.
              some (file_response (s.file_cache i).mime_type (get_resource_priority name) u res))
            (rw h.has_content (take_all (s.file_cache i).size h.bytes (omega (arith, h.whole)))))

not_found :
    (s : FileServer) (path : Bytes) (res : FileResponse)
    → ((i : ℕ) → i < s.cache_count → (s.file_cache i).filename ≢ path)
    → serve_from_memory s path res ≡ none
unfolding serve_from_memory find_cached_file
not_found s path res h =
    rw
      (
        find_slot-none s.cache_count 0 s.file_cache path (λ j l. h j (omega arith)),
        serve_from_memory,
      )
      refl

-- Past the two guards.
opened :
    (disk : Bytes → Option Bytes) (s : FileServer) (path : Bytes) (res : FileResponse)
    → s.initialized ≡ true
    → is_forbidden path ≡ false
    → handle_request disk s path res ≡ served (serve_mode disk s s.server_config.mode path res) res
unfolding handle_request
opened disk s path res on ok = if_false _ _ _ (ap not on) ∙ if_false _ _ _ ok

-- The memory mode looks up the path as it was sent: of a server that is initialised, a file that is loaded and is the
-- first of its name in the cache is answered with 404 under the lookup path, unless a slot bears the whole path as its
-- name, and is served from the memory where the request's path is the file's name. Neither path holds two full
-- stops or two slashes in a row.
pub handle_request_memory :
    (disk : Bytes → Option Bytes) (s : FileServer) (name : Bytes) (i : ℕ) (res : FileResponse)
    (h : IsCached (s.file_cache i))
    → s.initialized ≡ true
    → s.server_config.mode ≡ FileServerMode.memory
    → is_forbidden (s.server_config.lookup_path ++ name) ≡ false
    → is_forbidden (b'/' ∷ name) ≡ false
    → IsFirst (b'/' ∷ name) i s
    → ((j : ℕ)
        → j < s.cache_count
        → (s.file_cache j).filename ≢ s.server_config.lookup_path ++ name)
    → (handle_request disk s (s.server_config.lookup_path ++ name) res
        ≡ plain 404 (codes "File not found") res)
      × (handle_request disk s (b'/' ∷ name) res
          ≡ file_response
              (s.file_cache i).mime_type
              (get_resource_priority (b'/' ∷ name))
              h.bytes
              res)
unfolding serve_mode
handle_request_memory disk s name i res h on mode ok ok' f absent =
    let memory = λ (path : Bytes) (ok : is_forbidden path ≡ false).
      opened disk s path res on ok ∙ ap (λ m. served (serve_mode disk s m path res) res) mode in
    (
      memory (s.server_config.lookup_path ++ name) ok
          ∙ ap (λ o. served o res) (not_found s (s.server_config.lookup_path ++ name) res absent),
      memory (b'/' ∷ name) ok' ∙ ap (λ o. served o res) (serve_first s (b'/' ∷ name) i res h f),
    )
