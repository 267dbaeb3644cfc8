-- ===== src/FileCache/Serve/Processed.antt =====
-- The file server is done with a request when it returns.
use cweb.Base.{◌≡◌, refl, not, Option, none, some, if_cases, Option-cases, inl, inr, Bytes}
use cweb.Pending.{ResponseState}
use cweb.FileCache.Store.{FileServerMode, FileServer, find_cached_file}
use cweb.FileCache.Serve.{
  FileResponse, file_response, plain, serve_from_filesystem, serve_slot, serve_from_memory,
  serve_below, serve_mode, is_forbidden, or_from, served, handle_request,
}

abbrev IsProcessed : FileResponse → Type 0
IsProcessed r = r.state ≡ ResponseState.processed

-- Of what is served, if something is.
abbrev Done : Option FileResponse → Type 0
Done none = Unit {0}
Done (some r) = IsProcessed r

module _ (disk : Bytes → Option Bytes) (s : FileServer) where
  filesystem-Done : (path : Bytes) (res : FileResponse) → Done (serve_from_filesystem disk path res)
  unfolding serve_from_filesystem file_response
  filesystem-Done path res = elim (Option-cases (disk path)) [
    | inl e ↦ rw (e, serve_from_filesystem) tt
    | inr (content, e) ↦ rw (e, serve_from_filesystem) refl
  ]

  memory-Done : (path : Bytes) (res : FileResponse) → Done (serve_from_memory s path res)
  unfolding serve_from_memory serve_slot file_response
  memory-Done path res = elim (Option-cases (find_cached_file path s)) [
    | inl e ↦ rw (e, serve_from_memory) tt
    | inr (i, e) ↦
        rw (e, serve_from_memory)
          (if_cases Done (s.file_cache i).is_loaded _ none (λ _. refl) (λ _. tt))
  ]

  below-Done :
      (dir : Option Bytes) (path : Bytes) (res : FileResponse)
      → Done (serve_below disk dir path res)
  unfolding serve_below
  below-Done none path res = tt
  below-Done (some d) path res = filesystem-Done _ res

  or_from-Done :
      (first second : Option FileResponse) → Done first → Done second → Done (or_from first second)
  or_from-Done none second h k = k
  or_from-Done (some r) second h k = h

  mode-Done :
      (mode : FileServerMode) (path : Bytes) (res : FileResponse)
      → Done (serve_mode disk s mode path res)
  unfolding serve_mode
  mode-Done FileServerMode.memory path res = memory-Done path res
  mode-Done FileServerMode.filesystem path res = below-Done s.server_config.static_dir path res
  mode-Done FileServerMode.hybrid path res =
      or_from-Done _ _ (memory-Done _ res) (below-Done s.server_config.static_dir _ res)

  served-IsProcessed :
      (o : Option FileResponse) (res : FileResponse) → Done o → IsProcessed (served o res)
  unfolding plain
  served-IsProcessed none res h = refl
  served-IsProcessed (some r) res h = h

  pub handle_request_processed :
      (path : Bytes) (res : FileResponse)
      → (handle_request disk s path res).state ≡ ResponseState.processed
  unfolding handle_request plain
  handle_request_processed path res =
      if_cases IsProcessed (not s.initialized) _ _ (λ _. refl)
        (λ _.
          if_cases IsProcessed (is_forbidden path) _ _ (λ _. refl)
            (λ _.
              served-IsProcessed (serve_mode disk s s.server_config.mode path res) res
                (mode-Done s.server_config.mode path res)))
