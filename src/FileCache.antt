-- ===== src/FileCache.antt =====
-- framework/src/filecache: the cache of static files, its image on disk, and the files it serves.
pub mod Streams
pub mod Mime
pub mod Store
pub mod Scan
pub mod Serve
mod Examples
