-- ===== src/PathUtils.antt =====
-- framework/src/PathUtils/pathutils.c: the parts of a request path.
pub mod RouteBase
pub mod Query
pub mod Segments
pub mod Normal
pub mod Decode
pub mod FileKind
mod Examples
