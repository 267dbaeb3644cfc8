-- ===== src/Template/Codegen.antt =====
-- framework/src/templatengine/codegen.c and its parts: the two C files that a template is compiled to.
pub mod Output
pub mod Style
pub mod Css
pub mod Html
pub mod Signature
pub mod Files
mod Examples
