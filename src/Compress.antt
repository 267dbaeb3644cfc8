-- ===== src/Compress.antt =====
-- framework/src/compress: the minifiers, and the choice of an encoding.
pub mod Turns
pub mod Css
pub mod Js
pub mod Html
pub mod Asset
pub mod Encoding
mod Examples
