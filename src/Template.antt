-- ===== src/Template.antt =====
-- framework/src/templatengine: the compiler from templates to C, and the output buffer that the
-- compiled templates fill.
pub mod Security
pub mod Lexer
pub mod Runtime
pub mod Parser
pub mod Codegen
mod Examples
