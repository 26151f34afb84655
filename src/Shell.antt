-- ===== src/Shell.antt =====
-- The shell of c-shell/: its lexer, its parser, and what is built on them.
pub mod Lexer
pub mod Parser
pub mod Segments
pub mod Jobs
pub mod Hop
pub mod History
