-- ===== src/Shell.antt =====
-- The shell of xinu/shell/common: division of the command line into tokens (Lexan).
pub mod Lexan
mod Tests
