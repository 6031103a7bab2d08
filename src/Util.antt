-- ===== src/Util.antt =====
-- internal/util: paths that stay within a directory.
pub mod Filepath
pub mod Path
