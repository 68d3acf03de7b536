-- ===== src/Fs.antt =====
-- Node/FS.py: files and directories.
pub mod Lookup
pub mod Paths
pub mod Relative
