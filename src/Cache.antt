-- ===== src/Cache.antt =====
-- CacheDir.py: the cache of derived files. A path is the stack of its names, the last one first, as
-- Fs/Paths.antt has it; no directory on the way is a link.
pub mod Files
pub mod Push
pub mod Retrieve
