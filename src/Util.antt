-- ===== src/Util.antt =====
-- Util.py of SCons: lists without repetition, and the search paths that are made of them.
pub mod Uniquer
pub mod UniqueList
pub mod Paths
