-- ===== src/Env.antt =====
-- Environment.py: construction environments as dictionaries.
pub mod Override
pub mod Unique
