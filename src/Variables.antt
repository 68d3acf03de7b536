-- ===== src/Variables.antt =====
-- Variables/*.py: the variables of a build.
pub mod Lists
pub mod Sorting
pub mod Updating
