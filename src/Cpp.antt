-- ===== src/Cpp.antt =====
-- cpp.py of SCons: the preprocessor that finds the files a C source includes. What it reads is cut into
-- lines by regular expressions; here a line is one of the tuples that `tupleize` makes. Texts are lists
-- of character codes. Python's `eval`, `int` and the files are parameters.
pub mod Names
pub mod Lines
pub mod Reference
