-- ===== src/CppSamples.antt =====
-- A small source on which the theorems about the preprocessor apply, and what nested conditionals do.
use cross_chain.Prelude.{ℕ, ◌≡◌, refl, true, some, none, [], ◌∷◌, ◌++◌, drop}
use cross_chain.Cpp.Names.{Python, truth, lookup, returned, resolve_include}
use cross_chain.Cpp.Lines.{
  if_line, ifdef_line, include_line, endif_line, Setting, default_table, process_contents, find_in,
  loop, run_line, handle, eval_expression, include_file, find_include_file, restore,
}
use cross_chain.Cpp.Lines.Follows.{process_contents-Runs}
use cross_chain.Cpp.Reference.{
  Group, end, include, block, else_branch, plain, lines, Facts, on_defined, Runs, at_end, included,
  skipped, branched, otherwise,
}

-- Conditions are true, and every file that is asked for is there and is empty.
abbrev sample_python : Python
sample_python = record {
  eval = λ e ns. truth true;
  int = λ t. none;
  split = λ t. [];
  search = λ t. none;
  expand = λ vs e. none;
  is_file = λ f. true;
  join = λ d f. d ++ f;
}

abbrev sample_setting : Setting
sample_setting = record {
  python = sample_python;
  lines_of = λ f. some [];
  current = 46 ∷ [];
  cpppath = [];
  depth = 1;
}

-- #ifdef A / #include "a" / #else / #include "b" / #endif
abbrev sample_source : Group
sample_source =
    block (on_defined (65 ∷ [])) (include plain (34 ∷ 97 ∷ 34 ∷ []) end)
      (else_branch (include plain (34 ∷ 98 ∷ 34 ∷ []) end)) end

abbrev sample_facts : Facts
sample_facts = record { names = []; file = none; found = none ∷ some (98 ∷ []) ∷ [] }

sample_Runs :
    Runs sample_setting true sample_source
      (record { names = []; file = none; found = none ∷ [] })
      sample_facts
unfolding lookup lines resolve_include find_in
sample_Runs =
    branched refl (skipped at_end)
      (otherwise (included {h = end} (34, 98 ∷ [], refl, refl) refl at_end at_end)) at_end

process_contents-Runs_example :
    (fuel : ℕ) × (process_contents sample_setting default_table fuel none
        (lines sample_source [])
        []
      ≡ returned (drop 1 sample_facts.found))
process_contents-Runs_example =
    process_contents-Runs sample_setting sample_source none [] sample_facts sample_Runs

-- #ifdef A / #if 1 / #include "b" / #endif / #endif, where A is not defined: the file is included.
nested_included :
    process_contents sample_setting default_table 7 none
      (ifdef_line (65 ∷ [])
        ∷ if_line (49 ∷ [])
        ∷ include_line (34 ∷ 98 ∷ 34 ∷ [])
        ∷ endif_line
        ∷ endif_line
        ∷ [])
      []
    ≡ returned (some (98 ∷ []) ∷ [])
unfolding process_contents loop run_line handle eval_expression include_file find_include_file
    restore lookup resolve_include find_in
nested_included = refl
