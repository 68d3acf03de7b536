-- ===== src/Cpp/Lines.antt =====
-- The lines that the preprocessor takes one after the other, the dispatch table that says what is done
-- with each kind of line, and the stack of tables: the class `PreProcessor` of cpp.py. A
-- `DumbPreProcessor` differs in its default table alone.
pub mod Steps
pub mod Follows
use cross_chain.Prelude.{
  ℕ, zero, suc, ◌==◌, Bool, true, false, not, Option, none, some, List, [], ◌∷◌, ◌++◌,
  if◌then◌else◌, drop,
}
use cross_chain.Cpp.Names.{
  Text, Namespace, Value, lookup, delete, Run, returned, raised, out_of_fuel, ◌>>=◌, Evaluated,
  truth, name_error, type_error, other_error, Python, do_define, resolve_include, same_text,
}

-- The tuples that `tupleize` makes, and those that mark the file in work.
pub data Line : Type 0 where
  if_line : Text → Line
  elif_line : Text → Line
  else_line : Line
  endif_line : Line
  ifdef_line : Text → Line
  ifndef_line : Text → Line
  define_line : (name args expansion : Text) → Line
  undef_line : Text → Line
  import_line : Text → Line
  include_line : Text → Line
  include_next_line : Text → Line
  scons_current_file : Option Text → Line

pub data Handler : Type 0 where
  do_nothing : Handler
  do_if : Handler
  do_elif : Handler
  do_else : Handler
  do_endif : Handler
  do_ifdef : Handler
  do_ifndef : Handler
  do_import : Handler
  do_include : Handler
  start_handling_includes : Handler
  stop_handling_includes : Handler

-- The entries of a dispatch table that are ever changed; those of `define`, `undef` and
-- `scons_current_file` are not.
pub record Table : Type 0 where
  pub on_if : Handler
  pub on_elif : Handler
  pub on_else : Handler
  pub on_endif : Handler
  pub on_ifdef : Handler
  pub on_ifndef : Handler
  pub on_import : Handler
  pub on_include : Handler
  pub on_include_next : Handler

abbrev pub default_table : Table
default_table = record {
  on_if = do_if;
  on_elif = do_elif;
  on_else = do_else;
  on_endif = do_endif;
  on_ifdef = do_ifdef;
  on_ifndef = do_ifndef;
  on_import = do_import;
  on_include = do_include;
  on_include_next = do_include;
}

-- The default table of a `DumbPreProcessor`.
abbrev pub dumb_table : Table
dumb_table = record default_table {
  on_if = do_nothing;
  on_elif = do_nothing;
  on_else = do_nothing;
  on_endif = do_nothing;
  on_ifdef = do_nothing;
  on_ifndef = do_nothing;
}

-- What a preprocessor is made with: `lines_of` is `read_file` with `tupleize`, and `depth` bounds the
-- rounds of `resolve_include`.
pub record Setting : Type 0 where
  pub python : Python
  pub lines_of : Text → Option (List Line)
  pub current : Text
  pub cpppath : List Text
  pub depth : ℕ

pub record PreProcessor : Type 0 where
  pub stack : List Table
  pub dispatch_table : Table
  pub cpp_namespace : Namespace
  pub current_file : Option Text
  pub tuples : List Line
  pub result : List (Option Text)

-- The default table is `default`.
module _ (s : Setting) (default : Table) where
  -- `self.searchpath[c]`
  abbrev pub searchpath : ℕ → List Text
  searchpath c = if c == 34 then s.current ∷ s.cpppath else s.cpppath ++ s.current ∷ []

  unfoldable pub find_in : Text → List Text → Option Text
  find_in fname [] = none
  find_in fname (d ∷ ds) =
      let f = if same_text d (46 ∷ []) then fname else s.python.join d fname in
      let rest = find_in fname ds in if s.python.is_file f then some f else rest

  -- `find_include_file`, of what `resolve_include` returned; `None` has no third entry.
  unfoldable pub find_include_file : Option (ℕ × Text) → Run (Option Text)
  find_include_file none = raised
  find_include_file (some (c, fname)) = returned (find_in fname (searchpath c))

  -- `save` and `restore`
  abbrev pub save : PreProcessor → PreProcessor
  save p = record p { stack = p.dispatch_table ∷ p.stack; dispatch_table = default }

  abbrev pub restore_from : List Table → PreProcessor → PreProcessor
  restore_from [] p = p
  restore_from (t ∷ ts) p = record p { stack = ts; dispatch_table = t }

  unfoldable pub restore : PreProcessor → PreProcessor
  restore p = restore_from p.stack p

  -- `start_handling_includes` and `stop_handling_includes`
  abbrev pub start_includes : PreProcessor → PreProcessor
  start_includes p = record p {
    dispatch_table = record p.dispatch_table {
      on_import = do_import;
      on_include = do_include;
      on_include_next = do_include;
    };
  }

  abbrev pub stop_includes : PreProcessor → PreProcessor
  stop_includes p = record p {
    dispatch_table = record p.dispatch_table {
      on_import = do_nothing;
      on_include = do_nothing;
      on_include_next = do_nothing;
    };
  }

  -- `d['elif'], d['else'] = e, f`
  abbrev pub on_branches : Handler → Handler → PreProcessor → PreProcessor
  on_branches e f p = record p {
    dispatch_table = record p.dispatch_table { on_elif = e; on_else = f };
  }

  -- `_do_if_else_condition`
  abbrev pub if_else_condition : Bool → PreProcessor → PreProcessor
  if_else_condition true p =
      on_branches stop_handling_includes stop_handling_includes (start_includes (save p))
  if_else_condition false p = on_branches do_elif start_handling_includes (stop_includes (save p))

  -- `eval_expression`
  abbrev pub eval_of : Evaluated → Run Bool
  eval_of (truth b) = returned b
  eval_of name_error = returned false
  eval_of type_error = returned false
  eval_of other_error = raised

  unfoldable pub eval_expression : Text → PreProcessor → Run Bool
  eval_expression e p = eval_of (s.python.eval e p.cpp_namespace)

  -- `do_elif`, once its condition is known.
  abbrev pub elif_condition : Bool → PreProcessor → PreProcessor
  elif_condition true p =
      on_branches stop_handling_includes stop_handling_includes (start_includes p)
  elif_condition false p = p

  abbrev pub is_defined : Option Value → Bool
  is_defined none = false
  is_defined (some v) = true

  -- The rest of `do_include`, with the file that was found.
  abbrev pub include_lines : Text → Option (List Line) → PreProcessor → Run PreProcessor
  include_lines f none p = raised
  include_lines f (some lines) p = returned (record p {
    result = p.result ++ some f ∷ [];
    tuples = scons_current_file (some f) ∷ lines ++ (scons_current_file p.current_file ∷ p.tuples);
  })

  abbrev pub include_found : Option Text → PreProcessor → Run PreProcessor
  include_found none p = returned p
  include_found (some []) p = returned p
  include_found (some (c ∷ f)) p = include_lines (c ∷ f) (s.lines_of (c ∷ f)) p

  -- `do_include`
  unfoldable pub include_file : Text → PreProcessor → Run PreProcessor
  include_file name p =
      resolve_include s.python s.depth p.cpp_namespace name
      >>= (λ t. find_include_file t)
      >>= (λ f. include_found f p)

  -- `self.dispatch_table[t[0]](t)`, of the method and the second entry of the tuple.
  unfoldable pub handle : Handler → Text → PreProcessor → Run PreProcessor
  handle do_nothing t p = returned p
  handle do_if t p = eval_expression t p >>= (λ b. returned (if_else_condition b p))
  handle do_elif t p = eval_expression t p >>= (λ b. returned (elif_condition b p))
  handle do_else t p = returned p
  handle do_endif t p = returned (restore p)
  handle do_ifdef t p = returned (if_else_condition (is_defined (lookup t p.cpp_namespace)) p)
  handle do_ifndef t p =
      returned (if_else_condition (not (is_defined (lookup t p.cpp_namespace))) p)
  handle do_import t p = returned p
  handle do_include t p = include_file t p
  handle start_handling_includes t p = returned (start_includes p)
  handle stop_handling_includes t p = returned (stop_includes p)

  unfoldable pub run_line : Line → PreProcessor → Run PreProcessor
  run_line (if_line t) p = handle p.dispatch_table.on_if t p
  run_line (elif_line t) p = handle p.dispatch_table.on_elif t p
  run_line else_line p = handle p.dispatch_table.on_else [] p
  run_line endif_line p = handle p.dispatch_table.on_endif [] p
  run_line (ifdef_line t) p = handle p.dispatch_table.on_ifdef t p
  run_line (ifndef_line t) p = handle p.dispatch_table.on_ifndef t p
  run_line (define_line name args expansion) p =
      returned (record p { cpp_namespace = do_define s.python name args expansion p.cpp_namespace })
  run_line (undef_line t) p = returned (record p { cpp_namespace = delete t p.cpp_namespace })
  run_line (import_line t) p = handle p.dispatch_table.on_import t p
  run_line (include_line t) p = handle p.dispatch_table.on_include t p
  run_line (include_next_line t) p = handle p.dispatch_table.on_include_next t p
  run_line (scons_current_file f) p = returned (record p { current_file = f })

  -- The loop of `process_contents`, and one round of it.
  abbrev pub round : Line → List Line → PreProcessor → Run PreProcessor
  round t rest p = run_line t (record p { tuples = rest })

  abbrev pub go_on : (PreProcessor → Run PreProcessor) → PreProcessor → List Line → Run PreProcessor
  go_on again p [] = returned p
  go_on again p (t ∷ rest) = round t rest p >>= again

  unfoldable pub loop : ℕ → PreProcessor → Run PreProcessor
  loop zero p = go_on (λ q. out_of_fuel) p p.tuples
  loop (suc fuel) p = go_on (λ q. loop fuel q) p p.tuples

  -- `process_contents`, of the lines of a file and the namespace to begin with.
  abbrev pub initial : Option Text → List Line → Namespace → PreProcessor
  initial fname lines ns = record {
    stack = [];
    dispatch_table = default;
    cpp_namespace = ns;
    current_file = fname;
    tuples = lines;
    result = fname ∷ [];
  }

  unfoldable pub process_contents :
      ℕ → Option Text → List Line → Namespace → Run (List (Option Text))
  unfolding loop
  process_contents fuel fname lines ns =
      loop fuel (initial fname lines ns) >>= (λ p. returned (drop 1 p.result))
