-- ===== src/Cpp/Lines/Steps.antt =====
-- The rounds of the preprocessor on the lines of a well-nested source.
use cross_chain.Prelude.{
  ℕ, suc, ◌≡◌, refl, ap, ◌∙◌, Bool, true, false, not, List, [], ◌∷◌, ◌++◌, if◌then◌else◌,
}
use cross_chain.Cpp.Names.{lookup, returned}
use cross_chain.Cpp.Lines.{
  Line, else_line, endif_line, define_line, undef_line, import_line, elif_line, Handler, do_nothing,
  do_elif, do_import, do_include, start_handling_includes, stop_handling_includes, Table,
  default_table, Setting, PreProcessor, round, run_line, handle, loop, eval_expression,
  if_else_condition, is_defined,
}
use cross_chain.Cpp.Reference.{
  Group, end, define, undef, import, include, block, Rest, endif, else_branch, elif_branch, lines,
  rest_lines, Facts, Test, on_value, on_defined, on_undefined, opening, directive, holds,
}

-- The dispatch tables that occur: whether files are included, and what becomes of the next branch.
abbrev pub table_of : Bool → Handler → Handler → Table
table_of b e l = record default_table {
  on_elif = e;
  on_else = l;
  on_import = if b then do_import else do_nothing;
  on_include = if b then do_include else do_nothing;
  on_include_next = if b then do_include else do_nothing;
}

-- The table in a branch, which is taken (`b`) or not, as no branch before it was (`t`) or one was.
abbrev pub after_taken : Bool → Handler
after_taken t = if t then stop_handling_includes else do_elif

abbrev pub else_after : Bool → Handler
else_after t = if t then stop_handling_includes else start_handling_includes

abbrev pub at : List Table → Table → Facts → List Line → PreProcessor
at stack table f rest = record {
  stack = stack;
  dispatch_table = table;
  cpp_namespace = f.names;
  current_file = f.file;
  tuples = rest;
  result = f.found;
}

module _ (s : Setting) where
  -- Rounds of the loop, one after the other.
  pub data Steps : PreProcessor → PreProcessor → Type 0 where
    stay : {p : PreProcessor} → Steps p p
    step :
        {p q r : PreProcessor} {t : Line} {rest : List Line}
        → p.tuples ≡ t ∷ rest
        → round s default_table t rest p ≡ returned q
        → Steps q r
        → Steps p r

  pub both : {p q r : PreProcessor} → Steps p q → Steps q r → Steps p r
  both stay b = b
  both (step e h a) b = step e h (both a b)

  pub loop-Steps :
      {p q : PreProcessor}
      → Steps p q
      → q.tuples ≡ []
      → (fuel : ℕ) × (loop s default_table fuel p ≡ returned q)
  unfolding loop
  loop-Steps stay e = (0, rw e refl)
  loop-Steps (step e h a) empty = let (fuel, run) = loop-Steps a empty in (suc fuel, rw (e, h) run)

-- A list of lines in front of others.
mutual
  unfolding lines

  pub lines-append : (g : Group) (xs ys : List Line) → lines g xs ++ ys ≡ lines g (xs ++ ys)
  lines-append end xs ys = refl
  lines-append (define n a e g) xs ys = ap (define_line n a e ∷◌) (lines-append g xs ys)
  lines-append (undef t g) xs ys = ap (undef_line t ∷◌) (lines-append g xs ys)
  lines-append (import t g) xs ys = ap (import_line t ∷◌) (lines-append g xs ys)
  lines-append (include d t g) xs ys = ap (directive d t ∷◌) (lines-append g xs ys)
  lines-append (block t g r k) xs ys = ap (opening t ∷◌) (
      lines-append g (rest_lines r (lines k xs)) ys
      ∙ ap (lines g)
          (rest_lines-append r (lines k xs) ys ∙ ap (rest_lines r) (lines-append k xs ys)))

  rest_lines-append :
      (r : Rest) (xs ys : List Line) → rest_lines r xs ++ ys ≡ rest_lines r (xs ++ ys)
  rest_lines-append endif xs ys = refl
  rest_lines-append (else_branch g) xs ys = ap (else_line ∷◌) (lines-append g (endif_line ∷ xs) ys)
  rest_lines-append (elif_branch t g r) xs ys =
      ap (elif_line t ∷◌)
        (lines-append g (rest_lines r xs) ys ∙ ap (lines g) (rest_lines-append r xs ys))

module _ (s : Setting) where
  pub open_block :
      (st : List Table) (b : Bool) (e l : Handler) (f : Facts) (t : Test) (c : Bool)
      (rest : List Line)
      → holds s t f.names ≡ returned c
      → Steps s
          (at st (table_of b e l) f (opening t ∷ rest))
          (at (table_of b e l ∷ st) (table_of c (after_taken c) (else_after c)) f rest)
  unfolding run_line handle eval_expression
  open_block st b e l f (on_value t) true rest h = step refl (rw h refl) stay
  open_block st b e l f (on_value t) false rest h = step refl (rw h refl) stay
  open_block st b e l f (on_defined t) c rest h =
      let known : is_defined s default_table (lookup t f.names) ≡ c = cc in
      step refl (rw known (opened c)) stay
    where
      opened :
          (c : Bool)
          → returned (if_else_condition s default_table c (at st (table_of b e l) f rest))
            ≡ returned (at (table_of b e l ∷ st) (table_of c (after_taken c) (else_after c)) f rest)
      opened true = refl
      opened false = refl
  open_block st b e l f (on_undefined t) c rest h =
      let known : not (is_defined s default_table (lookup t f.names)) ≡ c = cc in
      step refl (rw known (opened c)) stay
    where
      opened :
          (c : Bool)
          → returned (if_else_condition s default_table c (at st (table_of b e l) f rest))
            ≡ returned (at (table_of b e l ∷ st) (table_of c (after_taken c) (else_after c)) f rest)
      opened true = refl
      opened false = refl
