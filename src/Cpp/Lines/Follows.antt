-- ===== src/Cpp/Lines/Follows.antt =====
-- The loop of the preprocessor follows the reading of a well-nested source by its structure.
use cross_chain.Prelude.{
  ℕ, ◌≡◌, refl, Bool, true, false, Option, none, some, List, [], ◌∷◌, ◌++◌, drop,
}
use cross_chain.Cpp.Names.{Text, Namespace, returned}
use cross_chain.Cpp.Lines.{
  Line, scons_current_file, Handler, do_elif, do_else, Table, default_table, Setting, run_line,
  handle, process_contents, eval_expression, include_file, restore, find_include_file,
}
use cross_chain.Cpp.Reference.{
  Group, Rest, lines, rest_lines, Facts, plain, next, Names, Runs, at_end, defined, undefined,
  imported, skipped, missing, included, branched, Ends, closed, otherwise, passed, tried,
}
use cross_chain.Cpp.Lines.Steps.{
  table_of, after_taken, else_after, at, Steps, stay, step, both, loop-Steps, lines-append,
  open_block,
}

module _ (s : Setting) (st : List Table) (tb : Table) (f : Facts) (t : Text)
    (rest : List Line) where
  include-missing :
      Names s t f none
      → include_file s default_table t (at st tb f rest) ≡ returned (at st tb f rest)
  unfolding include_file find_include_file
  include-missing (c, n, named, found) = rw (named, found) refl

  include-found :
      (q : Text) (c : ℕ) (h : List Line)
      → Names s t f (some (c ∷ q))
      → s.lines_of (c ∷ q) ≡ some h
      → include_file s default_table t (at st tb f rest)
        ≡ returned (
            at st tb
              (record f { found = f.found ++ some (c ∷ q) ∷ [] })
              (scons_current_file (some (c ∷ q)) ∷ h ++ (scons_current_file f.file ∷ rest)))
  unfolding include_file find_include_file
  include-found q c h (d, n, named, found) file = rw (named, found, file) refl

-- The lines of an included file, up to the lines after it.
included_rest :
    {s : Setting} {f f1 f' : Facts} (g h : Group) (st : List Table) (e l : Handler)
    (rest : List Line) (file : Option Text)
    → (let after = scons_current_file file ∷ lines g rest in
        Steps s (at st (table_of true e l) f (lines h after)) (at st (table_of true e l) f1 after))
    → Steps s
        (at st (table_of true e l) (record f1 { file = file }) (lines g rest))
        (at st (table_of true e l) f' rest)
    → Steps s
        (at st (table_of true e l) f (lines h [] ++ (scons_current_file file ∷ lines g rest)))
        (at st (table_of true e l) f' rest)
unfolding run_line
included_rest {s} g h st e l rest file a b =
    rw (lines-append h [] (scons_current_file file ∷ lines g rest)) (both s a (step refl refl b))

mutual
  unfolding lines run_line handle eval_expression restore

  Runs-Steps :
      {s : Setting} {b : Bool} {g : Group} {f f' : Facts} (st : List Table) (e l : Handler)
      (rest : List Line)
      → Runs s b g f f'
      → Steps s (at st (table_of b e l) f (lines g rest)) (at st (table_of b e l) f' rest)
  Runs-Steps st e l rest at_end = stay
  Runs-Steps st e l rest (defined d) = step refl refl (Runs-Steps st e l rest d)
  Runs-Steps st e l rest (undefined d) = step refl refl (Runs-Steps st e l rest d)
  Runs-Steps {b = true} st e l rest (imported d) = step refl refl (Runs-Steps st e l rest d)
  Runs-Steps {b = false} st e l rest (imported d) = step refl refl (Runs-Steps st e l rest d)
  Runs-Steps st e l rest (skipped {d = plain} d) = step refl refl (Runs-Steps st e l rest d)
  Runs-Steps st e l rest (skipped {d = next} d) = step refl refl (Runs-Steps st e l rest d)
  Runs-Steps {s} {f = f} st e l rest (missing {d = plain} {t = t} {g = g} n d) =
      step refl (include-missing s st (table_of true e l) f t (lines g rest) n)
        (Runs-Steps st e l rest d)
  Runs-Steps {s} {f = f} st e l rest (missing {d = next} {t = t} {g = g} n d) =
      step refl (include-missing s st (table_of true e l) f t (lines g rest) n)
        (Runs-Steps st e l rest d)
  Runs-Steps {s} {f = f} st e l rest
        (included {d = plain} {t = t} {g = g} {h = h} {c = c} {p = q} n file d k) =
      step refl (include-found s st (table_of true e l) f t (lines g rest) q c (lines h []) n file)
        (step refl refl (
          included_rest g h st e l rest f.file
            (Runs-Steps st e l (scons_current_file f.file ∷ lines g rest) d)
            (Runs-Steps st e l rest k)))
  Runs-Steps {s} {f = f} st e l rest
        (included {d = next} {t = t} {g = g} {h = h} {c = c} {p = q} n file d k) =
      step refl (include-found s st (table_of true e l) f t (lines g rest) q c (lines h []) n file)
        (step refl refl (
          included_rest g h st e l rest f.file
            (Runs-Steps st e l (scons_current_file f.file ∷ lines g rest) d)
            (Runs-Steps st e l rest k)))
  Runs-Steps {s} {b} st e l rest (branched {t = t} h d n m) =
      both s (open_block s st b e l _ t _ _ h) (
        both s (Runs-Steps _ _ _ _ d)
          (both s (Ends-Steps st (table_of b e l) _ _ (λ e. e) n) (Runs-Steps st e l rest m)))

  Ends-Steps :
      {s : Setting} {b : Bool} {r : Rest} {f f' : Facts} (st : List Table) (saved : Table)
      (c : Bool) (rest : List Line)
      → (b ≡ false → c ≡ false)
      → Ends s b r f f'
      → Steps s
          (at (saved ∷ st) (table_of c (after_taken b) (else_after b)) f (rest_lines r rest))
          (at st saved f' rest)
  Ends-Steps st saved c rest h closed = step refl refl stay
  Ends-Steps {s} {b = true} st saved c rest h (otherwise d) =
      step refl refl (both s (Runs-Steps _ _ _ _ d) (step refl refl stay))
  Ends-Steps {s} {b = false} st saved c rest h (otherwise d) =
      step refl refl (both s (Runs-Steps _ _ _ _ d) (step refl refl stay))
  Ends-Steps {s} st saved c rest h (passed d n) =
      step refl refl (both s (Runs-Steps _ _ _ _ d) (Ends-Steps st saved false rest (λ e. refl) n))
  Ends-Steps {s} st saved c rest h (tried {c = true} v d n) =
      step refl (rw v refl)
        (both s (Runs-Steps _ _ _ _ d) (Ends-Steps st saved true rest (λ e. e) n))
  Ends-Steps {s} st saved c rest h (tried {c = false} v d n) =
      step refl (rw (v, h refl) refl)
        (both s (Runs-Steps _ _ _ _ d) (Ends-Steps st saved false rest (λ e. e) n))

-- A preprocessor with the default table, on the lines of a well-nested source, returns the files that a
-- reading of the source by its structure finds, where that reading ends: it follows a line that includes
-- a file where the branch of the innermost conditional around it is the one taken, reads the file at
-- once, and follows definitions everywhere.
pub process_contents-Runs :
    (s : Setting) (g : Group) (fname : Option Text) (ns : Namespace) (f : Facts)
    → Runs s true g (record { names = ns; file = fname; found = fname ∷ [] }) f
    → (fuel : ℕ) × (process_contents s default_table fuel fname (lines g []) ns
        ≡ returned (drop 1 f.found))
unfolding process_contents
process_contents-Runs s g fname ns f d =
    let (fuel, run) = loop-Steps s (Runs-Steps [] do_elif do_else [] d) refl in (fuel, rw run refl)
