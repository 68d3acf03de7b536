-- ===== src/Cpp/Reference.antt =====
-- Well-nested sources and what a reading of them by their structure does: a line that includes a file is
-- followed where the branch of the innermost conditional around it is the one taken; definitions are
-- followed everywhere.
use cross_chain.Prelude.{ℕ, ◌≡◌, Bool, true, false, not, Option, none, some, List, [], ◌∷◌, ◌++◌}
use cross_chain.Cpp.Names.{
  Text, Namespace, lookup, delete, Run, returned, do_define, resolve_include,
}
use cross_chain.Cpp.Lines.{
  Line, if_line, elif_line, else_line, endif_line, ifdef_line, ifndef_line, define_line, undef_line,
  import_line, include_line, include_next_line, Setting, eval_of, is_defined, find_in, searchpath,
  default_table,
}

pub data Test : Type 0 where
  on_value : Text → Test
  on_defined : Text → Test
  on_undefined : Text → Test

-- The two lines that include a file.
pub data Directive : Type 0 where
  plain : Directive
  next : Directive

abbrev pub directive : Directive → Text → Line
directive plain t = include_line t
directive next t = include_next_line t

mutual
  pub data Group : Type 0 where
    end : Group
    define : (name args expansion : Text) → Group → Group
    undef : Text → Group → Group
    import : Text → Group → Group
    include : Directive → Text → Group → Group
    block : Test → Group → Rest → Group → Group

  -- What follows the first branch of a conditional.
  pub data Rest : Type 0 where
    endif : Rest
    else_branch : Group → Rest
    elif_branch : Text → Group → Rest → Rest

abbrev pub opening : Test → Line
opening (on_value t) = if_line t
opening (on_defined t) = ifdef_line t
opening (on_undefined t) = ifndef_line t

-- The lines of a source, in front of others.
unfoldable mutual
  pub lines : Group → List Line → List Line
  lines end rest = rest
  lines (define n a e g) rest = define_line n a e ∷ lines g rest
  lines (undef t g) rest = undef_line t ∷ lines g rest
  lines (import t g) rest = import_line t ∷ lines g rest
  lines (include d t g) rest = directive d t ∷ lines g rest
  lines (block t g r k) rest = opening t ∷ lines g (rest_lines r (lines k rest))

  pub rest_lines : Rest → List Line → List Line
  rest_lines endif rest = endif_line ∷ rest
  rest_lines (else_branch g) rest = else_line ∷ lines g (endif_line ∷ rest)
  rest_lines (elif_branch t g r) rest = elif_line t ∷ lines g (rest_lines r rest)

-- What the reading knows and has found.
pub record Facts : Type 0 where
  pub names : Namespace
  pub file : Option Text
  pub found : List (Option Text)

module _ (s : Setting) where
  abbrev pub holds : Test → Namespace → Run Bool
  holds (on_value t) ns = eval_of s default_table (s.python.eval t ns)
  holds (on_defined t) ns = returned (is_defined s default_table (lookup t ns))
  holds (on_undefined t) ns = returned (not (is_defined s default_table (lookup t ns)))

  -- The file that a line includes, if there is one.
  abbrev pub Names : Text → Facts → Option Text → Type 0
  Names t f o =
      (c : ℕ) × (n : Text) × (resolve_include s.python s.depth f.names t ≡ returned (some (c, n)))
      × (find_in s default_table n (searchpath s default_table c) ≡ o)

mutual
  -- The flag says whether files are included here.
  pub data Runs (s : Setting) : Bool → Group → Facts → Facts → Type 0 where
    at_end : {b : Bool} {f : Facts} → Runs s b end f f
    defined :
        {b : Bool} {f f' : Facts} {n a e : Text} {g : Group}
        → Runs s b g (record f { names = do_define s.python n a e f.names }) f'
        → Runs s b (define n a e g) f f'
    undefined :
        {b : Bool} {f f' : Facts} {t : Text} {g : Group}
        → Runs s b g (record f { names = delete t f.names }) f'
        → Runs s b (undef t g) f f'
    imported :
        {b : Bool} {f f' : Facts} {t : Text} {g : Group}
        → Runs s b g f f'
        → Runs s b (import t g) f f'
    skipped :
        {f f' : Facts} {d : Directive} {t : Text} {g : Group}
        → Runs s false g f f'
        → Runs s false (include d t g) f f'
    missing :
        {f f' : Facts} {d : Directive} {t : Text} {g : Group}
        → Names s t f none
        → Runs s true g f f'
        → Runs s true (include d t g) f f'
    included :
        {f f1 f' : Facts} {d : Directive} {t : Text} {g h : Group} {c : ℕ} {p : Text}
        → Names s t f (some (c ∷ p))
        → s.lines_of (c ∷ p) ≡ some (lines h [])
        → Runs s true h (record f { file = some (c ∷ p); found = f.found ++ some (c ∷ p) ∷ [] }) f1
        → Runs s true g (record f1 { file = f.file }) f'
        → Runs s true (include d t g) f f'
    branched :
        {b c : Bool} {f f1 f2 f' : Facts} {t : Test} {g k : Group} {r : Rest}
        → holds s t f.names ≡ returned c
        → Runs s c g f f1
        → Ends s c r f1 f2
        → Runs s b k f2 f'
        → Runs s b (block t g r k) f f'

  -- The flag says whether a branch was taken before.
  pub data Ends (s : Setting) : Bool → Rest → Facts → Facts → Type 0 where
    closed : {b : Bool} {f : Facts} → Ends s b endif f f
    otherwise :
        {b : Bool} {f f' : Facts} {g : Group}
        → Runs s (not b) g f f'
        → Ends s b (else_branch g) f f'
    passed :
        {f f1 f' : Facts} {t : Text} {g : Group} {r : Rest}
        → Runs s false g f f1
        → Ends s true r f1 f'
        → Ends s true (elif_branch t g r) f f'
    tried :
        {c : Bool} {f f1 f' : Facts} {t : Text} {g : Group} {r : Rest}
        → holds s (on_value t) f.names ≡ returned c
        → Runs s c g f f1
        → Ends s c r f1 f'
        → Ends s false (elif_branch t g r) f f'
