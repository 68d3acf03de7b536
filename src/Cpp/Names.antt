-- ===== src/Cpp/Names.antt =====
-- The namespace of the preprocessor, and the names that its macros expand to: `do_define`, `do_undef`,
-- `FunctionEvaluator.__call__` and `resolve_include`.
use cross_chain.Prelude.{
  ℕ, zero, suc, ◌==◌, Bool, true, false, ◌||◌, ◌&&◌, Option, none, some, List, [], ◌∷◌,
  if◌then◌else◌, length,
}
use cross_chain.Prelude.Int.{ℤ, is_zero}

abbrev pub Text : Type 0
Text = List ℕ

abbrev pub same_text : Text → Text → Bool
same_text [] [] = true
same_text (c ∷ s) (d ∷ t) = c == d && same_text s t
same_text _ _ = false

-- A value of the namespace; a function macro has the names of its arguments.
pub data Value : Type 0 where
  number : ℤ → Value
  text : Text → Value
  function : List Text → Value → Value

abbrev pub Namespace : Type 0
Namespace = List (Text × Value)

-- `name in cpp_namespace` and `cpp_namespace[name]`
unfoldable pub lookup : Text → Namespace → Option Value
lookup name [] = none
lookup name ((n, v) ∷ ns) = let rest = lookup name ns in if same_text name n then some v else rest

-- `del cpp_namespace[name]`, where a missing name is passed over.
unfoldable pub delete : Text → Namespace → Namespace
delete name [] = []
delete name ((n, v) ∷ ns) =
    let rest = delete name ns in if same_text name n then rest else (n, v) ∷ rest

-- `cpp_namespace[name] = v`
unfoldable pub assign : Text → Value → Namespace → Namespace
assign name v ns = (name, v) ∷ delete name ns

-- What becomes of a call.
pub data Run {ℓ} (A : Type ℓ) : Type ℓ where
  returned : A → Run A
  raised : Run A
  out_of_fuel : Run A

infixl 5 ◌>>=◌
abbrev pub ◌>>=◌ {ℓ κ} : {A : Type ℓ} {B : Type κ} → Run A → (A → Run B) → Run B
returned a >>= f = f a
raised >>= f = raised
out_of_fuel >>= f = out_of_fuel

-- What Python's `eval` makes of a condition.
pub data Evaluated : Type 0 where
  truth : Bool → Evaluated
  name_error : Evaluated
  type_error : Evaluated
  other_error : Evaluated

-- What the preprocessor takes from Python and from the file system.
pub record Python : Type 0 where
  -- `eval(CPP_to_Python(s), cpp_namespace)`
  pub eval : Text → Namespace → Evaluated
  -- `int(s)`
  pub int : Text → Option ℤ
  -- `function_arg_separator.split(s)`
  pub split : Text → List Text
  -- `function_name.search(s)`, with its two groups.
  pub search : Text → Option (Text × Text)
  -- `eval(statement, globals(), locals)` of the expansion of a macro.
  pub expand : List (Text × Text) → Value → Option Value
  pub is_file : Text → Bool
  pub join : Text → Text → Text

abbrev pub zip : List Text → List Text → List (Text × Text)
zip (k ∷ ks) (v ∷ vs) = (k, v) ∷ zip ks vs
zip _ _ = []

abbrev pub or_raised : Option Value → Run Value
or_raised none = raised
or_raised (some v) = returned v

-- `FunctionEvaluator.__call__`
unfoldable pub call_function : Python → List Text → Value → List Text → Run Value
call_function py args expansion values =
    if length args == length values
    then or_raised (py.expand (zip args values) expansion)
    else raised

-- `s[:-1]`
abbrev pub all_but_last : Text → Text
all_but_last [] = []
all_but_last (c ∷ []) = []
all_but_last (c ∷ d ∷ s) = c ∷ all_but_last (d ∷ s)

-- `do_define`, where `args` holds the parentheses of a function macro.
unfoldable pub do_define : Python → Text → Text → Text → Namespace → Namespace
unfolding assign
do_define py name args expansion ns = assign name (with_args args (value (py.int expansion))) ns
  where
    value : Option ℤ → Value
    value none = text expansion
    value (some n) = number n

    with_args : Text → Value → Value
    with_args [] v = v
    with_args (c ∷ s) v = function (py.split (all_but_last s)) v

abbrev pub called : Python → Text → Option Value → Run Value
called py args none = raised
called py args (some (function names expansion)) = call_function py names expansion (py.split args)
called py args (some v) = returned v

-- The body of the loop of `resolve_include`: a macro, or a call of one.
unfoldable pub macro_value : Python → Namespace → Text → Run Value
macro_value py ns s = of (lookup s ns)
  where
    of_call : Option (Text × Text) → Run Value
    of_call none = raised
    of_call (some (name, args)) = called py args (lookup name ns)

    of : Option Value → Run Value
    of (some v) = returned v
    of none = of_call (py.search s)

-- A quote or an angle bracket.
abbrev pub opens : ℕ → Bool
opens c = c == 60 || c == 34

-- `while not s[0] in '<"'`, of the value that `s` was replaced by: only a text has a first character.
abbrev pub with_value : (Text → Run (Option (ℕ × Text))) → Value → Run (Option (ℕ × Text))
with_value again (number n) = if is_zero n then returned none else raised
with_value again (text []) = returned none
with_value again (text (d ∷ t)) = again (d ∷ t)
with_value again (function names expansion) = raised

-- `resolve_include`: the opening character and the name, or `None`.
unfoldable pub resolve_include : Python → ℕ → Namespace → Text → Run (Option (ℕ × Text))
resolve_include py fuel ns [] = raised
resolve_include py zero ns (c ∷ s) =
    if opens c then returned (some (c, all_but_last s)) else out_of_fuel
resolve_include py (suc fuel) ns (c ∷ s) =
    if opens c
    then returned (some (c, all_but_last s))
    else macro_value py ns (c ∷ s) >>= (λ v. with_value (λ t. resolve_include py fuel ns t) v)
