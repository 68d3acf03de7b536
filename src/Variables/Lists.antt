-- ===== src/Variables/Lists.antt =====
-- Variables/ListVariable.py: a variable that holds some of a list of names, as it is written to a file
-- and read back.
pub mod Stored
use cross_chain.Prelude.{
  ℕ, Bool, true, false, not, ◌&&◌, ◌||◌, Option, none, some, List, [], ◌∷◌, map, if◌then◌else◌,
}
use cross_chain.Variables.Sorting.{sort}
use cross_chain.Util.Paths.{PathText, same_path, is_given, split, join}

-- 'none' and 'all'
abbrev pub none_text : PathText
none_text = 110 ∷ 111 ∷ 110 ∷ 101 ∷ []

abbrev pub all_text : PathText
all_text = 97 ∷ 108 ∷ 108 ∷ []

abbrev pub same_names : List PathText → List PathText → Bool
same_names [] [] = true
same_names (d ∷ ds) (e ∷ es) = same_path d e && same_names ds es
same_names _ _ = false

-- `[_f for _f in initlist if _f]`
abbrev pub nonempty_names : List PathText → List PathText
nonempty_names [] = []
nonempty_names (d ∷ ds) = let rest = nonempty_names ds in if is_given d then d ∷ rest else rest

abbrev pub is_allowed : PathText → List PathText → Bool
is_allowed d [] = false
is_allowed d (e ∷ es) = same_path d e || is_allowed d es

abbrev pub not_allowed : List PathText → List PathText → List PathText
not_allowed names [] = []
not_allowed names (d ∷ ds) =
    let rest = not_allowed names ds in if is_allowed d names then rest else d ∷ rest

-- `mapdict.get(v, v)`
abbrev pub mapped : (PathText → Option PathText) → PathText → PathText
mapped mapdict v = or_self (mapdict v)
  where
    or_self : Option PathText → PathText
    or_self none = v
    or_self (some w) = w

pub record ListVariable : Type 0 where
  pub data_names : List PathText
  pub allowed : List PathText

-- What the converter gives: a value, or the ValueError about names that are not allowed.
pub data Read : Type 0 where
  valid : ListVariable → Read
  invalid : List PathText → Read

abbrev pub list_variable : List PathText → List PathText → ListVariable
list_variable initlist names = record { data_names = nonempty_names initlist; allowed = sort names }

abbrev pub sorted : ListVariable → ListVariable
sorted v = record v { data_names = sort v.data_names }

abbrev pub text_sorted : ListVariable → PathText
text_sorted v = if same_names v.data_names v.allowed then all_text else join 44 v.data_names

abbrev pub is_no_name : List PathText → Bool
is_no_name [] = true
is_no_name (d ∷ ds) = false

-- `__str__` sorts the names of the value.
unfoldable pub to_text : ListVariable → PathText × ListVariable
unfolding join sort
to_text v = if is_no_name v.data_names then (none_text, v) else (text_sorted (sorted v), sorted v)

abbrev pub accepted : List PathText → List PathText → List PathText → Read
accepted names vs [] = valid (list_variable vs names)
accepted names vs wrong = invalid wrong

abbrev pub read_names : List PathText → (PathText → Option PathText) → PathText → Read
read_names names mapdict val =
    let vs = map (mapped mapdict) (nonempty_names (split 44 val)) in
    accepted names vs (not_allowed names vs)

unfoldable pub converter : List PathText → (PathText → Option PathText) → PathText → Read
unfolding split sort
converter names mapdict val =
    if same_path val none_text
    then valid (list_variable [] names)
    else if same_path val all_text
    then valid (list_variable names names)
    else read_names names mapdict val
