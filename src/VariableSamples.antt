-- ===== src/VariableSamples.antt =====
-- Small inputs for the theorems about the variables of a build.
use cross_chain.Prelude.{ℕ, ◌≡◌, refl, true, none, some, Option, List, [], ◌∷◌, All, ◌+◌}
use cross_chain.Prelude.Dict.{Dict, lookup}
use cross_chain.Variables.Updating.{
  Variable, Variables, Converter, converted, wrong_type, ConfigFile, update_variables,
}
use cross_chain.Util.Paths.{PathText, is_given, split}
use cross_chain.Variables.Sorting.{sort}
use cross_chain.Variables.Lists.{ListVariable, to_text, converter}
use cross_chain.Variables.Lists.Stored.{IsListed, IsReadBack, converter-to_text}

-- The names 'x', 'qt' and 'gl'.
abbrev x_name : PathText
x_name = 120 ∷ []

abbrev qt_name : PathText
qt_name = 113 ∷ 116 ∷ []

abbrev libraries : List PathText
libraries = x_name ∷ qt_name ∷ (103 ∷ 108 ∷ []) ∷ []

abbrev no_map : PathText → Option PathText
no_map p = none

abbrev chosen : ListVariable
chosen = record { data_names = x_name ∷ qt_name ∷ x_name ∷ []; allowed = sort libraries }

libraries-given : All (λ d. is_given d ≡ true) libraries
libraries-given = (refl, (refl, (refl, tt)))

x_name-IsListed : IsListed libraries no_map x_name
unfolding split
x_name-IsListed = record {
  listed = refl;
  single = refl;
  not_none = refl;
  not_all = refl;
  allowed_name = refl;
  unmapped = refl;
}

qt_name-IsListed : IsListed libraries no_map qt_name
unfolding split
qt_name-IsListed = record {
  listed = refl;
  single = refl;
  not_none = refl;
  not_all = refl;
  allowed_name = refl;
  unmapped = refl;
}

converter-to_text_example : IsReadBack chosen (converter libraries no_map (to_text chosen).0)
converter-to_text_example =
    converter-to_text libraries no_map chosen libraries-given
      (x_name-IsListed, (qt_name-IsListed, (x_name-IsListed, tt))) refl

-- It is written as 'qt,x,x'.
chosen_value : (to_text chosen).0 ≡ 113 ∷ 116 ∷ 44 ∷ 120 ∷ 44 ∷ 120 ∷ []
unfolding to_text
chosen_value = refl

-- The variables 1, which 5 names too, and 2, which is converted; 7 is no variable.
abbrev one_variable : Variable ℕ
one_variable = record {
  key = 1;
  aliases = 5 ∷ [];
  default = some 10;
  converter = none;
  validator = none;
}

abbrev doubled : Converter ℕ
doubled = record { plain = λ v. converted (v + v); with_env = λ v env. wrong_type }

abbrev two_variable : Variable ℕ
two_variable = record {
  key = 2;
  aliases = 2 ∷ [];
  default = some 20;
  converter = some doubled;
  validator = none;
}

abbrev declared : Variables ℕ
declared = record { options = one_variable ∷ two_variable ∷ []; unknown = [] }

abbrev no_files : List (ConfigFile ℕ)
no_files = []

abbrev arguments : Dict ℕ
arguments = (5, 11) ∷ (7, 12) ∷ []

-- The value of a variable as it is in the environment.
abbrev expanded : Dict ℕ → ℕ → ℕ
expanded env k = value_or (lookup k env)
  where
    value_or : Option ℕ → ℕ
    value_or none = 0
    value_or (some v) = v

abbrev old_env : Dict ℕ
old_env = (1, 1) ∷ (3, 3) ∷ []

abbrev defaults : Dict ℕ
defaults = (1, 10) ∷ (2, 20) ∷ []

converted_value :
    lookup 2 (update_variables expanded 9 no_files arguments old_env declared).1 ≡ some 40
unfolding update_variables
converted_value = refl
