-- ===== src/EnvSamples.antt =====
-- Small inputs for the theorems about construction environments.
use cross_chain.Prelude.{
  ℕ, ◌≡◌, true, false, none, some, List, [], ◌∷◌, ◌||◌, ◌==◌, if◌then◌else◌, arith,
}
use cross_chain.Prelude.Dict.{Dict}
use cross_chain.Env.Override.{VariableNames, Env, base, override, get_item}
use cross_chain.Env.Override.Calls.{
  EnvCall, read, assign, delete, replace_by, env_calls, flat_calls, subject, deletes, calls-flat,
}
use cross_chain.Env.Unique.{items, Elements, in_list, prepend_unique}
use cross_chain.Env.Unique.Lists.{IsEquality}
use cross_chain.Env.Unique.Twice.{old, prepend_unique-items}

-- Variable 1 has the value 10, below an override that sets 1 to 11 and 2 to 12.
abbrev bottom : Env ℕ
bottom = base ((1, 10) ∷ (3, 13) ∷ [])

abbrev above : Dict ℕ
above = (1, 11) ∷ (2, 12) ∷ []

abbrev names : VariableNames
names = record {
  reserved = λ k. k == 9;
  future_reserved = λ k. false;
  valid = λ k. if k == 8 then false else true;
}

abbrev sample_calls : List (EnvCall ℕ)
sample_calls = read 1 ∷ delete 1 ∷ read 1 ∷ assign 8 5 ∷ replace_by ((9, 1) ∷ (3, 2) ∷ []) ∷ []

calls-flat_example :
    ((env_calls names sample_calls (override bottom above)).0
      ≡ (flat_calls names sample_calls (λ k. get_item k (override bottom above))).0)
    × ((j : ℕ)
        → (get_item j (env_calls names sample_calls (override bottom above)).1
            ≡ (flat_calls names sample_calls (λ k. get_item k (override bottom above))).1 j)
          × (get_item j (subject names (env_calls names sample_calls (override bottom above)).1)
              ≡ (if deletes names j sample_calls then none else get_item j bottom)))
calls-flat_example = calls-flat names sample_calls bottom above

abbrev numbers : Elements ℕ
numbers = record {
  same = λ a b. a == b;
  hashable = λ a. true;
  as_text = λ a. none;
  item = λ v. 0;
  in_other = λ a v. none;
}

numbers-IsEquality : IsEquality numbers
numbers-IsEquality = record {
  same_refl = λ x. ground arith;
  same_sym = λ x y. ground arith;
  same_trans = λ x y z e. ground arith;
}

prepend_unique-items_example :
    (r : List ℕ) × (prepend_unique numbers true
        (some (items (1 ∷ 2 ∷ 3 ∷ [])))
        (items (3 ∷ 4 ∷ 3 ∷ []))
      ≡ some (items r))
    × ((x : ℕ)
        → in_list numbers x r ≡ (
            in_list numbers x (3 ∷ 4 ∷ 3 ∷ [])
            || in_list numbers x (old numbers numbers-IsEquality (some (items (1 ∷ 2 ∷ 3 ∷ []))))))
    × (prepend_unique numbers true (some (items r)) (items (3 ∷ 4 ∷ 3 ∷ [])) ≡ some (items r))
prepend_unique-items_example =
    prepend_unique-items numbers numbers-IsEquality true (some (items (1 ∷ 2 ∷ 3 ∷ [])))
      (3 ∷ 4 ∷ 3 ∷ [])
