-- ===== src/UtilSamples.antt =====
-- Small lists and paths on which the theorems about Util.py apply.
use cross_chain.Prelude.{ℕ, ◌≡◌, refl, ◌==◌, Bool, true, List, [], ◌∷◌}
use cross_chain.Util.Uniquer.{kept}
use cross_chain.Util.UniqueList.{
  new_list, Call, append, extend, reverse_call, read, set_item, delete_place, make_unique, call,
  calls, is_settled,
}
use cross_chain.Util.UniqueList.Refines.{seen, all_at_once, seen-calls}
use cross_chain.Util.Paths.{PathText, SearchPath, listed, joined, split, prepend_path}

abbrev same : ℕ → ℕ → Bool
same a b = a == b

abbrev unsorted : List ℕ → List ℕ
unsorted xs = xs

abbrev sample_calls : List (Call ℕ)
sample_calls =
    append 2 ∷ extend (1 ∷ 3 ∷ []) ∷ reverse_call ∷ set_item 0 1 ∷ read ∷ delete_place 0 ∷ []

sample_value :
    seen same unsorted (calls same unsorted sample_calls (new_list (1 ∷ 2 ∷ []))) ≡ 2 ∷ []
unfolding seen call make_unique kept
sample_value = refl

settled_value : is_settled same unsorted sample_calls (new_list (1 ∷ 2 ∷ [])) ≡ true
unfolding call make_unique kept
settled_value = refl

seen-calls_example :
    seen same unsorted (calls same unsorted sample_calls (new_list (1 ∷ 2 ∷ [])))
    ≡ all_at_once same unsorted sample_calls (seen same unsorted (new_list (1 ∷ 2 ∷ [])))
seen-calls_example = seen-calls same unsorted sample_calls (new_list (1 ∷ 2 ∷ [])) settled_value

-- After ["a", "b"] and append("a"), extend(["c"]), the item at index 2 is "c" to a reader, but an
-- assignment to index 2 changes the repetition and not "c".
assigned :
    seen same unsorted
      (calls same unsorted (append 1 ∷ extend (3 ∷ []) ∷ set_item 2 9 ∷ []) (new_list (1 ∷ 2 ∷ [])))
    ≡ 1 ∷ 2 ∷ 9 ∷ 3 ∷ []
unfolding seen call make_unique kept
assigned = refl

abbrev unchanged : PathText → PathText
unchanged p = p

-- "/a:/b" is prepended to ["/b", "/c"].
abbrev sample_new : SearchPath
sample_new = joined (47 ∷ 97 ∷ 58 ∷ 47 ∷ 98 ∷ [])

abbrev sample_old : List PathText
sample_old = (47 ∷ 98 ∷ []) ∷ (47 ∷ 99 ∷ []) ∷ []

sample_prepended :
    prepend_path unchanged (listed sample_old) sample_new 58 true unchanged
    ≡ listed ((47 ∷ 97 ∷ []) ∷ (47 ∷ 98 ∷ []) ∷ (47 ∷ 99 ∷ []) ∷ [])
unfolding prepend_path kept split
sample_prepended = refl
