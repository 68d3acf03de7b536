-- ===== src/Env/Unique/Twice.antt =====
-- Environment.py, `PrependUnique` and `AppendUnique` of a list: what they leave, and that a second call
-- leaves the same.
use cross_chain.Prelude.{
  ℕ, ◌≡◌, refl, ◌∙◌, ap, sym, Bool, true, false, not, ◌||◌, Option, none, some, List, [], ◌∷◌,
  arith,
}
use mathlib.Core.List.{append-nil}
use cross_chain.Env.Unique.{
  EnvValue, nothing, text, items, dict, object, Elements, in_list, excluded, delete_duplicates,
  as_list, merge_lists, place_before, place_behind, prepend_unique, append_unique,
}
use cross_chain.Env.Unique.Lists.{
  IsEquality, in_list-append, excluded-append, excluded_twice, excluded_all, in_list-excluded,
  All-in_list, in_list-delete_duplicates,
}

module _ {A : Type 0} (el : Elements A) (eq : IsEquality el) where
  record IsPlace (place : List A → List A → List A) : Type 0 where
    in_list-place :
        (x : A) (a b : List A) → in_list el x (place a b) ≡ (in_list el x a || in_list el x b)
    excluded-place :
        (s a b : List A) → excluded el s (place a b) ≡ place (excluded el s a) (excluded el s b)
    nil-place : (a : List A) → place [] a ≡ a
    place-nil : (a : List A) → place a [] ≡ a

  before-IsPlace : IsPlace (place_before el)
  before-IsPlace = record {
    in_list-place = in_list-append el;
    excluded-place = excluded-append el;
    nil-place = λ a. refl;
    place-nil = append-nil;
  }

  behind-IsPlace : IsPlace (place_behind el)
  behind-IsPlace = record {
    in_list-place = λ x a b. in_list-append el x b a ∙ ground arith;
    excluded-place = λ s a b. excluded-append el s b a;
    nil-place = append-nil;
    place-nil = λ a. refl;
  }

  excluded_self : (l : List A) → excluded el l l ≡ []
  excluded_self l = excluded_all el l l (All-in_list el eq l l (λ x m. m))

  excluded_none : (l : List A) → excluded el [] l ≡ l
  unfolding excluded in_list
  excluded_none [] = refl
  excluded_none (x ∷ l) = ap (λ m. x ∷ m) (excluded_none l)

  -- The elements of the old value, if it counts.
  abbrev pub old : Option (EnvValue A) → List A
  old none = []
  old (some nothing) = []
  old (some (text [])) = []
  old (some (text (c ∷ s))) = as_list el (text (c ∷ s))
  old (some (items l)) = l
  old (some (dict d)) = as_list el (dict d)
  old (some (object a)) = as_list el (object a)

  module _ (place : List A → List A → List A) (p : IsPlace place) where
    in_list-merge :
        (x : A) (delete_existing : Bool) (v dk : List A)
        → in_list el x (merge_lists el place delete_existing v dk)
          ≡ (in_list el x v || in_list el x dk)
    in_list-merge x true v dk =
        p.in_list-place x v (excluded el v dk) ∙ ground (arith, in_list-excluded el eq x v dk)
    in_list-merge x false v dk =
        p.in_list-place x (excluded el dk v) dk ∙ ground (arith, in_list-excluded el eq x dk v)

    merge_twice :
        (delete_existing : Bool) (v dk : List A)
        → merge_lists el place delete_existing v (merge_lists el place delete_existing v dk)
          ≡ merge_lists el place delete_existing v dk
    merge_twice true v dk = ap (place v) (
        p.excluded-place v v (excluded el v dk)
        ∙ rw (excluded_self v, excluded_twice el v dk) (p.nil-place (excluded el v dk)))
    merge_twice false v dk =
        let r = place (excluded el dk v) dk in
        let gone : excluded el r v ≡ [] =
          excluded_all el r v
            (All-in_list el eq r v (λ x m. in_list-merge x false v dk ∙ ground arith)) in
        rw gone (p.nil-place r)

    merge-nil :
        (delete_existing : Bool) (v : List A) → merge_lists el place delete_existing v [] ≡ v
    unfolding excluded
    merge-nil true v = p.place-nil v
    merge-nil false v = p.place-nil (excluded el [] v) ∙ excluded_none v

  prepend_unique_lem :
      (delete_existing : Bool) (dk : Option (EnvValue A)) (l : List A)
      → prepend_unique el delete_existing dk (items l)
        ≡ some (
            items (
              merge_lists el
                (place_before el)
                delete_existing
                (delete_duplicates el l (not delete_existing))
                (old dk)))
  unfolding prepend_unique
  prepend_unique_lem b none l =
      ap (λ m. some (items m)) (sym (merge-nil (place_before el) before-IsPlace b _))
  prepend_unique_lem b (some nothing) l =
      ap (λ m. some (items m)) (sym (merge-nil (place_before el) before-IsPlace b _))
  prepend_unique_lem b (some (text [])) l =
      ap (λ m. some (items m)) (sym (merge-nil (place_before el) before-IsPlace b _))
  prepend_unique_lem b (some (text (c ∷ s))) l = refl
  prepend_unique_lem b (some (items dk)) l = refl
  prepend_unique_lem b (some (dict d)) l = refl
  prepend_unique_lem b (some (object a)) l = refl

  append_unique_lem :
      (delete_existing : Bool) (dk : Option (EnvValue A)) (l : List A)
      → append_unique el delete_existing dk (items l)
        ≡ some (
            items (
              merge_lists el
                (place_behind el)
                delete_existing
                (delete_duplicates el l delete_existing)
                (old dk)))
  unfolding append_unique
  append_unique_lem b none l =
      ap (λ m. some (items m)) (sym (merge-nil (place_behind el) behind-IsPlace b _))
  append_unique_lem b (some nothing) l =
      ap (λ m. some (items m)) (sym (merge-nil (place_behind el) behind-IsPlace b _))
  append_unique_lem b (some (text [])) l =
      ap (λ m. some (items m)) (sym (merge-nil (place_behind el) behind-IsPlace b _))
  append_unique_lem b (some (text (c ∷ s))) l = refl
  append_unique_lem b (some (items dk)) l = refl
  append_unique_lem b (some (dict d)) l = refl
  append_unique_lem b (some (object a)) l = refl

  -- Where the equality of elements is an equivalence, `PrependUnique` of a list to a variable
  -- succeeds, whatever the variable was. The result is a list, an element is in it exactly if it is
  -- in the given list or in the old value, taken as a list, and a second call with the same list
  -- gives the same result.
  pub prepend_unique-items :
      (delete_existing : Bool) (dk : Option (EnvValue A)) (l : List A)
      → (r : List A) × (prepend_unique el delete_existing dk (items l) ≡ some (items r))
        × ((x : A) → in_list el x r ≡ (in_list el x l || in_list el x (old dk)))
        × (prepend_unique el delete_existing (some (items r)) (items l) ≡ some (items r))
  prepend_unique-items b dk l =
      let v = delete_duplicates el l (not b) in
      (
        merge_lists el (place_before el) b v (old dk),
        prepend_unique_lem b dk l,
        λ x.
            in_list-merge (place_before el) before-IsPlace x b v (old dk)
            ∙ rw (in_list-delete_duplicates el eq x l (not b)) refl,
        prepend_unique_lem b _ l
            ∙ ap (λ m. some (items m)) (merge_twice (place_before el) before-IsPlace b v (old dk)),
      )

  -- The same of `AppendUnique`, for a variable other than CPPDEFINES.
  pub append_unique-items :
      (delete_existing : Bool) (dk : Option (EnvValue A)) (l : List A)
      → (r : List A) × (append_unique el delete_existing dk (items l) ≡ some (items r))
        × ((x : A) → in_list el x r ≡ (in_list el x l || in_list el x (old dk)))
        × (append_unique el delete_existing (some (items r)) (items l) ≡ some (items r))
  append_unique-items b dk l =
      let v = delete_duplicates el l b in
      (
        merge_lists el (place_behind el) b v (old dk),
        append_unique_lem b dk l,
        λ x.
            in_list-merge (place_behind el) behind-IsPlace x b v (old dk)
            ∙ rw (in_list-delete_duplicates el eq x l b) refl,
        append_unique_lem b _ l
            ∙ ap (λ m. some (items m)) (merge_twice (place_behind el) behind-IsPlace b v (old dk)),
      )

-- With `delete_existing` a text cannot be merged into a variable that is a text: the call is a
-- TypeError.
delete_existing-texts :
    {A : Type 0} (el : Elements A) (c : ℕ) (s t : List ℕ)
    → (prepend_unique el true (some (text (c ∷ s))) (text t) ≡ none)
      × (append_unique el true (some (text (c ∷ s))) (text t) ≡ none)
unfolding prepend_unique append_unique
delete_existing-texts el c s t = (refl, refl)
