-- ===== src/Util/Paths.antt =====
-- `PrependPath` and `AppendPath` of Util.py. A path is a text; `norm` is `os.path.normpath` of
-- `os.path.normcase`, and the argument `canonicalize` is a function, the identity where none is given.
pub mod Again
pub mod Same
pub mod Splits
use mathlib.Core.List.{map}
use cross_chain.Prelude.{
  ℕ, ◌==◌, Bool, true, false, ◌&&◌, List, [], ◌∷◌, ◌++◌, reverse, if◌then◌else◌,
}
use cross_chain.Util.Uniquer.{Marked, is_in, kept, noted}

abbrev pub PathText : Type 0
PathText = List ℕ

abbrev pub same_path : PathText → PathText → Bool
same_path [] [] = true
same_path (c ∷ s) (d ∷ t) = c == d && same_path s t
same_path _ _ = false

-- `if path`
abbrev pub is_given : PathText → Bool
is_given [] = false
is_given (c ∷ s) = true

-- A search path: a list, or one text with a separator.
pub data SearchPath : Type 0 where
  listed : List PathText → SearchPath
  joined : PathText → SearchPath

-- `s.split(sep)`, for a separator of one character, and `sep.join(paths)`.
abbrev pub cut : List PathText → ℕ → Bool → List PathText
cut [] c is_sep = if is_sep then [] ∷ [] ∷ [] else (c ∷ []) ∷ []
cut (p ∷ ps) c is_sep = if is_sep then [] ∷ p ∷ ps else (c ∷ p) ∷ ps

unfoldable pub split : ℕ → PathText → List PathText
split sep [] = [] ∷ []
split sep (c ∷ s) = cut (split sep s) c (c == sep)

unfoldable pub join : ℕ → List PathText → PathText
join sep [] = []
join sep (p ∷ []) = p
join sep (p ∷ q ∷ ps) = let rest = join sep (q ∷ ps) in p ++ sep ∷ rest

abbrev pub paths_of : ℕ → SearchPath → List PathText
paths_of sep (listed ps) = ps
paths_of sep (joined s) = split sep s

-- The result is a list or a text as the old path was.
abbrev pub like : ℕ → SearchPath → List PathText → SearchPath
like sep (listed ps) result = listed result
like sep (joined s) result = joined (join sep result)

module _ (norm : PathText → PathText) where
  -- The loops compare normalised paths and pass over empty ones.
  abbrev pub by_norm : Marked PathText
  by_norm = record { Marker = PathText; marker = norm; same = same_path; counts = is_given }

  -- The loop over the new paths that inserts at the head, and the one that appends.
  unfoldable pub insert_new : List PathText → List PathText → List PathText → List PathText
  insert_new normpaths [] result = result
  insert_new normpaths (p ∷ ps) result =
      let passed = insert_new normpaths ps result in
      let inserted = insert_new (norm p ∷ normpaths) ps (p ∷ result) in
      if is_given p then (if is_in by_norm (norm p) normpaths then passed else inserted) else passed

  -- The first loop of `AppendPath` without `delete_existing`, which keeps every path.
  unfoldable pub given : List PathText → List PathText
  given [] = []
  given (p ∷ ps) = let rest = given ps in if is_given p then p ∷ rest else rest

  abbrev pub prepended : Bool → (paths newpaths : List PathText) → List PathText
  prepended true paths newpaths = kept by_norm [] (newpaths ++ paths)
  prepended false paths newpaths =
      insert_new (noted by_norm [] paths) (reverse newpaths) (kept by_norm [] paths)

  abbrev pub appended : Bool → (paths newpaths : List PathText) → List PathText
  appended true paths newpaths = reverse (kept by_norm [] (reverse (paths ++ newpaths)))
  appended false paths newpaths =
      let old = given paths in old ++ kept by_norm (reverse (map (λ p. norm p) old)) newpaths

  -- `PrependPath` and `AppendPath`
  unfoldable pub prepend_path :
      (oldpath newpath : SearchPath) (sep : ℕ) (delete_existing : Bool)
      (canonicalize : PathText → PathText)
      → SearchPath
  prepend_path oldpath newpath sep delete_existing canonicalize = like sep oldpath (
      prepended delete_existing (paths_of sep oldpath)
        (map (λ p. canonicalize p) (paths_of sep newpath)))

  unfoldable pub append_path :
      (oldpath newpath : SearchPath) (sep : ℕ) (delete_existing : Bool)
      (canonicalize : PathText → PathText)
      → SearchPath
  append_path oldpath newpath sep delete_existing canonicalize = like sep oldpath (
      appended delete_existing (paths_of sep oldpath)
        (map (λ p. canonicalize p) (paths_of sep newpath)))
