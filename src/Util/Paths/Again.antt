-- ===== src/Util/Paths/Again.antt =====
-- Adding the same paths a second time.
use cross_chain.Util.Paths.Same.{same_path_refl}
use mathlib.Core.List.{map, reverse-append, reverse-reverse}
use cross_chain.Prelude.{ℕ, ◌≡◌, ap, true, List, [], ◌++◌, reverse}
use cross_chain.Util.Uniquer.{kept}
use cross_chain.Util.Uniquer.Laws.{kept-append_again}
use cross_chain.Util.Paths.{
  PathText, SearchPath, listed, paths_of, by_norm, prepend_path, append_path,
}

module _ (norm canonicalize : PathText → PathText) (sep : ℕ) (old : List PathText)
    (new : SearchPath) where
  -- Prepending the same paths again, with `delete_existing`, to a list changes nothing.
  prepend_path-prepend_path :
      (let once = prepend_path norm (listed old) new sep true canonicalize in
        prepend_path norm once new sep true canonicalize ≡ once)
  unfolding prepend_path
  prepend_path-prepend_path =
      ap (λ z. listed z)
        (kept-append_again (by_norm norm) same_path_refl
          (map (λ p. canonicalize p) (paths_of sep new)) old)

  -- Appending the same paths again, with `delete_existing`, to a list changes nothing.
  append_path-append_path :
      (let once = append_path norm (listed old) new sep true canonicalize in
        append_path norm once new sep true canonicalize ≡ once)
  unfolding append_path
  append_path-append_path =
      let added = map (λ p. canonicalize p) (paths_of sep new) in
      let back = kept (by_norm norm) [] (reverse (old ++ added)) in
      let again : kept (by_norm norm) [] (reverse (reverse back ++ added)) ≡ back =
        rw (reverse-append, reverse-reverse, reverse-append)
          (kept-append_again (by_norm norm) same_path_refl (reverse added) (reverse old)) in
      ap (λ z. listed (reverse z)) again
