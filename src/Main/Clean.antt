-- ===== src/Main/Clean.antt =====
-- Script/Main.py, `CleanTask.fs_delete`: the removal of a path, or of a directory with all it holds.
-- Paths are lists of names. A tree is what the file system holds at a path; its tests say what the
-- system permits: whether a path can be unlinked, a directory be listed, and be removed when empty.
pub mod Gone
use cross_chain.Prelude.{
  ℕ, Bool, true, false, ◌&&◌, Option, none, some, List, [], ◌∷◌, ◌++◌, if◌then◌else◌,
}

abbrev pub PathNames : Type 0
PathNames = List (List ℕ)

-- `link` is a symbolic link, with whether `isfile` holds of it; `special` is neither file nor
-- directory. The entries of a directory come in the order of their names.
mutual
  pub data Tree : Type 0 where
    file : Bool → Tree
    link : Bool → Bool → Tree
    special : Tree
    dir : Bool → Bool → Entries → Tree

  pub data Entries : Type 0 where
    no_entries : Entries
    entry : List ℕ → Tree → Entries → Entries

-- What is printed.
pub data Report : Type 0 where
  removed removed_directory could_not_remove not_a_file : PathNames → Report

-- What a call prints, and what is left at the path.
abbrev pub Removal : Type 0
Removal = List Report × Option Tree

-- What the loop over a directory prints, what is left of the directory, and whether the loop came to
-- its end.
pub record Listing : Type 0 where
  pub lines : List Report
  pub left : Entries
  pub ended : Bool

-- `if remove: os.unlink(path)` and the message after it.
abbrev pub unlink : Bool → Bool → PathNames → Tree → Removal
unlink true true path t = (removed path ∷ [], none)
unlink true false path t = (could_not_remove path ∷ [], some t)
unlink false ok path t = (removed path ∷ [], some t)

abbrev pub is_empty : Entries → Bool
is_empty no_entries = true
is_empty (entry _ _ _) = false

-- `if remove: os.rmdir(path)` and the message after it; a directory that is not empty stays.
abbrev pub rmdir : Bool → Bool → Bool → PathNames → Listing → Removal
rmdir true listed ok path r =
    if r.ended && ok && is_empty r.left
    then (r.lines ++ removed_directory path ∷ [], none)
    else (r.lines ++ could_not_remove path ∷ [], some (dir listed ok r.left))
rmdir false listed ok path r = (
  r.lines ++ (if r.ended then removed_directory path else could_not_remove path) ∷ [],
  some (dir listed ok r.left),
)

abbrev pub kept_entry : List ℕ → Option Tree → Entries → Entries
kept_entry name none left = left
kept_entry name (some t) left = entry name t left

-- A path that is a file is unlinked in the loop itself: where that fails the loop ends.
abbrev pub after_file : Bool → Bool → PathNames → List ℕ → Tree → Entries → Listing → Listing
after_file true false path name t rest r = record {
  lines = [];
  left = entry name t rest;
  ended = false;
}
after_file true true path name t rest r = record r { lines = removed (path ++ name ∷ []) ∷ r.lines }
after_file false ok path name t rest r = record r {
  lines = removed (path ++ name ∷ []) ∷ r.lines;
  left = entry name t r.left;
}

-- On any other path the function calls itself, and the loop goes on.
abbrev pub after_call : List ℕ → Removal → Listing → Listing
after_call name (lines, left) r = record r {
  lines = lines ++ r.lines;
  left = kept_entry name left r.left;
}

unfoldable mutual
  pub fs_delete : Bool → PathNames → Tree → Removal
  fs_delete remove path (file ok) = unlink remove ok path (file ok)
  fs_delete remove path (link to_file ok) = unlink remove ok path (link to_file ok)
  fs_delete remove path special = (not_a_file path ∷ [], some special)
  fs_delete remove path (dir false ok es) = (could_not_remove path ∷ [], some (dir false ok es))
  fs_delete remove path (dir true ok es) = rmdir remove true ok path (delete_entries remove path es)

  pub delete_entries : Bool → PathNames → Entries → Listing
  delete_entries remove path no_entries = record { lines = []; left = no_entries; ended = true }
  delete_entries remove path (entry name (file ok) es) =
      after_file remove ok path name (file ok) es (delete_entries remove path es)
  delete_entries remove path (entry name (link true ok) es) =
      after_file remove ok path name (link true ok) es (delete_entries remove path es)
  delete_entries remove path (entry name (link false ok) es) =
      after_call name (fs_delete remove (path ++ name ∷ []) (link false ok))
        (delete_entries remove path es)
  delete_entries remove path (entry name special es) =
      after_call name (fs_delete remove (path ++ name ∷ []) special) (delete_entries remove path es)
  delete_entries remove path (entry name (dir listed ok inner) es) =
      after_call name (fs_delete remove (path ++ name ∷ []) (dir listed ok inner))
        (delete_entries remove path es)
