-- ===== src/MainSamples.antt =====
-- A directory for the theorems about the removal of targets.
use cross_chain.Prelude.{◌≡◌, ◌⊎◌, ◌↔◌, refl, true, false, none, some, [], ◌∷◌}
use cross_chain.Main.Clean.{
  PathNames, Tree, file, link, dir, no_entries, entry, removed, removed_directory, could_not_remove,
  fs_delete,
}
use cross_chain.Main.Clean.Gone.{permitted, fs_delete-permitted}

abbrev at : PathNames
at = (98 ∷ []) ∷ []

abbrev below : Tree
below = dir true true (entry (120 ∷ []) (file true) (entry (121 ∷ []) (link false true) no_entries))

fs_delete-permitted_example :
    ((fs_delete false at below).1 ≡ some below)
    × (((fs_delete true at below).1 ≡ none) ↔ (permitted below ≡ true))
    × ((permitted below ≡ false) ⊎ ((fs_delete true at below).0 ≡ (fs_delete false at below).0))
fs_delete-permitted_example = fs_delete-permitted at below

all_removed : fs_delete true at below ≡ (
  removed ((98 ∷ []) ∷ (120 ∷ []) ∷ [])
      ∷ removed ((98 ∷ []) ∷ (121 ∷ []) ∷ [])
      ∷ removed_directory at
      ∷ [],
  none,
)
unfolding fs_delete
all_removed = refl

-- A file that cannot be unlinked ends the loop: the file after it stays as well.
abbrev guarded : Tree
guarded = dir true true (entry (120 ∷ []) (file false) (entry (121 ∷ []) (file true) no_entries))

guarded_stays : fs_delete true at guarded ≡ (could_not_remove at ∷ [], some guarded)
unfolding fs_delete
guarded_stays = refl
