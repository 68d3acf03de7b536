-- ===== src/CacheSamples.antt =====
-- Small inputs for the theorems about the cache of derived files.
use cross_chain.Prelude.{
  ℕ, ◌≡◌, ◌⊎◌, refl, inr, Bool, true, false, none, some, List, [], ◌∷◌, if◌then◌else◌,
}
use cross_chain.Fs.Paths.{Stack}
use cross_chain.Fs.Lookup.{same_stack}
use cross_chain.Cache.Files.{
  regular, directory, FileTable, set_entry, is_dir, directory_of, makedirs, writable,
}
use cross_chain.Cache.Push.{
  CacheDir, Target, cache_dir, cache_file, temp_file, CacheCall, copy_call, System, push,
}
use cross_chain.Cache.Push.Whole.{IsWhole, IsFair}
use cross_chain.Cache.Push.Atomic.{is_pushed, push-IsWhole}
use cross_chain.Cache.Retrieve.{retrieve_from_cache, push_to_cache}
use cross_chain.Cache.Retrieve.Again.{idle}
use cross_chain.Cache.Retrieve.Succeeds.{retrieve_from_cache-push_to_cache}

-- The cache '/c', which is empty, the target '/t/o', and the node '/t/p' with the signature 'ab' too.
abbrev cache_path : Stack
cache_path = (99 ∷ []) ∷ []

abbrev cache : CacheDir
cache = record { enabled = true; readonly = false; path = some cache_path }

abbrev target_o : Target
target_o = record {
  path = (111 ∷ []) ∷ (116 ∷ []) ∷ [];
  nocache = false;
  first = 97;
  rest = 98 ∷ [];
}

abbrev target_p : Target
target_p = record target_o { path = (112 ∷ []) ∷ (116 ∷ []) ∷ [] }

abbrev bytes : List ℕ
bytes = 1 ∷ 2 ∷ []

abbrev read_only : ℕ
read_only = 0x124

abbrev files : FileTable
files = set_entry target_o.path (some (regular bytes read_only)) (
    set_entry cache_path (some (directory 0x1ff)) (
      set_entry ((116 ∷ []) ∷ []) (some (directory 0x1ff))
        (λ p. if same_stack p [] then some (directory 0x1ff) else none)))

-- A copy fails and leaves the first byte.
abbrev full_disk : System
full_disk = record {
  others = λ x fs. fs;
  permits = only_copy_fails;
  leftover = some (regular (1 ∷ []) read_only);
}
  where
    only_copy_fails : CacheCall → Bool
    only_copy_fails copy_call = false
    only_copy_fails x = true

full_disk-IsFair :
    IsFair full_disk bytes target_o.path
      (cache_file cache_path target_o)
      (temp_file cache_path target_o (55 ∷ []))
full_disk-IsFair = record {
  whole = λ x fs h. h;
  target_kept = λ x fs. refl;
  temp_kept = λ x fs. refl;
}

push-IsWhole_example :
    IsWhole bytes
      ((push full_disk cache true target_o (55 ∷ []) files).1 (cache_file cache_path target_o))
    × ((push full_disk cache true target_o (55 ∷ []) files).1 target_o.path ≡ files target_o.path)
    × ((is_pushed (push full_disk cache true target_o (55 ∷ []) files).0 ≡ false)
        ⊎ ((push full_disk cache true target_o (55 ∷ []) files).1 (cache_file cache_path target_o)
            ≡ some (regular bytes (writable read_only))))
push-IsWhole_example =
    push-IsWhole full_disk cache true cache_path target_o (55 ∷ []) files bytes read_only refl
      full_disk-IsFair refl refl refl refl tt

-- The partial copy stays behind.
leftover_value :
    (push full_disk cache true target_o (55 ∷ []) files).1 (temp_file cache_path target_o (55 ∷ []))
    ≡ some (regular (1 ∷ []) read_only)
unfolding push
leftover_value = refl

ready_value :
    (is_dir files (cache_dir cache_path target_o) ≡ true)
    ⊎ ((makedirs (cache_dir cache_path target_o) files).0 ≡ true)
unfolding makedirs
ready_value = inr refl

free_value : (push_to_cache idle cache true target_o (55 ∷ []) files).1 target_p.path ≡ none
unfolding push_to_cache
free_value = refl

home_value :
    is_dir (push_to_cache idle cache true target_o (55 ∷ []) files).1 (directory_of target_p.path)
    ≡ true
unfolding push_to_cache
home_value = refl

retrieve_from_cache-push_to_cache_example :
    (is_pushed (push_to_cache idle cache true target_o (55 ∷ []) files).0 ≡ true)
    × ((retrieve_from_cache idle cache true true target_p
          (push_to_cache idle cache true target_o (55 ∷ []) files).1).0
        ≡ true)
    × ((retrieve_from_cache idle cache true true target_p
            (push_to_cache idle cache true target_o (55 ∷ []) files).1).1
          target_p.path
        ≡ some (regular bytes (writable (writable read_only))))
retrieve_from_cache-push_to_cache_example =
    retrieve_from_cache-push_to_cache cache cache_path target_o target_p (55 ∷ []) files bytes
      read_only refl refl refl ready_value refl refl refl refl refl refl refl refl free_value
      home_value
