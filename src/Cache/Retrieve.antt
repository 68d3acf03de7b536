-- ===== src/Cache/Retrieve.antt =====
-- CacheDir.py, `CacheRetrieveFunc` and `CacheDir.retrieve`, and the methods of `File` (Node/FS.py) that
-- push and retrieve: a target is copied out of the cache.
pub mod Again
pub mod Succeeds
use cross_chain.Prelude.{Bool, true, false, not, ◌&&◌, ◌||◌, Option, none, some, if◌then◌else◌}
use cross_chain.Util.Paths.{PathText}
use cross_chain.Fs.Paths.{Stack}
use cross_chain.Cache.Files.{FileTable, CallEnd, exists, is_dir, symlink, copy2, copy_mode}
use cross_chain.Cache.Push.{
  CacheDir, Target, cache_file, exists_call, mode_call, System, Pushed, skipped, attempt_call,
  unbroken, then_done, copied, push,
}

module _ (sys : System) where
  -- `CacheRetrieveFunc`: whether it gives 0. An exception of it is one more result that is not 0.
  unfoldable pub cache_retrieve_func : Bool → Stack → Target → FileTable → CallEnd
  unfolding exists is_dir symlink copy2 copy_mode
  cache_retrieve_func execute path t fs =
      let file = cache_file path t in
      let now = sys.others exists_call fs in
      if not (exists now file)
      then (false, now)
      else if not execute
      then (true, now)
      else then_done sys (attempt_call sys mode_call (unbroken sys) (copy_mode file t.path))
          (copied sys file t.path now)

  abbrev pub retrieve_enabled : CacheDir → Option Stack → Bool → Target → FileTable → CallEnd
  retrieve_enabled cd none execute t fs = (false, fs)
  retrieve_enabled cd (some path) execute t fs =
      if cd.enabled then cache_retrieve_func execute path t fs else (false, fs)

  -- `CacheDir.retrieve`; what `cache_show` prints is left out.
  unfoldable pub retrieve : CacheDir → Bool → Target → FileTable → CallEnd
  unfolding cache_retrieve_func
  retrieve cd execute t fs = retrieve_enabled cd cd.path execute t fs

  unfoldable pub retrieve_from_cache : CacheDir → Bool → Bool → Target → FileTable → CallEnd
  unfolding retrieve
  retrieve_from_cache cd execute is_derived t fs =
      if t.nocache || not is_derived then (false, fs) else retrieve cd execute t fs

  unfoldable pub push_to_cache :
      CacheDir → Bool → Target → PathText → FileTable → Pushed × FileTable
  unfolding push exists
  push_to_cache cd execute t pid fs =
      if t.nocache
      then (skipped, fs)
      else if exists fs t.path
      then push sys cd execute t pid fs
      else (skipped, fs)
