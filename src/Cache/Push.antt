-- ===== src/Cache/Push.antt =====
-- processes may push or retrieve meanwhile.
pub mod Atomic
pub mod Whole
use cross_chain.Prelude.{
  ℕ, Bool, true, false, not, ◌&&◌, ◌||◌, Option, none, some, List, [], ◌∷◌, ◌++◌, ◌-◌, leb,
  if◌then◌else◌,
}
use cross_chain.Util.Paths.{PathText}
use cross_chain.Fs.Paths.{Stack}
use cross_chain.Cache.Files.{
  Entry, link, FileTable, CallEnd, set_entry, exists, is_dir, makedirs, symlink, rename, copy2,
  copy_mode,
}

-- The module's variables, and whether a library for the signatures is there.
pub record CacheDir : Type 0 where
  pub enabled : Bool
  pub readonly : Bool
  pub path : Option Stack

-- `sig[0].upper()` of a letter or a digit.
abbrev pub upper : ℕ → ℕ
upper c = if leb 97 c && leb c 122 then c - 32 else c

-- A target with its signature, the first character and the others.
pub record Target : Type 0 where
  pub path : Stack
  pub nocache : Bool
  pub first : ℕ
  pub rest : PathText

-- `cachepath`: the directory, and the file in it.
abbrev pub cache_dir : Stack → Target → Stack
cache_dir path t = (upper t.first ∷ []) ∷ path

abbrev pub cache_file : Stack → Target → Stack
cache_file path t = (t.first ∷ t.rest) ∷ cache_dir path t

-- `cachefile+'.tmp'+str(os.getpid())`
abbrev pub temp_file : Stack → Target → PathText → Stack
temp_file path t pid = ((t.first ∷ t.rest) ++ 46 ∷ 116 ∷ 109 ∷ 112 ∷ pid) ∷ cache_dir path t

-- The calls before which other processes run, and which may fail.
pub data CacheCall : Type 0 where
  exists_call isdir_call makedirs_call again_call islink_call copy_call rename_call mode_call :
      CacheCall

-- What others do before a call, whether a call is permitted, and what a copy that fails leaves.
pub record System : Type 0 where
  pub others : CacheCall → FileTable → FileTable
  pub permits : CacheCall → Bool
  pub leftover : Option Entry

pub data Pushed : Type 0 where
  skipped : Pushed
  pushed : Pushed
  warned : Pushed
  raised : Pushed

module _ (sys : System) where
  abbrev pub attempt_call :
      CacheCall → (FileTable → FileTable) → (FileTable → CallEnd) → FileTable → CallEnd
  attempt_call c broken call fs =
      let now = sys.others c fs in if sys.permits c then call now else (false, broken now)

  abbrev pub unbroken : FileTable → FileTable
  unbroken fs = fs

  abbrev pub then_done : (FileTable → CallEnd) → CallEnd → CallEnd
  then_done next (true, fs) = next fs
  then_done next (false, fs) = (false, fs)

  -- `fs.islink(t.path)`, and the copy to the temporary file.
  abbrev pub copied_entry : Option Entry → Stack → Stack → FileTable → CallEnd
  copied_entry (some (link s)) target temp = attempt_call copy_call unbroken (symlink s temp)
  copied_entry e target temp =
      attempt_call copy_call (set_entry temp sys.leftover) (copy2 target temp)

  abbrev pub copied : Stack → Stack → FileTable → CallEnd
  copied target temp fs =
      let now = sys.others islink_call fs in copied_entry (now target) target temp now

  abbrev pub put_in_cache : Stack → Stack → Stack → FileTable → CallEnd
  put_in_cache target file temp fs =
      then_done (attempt_call mode_call unbroken (copy_mode target file))
        (then_done (attempt_call rename_call unbroken (rename temp file)) (copied target temp fs))

  abbrev pub or_warned : CallEnd → Pushed × FileTable
  or_warned (ok, fs) = ((if ok then pushed else warned), fs)

  abbrev pub put_or_warn : Stack → Stack → Stack → FileTable → Pushed × FileTable
  put_or_warn target file temp fs = or_warned (put_in_cache target file temp fs)

  abbrev pub or_beaten : Stack → (FileTable → Pushed × FileTable) → CallEnd → Pushed × FileTable
  or_beaten dir next (true, fs) = next fs
  or_beaten dir next (false, fs) =
      let now = sys.others again_call fs in if is_dir now dir then next now else (raised, now)

  abbrev pub push_new : Stack → Stack → Stack → Stack → FileTable → Pushed × FileTable
  push_new target dir file temp fs =
      let now = sys.others isdir_call fs in
      if is_dir now dir
      then put_or_warn target file temp now
      else or_beaten dir (put_or_warn target file temp)
          (attempt_call makedirs_call unbroken (makedirs dir) now)

  unfoldable pub cache_push_func :
      CacheDir → Stack → Target → PathText → FileTable → Pushed × FileTable
  unfolding exists is_dir makedirs symlink rename copy2 copy_mode
  cache_push_func cd path t pid fs =
      let now = sys.others exists_call fs in
      if cd.readonly || t.nocache
      then (skipped, fs)
      else if exists now (cache_file path t)
      then (skipped, now)
      else push_new t.path (cache_dir path t) (cache_file path t) (temp_file path t pid) now

  -- `CacheDir.push`: the action does nothing where actions are not executed.
  abbrev pub push_enabled :
      CacheDir → Option Stack → Bool → Target → PathText → FileTable → Pushed × FileTable
  push_enabled cd none execute t pid fs = (skipped, fs)
  push_enabled cd (some path) execute t pid fs =
      if cd.readonly || not cd.enabled
      then (skipped, fs)
      else if execute
      then cache_push_func cd path t pid fs
      else (skipped, fs)

  unfoldable pub push : CacheDir → Bool → Target → PathText → FileTable → Pushed × FileTable
  unfolding cache_push_func
  push cd execute t pid fs = push_enabled cd cd.path execute t pid fs
