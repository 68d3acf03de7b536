-- ===== src/Cache/Retrieve/Succeeds.antt =====
-- CacheDir.py: a push that nothing disturbs ends as it should, and what it put into the cache is
-- retrieved.
use cross_chain.Prelude.{
  ℕ, ◌≡◌, ◌⊎◌, ◌<◌, refl, sym, ap, ◌∙◌, Bool, true, false, not, ◌||◌, none, some, List, length,
  arith, if◌then◌else◌, Bool-cases, inl, inr,
}
use mathlib.Core.Bool.{false≢true}
use cross_chain.Util.Paths.{PathText}
use cross_chain.Fs.Paths.{Stack}
use cross_chain.Fs.Lookup.{same_stack}
use cross_chain.Cache.Files.{
  regular, FileTable, CallEnd, set_entry, exists, is_dir, directory_of, makedirs, rename, writable,
}
use cross_chain.Cache.Files.Entries.{
  set_entry-same, set_entry-other, copy_mode-regular, makedirs-longer, makedirs-kept,
  makedirs-is_dir, is_dir-other, leads_nowhere, exists-none,
}
use cross_chain.Cache.Push.{
  CacheDir, Target, cache_dir, cache_file, temp_file, Pushed, skipped, attempt_call, unbroken,
  then_done, copied, put_in_cache, put_or_warn, or_warned, or_beaten, push_new, cache_push_func,
  push_enabled, push, rename_call,
}
use cross_chain.Cache.Push.Whole.{IsFair}
use cross_chain.Cache.Push.Atomic.{is_pushed, temp-longer}
use cross_chain.Cache.Retrieve.{retrieve_from_cache, push_to_cache}
use cross_chain.Cache.Retrieve.Again.{idle, exists-regular, copied-regular, retrieve-pushed}

module _ (c : List ℕ) (m : ℕ) (target file temp : Stack)
    (target_temp : same_stack target temp ≡ false) (target_file : same_stack target file ≡ false)
    (file_temp : same_stack file temp ≡ false)
    (beside : directory_of temp ≡ directory_of file) where
  abbrev IsFree : FileTable → Type 0
  IsFree fs = (fs target ≡ some (regular c m)) × (fs file ≡ none) × (fs temp ≡ none)

  moved-idle :
      (fs : FileTable)
      → IsFree fs
      → is_dir fs (directory_of file) ≡ true
      → then_done idle
          (attempt_call idle rename_call (unbroken idle) (rename temp file))
          (copied idle target temp fs)
        ≡ (
          true,
          set_entry temp none
              (set_entry file (some (regular c m)) (set_entry temp (some (regular c m)) fs)),
        )
  unfolding rename
  moved-idle fs (t, f, u) home =
      let next = set_entry temp (some (regular c m)) fs in
      let here = set_entry-same temp (some (regular c m)) fs in
      let clear = set_entry-other temp file (some (regular c m)) fs file_temp ∙ f in
      let stays =
        is_dir-other fs temp (some (regular c m)) (ap leads_nowhere u) (directory_of file) home in
      rw (copied-regular fs target temp c m t u (rw beside home)) (rw (here, clear, stays) refl)

  put_in_cache-idle :
      (fs : FileTable)
      → IsFree fs
      → is_dir fs (directory_of file) ≡ true
      → (put_in_cache idle target file temp fs).0 ≡ true
  put_in_cache-idle fs (t, f, u) home =
      let first = set_entry temp (some (regular c m)) fs in
      let second = set_entry file (some (regular c m)) first in
      let third = set_entry temp none second in
      rw (moved-idle fs (t, f, u) home) (
        ap (λ r. r.0)
          (copy_mode-regular third target file c m
            (set_entry-other temp target none second target_temp
              ∙ set_entry-other file target (some (regular c m)) first target_file
              ∙ set_entry-other temp target (some (regular c m)) fs target_temp
              ∙ t)
            c m
            (set_entry-other temp file none second file_temp
              ∙ set_entry-same file (some (regular c m)) first)))

  put_or_warn-idle :
      (fs : FileTable)
      → IsFree fs
      → is_dir fs (directory_of file) ≡ true
      → is_pushed (put_or_warn idle target file temp fs).0 ≡ true
  put_or_warn-idle fs free home =
      step (put_in_cache idle target file temp fs) (put_in_cache-idle fs free home)
    where
      step : (r : CallEnd) → r.0 ≡ true → is_pushed (or_warned idle r).0 ≡ true
      step (true, fs) e = refl
      step (false, fs) e = absurd (false≢true e)

  push_new-idle :
      (fs : FileTable)
      → length (directory_of file) < length file
      → length (directory_of file) < length temp
      → IsFree fs
      → (is_dir fs (directory_of file) ≡ true) ⊎ ((makedirs (directory_of file) fs).0 ≡ true)
      → is_pushed (push_new idle target (directory_of file) file temp fs).0 ≡ true
  push_new-idle fs dir_file dir_temp (t, f, u) ready =
      elim (Bool-cases (is_dir fs (directory_of file))) [
        | inl b ↦ rw b (put_or_warn-idle fs (t, f, u) b)
        | inr b ↦ rw b (
            made (makedirs (directory_of file) fs) (can_make b ready)
              (
                makedirs-kept target (directory_of file) fs (regular c m) t,
                makedirs-longer file (directory_of file) fs dir_file ∙ f,
                makedirs-longer temp (directory_of file) fs dir_temp ∙ u,
              )
              (makedirs-is_dir (directory_of file) fs (can_make b ready)))
      ]
    where
      can_make :
          is_dir fs (directory_of file) ≡ false
          → (is_dir fs (directory_of file) ≡ true) ⊎ ((makedirs (directory_of file) fs).0 ≡ true)
          → (makedirs (directory_of file) fs).0 ≡ true
      can_make b (inl d) = absurd (false≢true (sym b ∙ d))
      can_make b (inr d) = d

      made :
          (r : CallEnd)
          → r.0 ≡ true
          → IsFree r.1
          → is_dir r.1 (directory_of file) ≡ true
          → is_pushed (or_beaten idle (directory_of file) (put_or_warn idle target file temp) r).0
            ≡ true
      made (true, fs) e free home = put_or_warn-idle fs free home
      made (false, fs) e free home = absurd (false≢true e)

guard_kept : (r e : Bool) → r ≡ false → e ≡ true → r || not e ≡ false
guard_kept r e h k = rw (h, k) refl

guard_wanted : (r n : Bool) → r ≡ false → n ≡ false → r || n ≡ false
guard_wanted r n h k = rw (h, k) refl

-- `push_to_cache` of a file comes to the copy.
push_to_cache-push_new :
    (cd : CacheDir) (path : Stack) (t : Target) (pid : PathText) (fs : FileTable) (c : List ℕ)
    (m : ℕ)
    → cd.path ≡ some path
    → cd.enabled ≡ true
    → cd.readonly ≡ false
    → t.nocache ≡ false
    → fs t.path ≡ some (regular c m)
    → fs (cache_file path t) ≡ none
    → push_to_cache idle cd true t pid fs
      ≡ push_new idle t.path (cache_dir path t) (cache_file path t) (temp_file path t pid) fs
unfolding push_to_cache push cache_push_func
push_to_cache-push_new cd path t pid fs c m cp en ro t_kept target file =
    ap
      (λ b.
        if b
        then (skipped, fs)
        else if exists fs t.path
        then push idle cd true t pid fs
        else (skipped, fs))
      t_kept
    ∙ ap (λ b. if b then push idle cd true t pid fs else (skipped, fs))
        (exists-regular fs t.path c m target)
    ∙ ap (λ o. push_enabled idle cd o true t pid fs) cp
    ∙ ap
        (λ b.
          if b
          then (skipped, fs)
          else if true
          then cache_push_func idle cd path t pid fs
          else (skipped, fs))
        (guard_kept cd.readonly cd.enabled ro en)
    ∙ ap
        (λ b.
          if b
          then (skipped, fs)
          else if exists fs (cache_file path t)
          then (skipped, fs)
          else copy)
        (guard_wanted cd.readonly t.nocache ro t_kept)
    ∙ ap (λ b. if b then (skipped, fs) else copy) (exists-none fs (cache_file path t) file)
  where
    copy : Pushed × FileTable
    copy = push_new idle t.path (cache_dir path t) (cache_file path t) (temp_file path t pid) fs

-- Where the cache is enabled and not only read, its directory is there or can be made, the target is a
-- file outside the cache, and the file of the cache and the temporary file are not there:
-- `push_to_cache` of the target, where the actions are executed, no call fails and no other process
-- comes between, ends as it should, and `retrieve_from_cache` of a derived node with the same
-- signature, at a path where then nothing stands, in a directory that then is there, gives true, where
-- the actions are executed, and puts a file with the bytes of the target there. Both nodes may be
-- cached.
pub retrieve_from_cache-push_to_cache :
    (cd : CacheDir) (path : Stack) (t u : Target) (pid : PathText) (fs : FileTable) (c : List ℕ)
    (m : ℕ)
    → cd.path ≡ some path
    → cd.enabled ≡ true
    → cd.readonly ≡ false
    → (is_dir fs (cache_dir path t) ≡ true) ⊎ ((makedirs (cache_dir path t) fs).0 ≡ true)
    → t.nocache ≡ false
    → same_stack t.path (temp_file path t pid) ≡ false
    → same_stack t.path (cache_file path t) ≡ false
    → fs t.path ≡ some (regular c m)
    → fs (temp_file path t pid) ≡ none
    → fs (cache_file path t) ≡ none
    → u.nocache ≡ false
    → cache_file path u ≡ cache_file path t
    → (push_to_cache idle cd true t pid fs).1 u.path ≡ none
    → is_dir (push_to_cache idle cd true t pid fs).1 (directory_of u.path) ≡ true
    → (is_pushed (push_to_cache idle cd true t pid fs).0 ≡ true)
      × ((retrieve_from_cache idle cd true true u (push_to_cache idle cd true t pid fs).1).0 ≡ true)
      × ((retrieve_from_cache idle cd true true u (push_to_cache idle cd true t pid fs).1).1 u.path
          ≡ some (regular c (writable (writable m))))
retrieve_from_cache-push_to_cache cd path t u pid fs c m cp en ro ready t_kept tt_temp t_file target
      temp file u_kept same free home =
    let ok = pushed_idle in
    let (r, b) =
      retrieve-pushed idle cd true path t u pid fs c m cp en fair tt_temp t_file target temp
        (rw file tt) ok u_kept same free home in
    (ok, r, b)
  where
    fair : IsFair idle c t.path (cache_file path t) (temp_file path t pid)
    fair = record { whole = λ x fs h. h; target_kept = λ x fs. refl; temp_kept = λ x fs. refl }

    pushed_idle : is_pushed (push_to_cache idle cd true t pid fs).0 ≡ true
    pushed_idle =
        ap (λ r. is_pushed r.0)
          (push_to_cache-push_new cd path t pid fs c m cp en ro t_kept target file)
        ∙ push_new-idle c m t.path (cache_file path t) (temp_file path t pid) tt_temp t_file
            (temp-longer path t pid).0 refl fs (omega arith) (omega arith) (target, file, temp)
            ready
