-- ===== src/Cache/Retrieve/Again.antt =====
-- CacheDir.py: what was pushed is retrieved.
use cross_chain.Prelude.{
  ℕ, ◌≡◌, ◌⊎◌, refl, sym, ap, ◌∙◌, Bool, true, false, not, ◌||◌, Option, none, some, List,
  if◌then◌else◌, Bool-cases, inl, inr,
}
use mathlib.Core.Bool.{false≢true}
use cross_chain.Util.Paths.{PathText}
use cross_chain.Fs.Paths.{Stack}
use cross_chain.Fs.Lookup.{same_stack}
use cross_chain.Fs.Lookup.Keys.{same_stack_sound}
use cross_chain.Cache.Files.{
  Entry, regular, FileTable, CallEnd, is_dir, directory_of, set_entry, exists, copy_mode, writable,
}
use cross_chain.Cache.Files.Entries.{
  set_entry-same, set_entry-other, entry_at-regular, copy2-none, copy_mode-regular,
}
use cross_chain.Cache.Push.{
  CacheDir, Target, cache_file, temp_file, System, attempt_call, unbroken, then_done, copied, push,
  mode_call,
}
use cross_chain.Cache.Push.Whole.{IsWhole, IsFair}
use cross_chain.Cache.Push.Atomic.{is_pushed, push-IsWhole}
use cross_chain.Cache.Retrieve.{
  cache_retrieve_func, retrieve_enabled, retrieve, retrieve_from_cache, push_to_cache,
}

-- No other process runs, and each call is permitted.
abbrev pub idle : System
idle = record { others = λ x fs. fs; permits = λ x. true; leftover = none }

pub exists-regular :
    (fs : FileTable) (p : Stack) (c : List ℕ) (m : ℕ)
    → fs p ≡ some (regular c m)
    → exists fs p ≡ true
unfolding exists
exists-regular fs p c m h = rw (entry_at-regular fs p c m h) refl

module _ (fs : FileTable) (file p : Stack) (c : List ℕ) (m : ℕ)
    (there : fs file ≡ some (regular c m)) (free : fs p ≡ none)
    (home : is_dir fs (directory_of p) ≡ true) where
  apart : same_stack file p ≡ false
  apart = elim (Bool-cases (same_stack file p)) [
    | inl b ↦ absurd (clash (sym free ∙ ap fs (sym (same_stack_sound file p b)) ∙ there))
    | inr b ↦ b
  ]
    where
      clash : none ≡ some (regular c m) → ⊥
      clash e = cc

  pub copied-regular : copied idle file p fs ≡ (true, set_entry p (some (regular c m)) fs)
  copied-regular = rw there (copy2-none fs file p c m there free ∙ rw home refl)

  copied_out :
      then_done idle
        (attempt_call idle mode_call (unbroken idle) (copy_mode file p))
        (copied idle file p fs)
      ≡ (true, set_entry p (some (regular c (writable m))) (set_entry p (some (regular c m)) fs))
  copied_out =
      let next = set_entry p (some (regular c m)) fs in
      rw copied-regular (
        copy_mode-regular next file p c m
          (set_entry-other p file (some (regular c m)) fs apart ∙ there) c m
          (set_entry-same p (some (regular c m)) fs))

retrieve-copied :
    (fs : FileTable) (cd : CacheDir) (path : Stack) (u : Target) (c : List ℕ) (m : ℕ)
    → cd.path ≡ some path
    → cd.enabled ≡ true
    → u.nocache ≡ false
    → fs (cache_file path u) ≡ some (regular c m)
    → fs u.path ≡ none
    → is_dir fs (directory_of u.path) ≡ true
    → retrieve_from_cache idle cd true true u fs ≡ (
      true,
      set_entry u.path (some (regular c (writable m))) (set_entry u.path (some (regular c m)) fs),
    )
unfolding retrieve_from_cache retrieve cache_retrieve_func
retrieve-copied fs cd path u c m cp en kept_out there free home =
    let file = cache_file path u in
    let out = copied_out fs file u.path c m there free home in
    ap (λ b. if b || false then (false, fs) else retrieve idle cd true u fs) kept_out
    ∙ ap (λ o. retrieve_enabled idle cd o true u fs) cp
    ∙ ap (λ b. if b then cache_retrieve_func idle true path u fs else (false, fs)) en
    ∙ ap (λ b. if not b then (false, fs) else fetched file) (exists-regular fs file c m there)
    ∙ out
  where
    fetched : Stack → CallEnd
    fetched file =
        then_done idle (attempt_call idle mode_call (unbroken idle) (copy_mode file u.path))
          (copied idle file u.path fs)

pushed-IsIn : (b : Bool) (o e : Option Entry) → b ≡ true → (b ≡ false) ⊎ (o ≡ e) → o ≡ e
pushed-IsIn b o e t (inl f) = absurd (false≢true (sym f ∙ t))
pushed-IsIn b o e t (inr h) = h

push_to_cache-push :
    (sys : System) (cd : CacheDir) (execute : Bool) (t : Target) (pid : PathText) (fs : FileTable)
    (c : List ℕ) (m : ℕ)
    → fs t.path ≡ some (regular c m)
    → is_pushed (push_to_cache sys cd execute t pid fs).0 ≡ true
    → push_to_cache sys cd execute t pid fs ≡ push sys cd execute t pid fs
unfolding push_to_cache
push_to_cache-push sys cd execute t pid fs c m h ok = elim (Bool-cases t.nocache) [
  | inl b ↦ absurd (false≢true (rw b at ok))
  | inr b ↦ rw b (rw (exists-regular fs t.path c m h) refl)
]

-- Where the target is a file, outside the cache, nothing stands at the temporary file, the file of the
-- cache is not there or has the bytes of the target, and other processes keep it so: once `push_to_cache`
-- of the target has ended as it should, `retrieve_from_cache` of a derived node with the same signature, at
-- a path where nothing stands, in a directory that is there, gives true and puts a file with the same bytes there, where the cache is
-- enabled, the actions are executed, no call fails and no other process comes between.
pub retrieve-pushed :
    (sys : System) (cd : CacheDir) (execute : Bool) (path : Stack) (t u : Target) (pid : PathText)
    (fs : FileTable) (c : List ℕ) (m : ℕ)
    → cd.path ≡ some path
    → cd.enabled ≡ true
    → IsFair sys c t.path (cache_file path t) (temp_file path t pid)
    → same_stack t.path (temp_file path t pid) ≡ false
    → same_stack t.path (cache_file path t) ≡ false
    → fs t.path ≡ some (regular c m)
    → fs (temp_file path t pid) ≡ none
    → IsWhole c (fs (cache_file path t))
    → is_pushed (push_to_cache sys cd execute t pid fs).0 ≡ true
    → u.nocache ≡ false
    → cache_file path u ≡ cache_file path t
    → (push_to_cache sys cd execute t pid fs).1 u.path ≡ none
    → is_dir (push_to_cache sys cd execute t pid fs).1 (directory_of u.path) ≡ true
    → ((retrieve_from_cache idle cd true true u (push_to_cache sys cd execute t pid fs).1).0 ≡ true)
      × ((retrieve_from_cache idle cd true true u (push_to_cache sys cd execute t pid fs).1).1
            u.path
          ≡ some (regular c (writable (writable m))))
retrieve-pushed sys cd execute path t u pid fs c m cp en fair tt_temp t_file target temp whole ok
      kept_out same free home =
    let after = (push_to_cache sys cd execute t pid fs).1 in
    let file = cache_file path t in
    let pushed_through = push_to_cache-push sys cd execute t pid fs c m target ok in
    let result =
      push-IsWhole sys cd execute path t pid fs c m cp fair tt_temp t_file target temp whole in
    let here : after file ≡ some (regular c (writable m)) =
      ap (λ r. r.1 file) pushed_through
      ∙ pushed-IsIn (is_pushed (push sys cd execute t pid fs).0)
          ((push sys cd execute t pid fs).1 file) (some (regular c (writable m)))
          (ap (λ r. is_pushed r.0) (sym pushed_through) ∙ ok) result.2 in
    let e =
      retrieve-copied after cd path u c (writable m) cp en kept_out (ap after same ∙ here) free
        home in
    (
      ap (λ r. r.0) e,
      ap (λ r. r.1 u.path) e
          ∙ set_entry-same u.path (some (regular c (writable (writable m))))
              (set_entry u.path (some (regular c (writable m))) after),
    )
