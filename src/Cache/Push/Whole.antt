-- ===== src/Cache/Push/Whole.antt =====
-- CacheDir.py, `CachePushFunc`: what a push leaves in the cache, whatever fails and whatever other
-- processes do meanwhile.
use cross_chain.Prelude.{
  ℕ, ◌≡◌, refl, ◌∙◌, true, false, Option, none, some, List, ◌<◌, length, Bool-cases, inl, inr,
}
use mathlib.Core.Bool.{false≢true}
use cross_chain.Fs.Paths.{Stack}
use cross_chain.Fs.Lookup.{same_stack}
use cross_chain.Cache.Files.{
  Entry, regular, link, directory, FileTable, CallEnd, set_entry, is_directory_entry, directory_of,
  is_dir, makedirs, rename, copy2, copy_mode, writable,
}
use cross_chain.Cache.Files.Entries.{
  set_entry-same, set_entry-other, copy2-none, copy_mode-regular, copy_mode-none, makedirs-longer,
  makedirs-kept,
}
use cross_chain.Cache.Push.{
  CacheCall, isdir_call, makedirs_call, again_call, islink_call, copy_call, rename_call, mode_call,
  System, Pushed, pushed, attempt_call, unbroken, then_done, copied, put_in_cache, or_warned,
  put_or_warn, or_beaten, push_new,
}

-- Nothing, or a file with the bytes.
abbrev pub IsWhole : List ℕ → Option Entry → Type 0
IsWhole c none = Unit
IsWhole c (some (regular d m)) = d ≡ c
IsWhole c (some (link s)) = ⊥
IsWhole c (some (directory m)) = ⊥

-- Other processes leave in the file of the cache nothing or the bytes, and leave the target and the
-- temporary file, whose name has the process in it, alone.
pub record IsFair (sys : System) (c : List ℕ) (target file temp : Stack) : Type 0 where
  pub whole :
      (x : CacheCall) (fs : FileTable) → IsWhole c (fs file) → IsWhole c (sys.others x fs file)
  pub target_kept : (x : CacheCall) (fs : FileTable) → sys.others x fs target ≡ fs target
  pub temp_kept : (x : CacheCall) (fs : FileTable) → sys.others x fs temp ≡ fs temp

whole-no_directory : (c : List ℕ) (o : Option Entry) → IsWhole c o → is_directory_entry o ≡ false
whole-no_directory c none h = refl
whole-no_directory c (some (regular d m)) h = refl
whole-no_directory c (some (link s)) h = refl
whole-no_directory c (some (directory m)) h = absurd h

module _ (sys : System) (c : List ℕ) (m : ℕ) (target file temp : Stack)
    (fair : IsFair sys c target file temp) (target_temp : same_stack target temp ≡ false)
    (target_file : same_stack target file ≡ false) (file_temp : same_stack file temp ≡ false)
    (temp_file : same_stack temp file ≡ false) where
  abbrev pub IsKept : FileTable → Type 0
  IsKept fs = IsWhole c (fs file) × (fs target ≡ some (regular c m))

  -- What holds behind calls, and more if they came to their end.
  abbrev After : (FileTable → Type 0) → CallEnd → Type 0
  After P r = IsKept r.1 × (r.0 ≡ true → P r.1)

  abbrev pub IsUnused : FileTable → Type 0
  IsUnused fs = fs temp ≡ none

  abbrev IsCopied : FileTable → Type 0
  IsCopied fs = fs temp ≡ some (regular c m)

  abbrev pub IsIn : ℕ → FileTable → Type 0
  IsIn n fs = fs file ≡ some (regular c n)

  pub others-IsKept : (x : CacheCall) (fs : FileTable) → IsKept fs → IsKept (sys.others x fs)
  others-IsKept x fs (w, t) = (fair.whole x fs w, fair.target_kept x fs ∙ t)

  temp-IsKept : (e : Option Entry) (fs : FileTable) → IsKept fs → IsKept (set_entry temp e fs)
  temp-IsKept e fs (w, t) = (
    rw (set_entry-other temp file e fs file_temp) w,
    set_entry-other temp target e fs target_temp ∙ t,
  )

  file-IsKept :
      (n : ℕ) (fs : FileTable) → IsKept fs → IsKept (set_entry file (some (regular c n)) fs)
  file-IsKept n fs (w, t) = (
    rw (set_entry-same file (some (regular c n)) fs) refl,
    set_entry-other file target (some (regular c n)) fs target_file ∙ t,
  )

  attempt_call-After :
      (P : FileTable → Type 0) (x : CacheCall) (broken : FileTable → FileTable)
      (call : FileTable → CallEnd) (fs : FileTable)
      → IsKept (broken (sys.others x fs))
      → After P (call (sys.others x fs))
      → After P (attempt_call sys x broken call fs)
  attempt_call-After P x broken call fs b d = elim (Bool-cases (sys.permits x)) [
    | inl p ↦ rw p d
    | inr p ↦ rw p (b, λ e. absurd (false≢true e))
  ]

  then_done-After :
      (P Q : FileTable → Type 0) (next : FileTable → CallEnd) (r : CallEnd)
      → After P r
      → ((fs : FileTable) → IsKept fs → P fs → After Q (next fs))
      → After Q (then_done sys next r)
  then_done-After P Q next (true, fs) (k, p) n = n fs k (p refl)
  then_done-After P Q next (false, fs) (k, p) n = (k, λ e. absurd (false≢true e))

  copied-After :
      (fs : FileTable) → IsKept fs → IsUnused fs → After IsCopied (copied sys target temp fs)
  copied-After fs k u =
      let first = sys.others islink_call fs in
      let now = sys.others copy_call first in
      let k1 = others-IsKept islink_call fs k in
      let k2 = others-IsKept copy_call first k1 in
      let u2 : now temp ≡ none =
        fair.temp_kept copy_call first ∙ fair.temp_kept islink_call fs ∙ u in
      rw (k1.1) (
        attempt_call-After IsCopied copy_call (set_entry temp sys.leftover) (copy2 target temp)
          first (temp-IsKept sys.leftover now k2)
          (rw (copy2-none now target temp c m k2.1 u2)
            (elim (Bool-cases (is_dir now (directory_of temp))) [
              | inl d ↦ rw d (
                temp-IsKept (some (regular c m)) now k2,
                λ e. set_entry-same temp (some (regular c m)) now,
              )
              | inr d ↦ rw d (k2, λ e. absurd (false≢true e))
            ])))

  renamed-After :
      (fs : FileTable)
      → IsKept fs
      → IsCopied fs
      → After (IsIn m) (attempt_call sys rename_call (unbroken sys) (rename temp file) fs)
  unfolding rename
  renamed-After fs k u =
      let now = sys.others rename_call fs in
      let k1 = others-IsKept rename_call fs k in
      let u1 : now temp ≡ some (regular c m) = fair.temp_kept rename_call fs ∙ u in
      attempt_call-After (IsIn m) rename_call (unbroken sys) (rename temp file) fs k1 (
        rw (u1, whole-no_directory c (now file) k1.0)
          (elim (Bool-cases (is_dir now (directory_of file))) [
            | inl d ↦ rw d (
              temp-IsKept none (set_entry file (some (regular c m)) now) (file-IsKept m now k1),
              λ e.
                  set_entry-other temp file none (set_entry file (some (regular c m)) now) file_temp
                  ∙ set_entry-same file (some (regular c m)) now,
            )
            | inr d ↦ rw d (k1, λ e. absurd (false≢true e))
          ]))

  moded_at :
      (o : Option Entry) (fs : FileTable)
      → fs file ≡ o
      → IsWhole c o
      → IsKept fs
      → After (IsIn (writable m)) (copy_mode target file fs)
  moded_at none fs e w k =
      rw (copy_mode-none fs target file c m k.1 e) (k, λ q. absurd (false≢true q))
  moded_at (some (regular d n)) fs e w k =
      rw (copy_mode-regular fs target file c m k.1 d n e, w)
        (file-IsKept (writable m) fs k, λ q. set_entry-same file (some (regular c (writable m))) fs)
  moded_at (some (link s)) fs e w k = absurd w
  moded_at (some (directory n)) fs e w k = absurd w

  moded-After :
      (fs : FileTable)
      → IsKept fs
      → After
          (IsIn (writable m))
          (attempt_call sys mode_call (unbroken sys) (copy_mode target file) fs)
  moded-After fs k =
      let now = sys.others mode_call fs in
      let k1 = others-IsKept mode_call fs k in
      attempt_call-After (IsIn (writable m)) mode_call (unbroken sys) (copy_mode target file) fs k1
        (moded_at (now file) now refl k1.0 k1)

  put_in_cache-After :
      (fs : FileTable)
      → IsKept fs
      → IsUnused fs
      → After (IsIn (writable m)) (put_in_cache sys target file temp fs)
  put_in_cache-After fs k u =
      then_done-After (IsIn m) (IsIn (writable m))
        (attempt_call sys mode_call (unbroken sys) (copy_mode target file))
        (then_done sys (attempt_call sys rename_call (unbroken sys) (rename temp file))
          (copied sys target temp fs))
        (then_done-After IsCopied (IsIn m)
          (attempt_call sys rename_call (unbroken sys) (rename temp file))
          (copied sys target temp fs) (copied-After fs k u) renamed-After)
        (λ fs k i. moded-After fs k)

  -- What a push leaves: the file of the cache is whole and the target as it was, and a push that came to
  -- its end has put the bytes there.
  abbrev pub IsPush : Pushed × FileTable → Type 0
  IsPush x = IsKept x.1 × (x.0 ≡ pushed → IsIn (writable m) x.1)

  put_or_warn-IsPush :
      (fs : FileTable) → IsKept fs → IsUnused fs → IsPush (put_or_warn sys target file temp fs)
  put_or_warn-IsPush fs k u =
      step (put_in_cache sys target file temp fs) (put_in_cache-After fs k u)
    where
      step : (r : CallEnd) → After (IsIn (writable m)) r → IsPush (or_warned sys r)
      step (true, fs) (k, p) = (k, λ e. p refl)
      step (false, fs) (k, p) = (k, λ e. cc)

  module _ (dir : Stack) (dir_file : length dir < length file)
      (dir_temp : length dir < length temp) where
    makedirs-both :
        (fs : FileTable)
        → IsKept fs
        → IsUnused fs
        → IsKept (makedirs dir fs).1 × IsUnused (makedirs dir fs).1
    makedirs-both fs (w, t) u = (
      (rw (makedirs-longer file dir fs dir_file) w, makedirs-kept target dir fs (regular c m) t),
      makedirs-longer temp dir fs dir_temp ∙ u,
    )

    pub push_new-IsPush :
        (fs : FileTable) → IsKept fs → IsUnused fs → IsPush (push_new sys target dir file temp fs)
    push_new-IsPush fs k u =
        let now = sys.others isdir_call fs in
        let k1 = others-IsKept isdir_call fs k in
        let u1 : IsUnused now = fair.temp_kept isdir_call fs ∙ u in
        elim (Bool-cases (is_dir now dir)) [
          | inl b ↦ rw b (put_or_warn-IsPush now k1 u1)
          | inr b ↦ rw b (
              beaten (attempt_call sys makedirs_call (unbroken sys) (makedirs dir) now)
                (made now k1 u1))
        ]
      where
        made :
            (now : FileTable)
            → IsKept now
            → IsUnused now
            → IsKept (attempt_call sys makedirs_call (unbroken sys) (makedirs dir) now).1
              × IsUnused (attempt_call sys makedirs_call (unbroken sys) (makedirs dir) now).1
        made now k u =
            let next = sys.others makedirs_call now in
            let k2 = others-IsKept makedirs_call now k in
            let u2 : IsUnused next = fair.temp_kept makedirs_call now ∙ u in
            elim (Bool-cases (sys.permits makedirs_call)) [
              | inl b ↦ rw b (makedirs-both next k2 u2)
              | inr b ↦ rw b (k2, u2)
            ]

        beaten :
            (r : CallEnd)
            → IsKept r.1 × IsUnused r.1
            → IsPush (or_beaten sys dir (put_or_warn sys target file temp) r)
        beaten (true, fs) (k, u) = put_or_warn-IsPush fs k u
        beaten (false, fs) (k, u) =
            let now = sys.others again_call fs in
            let k1 = others-IsKept again_call fs k in
            let u1 : IsUnused now = fair.temp_kept again_call fs ∙ u in
            elim (Bool-cases (is_dir now dir)) [
              | inl b ↦ rw b (put_or_warn-IsPush now k1 u1)
              | inr b ↦ rw b (k1, λ e. cc)
            ]
