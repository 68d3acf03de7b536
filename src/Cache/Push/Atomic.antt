-- ===== src/Cache/Push/Atomic.antt =====
-- CacheDir.py, `CacheDir.push`: the file of the cache is never there in part.
use cross_chain.Prelude.{
  ℕ, ◌≡◌, ◌⊎◌, refl, sym, ap, ◌∙◌, Bool, true, false, not, ◌||◌, none, some, List, ◌∷◌, ◌++◌, ◌<◌,
  length, length-append, arith, Bool-cases, inl, inr,
}
use cross_chain.Util.Paths.{PathText, same_path}
use cross_chain.Util.Paths.Same.{same_path_sound}
use cross_chain.Fs.Paths.{Stack}
use cross_chain.Fs.Lookup.{same_stack}
use cross_chain.Cache.Files.{regular, FileTable, exists, writable}
use cross_chain.Cache.Push.{
  CacheDir, Target, cache_dir, cache_file, temp_file, exists_call, System, Pushed, skipped, pushed,
  warned, raised, push_new, cache_push_func, push,
}
use cross_chain.Cache.Push.Whole.{IsWhole, IsFair, IsPush, push_new-IsPush}

abbrev pub is_pushed : Pushed → Bool
is_pushed pushed = true
is_pushed r = false

longer-text : (s r : PathText) → length s < length r → same_path s r ≡ false
longer-text s r l = elim (Bool-cases (same_path s r)) [
  | inl b ↦ let e = ap length (same_path_sound s r b) in absurd (omega arith)
  | inr b ↦ b
]

shorter-text : (s r : PathText) → length r < length s → same_path s r ≡ false
shorter-text s r l = elim (Bool-cases (same_path s r)) [
  | inl b ↦ let e = ap length (same_path_sound s r b) in absurd (omega arith)
  | inr b ↦ b
]

-- The temporary file has another name.
pub temp-longer :
    (path : Stack) (t : Target) (pid : PathText)
    → (same_stack (cache_file path t) (temp_file path t pid) ≡ false)
      × (same_stack (temp_file path t pid) (cache_file path t) ≡ false)
temp-longer path t pid =
    let sig : PathText = t.first ∷ t.rest in
    let l = length-append sig (46 ∷ 116 ∷ 109 ∷ 112 ∷ pid) in
    (
      rw (longer-text sig (sig ++ 46 ∷ 116 ∷ 109 ∷ 112 ∷ pid) (omega arith)) refl,
      rw (shorter-text (sig ++ 46 ∷ 116 ∷ 109 ∷ 112 ∷ pid) sig (omega arith)) refl,
    )

-- Where the target is a file with the bytes, outside the cache, nothing stands at the temporary file, the
-- file of the cache is not there or has the bytes, and other processes keep it so: a push that finds the
-- cache enabled leaves in the file of the cache nothing or the bytes, and the target as it was, whatever
-- fails; a push that ends as it should leaves the bytes there, with the mode that can be written.
pub push-IsWhole :
    (sys : System) (cd : CacheDir) (execute : Bool) (path : Stack) (t : Target) (pid : PathText)
    (fs : FileTable) (c : List ℕ) (m : ℕ)
    → cd.path ≡ some path
    → IsFair sys c t.path (cache_file path t) (temp_file path t pid)
    → same_stack t.path (temp_file path t pid) ≡ false
    → same_stack t.path (cache_file path t) ≡ false
    → fs t.path ≡ some (regular c m)
    → fs (temp_file path t pid) ≡ none
    → IsWhole c (fs (cache_file path t))
    → IsWhole c ((push sys cd execute t pid fs).1 (cache_file path t))
      × ((push sys cd execute t pid fs).1 t.path ≡ fs t.path)
      × ((is_pushed (push sys cd execute t pid fs).0 ≡ false)
          ⊎ ((push sys cd execute t pid fs).1 (cache_file path t) ≡ some (regular c (writable m))))
unfolding push cache_push_func
push-IsWhole sys cd execute path t pid fs c m p fair tt_temp t_file target temp whole =
    rw p (elim (Bool-cases (cd.readonly || not cd.enabled)) [
      | inl b ↦ rw b (whole, refl, inl refl)
      | inr b ↦ rw b (elim (Bool-cases execute) [
        | inr off ↦ rw off (whole, refl, inl refl)
        | inl on ↦ rw on (elim (Bool-cases (cd.readonly || t.nocache)) [
          | inl r ↦ rw r (whole, refl, inl refl)
          | inr r ↦ rw r (
              let now = sys.others exists_call fs in
              let k = kept fs target whole in
              elim (Bool-cases (exists now (cache_file path t))) [
                | inl x ↦ rw x (k.0, k.1 ∙ sym target, inl refl)
                | inr x ↦ rw x (
                    result (push_new sys t.path dir file tmp now) target (
                      push_new-IsPush sys c m t.path file tmp fair tt_temp t_file
                        (temp-longer path t pid).0 (temp-longer path t pid).1 dir (omega arith)
                        (omega arith) now k (fair.temp_kept exists_call fs ∙ temp)))
              ])
        ])
      ])
    ])
  where
    dir : Stack
    dir = cache_dir path t

    file : Stack
    file = cache_file path t

    tmp : Stack
    tmp = temp_file path t pid

    kept :
        (fs : FileTable)
        → fs t.path ≡ some (regular c m)
        → IsWhole c (fs file)
        → IsWhole c (sys.others exists_call fs file)
          × (sys.others exists_call fs t.path ≡ some (regular c m))
    kept fs e w = (fair.whole exists_call fs w, fair.target_kept exists_call fs ∙ e)

    result :
        (x : Pushed × FileTable)
        → fs t.path ≡ some (regular c m)
        → IsPush sys c m t.path file tmp fair tt_temp t_file
            (temp-longer path t pid).0
            (temp-longer path t pid).1
            x
        → IsWhole c (x.1 file)
          × (x.1 t.path ≡ fs t.path)
          × ((is_pushed x.0 ≡ false) ⊎ (x.1 file ≡ some (regular c (writable m))))
    result (pushed, after) e ((w, k), p) = (w, k ∙ sym e, inr (p refl))
    result (skipped, after) e ((w, k), p) = (w, k ∙ sym e, inl refl)
    result (warned, after) e ((w, k), p) = (w, k ∙ sym e, inl refl)
    result (raised, after) e ((w, k), p) = (w, k ∙ sym e, inl refl)
