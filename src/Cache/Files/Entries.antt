-- ===== src/Cache/Files/Entries.antt =====
-- CacheDir.py: what a call of the file system leaves at a path.
use cross_chain.Prelude.{
  ℕ, zero, suc, ◌≡◌, refl, sym, ap, ◌∙◌, Bool, true, false, Option, none, some, List, [], ◌∷◌, ◌<◌,
  length, arith, if◌then◌else◌, Bool-cases, inl, inr,
}
use mathlib.Core.Bool.{false≢true}
use cross_chain.Fs.Paths.{Stack}
use cross_chain.Fs.Lookup.{same_stack}
use cross_chain.Fs.Lookup.Keys.{same_stack_sound, same_stack_refl}
use cross_chain.Cache.Files.{
  Entry, regular, directory, FileTable, CallEnd, set_entry, is_entry_there, follow, entry_at,
  entry_of, through, is_directory_entry, link, link_path, exists, is_dir, directory_of, mkdir,
  makedirs, copy2, copy_mode, writable,
}

pub set_entry-same : (p : Stack) (e : Option Entry) (fs : FileTable) → set_entry p e fs p ≡ e
set_entry-same p e fs = rw (same_stack_refl p) refl

pub set_entry-other :
    (p q : Stack) (e : Option Entry) (fs : FileTable)
    → same_stack q p ≡ false
    → set_entry p e fs q ≡ fs q
set_entry-other p q e fs h = rw h refl

module _ (fs : FileTable) (p : Stack) where
  pub follow-none : fs p ≡ none → follow 40 fs p ≡ some p
  unfolding follow
  follow-none h = rw h refl

  pub follow-regular : (c : List ℕ) (m : ℕ) → fs p ≡ some (regular c m) → follow 40 fs p ≡ some p
  unfolding follow
  follow-regular c m h = rw h refl

  pub entry_at-regular :
      (c : List ℕ) (m : ℕ) → fs p ≡ some (regular c m) → entry_at fs p ≡ some (regular c m)
  unfolding entry_at
  entry_at-regular c m h = rw (follow-regular c m h) h

  pub is_dir-none : fs p ≡ none → is_dir fs p ≡ false
  unfolding is_dir entry_at
  is_dir-none h = rw (follow-none h) (rw h refl)

  pub exists-none : fs p ≡ none → exists fs p ≡ false
  unfolding exists entry_at
  exists-none h = rw (follow-none h) (rw h refl)

module _ (fs : FileTable) (src dst : Stack) (c : List ℕ) (m : ℕ)
    (h : fs src ≡ some (regular c m)) where
  pub copy2-none :
      fs dst ≡ none
      → copy2 src dst fs ≡ (
          if is_dir fs (directory_of dst)
          then (true, set_entry dst (some (regular c m)) fs)
          else (false, fs))
  unfolding copy2
  copy2-none e =
      rw (is_dir-none fs dst e) (rw (follow-none fs dst e, entry_at-regular fs src c m h, e) refl)

  pub copy_mode-regular :
      (d : List ℕ) (n : ℕ)
      → fs dst ≡ some (regular d n)
      → copy_mode src dst fs ≡ (true, set_entry dst (some (regular d (writable m))) fs)
  unfolding copy_mode
  copy_mode-regular d n e =
      rw (entry_at-regular fs src c m h) (rw (follow-regular fs dst d n e, e) refl)

  pub copy_mode-none : fs dst ≡ none → copy_mode src dst fs ≡ (false, fs)
  unfolding copy_mode
  copy_mode-none e = rw (entry_at-regular fs src c m h) (rw (follow-none fs dst e, e) refl)

same_length : (p q : Stack) → same_stack q p ≡ true → length p ≡ length q
same_length p q b = ap length (sym (same_stack_sound q p b))

pub longer-other : (p q : Stack) → length p < length q → same_stack q p ≡ false
longer-other p q l = elim (Bool-cases (same_stack q p)) [
  | inl b ↦ let e = same_length p q b in absurd (omega arith)
  | inr b ↦ b
]

module _ (q : Stack) (p : Stack) where
  mkdir-longer : (r : CallEnd) → length p < length q → (mkdir p r).1 q ≡ r.1 q
  mkdir-longer (false, fs) l = refl
  mkdir-longer (true, fs) l = elim (Bool-cases (is_entry_there (fs p))) [
    | inl b ↦ rw b refl
    | inr b ↦ rw b (elim (Bool-cases (is_dir fs (directory_of p))) [
      | inl d ↦ rw d (set_entry-other p q (some (directory 0x1ff)) fs (longer-other p q l))
      | inr d ↦ rw d refl
    ])
  ]

  mkdir-kept : (r : CallEnd) (e : Entry) → r.1 q ≡ some e → (mkdir p r).1 q ≡ some e
  mkdir-kept (false, fs) e h = h
  mkdir-kept (true, fs) e h = elim (Bool-cases (is_entry_there (fs p))) [
    | inl b ↦ rw b h
    | inr b ↦ rw b (elim (Bool-cases (is_dir fs (directory_of p))) [
      | inl d ↦ rw d (set_entry-other p q (some (directory 0x1ff)) fs (elsewhere b) ∙ h)
      | inr d ↦ rw d h
    ])
  ]
    where
      elsewhere : is_entry_there (fs p) ≡ false → same_stack q p ≡ false
      elsewhere b = elim (Bool-cases (same_stack q p)) [
        | inl s ↦ absurd (
            false≢true (
              sym b
              ∙ ap (λ i. is_entry_there (fs i)) (sym (same_stack_sound q p s))
              ∙ ap is_entry_there h))
        | inr s ↦ s
      ]

-- Only the directories themselves are made, and nothing is replaced.
pub makedirs-longer :
    (q p : Stack) (fs : FileTable) → length p < length q → (makedirs p fs).1 q ≡ fs q
unfolding makedirs
makedirs-longer q [] fs l = refl
makedirs-longer q (name ∷ up) fs l =
    let ih = makedirs-longer q up fs (omega arith) in
    mkdir-longer q (name ∷ up) (if exists fs up then (true, fs) else makedirs up fs) l
    ∙ step (exists fs up) ih
  where
    step :
        (b : Bool)
        → (makedirs up fs).1 q ≡ fs q
        → (if b then (true, fs) else makedirs up fs).1 q ≡ fs q
    step true ih = refl
    step false ih = ih

pub makedirs-kept :
    (q p : Stack) (fs : FileTable) (e : Entry) → fs q ≡ some e → (makedirs p fs).1 q ≡ some e
unfolding makedirs
makedirs-kept q [] fs e h = h
makedirs-kept q (name ∷ up) fs e h =
    mkdir-kept q (name ∷ up) (if exists fs up then (true, fs) else makedirs up fs) e
      (step (exists fs up) (makedirs-kept q up fs e h))
  where
    step :
        (b : Bool)
        → (makedirs up fs).1 q ≡ some e
        → (if b then (true, fs) else makedirs up fs).1 q ≡ some e
    step true ih = h
    step false ih = ih

-- Neither a link nor a directory.
abbrev pub leads_nowhere : Option Entry → Bool
leads_nowhere (some (link s)) = false
leads_nowhere (some (directory m)) = false
leads_nowhere o = true

no_directory : (o : Option Entry) → leads_nowhere o ≡ true → is_directory_entry o ≡ false
no_directory none h = refl
no_directory (some (regular c m)) h = refl
no_directory (some (link s)) h = refl
no_directory (some (directory m)) h = absurd (false≢true h)

through-nowhere :
    (next : Stack → Option Stack) (p : Stack) (o : Option Entry)
    → leads_nowhere o ≡ true
    → through next p o ≡ some p
through-nowhere next p none h = refl
through-nowhere next p (some (regular c m)) h = refl
through-nowhere next p (some (link s)) h = absurd (false≢true h)
through-nowhere next p (some (directory m)) h = refl

-- A directory that is there is not reached over what is neither a link nor a directory, and stays.
module _ (fs : FileTable) (q : Stack) (e : Option Entry)
    (nowhere : leads_nowhere (fs q) ≡ true) where
  abbrev is_at : FileTable → ℕ → Stack → Bool
  is_at files n p = is_directory_entry (entry_of files (follow n files p))

  follow-other : (n : ℕ) (p : Stack) → is_at fs n p ≡ true → is_at (set_entry q e fs) n p ≡ true
  unfolding follow
  follow-other zero p h = h
  follow-other (suc n) p h = elim (Bool-cases (same_stack p q)) [
    | inl b ↦
        let same : p ≡ q = same_stack_sound p q b in
        let out : leads_nowhere (fs p) ≡ true = ap (λ i. leads_nowhere (fs i)) same ∙ nowhere in
        absurd (
          false≢true (
            sym (no_directory (fs p) out)
            ∙ ap (λ o. is_directory_entry (entry_of fs o))
                (sym (through-nowhere (follow n fs) p (fs p) out))
            ∙ h))
    | inr b ↦
        let same = set_entry-other q p e fs b in
        rw same (step b (λ i k. follow-other n i k) (fs p) refl h)
  ]
    where
      step :
          same_stack p q ≡ false
          → ((i : Stack) → is_at fs n i ≡ true → is_at (set_entry q e fs) n i ≡ true)
          → (o : Option Entry) → fs p ≡ o
          → is_directory_entry (entry_of fs (through (follow n fs) p o)) ≡ true
          → is_directory_entry
              (entry_of (set_entry q e fs) (through (follow n (set_entry q e fs)) p o))
            ≡ true
      step b next none k h = absurd (false≢true (ap is_directory_entry (sym k) ∙ h))
      step b next (some (regular c m)) k h = absurd (false≢true (ap is_directory_entry (sym k) ∙ h))
      step b next (some (link s)) k h = next (link_path p s) h
      step b next (some (directory m)) k h = rw (b, k) refl

  pub is_dir-other : (p : Stack) → is_dir fs p ≡ true → is_dir (set_entry q e fs) p ≡ true
  unfolding is_dir entry_at
  is_dir-other p h = follow-other 40 p h

is_dir-directory :
    (fs : FileTable) (p : Stack) (m : ℕ) → fs p ≡ some (directory m) → is_dir fs p ≡ true
unfolding is_dir entry_at follow
is_dir-directory fs p m h = rw (h, h) refl

mkdir-is_dir : (p : Stack) (r : CallEnd) → (mkdir p r).0 ≡ true → is_dir (mkdir p r).1 p ≡ true
mkdir-is_dir p (false, fs) h = absurd (false≢true h)
mkdir-is_dir p (true, fs) h = elim (Bool-cases (is_entry_there (fs p))) [
  | inl b ↦ absurd (false≢true (rw b at h))
  | inr b ↦ elim (Bool-cases (is_dir fs (directory_of p))) [
    | inl d ↦
        rw (b, d)
          (is_dir-directory (set_entry p (some (directory 0x1ff)) fs) p 0x1ff
            (set_entry-same p (some (directory 0x1ff)) fs))
    | inr d ↦ absurd (false≢true (rw (b, d) at h))
  ]
]

pub makedirs-is_dir :
    (p : Stack) (fs : FileTable) → (makedirs p fs).0 ≡ true → is_dir (makedirs p fs).1 p ≡ true
unfolding makedirs
makedirs-is_dir [] fs h = absurd (false≢true h)
makedirs-is_dir (name ∷ up) fs h =
    mkdir-is_dir (name ∷ up) (if exists fs up then (true, fs) else makedirs up fs) h
