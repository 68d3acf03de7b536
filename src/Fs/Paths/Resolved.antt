-- ===== src/Fs/Paths/Resolved.antt =====
-- Node/FS.py, `FS._lookup`: what a path names.
use cross_chain.Prelude.{
  ℕ, ◌≡◌, refl, sym, ap, ◌∙◌, Bool, true, false, not, ◌&&◌, ◌||◌, List, [], ◌∷◌, reverse, arith,
  if◌then◌else◌, ◌==◌, Bool-cases, inl, inr, All,
}
use mathlib.Core.Bool.{false≢true}
use mathlib.Core.List.{append-nil}
use cross_chain.Util.Paths.{PathText, split}
use cross_chain.Fs.Paths.{
  Stack, is_empty_name, strip_last, rstrip, rest_needs, needs_normpath, normalized, names_of,
  looked_up, lookup_below, lookup_stripped, stripped, lookup_path,
}
use cross_chain.Fs.Paths.Split.{IsName, normalized_pushed, normalized-rstrip}
use cross_chain.Fs.Paths.Names.{
  last_full, last_full-rstrip, rest-IsPushed, names_of-reverse, starts_full, starts_full-rstrip,
}
use cross_chain.Fs.Paths.Shortcut.{lookup_below-empty, lookup_below-rstrip, lookup_below-strip}
use cross_chain.Util.Paths.Splits.{split_parts}

-- An absolute path.
looked_up-absolute :
    (q : PathText)
    → last_full (split 47 q) ≡ true
    → looked_up (needs_normpath (47 ∷ q)) (47 ∷ q) ≡ normalized [] (split 47 (47 ∷ q))
unfolding looked_up needs_normpath normalized split
looked_up-absolute q lasts =
    let (d, ds, e) = split_parts 47 q in rw e (step d ds (ap last_full (sym e) ∙ lasts))
  where
    step :
        (d : PathText) (ds : List PathText)
        → last_full (d ∷ ds) ≡ true
        → (if rest_needs (d ∷ ds) then normalized [] (d ∷ ds) else names_of (d ∷ ds))
          ≡ normalized [] (d ∷ ds)
    step d ds lasts = elim (Bool-cases (rest_needs (d ∷ ds))) [
      | inl b ↦ rw b refl
      | inr b ↦ rw b (
          let hs = rest-IsPushed (d ∷ ds) b lasts in
          names_of-reverse (d ∷ ds) hs
          ∙ sym (append-nil (reverse (d ∷ ds)))
          ∙ sym (normalized_pushed [] (d ∷ ds) hs))
    ]

abbrev pub only_slashes : PathText → Bool
only_slashes [] = true
only_slashes (c ∷ p) = c == 47 && only_slashes p

-- A path is absolute when it begins with a slash, but a path of two or more slashes and nothing else is
-- relative.
abbrev pub is_absolute : PathText → Bool
is_absolute [] = false
is_absolute (c ∷ p) = c == 47 && (is_empty_name p || not (only_slashes p))

-- What a path names when each path is normalised.
unfoldable pub resolved : Stack → Stack → PathText → Stack
resolved top dir [] = dir
resolved top dir (c ∷ p) =
    if c == 35
    then normalized top (split 47 p)
    else if is_absolute (c ∷ p)
    then normalized [] (split 47 (c ∷ p))
    else normalized dir (split 47 (c ∷ p))

lookup_stripped-full :
    (dir : Stack) (r : PathText) → starts_full r ≡ true → lookup_stripped dir r ≡ lookup_below dir r
lookup_stripped-full dir [] h = refl
lookup_stripped-full dir (c ∷ r) h = elim (Bool-cases (c == 47)) [
  | inl b ↦ absurd (false≢true (rw b at h))
  | inr b ↦ rw b refl
]

stripped-full : (p : PathText) → starts_full p ≡ true → stripped p ≡ rstrip p
stripped-full [] h = refl
stripped-full (c ∷ p) h = elim (Bool-cases (c == 47)) [
  | inl b ↦ absurd (false≢true (rw b at h))
  | inr b ↦ rw b refl
]

is_empty_name-strip_last :
    (c : ℕ) (r : PathText) → is_empty_name (strip_last c r) ≡ (c == 47 && is_empty_name r)
is_empty_name-strip_last c [] = ground arith
is_empty_name-strip_last c (d ∷ r) = ground arith

is_empty_name-rstrip : (p : PathText) → is_empty_name (rstrip p) ≡ only_slashes p
unfolding rstrip
is_empty_name-rstrip [] = refl
is_empty_name-rstrip (c ∷ p) =
    is_empty_name-strip_last c (rstrip p) ∙ ap (λ b. c == 47 && b) (is_empty_name-rstrip p)

is_absolute-slash :
    (d : ℕ) (p : PathText)
    → is_absolute (47 ∷ d ∷ p) ≡ not (is_empty_name (strip_last 47 (rstrip (d ∷ p))))
is_absolute-slash d p =
    ap not (sym (is_empty_name-strip_last 47 (rstrip (d ∷ p)) ∙ is_empty_name-rstrip (d ∷ p)))

lookup_stripped-slash :
    (dir : Stack) (p : PathText)
    → All IsName dir
    → lookup_stripped dir (stripped (47 ∷ p)) ≡ (
        if is_absolute (47 ∷ p)
        then normalized [] (split 47 (47 ∷ p))
        else normalized dir (split 47 (47 ∷ p)))
unfolding split rstrip looked_up needs_normpath normalized rest_needs
lookup_stripped-slash dir [] h = refl
lookup_stripped-slash dir (d ∷ p) h =
    rw (is_absolute-slash d p) (
      step (rstrip (d ∷ p)) (last_full-rstrip (d ∷ p))
        (λ outs. normalized-rstrip outs (47 ∷ d ∷ p)))
  where
    q : PathText
    q = 47 ∷ d ∷ p

    step :
        (r : PathText)
        → (is_empty_name r ≡ false → last_full (split 47 r) ≡ true)
        → ((outs : Stack)
            → normalized outs (split 47 (strip_last 47 r)) ≡ normalized outs (split 47 q))
        → lookup_stripped dir (strip_last 47 r) ≡ (
            if not (is_empty_name (strip_last 47 r))
            then normalized [] (split 47 q)
            else normalized dir (split 47 q))
    step [] last same = lookup_below-empty dir h ∙ same dir
    step (c ∷ r) last same = looked_up-absolute (c ∷ r) (last refl) ∙ same []

pub is_absolute-full : (q : PathText) → starts_full q ≡ true → is_absolute q ≡ false
is_absolute-full [] h = refl
is_absolute-full (c ∷ p) h = ground arith

lookup_stripped-resolved :
    (dir : Stack) (q : PathText)
    → All IsName dir
    → lookup_stripped dir (stripped q)
      ≡ (if is_absolute q then normalized [] (split 47 q) else normalized dir (split 47 q))
unfolding rstrip
lookup_stripped-resolved dir [] h = lookup_below-empty dir h
lookup_stripped-resolved dir (c ∷ p) h = elim (Bool-cases (c == 47)) [
  | inl b ↦ let e : c ≡ 47 = ground arith in rw e (lookup_stripped-slash dir p h)
  | inr b ↦
      let full : starts_full (c ∷ p) ≡ true = rw b refl in
      rw (is_absolute-full (c ∷ p) full) (
        ap (lookup_stripped dir) (stripped-full (c ∷ p) full)
        ∙ lookup_stripped-full dir (rstrip (c ∷ p)) (starts_full-rstrip (c ∷ p) full)
        ∙ lookup_below-rstrip dir h (c ∷ p) full)
]

-- Whatever the path, `_lookup` looks up the entry that is found when each path is normalised: from the
-- top-level directory where the path begins with '#', from the root where it begins with '/' and is
-- not two or more slashes and nothing else, and from the given directory otherwise, so that '//' is
-- the given directory and not the root; names of directories hold no slash and are not '', '.' or
-- '..'.
pub lookup_path-resolved :
    (top dir : Stack) (p : PathText)
    → All IsName top
    → All IsName dir
    → lookup_path top dir p ≡ resolved top dir p
unfolding lookup_path resolved split normalized
lookup_path-resolved top dir [] ht hd = lookup_below-empty dir hd
lookup_path-resolved top dir (c ∷ p) ht hd = elim (Bool-cases (c == 35)) [
  | inl b ↦ rw b (lookup_below-strip top ht p)
  | inr b ↦ rw b (lookup_stripped-resolved dir (c ∷ p) hd)
]
