-- ===== src/Fs/Paths/Shortcut.antt =====
-- Node/FS.py, `FS._lookup`: a path below a directory that needs no normalisation.
use cross_chain.Prelude.{
  ◌≡◌, refl, sym, ap, ◌∙◌, true, false, List, [], ◌∷◌, ◌++◌, reverse, Bool-cases, inl, inr, All,
  All-append, All-reverse,
}
use mathlib.Core.Bool.{false≢true}
use mathlib.Core.List.{reverse-append, append-nil, reverse-reverse}
use cross_chain.Util.Paths.{PathText, split}
use cross_chain.Fs.Paths.{
  Stack, is_empty_name, is_dot, rstrip, lstrip, strip, rest_needs, names_need, needs_normpath,
  normalized, behind_first, labspath, names_of, looked_up, lookup_below,
}
use cross_chain.Fs.Paths.Split.{
  IsName, IsPushed, split-labspath, normalized-append, normalized_pushed, normalized-rstrip,
  normalized-lstrip,
}
use cross_chain.Fs.Paths.Names.{
  IsName-IsPushed, last_full, last_full-rstrip, names_of-reverse, raw-IsPushed, starts_full,
  starts_full-rstrip, first_full, dot_text, starts_full-lstrip,
}
use cross_chain.Util.Paths.Splits.{split_parts, split-append}

-- A directory is found by its own path.
labspath-looked_up : (dir : Stack) → All IsName dir → looked_up false (labspath dir) ≡ dir
unfolding looked_up
labspath-looked_up dir h =
    ap (λ l. names_of (behind_first l)) (split-labspath dir h)
    ∙ names_of-reverse (reverse dir) (All-reverse IsPushed dir (IsName-IsPushed dir h))
    ∙ reverse-reverse dir

module _ (dir : Stack) (h : All IsName dir) where
  full-split :
      (p : PathText) → behind_first (split 47 (labspath dir ++ 47 ∷ p)) ≡ reverse dir ++ split 47 p
  full-split p = ap behind_first (split-append 47 (labspath dir) p) ∙ rw (split-labspath dir h) refl

  normalized-dir : normalized [] (reverse dir) ≡ dir
  normalized-dir =
      normalized_pushed [] (reverse dir) (All-reverse IsPushed dir (IsName-IsPushed dir h))
      ∙ rw (reverse-reverse dir) (append-nil dir)

  -- A path that begins and ends with a name.
  lookup_below-names :
      (p d : PathText) (ds : List PathText)
      → split 47 p ≡ d ∷ ds
      → is_empty_name d ≡ false
      → last_full (d ∷ ds) ≡ true
      → is_dot p ≡ false
      → is_empty_name p ≡ false
      → lookup_below dir p ≡ normalized dir (split 47 p)
  unfolding looked_up needs_normpath
  lookup_below-names p d ds e full lasts dot nonempty =
      rw (dot, nonempty)
        (elim (Bool-cases (needs_normpath p)) [
          | inl n ↦
              rw (n, full-split p)
                (normalized-append [] (reverse dir) (split 47 p) ∙ rw normalized-dir refl)
          | inr n ↦ rw (n, full-split p) (raw_names n)
        ])
    where
      raw_names :
          needs_normpath p ≡ false
          → names_of (reverse dir ++ split 47 p) ≡ normalized dir (split 47 p)
      raw_names n =
          let hs : All IsPushed (split 47 p) =
            rw e (raw-IsPushed p d ds e full lasts dot (ap names_need (sym e) ∙ n)) in
          names_of-reverse (reverse dir ++ split 47 p) (
            All-append IsPushed (reverse dir) (split 47 p)
              (All-reverse IsPushed dir (IsName-IsPushed dir h)) hs)
          ∙ reverse-append (reverse dir) (split 47 p)
          ∙ ap (λ l. reverse (split 47 p) ++ l) (reverse-reverse dir)
          ∙ sym (normalized_pushed dir (split 47 p) hs)

  pub lookup_below-empty : lookup_below dir [] ≡ normalized dir (split 47 [])
  unfolding needs_normpath normalized split rest_needs
  lookup_below-empty = labspath-looked_up dir h

  lookup_below-dot : lookup_below dir (46 ∷ []) ≡ normalized dir (split 47 (46 ∷ []))
  unfolding needs_normpath normalized split rest_needs
  lookup_below-dot = labspath-looked_up dir h

module _ (dir : Stack) (h : All IsName dir) where
  pub lookup_below-rstrip :
      (q : PathText)
      → starts_full q ≡ true
      → lookup_below dir (rstrip q) ≡ normalized dir (split 47 q)
  lookup_below-rstrip q full =
      step (rstrip q) (last_full-rstrip q) (starts_full-rstrip q full) ∙ normalized-rstrip dir q
    where
      step :
          (r : PathText)
          → (is_empty_name r ≡ false → last_full (split 47 r) ≡ true)
          → starts_full r ≡ true
          → lookup_below dir r ≡ normalized dir (split 47 r)
      step [] lasts full = absurd (false≢true full)
      step (c ∷ r) lasts full = elim (Bool-cases (is_dot (c ∷ r))) [
        | inl b ↦
            let e = dot_text (c ∷ r) b in
            ap (lookup_below dir) e
            ∙ lookup_below-dot dir h
            ∙ ap (λ q. normalized dir (split 47 q)) (sym e)
        | inr b ↦
            let (d, ds, e) = split_parts 47 (c ∷ r) in
            lookup_below-names dir h (c ∷ r) d ds e (first_full (c ∷ r) d ds e full)
              (ap last_full (sym e) ∙ lasts refl) b refl
      ]

  pub lookup_below-strip : (p : PathText) → lookup_below dir (strip p) ≡ normalized dir (split 47 p)
  unfolding strip rstrip
  lookup_below-strip p = elim (starts_full-lstrip p) [
    | inl e ↦
        ap (λ q. lookup_below dir (rstrip q)) e
        ∙ lookup_below-empty dir h
        ∙ ap (λ q. normalized dir (split 47 q)) (sym e)
        ∙ normalized-lstrip dir p
    | inr full ↦ lookup_below-rstrip (lstrip p) full ∙ normalized-lstrip dir p
  ]
