-- ===== src/Fs/Relative/Looks.antt =====
-- Node/FS.py, `Dir.rel_path` and `FS._lookup`: the entry is found at its path.
use cross_chain.Prelude.{
  ◌≡◌, refl, sym, ap, ◌∙◌, Bool, true, false, List, [], ◌∷◌, ◌++◌, length, ◌==◌, Bool-cases, inl,
  inr, All,
}
use mathlib.Core.Bool.{false≢true}
use cross_chain.Util.Paths.{join, PathText, cut, split}
use cross_chain.Fs.Paths.{Stack, is_dot, lookup_path, normalized}
use cross_chain.Fs.Paths.Split.{IsName}
use cross_chain.Fs.Paths.Names.{starts_full}
use cross_chain.Fs.Paths.Resolved.{resolved, is_absolute-full, lookup_path-resolved}
use cross_chain.Fs.Lookup.{same_stack}
use cross_chain.Fs.Lookup.Keys.{same_stack_refl}
use cross_chain.Fs.Relative.{path_elements, is_element, dot_dots, path_up, path_down, rel_path}
use cross_chain.Fs.Relative.Leads.{element-IsAbove, path_up-dots, root_element, normalized-rel_path}
use cross_chain.Util.Paths.Splits.{split_parts}

starts_full-dots :
    (pre : Stack) (other : Stack)
    → same_stack (pre ++ other) other ≡ false
    → starts_full (join 47 (dot_dots (length pre))) ≡ true
unfolding join
starts_full-dots [] other h = absurd (false≢true (sym h ∙ same_stack_refl other))
starts_full-dots (n ∷ []) other h = refl
starts_full-dots (n ∷ m ∷ pre) other h = refl

starts_full-path_up :
    (dir other : Stack)
    → is_element other (path_elements dir) ≡ true
    → same_stack dir other ≡ false
    → starts_full (path_up dir other) ≡ true
starts_full-path_up dir other h s =
    let (pre, e, i) = element-IsAbove dir other h in
    ap starts_full (path_up-dots dir other pre e i)
    ∙ starts_full-dots pre other (ap (λ d. same_stack d other) (sym e) ∙ s)

starts_full-name : (name : PathText) → IsName name → starts_full name ≡ true
unfolding split
starts_full-name [] h = cc
starts_full-name (c ∷ s) (empty, dot, up, single) = elim (Bool-cases (c == 47)) [
  | inl b ↦
      let (d, ds, e) = split_parts 47 s in
      absurd (
        no_name d ds
          (ap (λ b. cut (d ∷ ds) c b) (sym b) ∙ ap (λ l. cut l c (c == 47)) (sym e) ∙ single))
  | inr b ↦ rw b refl
]
  where
    no_name : (d : PathText) (ds : List PathText) → [] ∷ d ∷ ds ≡ (c ∷ s) ∷ [] → ⊥
    no_name d ds e = cc

starts_full-path_down :
    (d name : PathText) → IsName name → starts_full d ≡ true → starts_full (path_down d name) ≡ true
starts_full-path_down [] name n h = absurd (false≢true h)
starts_full-path_down (c ∷ d) name n h = elim (Bool-cases (is_dot (c ∷ d))) [
  | inl b ↦ rw b (starts_full-name name n)
  | inr b ↦ rw b h
]

starts_full-rel_path :
    (dir other : Stack) → All IsName other → starts_full (rel_path dir other) ≡ true
unfolding rel_path
starts_full-rel_path dir [] h = elim (Bool-cases (same_stack dir [])) [
  | inl b ↦ rw b refl
  | inr b ↦ rw b (starts_full-path_up dir [] (root_element dir) b)
]
starts_full-rel_path dir (name ∷ up) h = elim (Bool-cases (same_stack dir (name ∷ up))) [
  | inl b ↦ rw b refl
  | inr b ↦ rw b (elim (Bool-cases (is_element (name ∷ up) (path_elements dir))) [
    | inl u ↦ rw u (starts_full-path_up dir (name ∷ up) u b)
    | inr u ↦
        rw u (starts_full-path_down (rel_path dir up) name h.0 (starts_full-rel_path dir up h.1))
  ])
]

-- `p[0:1] == '#'`
abbrev pub starts_with_hash : PathText → Bool
starts_with_hash [] = false
starts_with_hash (c ∷ p) = c == 35

resolved-full :
    (top dir : Stack) (p : PathText)
    → starts_full p ≡ true
    → starts_with_hash p ≡ false
    → resolved top dir p ≡ normalized dir (split 47 p)
unfolding resolved
resolved-full top dir [] f h = absurd (false≢true f)
resolved-full top dir (c ∷ p) f h = rw h (rw (is_absolute-full (c ∷ p) f) refl)

-- Looked up from a directory, the path from the directory to an entry gives the entry, whatever the two
-- are, unless the path begins with '#'; names hold no slash and are not '', '.' or '..'.
pub lookup_path-rel_path :
    (top dir other : Stack)
    → All IsName top
    → All IsName dir
    → All IsName other
    → starts_with_hash (rel_path dir other) ≡ false
    → lookup_path top dir (rel_path dir other) ≡ other
lookup_path-rel_path top dir other ht hd ho h =
    let p = rel_path dir other in
    lookup_path-resolved top dir p ht hd
    ∙ resolved-full top dir p (starts_full-rel_path dir other ho) h
    ∙ normalized-rel_path dir other ho
