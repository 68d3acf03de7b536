-- ===== src/Fs/Relative/Leads.antt =====
-- Node/FS.py, `Dir.rel_path`: the path leads to the entry.
use cross_chain.Prelude.{
  ℕ, ◌≡◌, refl, sym, ap, ◌∙◌, true, false, ◌||◌, List, [], ◌∷◌, ◌++◌, ◌+◌, ◌-◌, ◌≤◌, zero, suc,
  length, length-append, drop, Bool-cases, inl, inr, All, arith,
}
use mathlib.Core.Bool.{false≢true}
use mathlib.Core.List.{append-nil}
use cross_chain.Util.Paths.{join, PathText, split}
use cross_chain.Fs.Paths.{Stack, is_dot, normalized}
use cross_chain.Fs.Paths.Split.{IsName, normalized-append}
use cross_chain.Fs.Paths.Names.{dot_text}
use cross_chain.Fs.Lookup.{same_stack}
use cross_chain.Fs.Lookup.Keys.{same_stack_sound}
use cross_chain.Fs.Relative.{
  path_elements, is_element, index, dot_dots, path_up, path_down, rel_path,
}
use cross_chain.Util.Paths.Splits.{split-append}

module _ (s : Stack) where
  is_element-append :
      (xs ys : List Stack) → is_element s (xs ++ ys) ≡ is_element s xs || is_element s ys
  is_element-append [] ys = refl
  is_element-append (x ∷ xs) ys = ground (arith, is_element-append xs ys)

  index-append_in : (xs ys : List Stack) → is_element s xs ≡ true → index s (xs ++ ys) ≡ index s xs
  index-append_in [] ys h = cc
  index-append_in (x ∷ xs) ys h = elim (Bool-cases (same_stack s x)) [
    | inl b ↦ rw b refl
    | inr b ↦ rw b (ap suc (index-append_in xs ys (rw b at h)))
  ]

  index-append_out :
      (xs ys : List Stack) → is_element s xs ≡ false → index s (xs ++ ys) ≡ length xs + index s ys
  index-append_out [] ys h = omega arith
  index-append_out (x ∷ xs) ys h = elim (Bool-cases (same_stack s x)) [
    | inl b ↦ absurd (false≢true (sym (rw b at h)))
    | inr b ↦ let ih = index-append_out xs ys (rw b at h) in rw b (omega arith)
  ]

length-path_elements : (s : Stack) → length (path_elements s) ≡ length s + 1
length-path_elements [] = refl
length-path_elements (name ∷ up) =
    let ih = length-path_elements up in
    length-append (path_elements up) ((name ∷ up) ∷ []) ∙ omega arith

drop-all {ℓ} : {A : Type ℓ} → (n : ℕ) (xs : List A) → length xs ≤ n → drop n xs ≡ []
drop-all zero [] l = refl
drop-all zero (x ∷ xs) l = absurd (omega arith)
drop-all (suc n) [] l = refl
drop-all (suc n) (x ∷ xs) l = drop-all n xs (omega arith)

-- An element of the path is a directory above.
abbrev pub IsAbove : Stack → Stack → Type 0
IsAbove other dir =
    (pre : Stack) × (dir ≡ pre ++ other) × (index other (path_elements dir) ≡ length other)

pub element-IsAbove :
    (dir other : Stack) → is_element other (path_elements dir) ≡ true → IsAbove other dir
element-IsAbove [] [] h = ([], refl, refl)
element-IsAbove [] (n ∷ other) h = cc
element-IsAbove (name ∷ up) other h = elim (Bool-cases (is_element other (path_elements up))) [
  | inl b ↦
      let (pre, e, i) = element-IsAbove up other b in
      (
        name ∷ pre,
        ap (λ s. name ∷ s) e,
        index-append_in other (path_elements up) ((name ∷ up) ∷ []) b ∙ i,
      )
  | inr b ↦
      let last : same_stack other (name ∷ up) ≡ true =
        ground (arith, is_element-append other (path_elements up) ((name ∷ up) ∷ [])) in
      let e = same_stack_sound other (name ∷ up) last in
      let l = length-path_elements up in
      let m = ap length e in
      (
        [],
        sym e,
        index-append_out other (path_elements up) ((name ∷ up) ∷ []) b ∙ rw last (omega arith),
      )
]

pub path_up-dots :
    (dir other pre : Stack)
    → dir ≡ pre ++ other
    → index other (path_elements dir) ≡ length other
    → path_up dir other ≡ join 47 (dot_dots (length pre))
unfolding path_up
path_up-dots dir other pre e i =
    let l = length-path_elements other in
    let all : drop (length other + 1) (path_elements other) ≡ [] =
      drop-all (length other + 1) (path_elements other) (omega arith) in
    let m = ap length e ∙ length-append pre other in
    let k : length dir + 1 - (length other + 1) ≡ length pre = omega arith in
    rw (i, length-path_elements dir, all, k) (ap (join 47) (append-nil (dot_dots (length pre))))

-- Each '..' leads one directory up.
normalized-dot_dots :
    (pre other : Stack)
    → normalized (pre ++ other) (split 47 (join 47 (dot_dots (length pre)))) ≡ other
unfolding normalized split join
normalized-dot_dots [] other = refl
normalized-dot_dots (n ∷ []) other = refl
normalized-dot_dots (n ∷ m ∷ pre) other =
    ap (normalized (n ∷ m ∷ pre ++ other))
      (split-append 47 (46 ∷ 46 ∷ []) (join 47 (dot_dots (length (m ∷ pre)))))
    ∙ normalized-dot_dots (m ∷ pre) other

normalized-path_up :
    (dir other : Stack)
    → is_element other (path_elements dir) ≡ true
    → normalized dir (split 47 (path_up dir other)) ≡ other
normalized-path_up dir other h =
    let (pre, e, i) = element-IsAbove dir other h in
    rw (path_up-dots dir other pre e i, e) (normalized-dot_dots pre other)

normalized-name :
    (outs : Stack) (name : PathText) → IsName name → normalized outs (split 47 name) ≡ name ∷ outs
unfolding normalized
normalized-name outs name (empty, dot, up, single) = rw single (rw (up, empty, dot) refl)

normalized-path_down :
    (dir up : Stack) (name d : PathText)
    → IsName name
    → normalized dir (split 47 d) ≡ up
    → normalized dir (split 47 (path_down d name)) ≡ name ∷ up
unfolding normalized split
normalized-path_down dir up name d h e = elim (Bool-cases (is_dot d)) [
  | inl b ↦ rw b (
      normalized-name dir name h
      ∙ ap (λ s. name ∷ s) (ap (λ t. normalized dir (split 47 t)) (sym (dot_text d b)) ∙ e))
  | inr b ↦ rw b (
      ap (normalized dir) (split-append 47 d name)
      ∙ normalized-append dir (split 47 d) (split 47 name)
      ∙ rw e (normalized-name up name h))
]

pub root_element : (dir : Stack) → is_element [] (path_elements dir) ≡ true
root_element [] = refl
root_element (name ∷ up) =
    is_element-append [] (path_elements up) ((name ∷ up) ∷ []) ∙ rw (root_element up) refl

normalized-here :
    (dir other : Stack) → same_stack dir other ≡ true → normalized dir (split 47 (46 ∷ [])) ≡ other
unfolding normalized split
normalized-here dir other h = same_stack_sound dir other h

-- The path from a directory to an entry, followed from the directory, leads to the entry; the names in
-- the path of the entry hold no slash and are not '', '.' or '..'.
pub normalized-rel_path :
    (dir other : Stack) → All IsName other → normalized dir (split 47 (rel_path dir other)) ≡ other
unfolding rel_path
normalized-rel_path dir [] h = elim (Bool-cases (same_stack dir [])) [
  | inl b ↦ rw b (normalized-here dir [] b)
  | inr b ↦ rw b (normalized-path_up dir [] (root_element dir))
]
normalized-rel_path dir (name ∷ up) h = elim (Bool-cases (same_stack dir (name ∷ up))) [
  | inl b ↦ rw b (normalized-here dir (name ∷ up) b)
  | inr b ↦ rw b (elim (Bool-cases (is_element (name ∷ up) (path_elements dir))) [
    | inl u ↦ rw u (normalized-path_up dir (name ∷ up) u)
    | inr u ↦
        rw u
          (normalized-path_down dir up name (rel_path dir up) h.0 (normalized-rel_path dir up h.1))
  ])
]
