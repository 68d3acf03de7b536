-- ===== src/Fs/Paths/Split.antt =====
-- Node/FS.py, `FS._lookup`: the names between the slashes of a text.
use cross_chain.Prelude.{
  ◌≡◌, refl, sym, ap, ◌∙◌, true, false, List, [], ◌∷◌, ◌++◌, reverse, ◌==◌, Bool-cases, inl, inr,
  All,
}
use mathlib.Core.List.{reverse-append, append_assoc}
use cross_chain.Util.Paths.{PathText, cut, split}
use cross_chain.Fs.Paths.{
  Stack, is_empty_name, is_dot, is_dot_dot, strip_last, rstrip, lstrip, normal_step, normalized,
  labspath,
}
use cross_chain.Util.Paths.Splits.{split_parts, split-append, cut-append}

-- A name that a directory entry can have.
abbrev pub IsName : PathText → Type 0
IsName d =
    (is_empty_name d ≡ false) × (is_dot d ≡ false) × (is_dot_dot d ≡ false) × (split 47 d ≡ d ∷ [])

-- A name that is pushed on the stack.
abbrev pub IsPushed : PathText → Type 0
IsPushed d = (is_empty_name d ≡ false) × (is_dot d ≡ false) × (is_dot_dot d ≡ false)

pub split-labspath : (dir : Stack) → All IsName dir → split 47 (labspath dir) ≡ [] ∷ reverse dir
unfolding split labspath
split-labspath [] h = refl
split-labspath (n ∷ up) h =
    split-append 47 (labspath up) n
    ∙ rw (split-labspath up h.1, h.0.3) (ap (λ l. [] ∷ l) (sym (reverse-append (n ∷ []) up)))

pub normalized-append :
    (outs : Stack) (ds es : List PathText)
    → normalized outs (ds ++ es) ≡ normalized (normalized outs ds) es
unfolding normalized
normalized-append outs [] es = refl
normalized-append outs (d ∷ ds) es = normalized-append (normal_step outs d) ds es

pub normalized_pushed :
    (outs : Stack) (ds : List PathText) → All IsPushed ds → normalized outs ds ≡ reverse ds ++ outs
unfolding normalized
normalized_pushed outs [] h = refl
normalized_pushed outs (d ∷ ds) h =
    rw (h.0.2, h.0.0, h.0.1)
      (normalized_pushed (d ∷ outs) ds h.1
        ∙ sym (append_assoc (reverse ds) (d ∷ []) outs)
        ∙ ap (λ l. l ++ outs) (sym (reverse-append (d ∷ []) ds)))

abbrev pub IsEmptyName : PathText → Type 0
IsEmptyName d = is_empty_name d ≡ true

normalized_empty :
    (outs : Stack) (ds : List PathText) → All IsEmptyName ds → normalized outs ds ≡ outs
unfolding normalized
normalized_empty outs [] h = refl
normalized_empty outs ([] ∷ ds) h = normalized_empty outs ds h.1
normalized_empty outs ((c ∷ d) ∷ ds) h = cc

-- What `rstrip` leaves out are empty names.
split-rstrip :
    (p : PathText)
    → (es : List PathText) × All IsEmptyName es × (split 47 p ≡ split 47 (rstrip p) ++ es)
unfolding split rstrip
split-rstrip [] = ([], tt, refl)
split-rstrip (c ∷ p) = let (es, h, e) = split-rstrip p in step (rstrip p) es h e
  where
    step :
        (r : PathText) (es : List PathText)
        → All IsEmptyName es
        → split 47 p ≡ split 47 r ++ es
        → (fs : List PathText) × All IsEmptyName fs
          × (cut (split 47 p) c (c == 47) ≡ split 47 (strip_last c r) ++ fs)
    step [] es h e = elim (Bool-cases (c == 47)) [
      | inl b ↦ ([] ∷ es, (refl, h), rw (b, e) refl)
      | inr b ↦ (es, h, rw (b, e) (rw b refl))
    ]
    step (d ∷ r) es h e =
        let (f, fs, g) = split_parts 47 (d ∷ r) in
        (es, h, rw (e, g) (cut-append f fs es c (c == 47)))

pub normalized-rstrip :
    (outs : Stack) (p : PathText)
    → normalized outs (split 47 (rstrip p)) ≡ normalized outs (split 47 p)
normalized-rstrip outs p =
    let (es, h, e) = split-rstrip p in
    sym (
      ap (normalized outs) e
      ∙ normalized-append outs (split 47 (rstrip p)) es
      ∙ normalized_empty (normalized outs (split 47 (rstrip p))) es h)

pub normalized-lstrip :
    (outs : Stack) (p : PathText)
    → normalized outs (split 47 (lstrip p)) ≡ normalized outs (split 47 p)
unfolding split lstrip normalized
normalized-lstrip outs [] = refl
normalized-lstrip outs (c ∷ p) = elim (Bool-cases (c == 47)) [
  | inl b ↦ let (d, ds, e) = split_parts 47 p in rw b (normalized-lstrip outs p ∙ rw e refl)
  | inr b ↦ rw b (rw b refl)
]
