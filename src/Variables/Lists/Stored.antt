-- ===== src/Variables/Lists/Stored.antt =====
-- Variables/ListVariable.py: what is written to a file is read back.
use cross_chain.Util.Paths.Splits.{split-join}
use cross_chain.Prelude.{
  length, arith, ◌≡◌, refl, sym, ap, ◌∙◌, true, false, Option, List, [], ◌∷◌, map, All, Bool-cases,
  inl, inr,
}
use mathlib.Core.Bool.{false≢true}
use cross_chain.Util.Paths.{PathText, same_path, is_given, split, join}
use cross_chain.Util.Paths.Same.{and_parts, same_path_sound, same_path_refl}
use cross_chain.Variables.Sorting.{sort, sort-sort, length-sort, All-sort}
use cross_chain.Variables.Lists.{
  none_text, all_text, same_names, nonempty_names, is_allowed, not_allowed, mapped, ListVariable,
  Read, valid, accepted, list_variable, text_sorted, to_text, converter,
}

-- A name that can be in a value: it is allowed, the map keeps it, and it is not read as something else.
pub record IsListed (names : List PathText) (mapdict : PathText → Option PathText) (d : PathText)
    : Type 0 where
  pub listed : is_given d ≡ true
  pub single : split 44 d ≡ d ∷ []
  pub not_none : same_path d none_text ≡ false
  pub not_all : same_path d all_text ≡ false
  pub allowed_name : is_allowed d names ≡ true
  pub unmapped : mapped mapdict d ≡ d

same_names_sound : (ds es : List PathText) → same_names ds es ≡ true → ds ≡ es
same_names_sound [] [] h = refl
same_names_sound [] (e ∷ es) h = cc
same_names_sound (d ∷ ds) [] h = cc
same_names_sound (d ∷ ds) (e ∷ es) h =
    let (p, q) = and_parts (same_path d e) (same_names ds es) h in
    rw (same_path_sound d e p, same_names_sound ds es q) refl

nonempty_names_all : (ds : List PathText) → All (λ d. is_given d ≡ true) ds → nonempty_names ds ≡ ds
nonempty_names_all [] h = refl
nonempty_names_all (d ∷ ds) h = rw (h.0, nonempty_names_all ds h.1) refl

module _ (names : List PathText) (mapdict : PathText → Option PathText) where
  All-listed :
      (ds : List PathText) → All (IsListed names mapdict) ds → All (λ d. is_given d ≡ true) ds
  All-listed [] h = tt
  All-listed (d ∷ ds) h = (h.0.listed, All-listed ds h.1)

  All-single :
      (ds : List PathText) → All (IsListed names mapdict) ds → All (λ d. split 44 d ≡ d ∷ []) ds
  All-single [] h = tt
  All-single (d ∷ ds) h = (h.0.single, All-single ds h.1)

  unmapped_all :
      (ds : List PathText) → All (IsListed names mapdict) ds → map (mapped mapdict) ds ≡ ds
  unmapped_all [] h = refl
  unmapped_all (d ∷ ds) h = rw (h.0.unmapped, unmapped_all ds h.1) refl

  allowed_all : (ds : List PathText) → All (IsListed names mapdict) ds → not_allowed names ds ≡ []
  allowed_all [] h = refl
  allowed_all (d ∷ ds) h = rw (h.0.allowed_name, allowed_all ds h.1) refl

  -- The names joined are no single word that is none of them.
  not_word :
      (w e : PathText) (es : List PathText)
      → split 44 w ≡ w ∷ []
      → split 44 (join 44 (e ∷ es)) ≡ e ∷ es
      → same_path e w ≡ false
      → same_path (join 44 (e ∷ es)) w ≡ false
  not_word w e es single back h = elim (Bool-cases (same_path (join 44 (e ∷ es)) w)) [
    | inl b ↦
        let g : e ∷ es ≡ w ∷ [] =
          sym back ∙ ap (split 44) (same_path_sound (join 44 (e ∷ es)) w b) ∙ single in
        absurd (false≢true (sym h ∙ ap (λ d. same_path d w) (head_same g) ∙ same_path_refl w))
    | inr b ↦ b
  ]
    where
      head_same : e ∷ es ≡ w ∷ [] → e ≡ w
      head_same g = cc

none_single : split 44 none_text ≡ none_text ∷ []
unfolding split
none_single = refl

all_single : split 44 all_text ≡ all_text ∷ []
unfolding split
all_single = refl

-- What the value that is read has of the one that was written.
abbrev pub IsReadBack : ListVariable → Read → Type 0
IsReadBack v r =
    (w : ListVariable) × (r ≡ valid w)
    × (sort w.data_names ≡ sort v.data_names)
    × (w.allowed ≡ v.allowed)

module _ (names : List PathText) (mapdict : PathText → Option PathText) where
  read-names :
      (e : PathText) (es : List PathText) (ds : List PathText)
      → sort ds ≡ e ∷ es
      → All (IsListed names mapdict) (e ∷ es)
      → IsReadBack
          (record { data_names = ds; allowed = sort names })
          (converter names mapdict (join 44 (e ∷ es)))
  unfolding converter
  read-names e es ds s h =
      let back = split-join 44 e es (All-single names mapdict (e ∷ es) h) in
      let none_not = not_word names mapdict none_text e es none_single back h.0.not_none in
      let all_not = not_word names mapdict all_text e es all_single back h.0.not_all in
      let filled = nonempty_names_all (e ∷ es) (All-listed names mapdict (e ∷ es) h) in
      (
        list_variable (e ∷ es) names,
        rw (none_not, all_not, back)
            (ap (λ vs. accepted names vs (not_allowed names vs))
                (ap (map (mapped mapdict)) filled ∙ unmapped_all names mapdict (e ∷ es) h)
              ∙ ap (accepted names (e ∷ es)) (allowed_all names mapdict (e ∷ es) h)),
        ap sort filled ∙ ap sort (sym s) ∙ sort-sort ds,
        refl,
      )

  module _ (h : All (λ d. is_given d ≡ true) names) where
    -- A value with a name.
    read-sorted :
        (d : PathText) (ds e_es : List PathText)
        → sort (d ∷ ds) ≡ e_es
        → length e_es ≡ length (d ∷ ds)
        → All (IsListed names mapdict) e_es
        → IsReadBack
            (record { data_names = d ∷ ds; allowed = sort names })
            (converter names mapdict
              (text_sorted (record { data_names = e_es; allowed = sort names })))
    unfolding converter
    read-sorted d ds [] s l listed = absurd (omega arith)
    read-sorted d ds (e ∷ es) s l listed = elim (Bool-cases (same_names (e ∷ es) (sort names))) [
      | inl b ↦ (
        list_variable names names,
        rw b refl,
        ap sort (nonempty_names_all names h) ∙ sym (s ∙ same_names_sound (e ∷ es) (sort names) b),
        refl,
      )
      | inr b ↦ rw b (read-names e es (d ∷ ds) s listed)
    ]

  read_back :
      (ds : List PathText)
      → All (λ d. is_given d ≡ true) names
      → All (IsListed names mapdict) ds
      → IsReadBack
          (record { data_names = ds; allowed = sort names })
          (converter names mapdict (to_text (record { data_names = ds; allowed = sort names })).0)
  unfolding to_text converter
  read_back [] h listed = (list_variable [] names, refl, refl, refl)
  read_back (d ∷ ds) h listed =
      read-sorted h d ds (sort (d ∷ ds)) refl (length-sort (d ∷ ds))
        (All-sort (IsListed names mapdict) (d ∷ ds) listed)

-- A value of a list variable that is written as text and read back is the same but for the order of its
-- names, and has the same allowed names, where each allowed name is not empty, and each name of the value
-- is allowed, not 'none' or 'all', without a comma, and kept by the map.
pub converter-to_text :
    (names : List PathText) (mapdict : PathText → Option PathText) (v : ListVariable)
    → All (λ d. is_given d ≡ true) names
    → All (IsListed names mapdict) v.data_names
    → v.allowed ≡ sort names
    → IsReadBack v (converter names mapdict (to_text v).0)
converter-to_text names mapdict v h listed allowed =
    rw allowed (read_back names mapdict v.data_names h listed)
