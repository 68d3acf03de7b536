-- ===== src/Variables/Sorting.antt =====
-- Python's sort of a list of texts, as Variables/ListVariable.py uses it. Equal texts cannot be told
-- apart, so that any sort gives the same list.
use cross_chain.Prelude.{
  ◌≡◌, refl, ap, ◌∙◌, Bool, true, false, ◌&&◌, ◌||◌, List, [], ◌∷◌, ◌==◌, ltb, length, All,
  if◌then◌else◌, Bool-cases, inl, inr, suc, arith,
}
use cross_chain.Util.Paths.{PathText}

abbrev pub text_leb : PathText → PathText → Bool
text_leb [] t = true
text_leb (c ∷ s) [] = false
text_leb (c ∷ s) (d ∷ t) = ltb c d || c == d && text_leb s t

abbrev pub insert_text : PathText → List PathText → List PathText
insert_text p [] = p ∷ []
insert_text p (q ∷ qs) =
    let rest = insert_text p qs in if text_leb p q then p ∷ q ∷ qs else q ∷ rest

unfoldable pub sort : List PathText → List PathText
sort [] = []
sort (p ∷ ps) = insert_text p (sort ps)

text_leb_total : (p q : PathText) → text_leb p q ≡ false → text_leb q p ≡ true
text_leb_total [] q h = cc
text_leb_total (c ∷ s) [] h = refl
text_leb_total (c ∷ s) (d ∷ t) h = ground (arith, text_leb_total s t)

abbrev IsOrdered : List PathText → Type 0
IsOrdered [] = Unit
IsOrdered (p ∷ []) = Unit
IsOrdered (p ∷ q ∷ qs) = (text_leb p q ≡ true) × IsOrdered (q ∷ qs)

insert_text-IsOrdered :
    (p : PathText) (qs : List PathText) → IsOrdered qs → IsOrdered (insert_text p qs)
insert_text-IsOrdered p [] h = tt
insert_text-IsOrdered p (q ∷ []) h = elim (Bool-cases (text_leb p q)) [
  | inl b ↦ rw b (b, tt)
  | inr b ↦ rw b (text_leb_total p q b, tt)
]
insert_text-IsOrdered p (q ∷ r ∷ qs) h = elim (Bool-cases (text_leb p q)) [
  | inl b ↦ rw b (b, h)
  | inr b ↦
      let ih = insert_text-IsOrdered p (r ∷ qs) h.1 in
      rw b (elim (Bool-cases (text_leb p r)) [
        | inl c ↦ rw c (text_leb_total p q b, rw c at ih)
        | inr c ↦ rw c (h.0, rw c at ih)
      ])
]

sort-IsOrdered : (ps : List PathText) → IsOrdered (sort ps)
unfolding sort
sort-IsOrdered [] = tt
sort-IsOrdered (p ∷ ps) = insert_text-IsOrdered p (sort ps) (sort-IsOrdered ps)

ordered_kept : (ps : List PathText) → IsOrdered ps → sort ps ≡ ps
unfolding sort
ordered_kept [] h = refl
ordered_kept (p ∷ []) h = refl
ordered_kept (p ∷ q ∷ ps) h = ap (insert_text p) (ordered_kept (q ∷ ps) h.1) ∙ rw (h.0) refl

pub sort-sort : (ps : List PathText) → sort (sort ps) ≡ sort ps
sort-sort ps = ordered_kept (sort ps) (sort-IsOrdered ps)

length-insert_text :
    (p : PathText) (qs : List PathText) → length (insert_text p qs) ≡ suc (length qs)
length-insert_text p [] = refl
length-insert_text p (q ∷ qs) = elim (Bool-cases (text_leb p q)) [
  | inl b ↦ rw b refl
  | inr b ↦ rw b (ap suc (length-insert_text p qs))
]

pub length-sort : (ps : List PathText) → length (sort ps) ≡ length ps
unfolding sort
length-sort [] = refl
length-sort (p ∷ ps) = length-insert_text p (sort ps) ∙ ap suc (length-sort ps)

module _ {ℓ} (P : PathText → Type ℓ) where
  All-insert_text : (p : PathText) (qs : List PathText) → P p → All P qs → All P (insert_text p qs)
  All-insert_text p [] h hs = (h, tt)
  All-insert_text p (q ∷ qs) h hs = elim (Bool-cases (text_leb p q)) [
    | inl b ↦ rw b (h, hs)
    | inr b ↦ rw b (hs.0, All-insert_text p qs h hs.1)
  ]

  pub All-sort : (ps : List PathText) → All P ps → All P (sort ps)
  unfolding sort
  All-sort [] h = tt
  All-sort (p ∷ ps) h = All-insert_text p (sort ps) h.0 (All-sort ps h.1)
