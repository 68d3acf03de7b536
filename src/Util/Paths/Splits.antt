-- ===== src/Util/Paths/Splits.antt =====
-- `split` and `join` of texts at a separator of one character.
use cross_chain.Prelude.{
  ℕ, ◌≡◌, refl, ◌∙◌, Bool, true, false, List, [], ◌∷◌, ◌++◌, ◌==◌, All, arith,
}
use cross_chain.Util.Paths.{PathText, cut, split, join}

-- The first name of a text, and the others.
pub split_parts :
    (sep : ℕ) (p : PathText) → (d : PathText) × (ds : List PathText) × (split sep p ≡ d ∷ ds)
unfolding split
split_parts sep [] = ([], [], refl)
split_parts sep (c ∷ p) = step (c == sep) (split_parts sep p)
  where
    step :
        (b : Bool)
        → (d : PathText) × (ds : List PathText) × (split sep p ≡ d ∷ ds)
        → (d : PathText) × (ds : List PathText) × (cut (split sep p) c b ≡ d ∷ ds)
    step true (d, ds, e) = ([], d ∷ ds, rw e refl)
    step false (d, ds, e) = (c ∷ d, ds, rw e refl)

pub cut-append :
    (d : PathText) (ds es : List PathText) (c : ℕ) (b : Bool)
    → cut (d ∷ ds ++ es) c b ≡ cut (d ∷ ds) c b ++ es
cut-append d ds es c true = refl
cut-append d ds es c false = refl

pub split-append :
    (sep : ℕ) (s t : PathText) → split sep (s ++ sep ∷ t) ≡ split sep s ++ split sep t
unfolding split
split-append sep [] t =
    let (d, ds, e) = split_parts sep t in
    let same : (sep == sep) ≡ true = ground arith in rw (same, e) refl
split-append sep (c ∷ s) t =
    let (d, ds, e) = split_parts sep s in
    rw (split-append sep s t, e) (cut-append d ds (split sep t) c (c == sep))

-- Names without the separator are read back.
pub split-join :
    (sep : ℕ) (d : PathText) (ds : List PathText)
    → All (λ e. split sep e ≡ e ∷ []) (d ∷ ds)
    → split sep (join sep (d ∷ ds)) ≡ d ∷ ds
unfolding join
split-join sep d [] h = h.0
split-join sep d (e ∷ ds) h =
    split-append sep d (join sep (e ∷ ds)) ∙ rw (h.0, split-join sep e ds h.1) refl
