-- ===== src/Fs/Paths/Names.antt =====
-- Node/FS.py, `FS._lookup` and `needs_normpath_check`: the names of a path that needs no normalisation.
use cross_chain.Prelude.{
  ℕ, ◌≡◌, ◌⊎◌, refl, sym, ap, ◌∙◌, Bool, true, false, not, List, [], ◌∷◌, reverse, arith, ◌==◌,
  Bool-cases, inl, inr, All,
}
use mathlib.Core.Bool.{false≢true}
use cross_chain.Util.Paths.{PathText, cut, split}
use cross_chain.Fs.Paths.{
  Stack, is_empty_name, is_dot, strip_last, rstrip, lstrip, rest_needs, names_need, names_of,
}
use cross_chain.Fs.Paths.Split.{IsName, IsPushed}
use cross_chain.Util.Paths.Splits.{split_parts}

-- Whether the last name is not empty.
abbrev pub last_full : List PathText → Bool
last_full [] = false
last_full (d ∷ []) = not (is_empty_name d)
last_full (d ∷ e ∷ ds) = last_full (e ∷ ds)

last_full-cut :
    (c : ℕ) (ds : List PathText) (b : Bool) → last_full ds ≡ true → last_full (cut ds c b) ≡ true
last_full-cut c [] b h = cc
last_full-cut c (d ∷ []) true h = h
last_full-cut c (d ∷ []) false h = refl
last_full-cut c (d ∷ e ∷ ds) true h = h
last_full-cut c (d ∷ e ∷ ds) false h = h

-- What `rstrip` leaves is empty or ends in a name.
pub last_full-rstrip :
    (p : PathText) → is_empty_name (rstrip p) ≡ false → last_full (split 47 (rstrip p)) ≡ true
unfolding split rstrip
last_full-rstrip [] h = cc
last_full-rstrip (c ∷ p) h = step (rstrip p) (last_full-rstrip p) h
  where
    step :
        (r : PathText)
        → (is_empty_name r ≡ false → last_full (split 47 r) ≡ true)
        → is_empty_name (strip_last c r) ≡ false
        → last_full (split 47 (strip_last c r)) ≡ true
    step [] ih h = elim (Bool-cases (c == 47)) [
      | inl b ↦ absurd (false≢true (sym (rw b at h)))
      | inr b ↦ rw b (rw b refl)
    ]
    step (d ∷ r) ih h = last_full-cut c (split 47 (d ∷ r)) (c == 47) (ih refl)

pub rest-IsPushed :
    (ds : List PathText) → rest_needs ds ≡ false → last_full ds ≡ true → All IsPushed ds
unfolding rest_needs
rest-IsPushed [] n l = tt
rest-IsPushed (d ∷ []) n l = ((ground arith, ground arith, ground arith), tt)
rest-IsPushed (d ∷ e ∷ ds) n l =
    ((ground arith, ground arith, ground arith), rest-IsPushed (e ∷ ds) (ground arith) l)

-- A text without a slash is its own name.
split_single : (p d : PathText) → split 47 p ≡ d ∷ [] → p ≡ d
unfolding split
split_single [] d e = cc
split_single (c ∷ p) d e =
    let (q, qs, f) = split_parts 47 p in
    step (c == 47) qs q (ap (λ l. cut l c (c == 47)) (sym f) ∙ e)
      (λ g. split_single p q (f ∙ ap (λ l. q ∷ l) g))
  where
    step :
        (b : Bool) (qs : List PathText) (q : PathText)
        → cut (q ∷ qs) c b ≡ d ∷ []
        → (qs ≡ [] → p ≡ q)
        → c ∷ p ≡ d
    step true qs q e ih = absurd (cc)
    step false [] q e ih = cc (ih refl)
    step false (r ∷ qs) q e ih = cc

pub names_of-reverse : (ds : List PathText) → All IsPushed ds → names_of ds ≡ reverse ds
names_of-reverse [] h = refl
names_of-reverse (d ∷ []) h = rw (h.0.0) refl
names_of-reverse (d ∷ e ∷ ds) h = refl

pub IsName-IsPushed : (dir : Stack) → All IsName dir → All IsPushed dir
IsName-IsPushed [] h = tt
IsName-IsPushed (n ∷ up) h = ((h.0.0, h.0.1, h.0.2), IsName-IsPushed up h.1)

-- The names of a path that is looked up as it is.
pub raw-IsPushed :
    (p d : PathText) (ds : List PathText)
    → split 47 p ≡ d ∷ ds
    → is_empty_name d ≡ false
    → last_full (d ∷ ds) ≡ true
    → is_dot p ≡ false
    → names_need (d ∷ ds) ≡ false
    → All IsPushed (d ∷ ds)
raw-IsPushed p d [] e full lasts dot n = ((full, ap is_dot (sym (split_single p d e)) ∙ dot, n), tt)
raw-IsPushed p d (f ∷ ds) e full lasts dot n =
    ((full, ground arith, ground arith), rest-IsPushed (f ∷ ds) (ground arith) lasts)

-- Whether a text does not begin with a slash.
abbrev pub starts_full : PathText → Bool
starts_full [] = false
starts_full (c ∷ p) = not (c == 47)

pub starts_full-rstrip : (p : PathText) → starts_full p ≡ true → starts_full (rstrip p) ≡ true
unfolding rstrip
starts_full-rstrip [] h = h
starts_full-rstrip (c ∷ p) h = step (rstrip p)
  where
    step : (r : PathText) → starts_full (strip_last c r) ≡ true
    step [] = elim (Bool-cases (c == 47)) [
      | inl b ↦ absurd (false≢true (rw b at h))
      | inr b ↦ rw b (rw b refl)
    ]
    step (d ∷ r) = h

pub first_full :
    (p d : PathText) (ds : List PathText)
    → split 47 p ≡ d ∷ ds
    → starts_full p ≡ true
    → is_empty_name d ≡ false
unfolding split
first_full [] d ds e h = cc
first_full (c ∷ p) d ds e h =
    let (q, qs, f) = split_parts 47 p in
    step (c == 47) q qs (ap (λ l. cut l c (c == 47)) (sym f) ∙ e) h
  where
    step :
        (b : Bool) (q : PathText) (qs : List PathText)
        → cut (q ∷ qs) c b ≡ d ∷ ds
        → not b ≡ true
        → is_empty_name d ≡ false
    step true q qs e h = absurd (false≢true h)
    step false [] qs e h = cc
    step false (x ∷ q) qs e h = cc

pub dot_text : (p : PathText) → is_dot p ≡ true → p ≡ 46 ∷ []
dot_text [] b = cc
dot_text (c ∷ []) b = ap (λ n. n ∷ []) (ground arith)
dot_text (c ∷ d ∷ p) b = ground arith

pub starts_full-lstrip : (p : PathText) → (lstrip p ≡ []) ⊎ (starts_full (lstrip p) ≡ true)
unfolding lstrip
starts_full-lstrip [] = inl refl
starts_full-lstrip (c ∷ p) = elim (Bool-cases (c == 47)) [
  | inl b ↦ rw b (starts_full-lstrip p)
  | inr b ↦ inr (rw b (rw b refl))
]
