-- ===== src/Env/Unique/Lists.antt =====
-- Environment.py, `PrependUnique` and `AppendUnique`: which elements a list holds.
use cross_chain.Prelude.{
  ◌≡◌, refl, ◌∙◌, ap, Bool, true, false, not, ◌&&◌, ◌||◌, List, [], ◌∷◌, ◌++◌, reverse, arith, All,
}
use mathlib.Core.List.{reverse-append}
use cross_chain.Env.Unique.{Elements, in_list, excluded, firsts, delete_duplicates}

-- Equality of elements is an equivalence, as Python expects of it.
pub record IsEquality {A : Type 0} (el : Elements A) : Type 0 where
  pub same_refl : (x : A) → el.same x x ≡ true
  pub same_sym : (x y : A) → el.same x y ≡ el.same y x
  pub same_trans : (x y z : A) → el.same x y ≡ true → el.same x z ≡ el.same y z

module _ {A : Type 0} (el : Elements A) where
  pub in_list-append :
      (x : A) (l m : List A) → in_list el x (l ++ m) ≡ (in_list el x l || in_list el x m)
  unfolding in_list
  in_list-append x [] m = refl
  in_list-append x (y ∷ l) m = ground (arith, in_list-append x l m)

  pub in_list-reverse : (x : A) (l : List A) → in_list el x (reverse l) ≡ in_list el x l
  unfolding in_list
  in_list-reverse x [] = refl
  in_list-reverse x (y ∷ l) =
      ap (in_list el x) (reverse-append (y ∷ []) l)
      ∙ in_list-append x (reverse l) (y ∷ [])
      ∙ ground (arith, in_list-reverse x l)

  pub excluded-append :
      (seen l m : List A) → excluded el seen (l ++ m) ≡ excluded el seen l ++ excluded el seen m
  unfolding excluded
  excluded-append seen [] m = refl
  excluded-append seen (x ∷ l) m = ground (arith, excluded-append seen l m)

  pub excluded_twice :
      (seen l : List A) → excluded el seen (excluded el seen l) ≡ excluded el seen l
  unfolding excluded
  excluded_twice seen [] = refl
  excluded_twice seen (x ∷ l) = ground (arith, excluded_twice seen l)

  -- If each element of `l` is in `seen` none is left.
  pub excluded_all :
      (seen l : List A) → All (λ x. in_list el x seen ≡ true) l → excluded el seen l ≡ []
  unfolding excluded
  excluded_all seen [] h = refl
  excluded_all seen (x ∷ l) h = ground (arith, excluded_all seen l h.1)

  module _ (eq : IsEquality el) where
    pub in_list-same : (x y : A) (l : List A) → el.same x y ≡ true → in_list el x l ≡ in_list el y l
    unfolding in_list
    in_list-same x y [] e = refl
    in_list-same x y (z ∷ l) e = ground (arith, in_list-same x y l e, eq.same_trans x y z e)

    pub in_list-excluded :
        (x : A) (seen l : List A)
        → in_list el x (excluded el seen l) ≡ (in_list el x l && not (in_list el x seen))
    unfolding in_list excluded
    in_list-excluded x seen [] = refl
    in_list-excluded x seen (y ∷ l) =
        ground (arith, in_list-excluded x seen l, in_list-same x y seen)

    pub All-in_list :
        (seen l : List A)
        → ((x : A) → in_list el x l ≡ true → in_list el x seen ≡ true)
        → All (λ x. in_list el x seen ≡ true) l
    unfolding in_list
    All-in_list seen [] h = tt
    All-in_list seen (x ∷ l) h =
        (h x (rw (eq.same_refl x) refl), All-in_list seen l (λ y m. h y (rw m (ground arith))))

    in_list-firsts :
        (x : A) (seen l : List A)
        → (in_list el x seen || in_list el x (firsts el seen l))
          ≡ (in_list el x seen || in_list el x l)
    unfolding in_list firsts
    in_list-firsts x seen [] = refl
    in_list-firsts x seen (y ∷ l) =
        ground
          (arith, in_list-firsts x seen l, in_list-firsts x (y ∷ seen) l, in_list-same x y seen)

    pub in_list-delete_duplicates :
        (x : A) (l : List A) (keep_last : Bool)
        → in_list el x (delete_duplicates el l keep_last) ≡ in_list el x l
    unfolding delete_duplicates in_list
    in_list-delete_duplicates x l true =
        in_list-reverse x (firsts el [] (reverse l))
        ∙ in_list-firsts x [] (reverse l)
        ∙ in_list-reverse x l
    in_list-delete_duplicates x l false = in_list-firsts x [] l
