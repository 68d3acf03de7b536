-- ===== src/Util/Uniquer/Laws.antt =====
-- Keeping the first items of lists that were put together.
use cross_chain.Prelude.{
  ◌≡◌, refl, sym, ap, ◌∙◌, true, Bool-cases, inl, inr, List, [], ◌∷◌, ◌++◌, All, arith,
}
use cross_chain.Util.Uniquer.{Marked, is_in, kept, noted}

module _ {A : Type 0} (m : Marked A) where
  pub kept-append :
      (seen : List m.Marker) (xs ys : List A)
      → kept m seen (xs ++ ys) ≡ kept m seen xs ++ kept m (noted m seen xs) ys
  unfolding kept noted
  kept-append seen [] ys = refl
  kept-append seen (x ∷ xs) ys = elim (Bool-cases (m.counts x)) [
    | inr out ↦ rw out (kept-append seen xs ys)
    | inl counted ↦ elim (Bool-cases (is_in m (m.marker x) seen)) [
      | inl old ↦ rw (counted, old) (kept-append seen xs ys)
      | inr new ↦ rw (counted, new) (ap (x ∷◌) (kept-append (m.marker x ∷ seen) xs ys))
    ]
  ]

  -- Keeping twice is keeping once, and notes the same.
  pub kept-kept :
      (seen : List m.Marker) (xs : List A) → kept m seen (kept m seen xs) ≡ kept m seen xs
  unfolding kept
  kept-kept seen [] = refl
  kept-kept seen (x ∷ xs) = elim (Bool-cases (m.counts x)) [
    | inr out ↦ rw out (kept-kept seen xs)
    | inl counted ↦ elim (Bool-cases (is_in m (m.marker x) seen)) [
      | inl old ↦ rw (counted, old) (kept-kept seen xs)
      | inr new ↦ rw (counted, new, counted, new) (ap (x ∷◌) (kept-kept (m.marker x ∷ seen) xs))
    ]
  ]

  pub noted-kept :
      (seen : List m.Marker) (xs : List A) → noted m seen (kept m seen xs) ≡ noted m seen xs
  unfolding kept noted
  noted-kept seen [] = refl
  noted-kept seen (x ∷ xs) = elim (Bool-cases (m.counts x)) [
    | inr out ↦ rw out (noted-kept seen xs)
    | inl counted ↦ elim (Bool-cases (is_in m (m.marker x) seen)) [
      | inl old ↦ rw (counted, old) (noted-kept seen xs)
      | inr new ↦ rw (counted, new, counted, new) (noted-kept (m.marker x ∷ seen) xs)
    ]
  ]

  -- What comes before may be kept first.
  pub kept-kept_append : (xs ys : List A) → kept m [] (kept m [] xs ++ ys) ≡ kept m [] (xs ++ ys)
  kept-kept_append xs ys =
      kept-append [] (kept m [] xs) ys
      ∙ rw (kept-kept [] xs, noted-kept [] xs) (sym (kept-append [] xs ys))

  -- Items all of whose markers are noted are passed over.
  Noted : List m.Marker → A → Type 0
  Noted seen x = is_in m (m.marker x) seen ≡ true

  kept-Noted : (seen : List m.Marker) (xs : List A) → All (Noted seen) xs → kept m seen xs ≡ []
  unfolding kept Noted
  kept-Noted seen [] h = refl
  kept-Noted seen (x ∷ xs) h = elim (Bool-cases (m.counts x)) [
    | inr out ↦ rw out (kept-Noted seen xs h.1)
    | inl counted ↦ rw (counted, h.0) (kept-Noted seen xs h.1)
  ]

  noted-Noted : (seen : List m.Marker) (xs : List A) → All (Noted seen) xs → noted m seen xs ≡ seen
  unfolding noted Noted
  noted-Noted seen [] h = refl
  noted-Noted seen (x ∷ xs) h = elim (Bool-cases (m.counts x)) [
    | inr out ↦ rw out (noted-Noted seen xs h.1)
    | inl counted ↦ rw (counted, h.0) (noted-Noted seen xs h.1)
  ]

  module _ (reflexive : (k : m.Marker) → m.same k k ≡ true) where
    is_in-noted :
        (k : m.Marker) (seen : List m.Marker) (xs : List A)
        → is_in m k seen ≡ true
        → is_in m k (noted m seen xs) ≡ true
    unfolding noted
    is_in-noted k seen [] h = h
    is_in-noted k seen (x ∷ xs) h = elim (Bool-cases (m.counts x)) [
      | inr out ↦ rw out (is_in-noted k seen xs h)
      | inl counted ↦ elim (Bool-cases (is_in m (m.marker x) seen)) [
        | inl old ↦ rw (counted, old) (is_in-noted k seen xs h)
        | inr new ↦ rw (counted, new) (is_in-noted k (m.marker x ∷ seen) xs (ground (arith, h)))
      ]
    ]

    kept-All-Noted :
        (seen : List m.Marker) (xs : List A) → All (Noted (noted m seen xs)) (kept m seen xs)
    unfolding kept noted Noted
    kept-All-Noted seen [] = tt
    kept-All-Noted seen (x ∷ xs) = elim (Bool-cases (m.counts x)) [
      | inr out ↦ rw out (kept-All-Noted seen xs)
      | inl counted ↦ elim (Bool-cases (is_in m (m.marker x) seen)) [
        | inl old ↦ rw (counted, old) (kept-All-Noted seen xs)
        | inr new ↦
            let first =
              is_in-noted (m.marker x) (m.marker x ∷ seen) xs
                (ground (arith, reflexive (m.marker x))) in
            rw (counted, new) (first, kept-All-Noted (m.marker x ∷ seen) xs)
      ]
    ]

    -- A second time in front of what is left of the first adds nothing.
    pub kept-append_again :
        (xs ys : List A) → kept m [] (xs ++ kept m [] (xs ++ ys)) ≡ kept m [] (xs ++ ys)
    kept-append_again xs ys =
        let seen = noted m [] xs in
        let all = kept-All-Noted [] xs in
        let rest : kept m seen (kept m [] xs ++ kept m seen ys) ≡ kept m seen ys =
          kept-append seen (kept m [] xs) (kept m seen ys)
          ∙ rw (kept-Noted seen (kept m [] xs) all, noted-Noted seen (kept m [] xs) all)
              (kept-kept seen ys) in
        kept-append [] xs (kept m [] (xs ++ ys))
        ∙ rw (kept-append [] xs ys) (ap (kept m [] xs ++◌) rest)
