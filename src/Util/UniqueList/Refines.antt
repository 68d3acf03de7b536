-- ===== src/Util/UniqueList/Refines.antt =====
-- A `UniqueList` against a list whose repetitions are dropped at once.
use cross_chain.Prelude.{
  ◌≡◌, refl, sym, ap, ◌∙◌, Bool, true, false, Bool-cases, inl, inr, List, [], ◌∷◌, ◌++◌, length,
  ltb, reverse, if◌then◌else◌, arith,
}
use cross_chain.Util.Uniquer.Laws.{kept-kept_append}
use cross_chain.Util.UniqueList.{
  items, UniqueList, assign_at, delete_at, assign_slice, remove_first, Call, append, extend, insert,
  reverse_call, sort, read, set_item, set_slice, delete_place, delete_slice, remove, uniquer,
  make_unique, call, calls, is_raw, is_settled,
}

module _ {A : Type 0} (same : A → A → Bool) (sorted : List A → List A) where
  -- What a reader sees.
  unfoldable pub seen : UniqueList A → List A
  unfolding make_unique
  seen l = (make_unique same sorted l).elements

  -- The same calls on a plain list, without delay.
  unfoldable pub at_once : Call A → List A → List A
  at_once (append x) xs = uniquer same sorted (xs ++ x ∷ [])
  at_once (extend ys) xs = uniquer same sorted (xs ++ ys)
  at_once insert xs = xs
  at_once reverse_call xs = reverse xs
  at_once sort xs = sorted xs
  at_once read xs = xs
  at_once (set_item i x) xs =
      if ltb i (length xs) then uniquer same sorted (assign_at i x xs) else xs
  at_once (set_slice i j ys) xs = uniquer same sorted (assign_slice i j ys xs)
  at_once (delete_place i) xs = delete_at i xs
  at_once (delete_slice i j) xs = assign_slice i j [] xs
  at_once (remove x) xs = remove_first same x xs

  abbrev pub all_at_once : List (Call A) → List A → List A
  all_at_once [] xs = xs
  all_at_once (c ∷ cs) xs = all_at_once cs (at_once c xs)

  seen-call_settled :
      (c : Call A) (l : UniqueList A)
      → l.unique ≡ true
      → seen (call same sorted c l) ≡ at_once c (seen l)
  unfolding seen call at_once make_unique
  seen-call_settled (append x) l u = rw u refl
  seen-call_settled (extend ys) l u = rw u refl
  seen-call_settled insert l u = rw u refl
  seen-call_settled reverse_call l u = rw u refl
  seen-call_settled sort l u = rw u refl
  seen-call_settled read l u = rw u refl
  seen-call_settled (set_item i x) l u = elim (Bool-cases (ltb i (length l.elements))) [
    | inl b ↦ rw (u, b) refl
    | inr b ↦ rw (u, b) refl
  ]
  seen-call_settled (set_slice i j xs) l u = rw u refl
  seen-call_settled (delete_place i) l u = rw u refl
  seen-call_settled (delete_slice i j) l u = rw u refl
  seen-call_settled (remove x) l u = rw u refl

  seen-call_marked :
      (c : Call A) (l : UniqueList A)
      → l.unique ≡ false
      → is_raw same sorted c ≡ false
      → seen (call same sorted c l) ≡ at_once c (seen l)
  unfolding seen call at_once make_unique
  seen-call_marked (append x) l n raw =
      rw n (sym (kept-kept_append (items same) l.elements (x ∷ [])))
  seen-call_marked (extend ys) l n raw = rw n (sym (kept-kept_append (items same) l.elements ys))
  seen-call_marked insert l n raw = rw n refl
  seen-call_marked reverse_call l n raw = rw n refl
  seen-call_marked sort l n raw = rw n refl
  seen-call_marked read l n raw = rw n refl
  seen-call_marked (set_item i x) l n raw = cc
  seen-call_marked (set_slice i j xs) l n raw = cc
  seen-call_marked (delete_place i) l n raw = cc
  seen-call_marked (delete_slice i j) l n raw = cc
  seen-call_marked (remove x) l n raw = cc

  -- After any sequence of append, extend, insert, reverse, sort, reads, assignments to an index or a
  -- slice, deletions of an index or a slice, pop and remove, of which the assignments and what deletes
  -- come only when the list is marked as unique, a reader of a `UniqueList` sees what the same calls
  -- make of a plain list that drops its repetitions at once. Indices are counted from the front.
  pub seen-calls :
      (cs : List (Call A)) (l : UniqueList A)
      → is_settled same sorted cs l ≡ true
      → seen (calls same sorted cs l) ≡ all_at_once cs (seen l)
  seen-calls [] l h = refl
  seen-calls (c ∷ cs) l h =
      let rest : is_settled same sorted cs (call same sorted c l) ≡ true = ground (arith, h) in
      seen-calls cs (call same sorted c l) rest
      ∙ ap (all_at_once cs) (elim (Bool-cases l.unique) [
        | inl u ↦ seen-call_settled c l u
        | inr n ↦ seen-call_marked c l n (ground (arith, h, n))
      ])
