-- ===== src/Util/Uniquer.antt =====
-- `uniquer` of Util.py, which keeps the first of the items with the same marker; the loops of
-- `PrependPath` and `AppendPath` are the same but for the items that they pass over.
pub mod Laws
use cross_chain.Prelude.{Bool, true, false, ◌||◌, List, [], ◌∷◌, if◌then◌else◌}

-- How items are compared: by their markers, whose equality is a test, and only those that count.
pub record Marked (A : Type 0) : Type 1 where
  pub Marker : Type 0
  pub marker : A → Marker
  pub same : Marker → Marker → Bool
  pub counts : A → Bool

module _ {A : Type 0} (m : Marked A) where
  -- `marker in seen`
  abbrev pub is_in : m.Marker → List m.Marker → Bool
  is_in k [] = false
  is_in k (s ∷ seen) = m.same k s || is_in k seen

  -- The loop: `kept` is what it appends to the result, `noted` the markers after it.
  unfoldable pub kept : List m.Marker → List A → List A
  kept seen [] = []
  kept seen (x ∷ xs) =
      let skipped = kept seen xs in
      let added = x ∷ kept (m.marker x ∷ seen) xs in
      if m.counts x then (if is_in (m.marker x) seen then skipped else added) else skipped

  unfoldable pub noted : List m.Marker → List A → List m.Marker
  noted seen [] = seen
  noted seen (x ∷ xs) =
      let skipped = noted seen xs in
      let added = noted (m.marker x ∷ seen) xs in
      if m.counts x then (if is_in (m.marker x) seen then skipped else added) else skipped
