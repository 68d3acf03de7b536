-- ===== src/Util/Paths/Same.antt =====
-- When two texts are the same.
use cross_chain.Prelude.{◌≡◌, refl, Bool, true, false, ◌&&◌, [], ◌∷◌, ◌==◌, arith}
use cross_chain.Util.Paths.{PathText, same_path}

pub and_parts : (a b : Bool) → a && b ≡ true → (a ≡ true) × (b ≡ true)
and_parts true true h = (refl, refl)
and_parts true false h = cc
and_parts false b h = cc

pub same_path_sound : (s r : PathText) → same_path s r ≡ true → s ≡ r
same_path_sound [] [] h = refl
same_path_sound [] (c ∷ r) h = cc
same_path_sound (c ∷ s) [] h = cc
same_path_sound (c ∷ s) (d ∷ r) h =
    let (e, g) = and_parts (c == d) (same_path s r) h in
    let f : c ≡ d = ground arith in rw (f, same_path_sound s r g) refl

pub same_path_refl : (s : PathText) → same_path s s ≡ true
same_path_refl [] = refl
same_path_refl (c ∷ s) = ground (arith, same_path_refl s)
