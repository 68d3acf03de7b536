-- ===== src/Prelude/Sum.antt =====
-- Sums over the numbers below a bound.
use Prim.Native.Nat.{ℕ, zero, suc, ◌+◌, ◌≤◌, ◌<◌}
use mathlib.Core.Path.{◌≡◌, refl}
use mathlib.Core.Logic.{◌≢◌}
use native.Mathlib.Decide.{ℕ_discrete}
use native.Mathlib.Omega.{arith}

-- f 0 + … + f (n - 1)
unfoldable pub sum : ℕ → (ℕ → ℕ) → ℕ
sum zero f = 0
sum (suc n) f = sum n f + f n

pub sum_congr : (n : ℕ) (f g : ℕ → ℕ) → ((i : ℕ) → i < n → f i ≡ g i) → sum n f ≡ sum n g
unfolding sum
sum_congr zero f g h = refl
sum_congr (suc n) f g h =
    omega (arith, sum_congr n f g (λ i l. h i (omega arith)), h n (omega arith))

-- Two functions that differ at `c` alone have sums that differ as they do there.
pub sum-update :
    (n c : ℕ) (f g : ℕ → ℕ) → c < n → ((i : ℕ) → i ≢ c → f i ≡ g i) → sum n f + g c ≡ sum n g + f c
unfolding sum
sum-update zero c f g l h = absurd (omega arith)
sum-update (suc n) c f g l h = elim (ℕ_discrete n c) [
  | yes e ↦
      let same : sum n f ≡ sum n g = sum_congr n f g (λ i below. h i (omega arith)) in
      ground (arith, same)
  | no ne ↦ omega (arith, sum-update n c f g (omega arith) h, h n ne)
]

pub sum_mono : (n : ℕ) (f g : ℕ → ℕ) → ((i : ℕ) → f i ≤ g i) → sum n f ≤ sum n g
unfolding sum
sum_mono zero f g h = omega arith
sum_mono (suc n) f g h = omega (arith, sum_mono n f g h, h n)

pub sum-lt : (n c : ℕ) (f g : ℕ → ℕ) → c < n → ((i : ℕ) → f i ≤ g i) → f c < g c → sum n f < sum n g
unfolding sum
sum-lt zero c f g l h s = absurd (omega arith)
sum-lt (suc n) c f g l h s = elim (ℕ_discrete n c) [
  | yes e ↦ let s' : f n < g n = rw e s in omega (arith, sum_mono n f g h)
  | no ne ↦ omega (arith, sum-lt n c f g (omega arith) h s, h n)
]

pub sum-le : (n : ℕ) (f : ℕ → ℕ) → ((i : ℕ) → f i ≤ 1) → sum n f ≤ n
unfolding sum
sum-le zero f h = omega arith
sum-le (suc n) f h = omega (arith, sum-le n f h, h n)

pub sum_zero : (n : ℕ) (f : ℕ → ℕ) → ((i : ℕ) → f i ≡ 0) → sum n f ≡ 0
unfolding sum
sum_zero zero f h = refl
sum_zero (suc n) f h = omega (arith, sum_zero n f h, h n)
