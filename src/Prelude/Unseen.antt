-- ===== src/Prelude/Unseen.antt =====
-- How many of the numbers below a bound are not in a list.
use Prim.Native.Nat.{ℕ, ◌<◌, ◌≤◌}
use mathlib.Core.Path.{◌≡◌}
use mathlib.Core.Bool.{true, false}
use mathlib.Core.List.{List}
use native.Mathlib.Omega.{arith}
use cross_chain.Prelude.Tests.{if◌then◌else◌}
use cross_chain.Prelude.Lists.{elem}
use cross_chain.Prelude.Sum.{sum, sum-lt, sum-le}

abbrev pub unseen : ℕ → List ℕ → ℕ
unseen size seen = sum size (λ x. if elem x seen then 0 else 1)

-- A list with one of them more, and with all that the other has, leaves fewer.
pub unseen-lt :
    (size x : ℕ) (seen seen' : List ℕ)
    → x < size
    → elem x seen ≡ false
    → elem x seen' ≡ true
    → ((y : ℕ) → elem y seen ≡ true → elem y seen' ≡ true)
    → unseen size seen' < unseen size seen
unseen-lt size x seen seen' low new now keeps =
    sum-lt size x (λ y. if elem y seen' then 0 else 1) (λ y. if elem y seen then 0 else 1) low
      (λ y. ground (arith, keeps y)) (ground arith)

pub unseen-le : (size : ℕ) (seen : List ℕ) → unseen size seen ≤ size
unseen-le size seen = sum-le size _ (λ y. ground arith)
