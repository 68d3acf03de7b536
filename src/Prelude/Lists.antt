-- ===== src/Prelude/Lists.antt =====
-- Lists measured by native numbers, and Python's sets of numbers as lists without repetition.
use Prim.Native.Nat.{ℕ, zero, suc, ◌+◌, ◌≤◌}
use mathlib.Core.Path.{◌≡◌, refl, ◌∙◌}
use mathlib.Core.Logic.{inl, inr}
use mathlib.Core.Bool.{Bool, true, false, ◌||◌}
use mathlib.Core.List.{List, [], ◌∷◌, ◌++◌, reverse, reverse-cons}
use mathlib.Core.Option.{Option, none, some}
use native.Mathlib.Omega.{arith}
use cross_chain.Prelude.Tests.{◌==◌, if◌then◌else◌, ==_iff, Bool-cases}

module _ {ℓ} {A : Type ℓ} where
  abbrev pub length : List A → ℕ
  length [] = 0
  length (x ∷ xs) = suc (length xs)

  abbrev pub get_elem? : List A → ℕ → Option A
  get_elem? [] i = none
  get_elem? (x ∷ xs) zero = some x
  get_elem? (x ∷ xs) (suc i) = get_elem? xs i

  abbrev pub take : ℕ → List A → List A
  take zero xs = []
  take (suc n) [] = []
  take (suc n) (x ∷ xs) = x ∷ take n xs

  abbrev pub drop : ℕ → List A → List A
  drop zero xs = xs
  drop (suc n) [] = []
  drop (suc n) (x ∷ xs) = drop n xs

  pub length-append : (xs ys : List A) → length (xs ++ ys) ≡ length xs + length ys
  length-append [] ys = omega arith
  length-append (x ∷ xs) ys = omega (arith, length-append xs ys)

-- A predicate at every element, by recursion.
abbrev pub All {ℓ κ} : {A : Type ℓ} → (A → Type κ) → List A → Type κ
All P [] = Unit
All P (x ∷ xs) = P x × All P xs

module _ {ℓ κ} {A : Type ℓ} (P : A → Type κ) where
  pub All-append : (xs ys : List A) → All P xs → All P ys → All P (xs ++ ys)
  All-append [] ys hx hy = hy
  All-append (x ∷ xs) ys hx hy = (hx.0, All-append xs ys hx.1 hy)

-- `x in s`
abbrev pub elem : ℕ → List ℕ → Bool
elem x [] = false
elem x (y ∷ ys) = x == y || elem x ys

-- `s.add(x)`
abbrev pub insert : ℕ → List ℕ → List ℕ
insert x s = if elem x s then s else x ∷ s

-- `s | t`
abbrev pub union : List ℕ → List ℕ → List ℕ
union [] t = t
union (x ∷ s) t = insert x (union s t)

-- `s - {x}`, also `s.discard(x)`
abbrev pub discard : ℕ → List ℕ → List ℕ
discard x [] = []
discard x (y ∷ ys) = let rest = discard x ys in if x == y then rest else y ∷ rest

-- `s - t`
abbrev pub difference : List ℕ → List ℕ → List ℕ
difference s [] = s
difference s (x ∷ t) = discard x (difference s t)

pub elem-append : (x : ℕ) (s t : List ℕ) → elem x (s ++ t) ≡ (elem x s || elem x t)
elem-append x [] t = refl
elem-append x (y ∷ s) t = ground (arith, elem-append x s t)

pub elem-union : (x : ℕ) (s t : List ℕ) → elem x (union s t) ≡ (elem x s || elem x t)
elem-union x [] t = refl
elem-union x (y ∷ s) t = ground (arith, elem-union x s t)

pub elem-discard :
    (x y : ℕ) (s : List ℕ) → elem x (discard y s) ≡ (if x == y then false else elem x s)
elem-discard x y [] = ground arith
elem-discard x y (z ∷ s) = ground (arith, elem-discard x y s)

pub elem-difference :
    (x : ℕ) (s t : List ℕ) → elem x (difference s t) ≡ (if elem x t then false else elem x s)
elem-difference x s [] = refl
elem-difference x s (y ∷ t) =
    ground (arith, elem-discard x y (difference s t), elem-difference x s t)

pub All-elem {κ} : (P : ℕ → Type κ) (x : ℕ) (s : List ℕ) → All P s → elem x s ≡ true → P x
All-elem P x [] h m = cc
All-elem P x (y ∷ s) h m = elim (Bool-cases (x == y)) [
  | inl e ↦ rw ((==_iff x y).0 e) h.0
  | inr e ↦ All-elem P x s h.1 (ground arith)
]

length-insert-le : (x : ℕ) (s : List ℕ) → length (insert x s) ≤ suc (length s)
length-insert-le x s = ground arith

pub length-union-le : (s t : List ℕ) → length (union s t) ≤ length s + length t
length-union-le [] t = omega arith
length-union-le (x ∷ s) t = omega (arith, length-insert-le x (union s t), length-union-le s t)

module _ {κ} (P : ℕ → Type κ) where
  pub All-insert : (x : ℕ) (s : List ℕ) → P x → All P s → All P (insert x s)
  All-insert x s hx hs = elim (Bool-cases (elem x s)) [ inl e ↦ rw e hs | inr e ↦ rw e (hx, hs) ]

  pub All-union : (s t : List ℕ) → All P s → All P t → All P (union s t)
  All-union [] t hs ht = ht
  All-union (x ∷ s) t hs ht = All-insert x (union s t) hs.0 (All-union s t hs.1 ht)

module _ {ℓ} {A : Type ℓ} where
  pub length-reverse : (xs : List A) → length (reverse xs) ≡ length xs
  length-reverse [] = refl
  length-reverse (x ∷ xs) =
      rw reverse-cons (length-append (reverse xs) (x ∷ []) ∙ omega (arith, length-reverse xs))

  pub All-reverse {κ} : (P : A → Type κ) (xs : List A) → All P xs → All P (reverse xs)
  All-reverse P [] h = tt
  All-reverse P (x ∷ xs) h =
      rw reverse-cons (All-append P (reverse xs) (x ∷ []) (All-reverse P xs h.1) (h.0, tt))

pub All-of_elem {κ} : (P : ℕ → Type κ) (s : List ℕ) → ((x : ℕ) → elem x s ≡ true → P x) → All P s
All-of_elem P [] h = tt
All-of_elem P (y ∷ s) h = (h y (ground arith), All-of_elem P s (λ x m. h x (ground arith)))
