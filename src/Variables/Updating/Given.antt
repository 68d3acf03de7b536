-- ===== src/Variables/Updating/Given.antt =====
-- Variables/__init__.py, `Variables.Update`: the values of the command line.
use cross_chain.Prelude.{
  ℕ, ◌≡◌, refl, ap, ◌∙◌, Bool, true, false, not, ◌&&◌, ◌||◌, Option, none, some, List, [], ◌∷◌,
  if◌then◌else◌, ◌==◌, arith,
}
use cross_chain.Prelude.Dict.{Dict, lookup, insert, or_else, lookup-insert}
use cross_chain.Variables.Updating.{Variable, is_named, set_if, set_named, note_unknown, set_args}

abbrev pub has {ℓ} : {A : Type ℓ} → Option A → Bool
has none = false
has (some a) = true

if-or {ℓ} :
    {A : Type ℓ}
    → (b c : Bool) (x y : A) → (if b then x else if c then x else y) ≡ (if c || b then x else y)
if-or true true x y = refl
if-or true false x y = refl
if-or false true x y = refl
if-or false false x y = refl

or_false : (b : Bool) → b ≡ b || false
or_false true = refl
or_false false = refl

or_assoc : (a b c : Bool) → a || b || c ≡ a || (b || c)
or_assoc true b c = refl
or_assoc false b c = refl

module _ {V : Type 0} where
  -- Whether an argument names a variable, one with a key.
  abbrev pub is_known : ℕ → List (Variable V) → Bool
  is_known arg [] = false
  is_known arg (v ∷ vs) = is_named arg v || is_known arg vs

  abbrev pub names_key : ℕ → ℕ → List (Variable V) → Bool
  names_key arg k [] = false
  names_key arg k (v ∷ vs) = is_named arg v && k == v.key || names_key arg k vs

  abbrev pub is_key : ℕ → List (Variable V) → Bool
  is_key k [] = false
  is_key k (v ∷ vs) = k == v.key || is_key k vs

  abbrev pub is_converted : ℕ → List (Variable V) → Bool
  is_converted k [] = false
  is_converted k (v ∷ vs) = k == v.key && has v.converter || is_converted k vs

  -- The value of a key on the command line, the last one that is given, and an argument that names
  -- nothing.
  abbrev pub given_for : ℕ → List (Variable V) → Dict V → Option V
  given_for k vs [] = none
  given_for k vs ((arg, value) ∷ args) =
      or_else (given_for k vs args) (if names_key arg k vs then some value else none)

  abbrev pub unknown_for : ℕ → List (Variable V) → Dict V → Option V
  unknown_for a vs [] = none
  unknown_for a vs ((arg, value) ∷ args) =
      or_else (unknown_for a vs args)
        (if a == arg && not (is_known arg vs) then some value else none)

  lookup-set_if :
      (k : ℕ) (b : Bool) (j : ℕ) (x : V) (s : Dict V × Bool)
      → lookup k (set_if b j x s).0 ≡ (if b && k == j then some x else lookup k s.0)
  lookup-set_if k true j x (values, added) = lookup-insert k j x values
  lookup-set_if k false j x s = refl

  added-set_if : (b : Bool) (j : ℕ) (x : V) (s : Dict V × Bool) → (set_if b j x s).1 ≡ s.1 || b
  added-set_if true j x (values, true) = refl
  added-set_if true j x (values, false) = refl
  added-set_if false j x (values, true) = refl
  added-set_if false j x (values, false) = refl

  lookup-set_named :
      (k arg : ℕ) (x : V) (vs : List (Variable V)) (s : Dict V × Bool)
      → lookup k (set_named arg x vs s).0 ≡ (if names_key arg k vs then some x else lookup k s.0)
  lookup-set_named k arg x [] s = refl
  lookup-set_named k arg x (v ∷ vs) s =
      lookup-set_named k arg x vs (set_if (is_named arg v) v.key x s)
      ∙ ap (λ l. if names_key arg k vs then some x else l)
          (lookup-set_if k (is_named arg v) v.key x s)
      ∙ if-or (names_key arg k vs) (is_named arg v && k == v.key) (some x) (lookup k s.0)

  added-set_named :
      (arg : ℕ) (x : V) (vs : List (Variable V)) (s : Dict V × Bool)
      → (set_named arg x vs s).1 ≡ s.1 || is_known arg vs
  added-set_named arg x [] s = or_false s.1
  added-set_named arg x (v ∷ vs) s =
      added-set_named arg x vs (set_if (is_named arg v) v.key x s)
      ∙ ap (λ b. b || is_known arg vs) (added-set_if (is_named arg v) v.key x s)
      ∙ or_assoc s.1 (is_named arg v) (is_known arg vs)

  or_else-test :
      (a : Option V) (b : Bool) (x : V) (c : Option V)
      → or_else a (if b then some x else c) ≡ or_else (or_else a (if b then some x else none)) c
  or_else-test none true x c = refl
  or_else-test none false x c = refl
  or_else-test (some y) b x c = refl

  pub lookup-set_args :
      (k : ℕ) (vs : List (Variable V)) (args : Dict V) (s : Dict V × Dict V)
      → lookup k (set_args vs args s).0 ≡ or_else (given_for k vs args) (lookup k s.0)
  lookup-set_args k vs [] s = refl
  lookup-set_args k vs ((arg, x) ∷ args) s =
      lookup-set_args k vs args (note_unknown arg x (set_named arg x vs (s.0, false)) s.1)
      ∙ ap (or_else (given_for k vs args)) (lookup-set_named k arg x vs (s.0, false))
      ∙ or_else-test (given_for k vs args) (names_key arg k vs) x (lookup k s.0)

  lookup-noted :
      (a arg : ℕ) (x : V) (known : Bool) (unknown : Dict V)
      → lookup a (if known then unknown else insert arg x unknown)
        ≡ (if a == arg && not known then some x else lookup a unknown)
  lookup-noted a arg x true unknown = ground arith
  lookup-noted a arg x false unknown = lookup-insert a arg x unknown ∙ ground arith

  pub unknown-set_args :
      (a : ℕ) (vs : List (Variable V)) (args : Dict V) (s : Dict V × Dict V)
      → lookup a (set_args vs args s).1 ≡ or_else (unknown_for a vs args) (lookup a s.1)
  unknown-set_args a vs [] s = refl
  unknown-set_args a vs ((arg, x) ∷ args) s =
      unknown-set_args a vs args (note_unknown arg x (set_named arg x vs (s.0, false)) s.1)
      ∙ ap (or_else (unknown_for a vs args)) (
          ap (λ known. lookup a (if known then s.1 else insert arg x s.1))
            (added-set_named arg x vs (s.0, false))
          ∙ lookup-noted a arg x (is_known arg vs) s.1)
      ∙ or_else-test (unknown_for a vs args) (a == arg && not (is_known arg vs)) x (lookup a s.1)
