-- ===== src/Variables/Updating/Sources.antt =====
-- Variables/__init__.py, `Variables.Update`: where the values come from.
use cross_chain.Prelude.{
  ℕ, ◌≡◌, refl, ap, ◌∙◌, Bool, true, false, ◌&&◌, ◌||◌, Option, none, some, List, [], ◌∷◌,
  if◌then◌else◌, ◌==◌, arith,
}
use cross_chain.Prelude.Dict.{Dict, lookup, or_else, lookup-insert}
use cross_chain.Variables.Updating.{
  Conversion, converted, wrong_type, wrong_value, Converter, Variable, Variables, Ended, done,
  file_error, user_error, type_error, not_valid, put_value, put_all, second_try, store, convert_one,
  then_update, convert_all, validate_one, validate_all, apply_values,
}
use cross_chain.Variables.Updating.Given.{has, is_key, is_converted}

or_left : (a b : Bool) → a || b ≡ false → a ≡ false
or_left true b h = cc
or_left false b h = refl

or_right : (a b : Bool) → a || b ≡ false → b ≡ false
or_right true b h = cc
or_right false b h = h

module _ {V : Type 0} where
  lookup-put_value :
      (k j : ℕ) (o : Option V) (env : Dict V)
      → lookup k (put_value j o env) ≡ (if k == j then or_else o (lookup k env) else lookup k env)
  lookup-put_value k j none env = ground arith
  lookup-put_value k j (some v) env = lookup-insert k j v env

  or_else_twice : (o e : Option V) → or_else o (or_else o e) ≡ or_else o e
  or_else_twice none e = refl
  or_else_twice (some v) e = refl

  put_test :
      (n b : Bool) (o p e : Option V)
      → (b ≡ true → o ≡ p)
      → (if n then or_else p (if b then or_else o e else e) else if b then or_else o e else e)
        ≡ (if b || n then or_else p e else e)
  put_test true true o p e h = rw (h refl) (or_else_twice p e)
  put_test true false o p e h = refl
  put_test false true o p e h = rw (h refl) refl
  put_test false false o p e h = refl

  same_key : (k j : ℕ) (values : Dict V) → k == j ≡ true → lookup j values ≡ lookup k values
  same_key k j values b = let e : j ≡ k = ground arith in ap (λ i. lookup i values) e

  lookup-put_all :
      (k : ℕ) (vs : List (Variable V)) (values env : Dict V)
      → lookup k (put_all vs values env)
        ≡ (if is_key k vs then or_else (lookup k values) (lookup k env) else lookup k env)
  lookup-put_all k [] values env = refl
  lookup-put_all k (v ∷ vs) values env =
      lookup-put_all k vs values (put_value v.key (lookup v.key values) env)
      ∙ ap (λ l. if is_key k vs then or_else (lookup k values) l else l)
          (lookup-put_value k v.key (lookup v.key values) env)
      ∙ put_test (is_key k vs) (k == v.key) (lookup v.key values) (lookup k values) (lookup k env)
          (same_key k v.key values)

  module _ (subst : Dict V → ℕ → V) (k : ℕ) where
    lookup-store :
        (j : ℕ) (env : Dict V) (c : Conversion V)
        → k == j ≡ false
        → lookup k (store subst j env c).1 ≡ lookup k env
    lookup-store j env (converted v) h = lookup-insert k j v env ∙ rw h refl
    lookup-store j env wrong_type h = refl
    lookup-store j env wrong_value h = refl

    lookup-convert_one :
        (j : ℕ) (c : Option (Converter V)) (o : Option V) (env : Dict V)
        → k == j && has c ≡ false
        → lookup k (convert_one subst j c o env).1 ≡ lookup k env
    lookup-convert_one j (some c) (some v) env h =
        lookup-store j env (second_try subst c (subst env j) env (c.plain (subst env j)))
          (ground arith)
    lookup-convert_one j (some c) none env h = refl
    lookup-convert_one j none o env h = refl

    lookup-then_update :
        (next : Dict V → Ended × Dict V) (x : Ended × Dict V) (env : Dict V)
        → lookup k x.1 ≡ lookup k env
        → ((e : Dict V) → lookup k (next e).1 ≡ lookup k e)
        → lookup k (then_update subst next x).1 ≡ lookup k env
    lookup-then_update next (done, e) env h n = n e ∙ h
    lookup-then_update next (file_error, e) env h n = h
    lookup-then_update next (user_error j, e) env h n = h
    lookup-then_update next (type_error, e) env h n = h
    lookup-then_update next (not_valid j, e) env h n = h

    lookup-convert_all :
        (vs : List (Variable V)) (values env : Dict V)
        → is_converted k vs ≡ false
        → lookup k (convert_all subst vs values env).1 ≡ lookup k env
    lookup-convert_all [] values env h = refl
    lookup-convert_all (v ∷ vs) values env h =
        lookup-then_update (convert_all subst vs values)
          (convert_one subst v.key v.converter (lookup v.key values) env) env
          (lookup-convert_one v.key v.converter (lookup v.key values) env
            (or_left (k == v.key && has v.converter) (is_converted k vs) h))
          (λ e.
            lookup-convert_all vs values e
              (or_right (k == v.key && has v.converter) (is_converted k vs) h))

    lookup-validate_one :
        (j : ℕ) (c : Option (ℕ → V → Dict V → Bool)) (o : Option V) (env : Dict V)
        → lookup k (validate_one subst j c o env).1 ≡ lookup k env
    lookup-validate_one j (some c) (some v) env = refl
    lookup-validate_one j (some c) none env = refl
    lookup-validate_one j none o env = refl

    lookup-validate_all :
        (vs : List (Variable V)) (values env : Dict V)
        → lookup k (validate_all subst vs values env).1 ≡ lookup k env
    lookup-validate_all [] values env = refl
    lookup-validate_all (v ∷ vs) values env =
        lookup-then_update (validate_all subst vs values)
          (validate_one subst v.key v.validator (lookup v.key values) env) env
          (lookup-validate_one v.key v.validator (lookup v.key values) env)
          (λ e. lookup-validate_all vs values e)

    pub lookup-apply_values :
        (vs : List (Variable V)) (values env : Dict V)
        → is_converted k vs ≡ false
        → lookup k (apply_values subst vs values env).1
          ≡ (if is_key k vs then or_else (lookup k values) (lookup k env) else lookup k env)
    lookup-apply_values vs values env h =
        lookup-then_update (validate_all subst vs values)
          (convert_all subst vs values (put_all vs values env)) (put_all vs values env)
          (lookup-convert_all vs values (put_all vs values env) h)
          (λ e. lookup-validate_all vs values e)
        ∙ lookup-put_all k vs values env
