-- ===== src/Env/Override/Views.antt =====
-- Environment.py, `OverrideEnvironment`: its methods agree on what a variable is.
use cross_chain.Prelude.{ℕ, ◌≡◌, refl, sym, ◌∙◌, ap, Option, none, some, arith}
use cross_chain.Prelude.Dict.{Dict, lookup, or_else, lookup-update}
use cross_chain.Env.Override.{
  Env, base, override, is_some, get_item, get_or_default, contains, dictionary, gvars, lvars,
}

module _ {V : Type 0} where
  abbrev pub with_default : Option V → V → V
  with_default none default = default
  with_default (some v) default = v

  pub get_item-override :
      (k : ℕ) (e : Env V) (d : Dict V)
      → get_item k (override e d) ≡ or_else (lookup k d) (get_item k e)
  unfolding get_item
  get_item-override k e d = ground arith

  dictionary_lem : (k : ℕ) (e : Env V) → lookup k (dictionary e) ≡ get_item k e
  unfolding dictionary
  dictionary_lem k (base d) = unfold get_item in refl
  dictionary_lem k (override e d) =
      lookup-update k d (dictionary e)
      ∙ ap (or_else (lookup k d)) (dictionary_lem k e)
      ∙ sym (get_item-override k e d)

  vars_lem : (k : ℕ) (e : Env V) → or_else (lookup k (lvars e)) (lookup k (gvars e)) ≡ get_item k e
  unfolding lvars gvars get_item lookup
  vars_lem k (base d) = refl
  vars_lem k (override e d) = ground (arith, lookup-update k d (lvars e), vars_lem k e)

  get_lem :
      (k : ℕ) (default : V) (e : Env V)
      → get_or_default k default e ≡ with_default (get_item k e) default
  unfolding get_or_default get_item
  get_lem k default (base d) = ground arith
  get_lem k default (override e d) = ground (arith, get_lem k default e)

  contains_lem : (k : ℕ) (e : Env V) → contains k e ≡ is_some (get_item k e)
  unfolding contains get_item
  contains_lem k (base d) = refl
  contains_lem k (override e d) = ground (arith, contains_lem k e)

  -- However deep the overrides are nested, `get`, `__contains__`, `Dictionary`, and a lookup in
  -- `lvars` and then in `gvars`, as the substitution does it, give what `__getitem__` gives.
  get_item_views :
      (k : ℕ) (default : V) (e : Env V)
      → (get_or_default k default e ≡ with_default (get_item k e) default)
        × (contains k e ≡ is_some (get_item k e))
        × (lookup k (dictionary e) ≡ get_item k e)
        × (or_else (lookup k (lvars e)) (lookup k (gvars e)) ≡ get_item k e)
  get_item_views k default e =
      (get_lem k default e, contains_lem k e, dictionary_lem k e, vars_lem k e)
