-- ===== src/Env/Override/Calls.antt =====
-- Environment.py, `OverrideEnvironment`: a sequence of calls, as a client sees it.
use cross_chain.Prelude.{
  ℕ, ◌≡◌, inl, inr, refl, ◌∙◌, Bool, true, false, Option, none, some, List, [], ◌∷◌, arith, ◌||◌,
  ◌==◌, Bool-cases, if◌then◌else◌,
}
use mathlib.Core.Path.{fun_ext}
use cross_chain.Prelude.Dict.{
  Dict, lookup, insert, erase, update, or_else, lookup-insert, lookup-erase, lookup-update,
}
use cross_chain.Env.Override.Views.{get_item-override}
use cross_chain.Env.Override.{
  VariableNames, Env, base, override, Answer, done, value, key_error, user_error, is_some, get_item,
  set_variable, delete_item, deleted_below, non_reserved, update_env, replace,
}

pub data EnvCall (V : Type 0) : Type 0 where
  read : ℕ → EnvCall V
  assign : ℕ → V → EnvCall V
  delete : ℕ → EnvCall V
  replace_by : Dict V → EnvCall V

module _ {V : Type 0} (names : VariableNames) where
  abbrev pub read_answer : Option V → Answer V
  read_answer none = key_error
  read_answer (some v) = value v

  unfoldable pub env_call : EnvCall V → Env V → Answer V × Env V
  env_call (read k) e = (read_answer (get_item k e), e)
  env_call (assign k v) e = set_variable names k v e
  env_call (delete k) e = delete_item k e
  env_call (replace_by kw) e = (done, replace names kw e)

  -- The same calls on one dictionary, a function from names to values.
  unfoldable pub flat_call : EnvCall V → (ℕ → Option V) → Answer V × (ℕ → Option V)
  flat_call (read k) r = (read_answer (r k), r)
  flat_call (assign k v) r =
      if names.valid k then (done, λ j. if j == k then some v else r j) else (user_error, r)
  flat_call (delete k) r = elim (r k) [
    | none ↦ (key_error, r)
    | some v ↦ (done, λ j. if j == k then none else r j)
  ]
  flat_call (replace_by kw) r = (done, λ j. or_else (lookup j (non_reserved names kw)) (r j))

  unfoldable pub env_calls : List (EnvCall V) → Env V → List (Answer V) × Env V
  env_calls [] e = ([], e)
  env_calls (c ∷ cs) e =
      ((env_call c e).0 ∷ (env_calls cs (env_call c e).1).0, (env_calls cs (env_call c e).1).1)

  unfoldable pub flat_calls : List (EnvCall V) → (ℕ → Option V) → List (Answer V) × (ℕ → Option V)
  flat_calls [] r = ([], r)
  flat_calls (c ∷ cs) r =
      ((flat_call c r).0 ∷ (flat_calls cs (flat_call c r).1).0, (flat_calls cs (flat_call c r).1).1)

  abbrev reading : Env V → ℕ → Option V
  reading e k = get_item k e

  abbrev IsOverride : Env V → Type 0
  IsOverride (base d) = ⊥
  IsOverride (override e d) = Unit {0}

  get_item-delete :
      (j k : ℕ) (e : Env V)
      → get_item j (delete_item k e).1 ≡ (if j == k then none else get_item j e)
  unfolding delete_item get_item
  get_item-delete j k (base d) = ground (arith, lookup-erase j k d)
  get_item-delete j k (override e d) = ground (arith, get_item-delete j k e, lookup-erase j k d)

  answer-delete :
      (k : ℕ) (e : Env V)
      → (delete_item k e).0 ≡ (if is_some (get_item k e) then done else key_error)
  unfolding delete_item get_item
  answer-delete k (base d) = ground arith
  answer-delete k (override e d) = ground (arith, answer-delete k e)

  answer_step :
      (c : EnvCall V) (e : Env V) → IsOverride e → (env_call c e).0 ≡ (flat_call c (reading e)).0
  unfolding env_call flat_call set_variable
  answer_step (read k) e o = refl
  answer_step (assign k v) (base d) o = elim o [ ]
  answer_step (assign k v) (override e d) o = ground arith
  answer_step (delete k) e o = ground (arith, answer-delete k e)
  answer_step (replace_by kw) e o = refl

  reading_step :
      (c : EnvCall V) (e : Env V) (j : ℕ)
      → IsOverride e
      → get_item j (env_call c e).1 ≡ (flat_call c (reading e)).1 j
  unfolding env_call flat_call set_variable replace update_env
  reading_step (read k) e j o = refl
  reading_step (assign k v) (base d) j o = elim o [ ]
  reading_step (assign k v) (override e d) j o =
      ground (
        arith,
        get_item-override j e d,
        get_item-override j e (insert k v d),
        lookup-insert j k v d,
      )
  reading_step (delete k) e j o = ground (arith, get_item-delete j k e)
  reading_step (replace_by kw) (base d) j o = elim o [ ]
  reading_step (replace_by kw) (override e d) j o = ground (
    arith,
    get_item-override j e d,
    get_item-override j e (update (non_reserved names kw) d),
    lookup-update j (non_reserved names kw) d,
  )

  -- The environment below.
  abbrev pub subject : Env V → Env V
  subject (base d) = base d
  subject (override e d) = e

  abbrev pub deletes : ℕ → List (EnvCall V) → Bool
  deletes j [] = false
  deletes j (delete k ∷ cs) = j == k || deletes j cs
  deletes j (read k ∷ cs) = deletes j cs
  deletes j (assign k v ∷ cs) = deletes j cs
  deletes j (replace_by kw ∷ cs) = deletes j cs

  deletes-cons :
      (j : ℕ) (c : EnvCall V) (cs : List (EnvCall V))
      → deletes j (c ∷ cs) ≡ (deletes j (c ∷ []) || deletes j cs)
  deletes-cons j (delete k) cs = ground arith
  deletes-cons j (read k) cs = refl
  deletes-cons j (assign k v) cs = refl
  deletes-cons j (replace_by kw) cs = refl

  deleted_below-IsOverride :
      (b : Bool) (d : Dict V) (r : Answer V × Env V)
      → IsOverride (deleted_below b d r).1 × (subject (deleted_below b d r).1 ≡ r.1)
  deleted_below-IsOverride true d (answer, e) = (tt, refl)
  deleted_below-IsOverride false d (answer, e) = (tt, refl)

  over_step :
      (c : EnvCall V) (e : Env V) (j : ℕ)
      → IsOverride e
      → IsOverride (env_call c e).1
        × (get_item j (subject (env_call c e).1)
            ≡ (if deletes j (c ∷ []) then none else get_item j (subject e)))
  unfolding env_call set_variable delete_item replace update_env
  over_step (read k) e j o = (o, refl)
  over_step (assign k v) (base d) j o = elim o [ ]
  over_step (assign k v) (override e d) j o = elim (Bool-cases (names.valid k)) [
    | inl v ↦ (rw (v, set_variable) tt, rw (v, set_variable) refl)
    | inr i ↦ (rw (i, set_variable) tt, rw (i, set_variable) refl)
  ]
  over_step (delete k) (base d) j o = elim o [ ]
  over_step (delete k) (override e d) j o =
      let found = is_some (lookup k d) in
      let (over, same) =
        deleted_below-IsOverride found (if found then erase k d else d) (delete_item k e) in
      (over, rw same (get_item-delete j k e ∙ ground arith))
  over_step (replace_by kw) (base d) j o = elim o [ ]
  over_step (replace_by kw) (override e d) j o = (tt, refl)

  -- After any sequence of item reads, item assignments, item deletions and calls of `Replace` on an
  -- override environment, each answer and what can be read are those of the same calls on one
  -- dictionary that begins with what could be read; of the subject, the variables that were deleted
  -- are gone and no other has changed. Other methods, as `Append`, are not among these calls.
  pub calls-flat :
      (cs : List (EnvCall V)) (e : Env V) (d : Dict V)
      → let after = (env_calls cs (override e d)).1 in
        ((env_calls cs (override e d)).0 ≡ (flat_calls cs (λ k. get_item k (override e d))).0)
        × ((j : ℕ)
            → (get_item j after ≡ (flat_calls cs (λ k. get_item k (override e d))).1 j)
              × (get_item j (subject after) ≡ (if deletes j cs then none else get_item j e)))
  unfolding env_calls flat_calls
  calls-flat cs e d = follow cs (override e d) tt
    where
      follow :
          (cs : List (EnvCall V)) (e : Env V)
          → IsOverride e
          → ((env_calls cs e).0 ≡ (flat_calls cs (reading e)).0)
            × ((j : ℕ)
                → (get_item j (env_calls cs e).1 ≡ (flat_calls cs (reading e)).1 j)
                  × (get_item j (subject (env_calls cs e).1)
                      ≡ (if deletes j cs then none else get_item j (subject e))))
      follow [] e o = (refl, λ j. (refl, refl))
      follow (c ∷ cs) e o =
          let rest = follow cs (env_call c e).1 (over_step c e 0 o).0 in
          let same : reading (env_call c e).1 ≡ (flat_call c (reading e)).1 =
            fun_ext (λ j. reading_step c e j o) in
          (
            rw (answer_step c e o, rest.0, same) refl,
            λ j. (
              (rest.1 j).0 ∙ rw same refl,
              (rest.1 j).1 ∙ ground (arith, (over_step c e j o).1, deletes-cons j c cs),
            ),
          )
