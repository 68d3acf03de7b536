-- ===== src/Build/Deps/Cache.antt =====
-- Node/__init__.py: the lists, their sets and the cached children after any calls.
use cross_chain.Prelude.{
  ℕ, ◌≡◌, refl, sym, ap, ◌∙◌, inl, inr, Bool, true, false, ◌||◌, Option, none, some, List, [], ◌∷◌,
  ◌++◌, arith, if◌then◌else◌, elem, elem-append, Bool-cases, Option-cases,
}
use cross_chain.Build.Deps.{
  Call, dependency, ignore, source, specific_source, prerequisite, to_implicit, wkid, get, call,
  calls, compute_children, implicit_of, found_implicit, no_implicit, add_to_implicit, Collection,
  Deps, new_deps, add_child, children_reset, reset_if, add_dependency, add_ignore, add_source,
  set_specific_source, add_prerequisite, add_wkid, all_children, not_ignored, children_get,
}

-- No entry twice.
abbrev pub Distinct : List ℕ → Type 0
Distinct [] = Unit
Distinct (x ∷ xs) = (elem x xs ≡ false) × Distinct xs

-- The list has no repetition, and the set has its elements.
pub record IsIndexed (c : Collection) : Type 0 where
  pub distinct : Distinct c.items
  pub agree : (x : ℕ) → elem x c.members ≡ elem x c.items

-- The children by definition: what the node depends on, less what it ignores.
abbrev pub children_of_lists : Deps → List ℕ
children_of_lists d = not_ignored d.ignore.items (all_children d)

pub record IsCoherent (d : Deps) : Type 0 where
  pub sources_indexed : IsIndexed d.sources
  pub depends_indexed : IsIndexed d.depends
  pub ignore_indexed : IsIndexed d.ignore
  pub cached : (cs : List ℕ) → d.memo ≡ some cs → cs ≡ children_of_lists d

snoc-Distinct : (xs : List ℕ) (n : ℕ) → Distinct xs → elem n xs ≡ false → Distinct (xs ++ n ∷ [])
snoc-Distinct [] n d absent = (refl, tt)
snoc-Distinct (x ∷ xs) n d absent =
    (elem-append x xs (n ∷ []) ∙ ground (arith, d), snoc-Distinct xs n d.1 (ground arith))

grow-IsIndexed :
    (n : ℕ) (c : Collection)
    → IsIndexed c
    → elem n c.members ≡ false
    → IsIndexed (record { items = c.items ++ n ∷ []; members = n ∷ c.members })
grow-IsIndexed n c i absent = record {
  distinct = snoc-Distinct c.items n i.distinct (sym (i.agree n) ∙ absent);
  agree = λ x. let a = i.agree x in let b = elem-append x c.items (n ∷ []) in ground arith;
}

-- Where nothing was added, the collection is the same.
add_child-same :
    (ns : List ℕ) (c : Collection) → (add_child ns c).0 ≡ false → (add_child ns c).1 ≡ c
unfolding add_child
add_child-same [] c kept = refl
add_child-same (n ∷ ns) c kept = elim (Bool-cases (elem n c.members)) [
  | inl e ↦
      let kept' : (add_child ns c).0 ≡ false = rw e at kept in rw e (add_child-same ns c kept')
  | inr e ↦ let kept' : true ≡ false = rw e at kept in cc
]

add_child-IsIndexed : (ns : List ℕ) (c : Collection) → IsIndexed c → IsIndexed (add_child ns c).1
unfolding add_child
add_child-IsIndexed [] c i = i
add_child-IsIndexed (n ∷ ns) c i = elim (Bool-cases (elem n c.members)) [
  | inl e ↦ rw e (add_child-IsIndexed ns c i)
  | inr e ↦ rw e (add_child-IsIndexed ns _ (grow-IsIndexed n c i e))
]

reset_if-IsCoherent :
    (added : Bool) (d : Deps)
    → IsIndexed d.sources
    → IsIndexed d.depends
    → IsIndexed d.ignore
    → (added ≡ false → (cs : List ℕ) → d.memo ≡ some cs → cs ≡ children_of_lists d)
    → IsCoherent (reset_if added d)
unfolding children_reset
reset_if-IsCoherent true d s p i kept = record {
  sources_indexed = s;
  depends_indexed = p;
  ignore_indexed = i;
  cached = λ cs e. cc;
}
reset_if-IsCoherent false d s p i kept = record {
  sources_indexed = s;
  depends_indexed = p;
  ignore_indexed = i;
  cached = kept refl;
}

pub new-IsCoherent : IsCoherent new_deps
new-IsCoherent = record {
  sources_indexed = record { distinct = tt; agree = λ x. refl };
  depends_indexed = record { distinct = tt; agree = λ x. refl };
  ignore_indexed = record { distinct = tt; agree = λ x. refl };
  cached = λ cs e. cc;
}

dependency-IsCoherent : (ns : List ℕ) (d : Deps) → IsCoherent d → IsCoherent (add_dependency ns d)
unfolding add_dependency all_children
dependency-IsCoherent ns d c =
    let indexed = add_child-IsIndexed ns d.depends c.depends_indexed in
    let same = add_child-same ns d.depends in
    reset_if-IsCoherent (add_child ns d.depends).0
      (record d { depends = (add_child ns d.depends).1 }) c.sources_indexed indexed c.ignore_indexed
      (λ kept cs e. rw (same kept) (c.cached cs e))

ignore-IsCoherent : (ns : List ℕ) (d : Deps) → IsCoherent d → IsCoherent (add_ignore ns d)
unfolding add_ignore all_children
ignore-IsCoherent ns d c =
    let indexed = add_child-IsIndexed ns d.ignore c.ignore_indexed in
    let same = add_child-same ns d.ignore in
    reset_if-IsCoherent (add_child ns d.ignore).0 (record d { ignore = (add_child ns d.ignore).1 })
      c.sources_indexed c.depends_indexed indexed (λ kept cs e. rw (same kept) (c.cached cs e))

either-IsCoherent :
    (b : Bool) (d d' : Deps) → IsCoherent d → IsCoherent d' → IsCoherent (if b then d else d')
either-IsCoherent true d d' c c' = c
either-IsCoherent false d d' c c' = c'

source-IsCoherent : (ns : List ℕ) (d : Deps) → IsCoherent d → IsCoherent (add_source ns d)
unfolding add_source all_children
source-IsCoherent ns d c =
    let indexed = add_child-IsIndexed ns d.sources c.sources_indexed in
    let same = add_child-same ns d.sources in
    let added =
      reset_if-IsCoherent (add_child ns d.sources).0
        (record d { sources = (add_child ns d.sources).1 }) indexed c.depends_indexed
        c.ignore_indexed (λ kept cs e. rw (same kept) (c.cached cs e)) in
    either-IsCoherent d.specific_sources d _ c added

implicit_same :
    (ns : List ℕ) (i : Option Collection)
    → (no_implicit i || (add_child ns (found_implicit i)).0) ≡ false
    → (add_child ns (found_implicit i)).1.items ≡ implicit_of i
implicit_same ns none kept = cc
implicit_same ns (some c) kept = ap (λ (k : Collection). k.items) (add_child-same ns c kept)

implicit-IsCoherent : (ns : List ℕ) (d : Deps) → IsCoherent d → IsCoherent (add_to_implicit ns d)
unfolding add_to_implicit all_children
implicit-IsCoherent ns d c =
    reset_if-IsCoherent (no_implicit d.implicit || (add_child ns (found_implicit d.implicit)).0)
      (record d { implicit = some (add_child ns (found_implicit d.implicit)).1 }) c.sources_indexed
      c.depends_indexed c.ignore_indexed
      (λ kept cs e.
        c.cached cs e
        ∙ ap (λ (l : List ℕ). not_ignored d.ignore.items (d.sources.items ++ d.depends.items ++ l))
            (sym (implicit_same ns d.implicit kept)))

not_ignored-agree :
    (s t ns : List ℕ) → ((x : ℕ) → elem x s ≡ elem x t) → not_ignored s ns ≡ not_ignored t ns
unfolding not_ignored
not_ignored-agree s t [] agree = refl
not_ignored-agree s t (n ∷ ns) agree = rw (agree n, not_ignored-agree s t ns agree) refl

not_ignored-nil : (ns : List ℕ) → not_ignored [] ns ≡ ns
unfolding not_ignored
not_ignored-nil [] = refl
not_ignored-nil (n ∷ ns) = rw (not_ignored-nil ns) refl

compute_children-lists :
    (d : Deps) (set : List ℕ)
    → ((x : ℕ) → elem x set ≡ elem x d.ignore.items)
    → compute_children d set ≡ children_of_lists d
unfolding compute_children
compute_children-lists d [] agree =
    sym (not_ignored-nil (all_children d))
    ∙ not_ignored-agree [] d.ignore.items (all_children d) agree
compute_children-lists d (x ∷ set) agree =
    not_ignored-agree (x ∷ set) d.ignore.items (all_children d) agree

-- `_children_get` on a coherent node.
get-IsCoherent :
    (d : Deps)
    → IsCoherent d
    → IsCoherent (children_get d).1 × ((children_get d).0 ≡ children_of_lists d)
unfolding children_get all_children
get-IsCoherent d c = elim (Option-cases d.memo) [
  | inl e ↦
      let computed = compute_children-lists d d.ignore.members c.ignore_indexed.agree in
      rw (e, children_get)
        (
          record {
            sources_indexed = c.sources_indexed;
            depends_indexed = c.depends_indexed;
            ignore_indexed = c.ignore_indexed;
            cached = λ cs e'.
                let same_list : compute_children d d.ignore.members ≡ cs = cc in
                sym same_list ∙ computed;
          },
          computed,
        )
  | inr (cs, e) ↦ rw (e, children_get) (c, c.cached cs e)
]

call-IsCoherent : (k : Call) (d : Deps) → IsCoherent d → IsCoherent (call k d)
unfolding call set_specific_source add_prerequisite children_reset add_wkid all_children
call-IsCoherent (dependency ns) d c = dependency-IsCoherent ns d c
call-IsCoherent (ignore ns) d c = ignore-IsCoherent ns d c
call-IsCoherent (source ns) d c = source-IsCoherent ns d c
call-IsCoherent (specific_source ns) d c =
    let c' = source-IsCoherent ns d c in
    record {
      sources_indexed = c'.sources_indexed;
      depends_indexed = c'.depends_indexed;
      ignore_indexed = c'.ignore_indexed;
      cached = c'.cached;
    }
call-IsCoherent (prerequisite ns) d c = record {
  sources_indexed = c.sources_indexed;
  depends_indexed = c.depends_indexed;
  ignore_indexed = c.ignore_indexed;
  cached = λ cs e. cc;
}
call-IsCoherent (to_implicit ns) d c = implicit-IsCoherent ns d c
call-IsCoherent (wkid n) d c = record {
  sources_indexed = c.sources_indexed;
  depends_indexed = c.depends_indexed;
  ignore_indexed = c.ignore_indexed;
  cached = c.cached;
}
call-IsCoherent get d c = (get-IsCoherent d c).0

calls-IsCoherent : (ks : List Call) (d : Deps) → IsCoherent d → IsCoherent (calls ks d)
unfolding calls
calls-IsCoherent [] d c = c
calls-IsCoherent (k ∷ ks) d c = calls-IsCoherent ks (call k d) (call-IsCoherent k d c)

-- After any sequence of add_dependency, add_ignore, add_source, set_specific_source, add_prerequisite,
-- add_to_implicit, add_wkid and `_children_get` on a new node, `_children_get` gives what its lists of
-- sources, dependencies and implicit dependencies make, less the ignored nodes, so that the kept list
-- of children is never stale; its lists of sources, dependencies and ignored nodes have no repetition.
pub children_get-calls :
    (ks : List Call)
    → let d = calls ks new_deps in
      ((children_get d).0 ≡ not_ignored d.ignore.items (all_children d))
      × Distinct d.sources.items
      × Distinct d.depends.items
      × Distinct d.ignore.items
children_get-calls ks =
    let c = calls-IsCoherent ks new_deps new-IsCoherent in
    (
      (get-IsCoherent (calls ks new_deps) c).1,
      c.sources_indexed.distinct,
      c.depends_indexed.distinct,
      c.ignore_indexed.distinct,
    )
