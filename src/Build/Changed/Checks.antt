-- ===== src/Build/Changed/Checks.antt =====
-- What the two checks come down to.
use cross_chain.Prelude.{
  ℕ, zero, suc, ◌≡◌, ◌↔◌, ◌⊎◌, inl, inr, refl, ap, ◌∙◌, ◌≤◌, ◌-◌, ltb, ◌==◌, Bool, true, false, not,
  ◌||◌, ◌&&◌, Bool-cases, Option, some, List, [], ◌∷◌, ◌++◌, map, if◌then◌else◌, length, All,
  All-elem, elem, arith, length-append,
}
use cross_chain.Build.Node.{State, rank}
use cross_chain.Build.Changed.{
  BuildInfo, nones, before, zip, check_children, changed, newest, children_are_up_to_date,
}

length-map : (xs : List ℕ) → length (map (λ s. some s) xs) ≡ length xs
length-map [] = refl
length-map (x ∷ xs) = omega (arith, length-map xs)

length-nones : (n : ℕ) → length (nones n) ≡ n
length-nones zero = refl
length-nones (suc n) = omega (arith, length-nones n)

first-zip :
    (cs : List ℕ) (ps : List (Option ℕ)) → length cs ≤ length ps → map (λ z. z.0) (zip cs ps) ≡ cs
first-zip [] ps h = refl
first-zip (c ∷ cs) [] h = absurd (omega arith)
first-zip (c ∷ cs) (p ∷ ps) h = ap (c ∷◌) (first-zip cs ps (omega arith))

-- Every child is among those that are checked.
pub checked_all :
    (bi : BuildInfo) (children : List ℕ)
    → map (λ z. z.0) (zip children (before bi (length children))) ≡ children
checked_all bi children =
    let sigs = bi.bsourcesigs ++ bi.bdependsigs ++ bi.bimplicitsigs in
    let extra = length children - length sigs in
    first-zip children (before bi (length children)) (
      omega (
        arith,
        length-append (map (λ s. some s) sigs) (nones extra),
        length-map sigs,
        length-nones extra,
      ))

or_false : (r : Bool) → r ≡ (r || false)
or_false true = refl
or_false false = refl

or_later : (a r o : Bool) → ((if a then true else r) || o) ≡ (r || (a || o))
or_later true true o = refl
or_later true false o = refl
or_later false r o = refl

or_last : (e x : Bool) → (if e then true else x) ≡ (x || e)
or_last true true = refl
or_last true false = refl
or_last false true = refl
or_last false false = refl

module _ {S : Type 0} (changed_since_last_build : ℕ → Option ℕ → S → Bool × S) where
  -- All the calls, one after the other: whether one of them answers that the child changed, and the state
  -- in the end.
  unfoldable pub all_calls : List (ℕ × Option ℕ) → S → Bool × S
  all_calls [] s = (false, s)
  all_calls ((child, prev_ni) ∷ rest) s =
      let (answer, s') = changed_since_last_build child prev_ni s in
      let (others, s'') = all_calls rest s' in (answer || others, s'')

  check_children-all_calls :
      (pairs : List (ℕ × Option ℕ)) (result : Bool) (s : S)
      → check_children changed_since_last_build pairs result s
        ≡ (result || (all_calls pairs s).0, (all_calls pairs s).1)
  unfolding check_children all_calls
  check_children-all_calls [] result s = ap (λ b. (b, s)) (or_false result)
  check_children-all_calls ((c, p) ∷ rest) result s =
      let r = changed_since_last_build c p s in
      check_children-all_calls rest (if r.0 then true else result) r.1
      ∙ ap (λ b. (b, (all_calls rest r.1).1)) (or_later r.0 result (all_calls rest r.1).0)

  -- `changed` asks every child, in order, whether one of them has answered or not; it says that the node changed where the
  -- number of children differs from what was stored, where a child answers so, or where the node has a builder
  -- and the signature of its action differs from the stored one.
  changed-all_calls :
      (bi : BuildInfo) (children : List ℕ) (has_builder : Bool) (newsig : ℕ) (s : S)
      → (let pairs = zip children (before bi (length children)) in
          let stored = bi.bsourcesigs ++ bi.bdependsigs ++ bi.bimplicitsigs in
          (map (λ z. z.0) pairs ≡ children)
          × (changed changed_since_last_build bi children has_builder newsig s ≡ (
            (not (length children == length stored) || (all_calls pairs s).0)
                || (has_builder && not (bi.bactsig == newsig)),
            (all_calls pairs s).1,
          )))
  unfolding changed
  changed-all_calls bi children has_builder newsig s = (
    checked_all bi children,
    rw (check_children-all_calls (zip children (before bi (length children)))) (
        ap (λ b. (b, (all_calls (zip children (before bi (length children))) s).1))
          (or_last (has_builder && not (bi.bactsig == newsig)) (
            not (length children == length (bi.bsourcesigs ++ bi.bdependsigs ++ bi.bimplicitsigs))
            || (all_calls (zip children (before bi (length children))) s).0))),
  )

-- The newest state is one of those that were looked at, and none of them is newer.
record IsNewest (state : ℕ) (kids : List State) (n : ℕ) : Type 0 where
  above : state ≤ n
  newer : All (λ k. rank k ≤ n) kids
  found : (n ≡ state) ⊎ (elem n (map (λ k. rank k) kids) ≡ true)

IsNewest-step :
    (state t n : ℕ) (k : State) (kids : List State)
    → state ≤ t
    → rank k ≤ t
    → (t ≡ state) ⊎ (t ≡ rank k)
    → IsNewest t kids n
    → IsNewest state (k ∷ kids) n
IsNewest-step state t n k kids a b c i = record {
  above = omega (arith, i.above);
  newer = (omega (arith, i.above), i.newer);
  found = elim i.found [
    | inl e ↦ elim c [ inl e' ↦ inl (omega arith) | inr e' ↦ inr (ground arith) ]
    | inr m ↦ inr (ground arith)
  ];
}

newest-IsNewest : (state : ℕ) (kids : List State) → IsNewest state kids (newest state kids)
unfolding newest
newest-IsNewest state [] = record { above = omega arith; newer = tt; found = inl refl }
newest-IsNewest state (k ∷ kids) =
    elim (Bool-cases (not (rank k == 0) && (state == 0 || ltb state (rank k)))) [
      | inl y ↦ rw y (
          IsNewest-step state (rank k) _ k kids (ground arith) (omega arith) (inr refl)
            (newest-IsNewest (rank k) kids))
      | inr n ↦ rw n (
          IsNewest-step state state _ k kids (omega arith) (ground arith) (inl refl)
            (newest-IsNewest state kids))
    ]

All-ranks :
    (P : ℕ → Type 0) (kids : List State)
    → All (λ k. P (rank k)) kids
    → All P (map (λ k. rank k) kids)
All-ranks P [] h = tt
All-ranks P (k ∷ kids) h = (h.0, All-ranks P kids h.1)

All-implies :
    (P Q : ℕ → Type 0) (kids : List State)
    → ((n : ℕ) → P n → Q n)
    → All (λ k. P (rank k)) kids
    → All (λ k. Q (rank k)) kids
All-implies P Q [] f h = tt
All-implies P Q (k ∷ kids) f h = (f (rank k) h.0, All-implies P Q kids f h.1)

-- A rank among the children's fulfils what all of them do.
of_rank :
    (P : ℕ → Type 0) (n : ℕ) (kids : List State)
    → All (λ k. P (rank k)) kids
    → elem n (map (λ k. rank k) kids) ≡ true
    → P n
of_rank P n kids h m = All-elem P n (map (λ k. rank k) kids) (All-ranks P kids h) m

-- `children_are_up_to_date` holds of a node that is not always built if and only if no child is executed
-- or failed, and either no child has a state yet or one is up to date.
children_are_up_to_date_iff :
    (always_build : Bool) (kids : List State)
    → (children_are_up_to_date always_build kids ≡ true) ↔ (
        (always_build ≡ false)
        × All (λ k. rank k ≤ 3) kids
        × (All (λ k. rank k ≡ 0) kids ⊎ (elem 3 (map (λ k. rank k) kids) ≡ true)))
unfolding children_are_up_to_date
children_are_up_to_date_iff true kids = (λ h. cc, λ h. cc (h.0))
children_are_up_to_date_iff false kids =
    let n = newest 0 kids in
    let i = newest-IsNewest 0 kids in
    (
      λ h. elim (Bool-cases (n == 0)) [
        | inl e ↦
            let zero_only =
              All-implies (λ k. k ≤ n) (λ k. k ≡ 0) kids (λ k l. ground arith) i.newer in
            (
              refl,
              All-implies (λ k. k ≡ 0) (λ k. k ≤ 3) kids (λ k l. omega arith) zero_only,
              inl zero_only,
            )
        | inr e ↦
            let three : n ≡ 3 = ground arith in
            (
              refl,
              All-implies (λ k. k ≤ n) (λ k. k ≤ 3) kids (λ k l. omega arith) i.newer,
              inr (elim i.found [ inl e' ↦ absurd (ground arith) | inr m ↦ rw three at m ]),
            )
      ],
      λ (_, low, some_state).
          let small : n ≤ 3 = elim i.found [
            | inl e ↦ omega arith
            | inr m ↦ of_rank (λ k. k ≤ 3) n kids low m
          ] in
          elim some_state [
            | inl none_yet ↦
                let nothing : n ≡ 0 = elim i.found [
                  | inl e ↦ e
                  | inr m ↦ of_rank (λ k. k ≡ 0) n kids none_yet m
                ] in
                ground arith
            | inr m ↦ let high : 3 ≤ n = of_rank (λ k. k ≤ n) 3 kids i.newer m in ground arith
          ],
    )
