-- ===== src/Main/Clean/Gone.antt =====
-- Script/Main.py, `CleanTask.fs_delete`: when a path is gone after it.
use cross_chain.Prelude.{
  ℕ, List, ◌≡◌, ◌⊎◌, ◌↔◌, inl, inr, refl, sym, ap, ◌∙◌, Bool, true, false, ◌&&◌, Option, none, some,
  [], ◌∷◌, ◌++◌, arith, Bool-cases,
}
use cross_chain.Main.Clean.{
  PathNames, Removal, Listing, rmdir, after_call, Tree, file, link, special, dir, Entries,
  no_entries, entry, is_empty, fs_delete, delete_entries,
}

-- Everything at a path is a file, a link or a directory, and the system permits each step.
unfoldable mutual
  pub permitted : Tree → Bool
  permitted (file ok) = ok
  permitted (link to_file ok) = ok
  permitted special = false
  permitted (dir listed ok es) = listed && ok && all_permitted es

  pub all_permitted : Entries → Bool
  all_permitted no_entries = true
  all_permitted (entry name t es) = permitted t && all_permitted es

abbrev is_none : Option Tree → Bool
is_none none = true
is_none (some _) = false

-- A step of the loop by a call.
call_gone :
    (name : List ℕ) (result : Removal) (r : Listing) (one all : Bool)
    → is_none result.1 ≡ one
    → (r.ended && is_empty r.left) ≡ all
    → ((after_call name result r).ended && is_empty (after_call name result r).left) ≡ (one && all)
call_gone name (lines, none) r one all e f = ground arith
call_gone name (lines, some t) r one all e f = ground arith

dir_gone :
    (ok all : Bool) (path : PathNames) (r : Listing)
    → (r.ended && is_empty r.left) ≡ all
    → is_none (rmdir true true ok path r).1 ≡ (ok && all)
dir_gone ok all path r e = ground arith

mutual
  unfolding fs_delete delete_entries permitted all_permitted

  gone : (path : PathNames) (t : Tree) → is_none (fs_delete true path t).1 ≡ permitted t
  gone path (file true) = refl
  gone path (file false) = refl
  gone path (link to_file true) = refl
  gone path (link to_file false) = refl
  gone path special = refl
  gone path (dir false ok es) = refl
  gone path (dir true ok es) =
      dir_gone ok (all_permitted es) path (delete_entries true path es) (all_gone path es)

  all_gone :
      (path : PathNames) (es : Entries)
      → ((delete_entries true path es).ended && is_empty (delete_entries true path es).left)
        ≡ all_permitted es
  all_gone path no_entries = refl
  all_gone path (entry name (file true) es) = all_gone path es
  all_gone path (entry name (file false) es) = refl
  all_gone path (entry name (link true true) es) = all_gone path es
  all_gone path (entry name (link true false) es) = refl
  all_gone path (entry name (link false ok) es) =
      call_gone name (fs_delete true (path ++ name ∷ []) (link false ok))
        (delete_entries true path es) ok (all_permitted es)
        (gone (path ++ name ∷ []) (link false ok)) (all_gone path es)
  all_gone path (entry name special es) =
      call_gone name (fs_delete true (path ++ name ∷ []) special) (delete_entries true path es)
        false (all_permitted es) refl (all_gone path es)
  all_gone path (entry name (dir listed ok inner) es) =
      call_gone name (fs_delete true (path ++ name ∷ []) (dir listed ok inner))
        (delete_entries true path es) (permitted (dir listed ok inner)) (all_permitted es)
        (gone (path ++ name ∷ []) (dir listed ok inner)) (all_gone path es)

-- Without `remove` everything stays, and the loop comes to its end.
mutual
  unfolding fs_delete delete_entries

  stays : (path : PathNames) (t : Tree) → (fs_delete false path t).1 ≡ some t
  stays path (file ok) = refl
  stays path (link to_file ok) = refl
  stays path special = refl
  stays path (dir false ok es) = refl
  stays path (dir true ok es) = rw ((all_stay path es).0) refl

  all_stay :
      (path : PathNames) (es : Entries)
      → ((delete_entries false path es).left ≡ es) × ((delete_entries false path es).ended ≡ true)
  all_stay path no_entries = (refl, refl)
  all_stay path (entry name (file ok) es) = (rw ((all_stay path es).0) refl, (all_stay path es).1)
  all_stay path (entry name (link true ok) es) =
      (rw ((all_stay path es).0) refl, (all_stay path es).1)
  all_stay path (entry name (link false ok) es) =
      (rw ((all_stay path es).0) refl, (all_stay path es).1)
  all_stay path (entry name special es) = (rw ((all_stay path es).0) refl, (all_stay path es).1)
  all_stay path (entry name (dir listed ok inner) es) = (
    rw ((all_stay path es).0, stays (path ++ name ∷ []) (dir listed ok inner)) refl,
    (all_stay path es).1,
  )

dir_lines :
    (ok : Bool) (path : PathNames) (r r' : Listing)
    → ok ≡ true
    → (r.ended && is_empty r.left) ≡ true
    → r'.ended ≡ true
    → r.lines ≡ r'.lines
    → (rmdir true true ok path r).0 ≡ (rmdir false true ok path r').0
dir_lines ok path r r' e f g h = ground arith

call_lines :
    (name : List ℕ) (a b : Removal) (r r' : Listing)
    → a.0 ≡ b.0
    → r.lines ≡ r'.lines
    → (after_call name a r).lines ≡ (after_call name b r').lines
call_lines name (l, t) (l', t') r r' e f = rw (e, f) refl

mutual
  unfolding fs_delete delete_entries permitted all_permitted

  same_lines :
      (path : PathNames) (t : Tree)
      → permitted t ≡ true
      → (fs_delete true path t).0 ≡ (fs_delete false path t).0
  same_lines path (file ok) e = rw e refl
  same_lines path (link to_file ok) e = rw e refl
  same_lines path special e = refl
  same_lines path (dir false ok es) e = refl
  same_lines path (dir true ok es) e =
      dir_lines ok path (delete_entries true path es) (delete_entries false path es) (ground arith)
        (all_gone path es ∙ ground arith) (all_stay path es).1
        (all_same_lines path es (ground arith))

  all_same_lines :
      (path : PathNames) (es : Entries)
      → all_permitted es ≡ true
      → (delete_entries true path es).lines ≡ (delete_entries false path es).lines
  all_same_lines path no_entries e = refl
  all_same_lines path (entry name (file true) es) e = rw (all_same_lines path es e) refl
  all_same_lines path (entry name (file false) es) e = cc
  all_same_lines path (entry name (link true true) es) e = rw (all_same_lines path es e) refl
  all_same_lines path (entry name (link true false) es) e = cc
  all_same_lines path (entry name (link false ok) es) e =
      call_lines name (fs_delete true (path ++ name ∷ []) (link false ok))
        (fs_delete false (path ++ name ∷ []) (link false ok)) (delete_entries true path es)
        (delete_entries false path es)
        (same_lines (path ++ name ∷ []) (link false ok) (ground arith))
        (all_same_lines path es (ground arith))
  all_same_lines path (entry name special es) e = cc
  all_same_lines path (entry name (dir listed ok inner) es) e =
      call_lines name (fs_delete true (path ++ name ∷ []) (dir listed ok inner))
        (fs_delete false (path ++ name ∷ []) (dir listed ok inner)) (delete_entries true path es)
        (delete_entries false path es)
        (same_lines (path ++ name ∷ []) (dir listed ok inner) (ground arith))
        (all_same_lines path es (ground arith))

-- `fs_delete` without `remove` leaves everything as it is. With `remove` the path is gone exactly if
-- each thing at it is a file, a link or a directory, and the system permits to list each directory
-- and to remove each thing; where it does, both print the same lines.
pub fs_delete-permitted :
    (path : PathNames) (t : Tree)
    → ((fs_delete false path t).1 ≡ some t)
      × (((fs_delete true path t).1 ≡ none) ↔ (permitted t ≡ true))
      × ((permitted t ≡ false) ⊎ ((fs_delete true path t).0 ≡ (fs_delete false path t).0))
fs_delete-permitted path t = (
  stays path t,
  (λ e. sym (gone path t) ∙ ap is_none e, λ e. of_none (fs_delete true path t).1 (gone path t ∙ e)),
  elim (Bool-cases (permitted t)) [ inl e ↦ inr (same_lines path t e) | inr e ↦ inl e ],
)
  where
    of_none : (o : Option Tree) → is_none o ≡ true → o ≡ none
    of_none none e = refl
    of_none (some t) e = cc
