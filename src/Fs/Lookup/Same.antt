-- ===== src/Fs/Lookup/Same.antt =====
-- Node/FS.py, `FS._lookup`: which texts name the same node.
use cross_chain.Prelude.{ℕ, ◌≡◌, sym, ap, ◌∙◌, Bool, some, All, ◌↔◌}
use cross_chain.Util.Paths.{PathText}
use cross_chain.Fs.Paths.{Stack, lookup_path}
use cross_chain.Fs.Paths.Split.{IsName}
use cross_chain.Fs.Paths.Resolved.{resolved, lookup_path-resolved}
use cross_chain.Fs.Lookup.{NodeClass, NodeTable, Disk, Looked, found, lookup_abs, lookup_node}
use cross_chain.Fs.Lookup.Holds.{IsTable, key_unique}
use cross_chain.Fs.Lookup.One.{IsFound, lookup_abs-IsTable}

found_key :
    (key : Stack) (klass : NodeClass) (r : Looked) (u : NodeTable) (n : ℕ)
    → r ≡ found n
    → IsFound key klass r u
    → u.keys key ≡ some n
found_key key klass r u n e f = (rw e at f).0

module _ (disk : Disk) (c d : NodeClass) (a b : Bool) (t : NodeTable) (n m : ℕ) where
  keys_same :
      (k j : Stack)
      → IsTable t
      → (lookup_abs disk k c a t).0 ≡ found n
      → (lookup_abs disk j d b (lookup_abs disk k c a t).1).0 ≡ found m
      → n ≡ m ↔ k ≡ j
  keys_same k j h e f =
      let u = (lookup_abs disk k c a t).1 in
      let v = (lookup_abs disk j d b u).1 in
      let (hu, ku, fu) = lookup_abs-IsTable disk k c a t h in
      let (hv, kv, fv) = lookup_abs-IsTable disk j d b u hu in
      let first = kv k n (found_key k c (lookup_abs disk k c a t).0 u n e fu) in
      let second = found_key j d (lookup_abs disk j d b u).0 v m f fv in
      (
        (λ g. key_unique v hv k j n first (second ∙ ap some (sym g))),
        (λ g. some_same (sym first ∙ ap v.keys g ∙ second)),
      )
    where
      some_same : some n ≡ some m → n ≡ m
      some_same g = cc

-- Two lookups, one behind the other, that find nodes find the same node exactly if the two paths are the
-- same when they are normalised.
pub lookup_node-same :
    (disk : Disk) (top cwd dir : Stack) (p q : PathText) (c d : NodeClass) (a b : Bool)
    (t : NodeTable) (n m : ℕ)
    → IsTable t
    → All IsName top
    → All IsName cwd
    → All IsName dir
    → (lookup_node disk top cwd p c a t).0 ≡ found n
    → (lookup_node disk top dir q d b (lookup_node disk top cwd p c a t).1).0 ≡ found m
    → n ≡ m ↔ resolved top cwd p ≡ resolved top dir q
unfolding lookup_node
lookup_node-same disk top cwd dir p q c d a b t n m h ht hc hd e f =
    rw (sym (lookup_path-resolved top cwd p ht hc), sym (lookup_path-resolved top dir q ht hd))
      (keys_same disk c d a b t n m (lookup_path top cwd p) (lookup_path top dir q) h e f)
