-- ===== src/FsSamples.antt =====
-- Small inputs for the theorems about file system nodes.
use cross_chain.Prelude.{
  ℕ, ◌≡◌, ◌↔◌, refl, sym, none, some, [], ◌∷◌, All, arith, true, ◌<◌, ◌↔◌, if◌then◌else◌,
}
use cross_chain.Util.Paths.{PathText, split}
use cross_chain.Fs.Paths.{Stack, lookup_path}
use cross_chain.Fs.Paths.Split.{IsName}
use cross_chain.Fs.Paths.Resolved.{resolved, lookup_path-resolved}
use cross_chain.Fs.Lookup.{
  root_class, dir_class, file_class, entry_class, NodeTable, a_file, no_standing, Disk, found,
  type_error, same_stack, lookup_abs, lookup_node,
}
use cross_chain.Fs.Lookup.Holds.{IsAt, IsTable}
use cross_chain.Fs.Lookup.One.{IsKept, IsFound, lookup_abs-IsTable}
use cross_chain.Fs.Lookup.Same.{lookup_node-same}
use cross_chain.Fs.Lookup.Succeeds.{is_found, CanBe, lookup_abs-is_found}
use cross_chain.Fs.Relative.{rel_path}
use cross_chain.Fs.Relative.Looks.{lookup_path-rel_path}

-- The directories '/t' and '/t/d'.
abbrev top : Stack
top = (116 ∷ []) ∷ []

abbrev below_top : Stack
below_top = (100 ∷ []) ∷ (116 ∷ []) ∷ []

top-IsName : All IsName top
unfolding split
top-IsName = ((refl, refl, refl, refl), tt)

below_top-IsName : All IsName below_top
unfolding split
below_top-IsName = ((refl, refl, refl, refl), ((refl, refl, refl, refl), tt))

-- The path '../a//b/'
abbrev up_and_down : PathText
up_and_down = 46 ∷ 46 ∷ 47 ∷ 97 ∷ 47 ∷ 47 ∷ 98 ∷ 47 ∷ []

lookup_path-resolved_example :
    lookup_path top below_top up_and_down ≡ resolved top below_top up_and_down
lookup_path-resolved_example =
    lookup_path-resolved top below_top up_and_down top-IsName below_top-IsName

-- '../a//b/' in '/t/d' is '/t/a/b'.
up_and_down_value : lookup_path top below_top up_and_down ≡ (98 ∷ []) ∷ (97 ∷ []) ∷ (116 ∷ []) ∷ []
unfolding lookup_path split
up_and_down_value = refl

-- '//' is the directory that the path is relative to, not the root.
slashes_value : lookup_path top below_top (47 ∷ 47 ∷ []) ≡ below_top
unfolding lookup_path split
slashes_value = refl

-- '#/a/' is '/t/a', and '/' is the root.
top_value : lookup_path top below_top (35 ∷ 47 ∷ 97 ∷ 47 ∷ []) ≡ (97 ∷ []) ∷ top
unfolding lookup_path split
top_value = refl

root_value : lookup_path top below_top (47 ∷ []) ≡ []
unfolding lookup_path split
root_value = refl

-- The table with the root directory alone.
abbrev root_table : NodeTable
root_table = record {
  node = λ n. record { klass = root_class; name = 47 ∷ []; up = 0 };
  next = 1;
  keys = λ k. if same_stack k [] then some 0 else none;
  entries = λ n s. none;
  implicit = λ n. none;
}

root_table-IsTable : IsTable root_table
root_table-IsTable = (refl, omega arith, each)
  where
    each : (key : Stack) (n : ℕ) → root_table.keys key ≡ some n → (n < 1) × IsAt root_table key n
    each [] n e = let z : 0 ≡ n = cc in (omega arith, sym z)
    each (name ∷ up) n e = cc

-- A file stands at '/t/a'.
abbrev disk : Disk
disk = record {
  checks = true;
  standing = λ key. if same_stack key ((97 ∷ []) ∷ top) then a_file else no_standing;
}

lookup_abs-IsTable_example :
    IsTable (lookup_abs disk below_top dir_class true root_table).1
    × IsKept root_table (lookup_abs disk below_top dir_class true root_table).1
    × IsFound below_top dir_class
        (lookup_abs disk below_top dir_class true root_table).0
        (lookup_abs disk below_top dir_class true root_table).1
lookup_abs-IsTable_example =
    lookup_abs-IsTable disk below_top dir_class true root_table root_table-IsTable

-- A file stands where a directory is wanted.
-- '/t/b/c' can be made, where '/t' is there, and '/t/a/b' cannot.
lookup_abs-is_found_example :
    (is_found (lookup_abs disk ((99 ∷ []) ∷ (98 ∷ []) ∷ top) file_class true root_table).0 ≡ true)
    ↔ CanBe disk root_table ((99 ∷ []) ∷ (98 ∷ []) ∷ top) file_class
lookup_abs-is_found_example =
    lookup_abs-is_found disk ((99 ∷ []) ∷ (98 ∷ []) ∷ top) file_class root_table

no_directory_value :
    (lookup_abs disk ((98 ∷ []) ∷ (97 ∷ []) ∷ top) file_class true root_table).0 ≡ type_error
unfolding lookup_abs
no_directory_value = refl

-- 'x' in '/t/d', and then '#d/x'.
abbrev in_directory : PathText
in_directory = 120 ∷ []

abbrev from_top : PathText
from_top = 35 ∷ 100 ∷ 47 ∷ 120 ∷ []

abbrev third : ℕ
third = 3

in_directory-found :
    (lookup_node disk top below_top in_directory entry_class true root_table).0 ≡ found third
unfolding lookup_node split
in_directory-found = refl

from_top-found :
    (lookup_node disk top top from_top file_class true
      (lookup_node disk top below_top in_directory entry_class true root_table).1).0
    ≡ found third
unfolding lookup_node split
from_top-found = refl

lookup_node-same_example :
    third ≡ third ↔ resolved top below_top in_directory ≡ resolved top top from_top
lookup_node-same_example =
    lookup_node-same disk top below_top top in_directory from_top entry_class file_class true true
      root_table third third root_table-IsTable top-IsName below_top-IsName top-IsName
      in_directory-found from_top-found

-- '../x' leads from '/t/d' to '/t/x'.
abbrev beside : Stack
beside = (120 ∷ []) ∷ top

beside-IsName : All IsName beside
unfolding split
beside-IsName = ((refl, refl, refl, refl), top-IsName)

beside_value : rel_path below_top beside ≡ 46 ∷ 46 ∷ 47 ∷ 120 ∷ []
unfolding rel_path
beside_value = refl

lookup_path-rel_path_example : lookup_path top below_top (rel_path below_top beside) ≡ beside
unfolding rel_path
lookup_path-rel_path_example =
    lookup_path-rel_path top below_top beside top-IsName below_top-IsName beside-IsName refl
