-- ===== src/Cache/Files.antt =====
-- What CacheDir.py asks of the file system, and the calls that change it. A call gives whether it came
-- to its end, an EnvironmentError otherwise, and the files behind it.
pub mod Entries
use Prim.Native.Nat.{bit_and, bit_or}
use cross_chain.Prelude.{
  ℕ, zero, suc, Bool, true, false, Option, none, some, List, [], ◌∷◌, if◌then◌else◌, ◌==◌,
}
use cross_chain.Util.Paths.{PathText, split}
use cross_chain.Fs.Paths.{Stack, normalized}
use cross_chain.Fs.Lookup.{same_stack}

-- A file with its bytes and mode, a link with its text, a directory with its mode.
pub data Entry : Type 0 where
  regular : List ℕ → ℕ → Entry
  link : PathText → Entry
  directory : ℕ → Entry

abbrev pub FileTable : Type 0
FileTable = Stack → Option Entry

abbrev pub set_entry : Stack → Option Entry → FileTable → FileTable
set_entry p e fs q = if same_stack q p then e else fs q

abbrev pub is_entry_there : Option Entry → Bool
is_entry_there none = false
is_entry_there (some e) = true

abbrev pub directory_of : Stack → Stack
directory_of [] = []
directory_of (name ∷ up) = up

-- Where the text of a link leads.
abbrev pub link_path : Stack → PathText → Stack
link_path p [] = directory_of p
link_path p (c ∷ s) = normalized (if c == 47 then [] else directory_of p) (split 47 (c ∷ s))

abbrev pub through : (Stack → Option Stack) → Stack → Option Entry → Option Stack
through next p (some (link s)) = next (link_path p s)
through next p e = some p

-- The end of a chain of links; the system follows no more than forty.
unfoldable pub follow : ℕ → FileTable → Stack → Option Stack
unfolding normalized split
follow zero fs p = none
follow (suc n) fs p = through (follow n fs) p (fs p)

abbrev pub entry_of : FileTable → Option Stack → Option Entry
entry_of fs none = none
entry_of fs (some p) = fs p

unfoldable pub entry_at : FileTable → Stack → Option Entry
unfolding follow
entry_at fs p = entry_of fs (follow 40 fs p)

-- `fs.exists`, `fs.islink` and `fs.isdir`
unfoldable pub exists : FileTable → Stack → Bool
unfolding entry_at
exists fs p = is_entry_there (entry_at fs p)

abbrev pub is_directory_entry : Option Entry → Bool
is_directory_entry (some (directory m)) = true
is_directory_entry e = false

unfoldable pub is_dir : FileTable → Stack → Bool
unfolding entry_at
is_dir fs p = is_directory_entry (entry_at fs p)

abbrev pub CallEnd : Type 0
CallEnd = Bool × FileTable

-- `os.mkdir` behind the directories above.
abbrev pub mkdir : Stack → CallEnd → CallEnd
mkdir p (false, fs) = (false, fs)
mkdir p (true, fs) =
    if is_entry_there (fs p)
    then (false, fs)
    else if is_dir fs (directory_of p)
    then (true, set_entry p (some (directory 0x1ff)) fs)
    else (false, fs)

-- `os.makedirs`; the root is there.
unfoldable pub makedirs : Stack → FileTable → CallEnd
unfolding exists is_dir
makedirs [] fs = (false, fs)
makedirs (name ∷ up) fs =
    let above = makedirs up fs in mkdir (name ∷ up) (if exists fs up then (true, fs) else above)

-- `os.symlink`, and `os.rename`, which does not replace a directory. The directory of what is made has
-- to be there.
unfoldable pub symlink : PathText → Stack → FileTable → CallEnd
unfolding is_dir
symlink s p fs =
    if is_entry_there (fs p)
    then (false, fs)
    else if is_dir fs (directory_of p)
    then (true, set_entry p (some (link s)) fs)
    else (false, fs)

abbrev pub move : Stack → Stack → Option Entry → FileTable → CallEnd
move p q none fs = (false, fs)
move p q (some e) fs =
    if is_directory_entry (fs q)
    then (false, fs)
    else if is_dir fs (directory_of q)
    then (true, set_entry p none (set_entry q (some e) fs))
    else (false, fs)

unfoldable pub rename : Stack → Stack → FileTable → CallEnd
unfolding is_dir
rename p q fs = move p q (fs p) fs

-- `shutil.copy2`: where the target is a directory the copy goes into it; links are followed.
abbrev pub name_in : Stack → Stack → Stack
name_in [] dst = dst
name_in (name ∷ up) dst = name ∷ dst

abbrev pub copy_target : Stack → Stack → FileTable → Stack
copy_target src dst fs = if is_dir fs dst then name_in src dst else dst

abbrev pub write : Option Stack → Option Entry → FileTable → CallEnd
write (some q) (some (regular c m)) fs =
    if is_directory_entry (fs q)
    then (false, fs)
    else if is_dir fs (directory_of q)
    then (true, set_entry q (some (regular c m)) fs)
    else (false, fs)
write q e fs = (false, fs)

unfoldable pub copy2 : Stack → Stack → FileTable → CallEnd
unfolding entry_at is_dir
copy2 src dst fs = write (follow 40 fs (copy_target src dst fs)) (entry_at fs src) fs

abbrev pub mode_of : Option Entry → Option ℕ
mode_of (some (regular c m)) = some m
mode_of (some (directory m)) = some m
mode_of e = none

-- `stat.S_IMODE(mode) | stat.S_IWRITE`
abbrev pub writable : ℕ → ℕ
writable m = bit_or (bit_and m 0xfff) 0x80

abbrev pub with_mode : ℕ → Option Entry → Option Entry
with_mode m (some (regular c n)) = some (regular c m)
with_mode m (some (directory n)) = some (directory m)
with_mode m e = e

abbrev pub chmod_end : Option Stack → ℕ → FileTable → CallEnd
chmod_end none m fs = (false, fs)
chmod_end (some q) m fs =
    if is_entry_there (fs q) then (true, set_entry q (with_mode m (fs q)) fs) else (false, fs)

abbrev pub chmod : Stack → ℕ → FileTable → CallEnd
chmod p m fs = chmod_end (follow 40 fs p) m fs

-- `st = fs.stat(source)` and `fs.chmod(target, ...)`
abbrev pub chmod_as : Option ℕ → Stack → FileTable → CallEnd
chmod_as none p fs = (false, fs)
chmod_as (some m) p fs = chmod p (writable m) fs

unfoldable pub copy_mode : Stack → Stack → FileTable → CallEnd
unfolding entry_at
copy_mode src dst fs = chmod_as (mode_of (entry_at fs src)) dst fs
