-- ===== src/Kernel/Fs/Paths.antt =====
-- Directories and path names of xv6/kernel/fs.c. A name is its bytes before the NUL; a directory
-- entry is two bytes of the inode's number and 14 of the name.
use ru_shell.Base.{
  Bool, List, Option, [], eq_bytes, false, if◌then◌else◌, leb, length, none, not, opt_is, some, suc,
  take, true, zero, ℕ, ◌%◌, ◌&&◌, ◌*◌, ◌+◌, ◌/◌, ◌==◌, ◌||◌, ◌∷◌,
}
use ru_shell.Kernel.Exec.{panic, pure, ◌>>=◌, ◌>>◌}
use ru_shell.Kernel.Fs.{FsM}
use ru_shell.Kernel.Fs.Inodes.{idup, iget, ilock, inode_at, iput, put_inode}
use ru_shell.Kernel.Fs.Content.{readi, writei}
pub mod Elements

abbrev pub dirsiz : ℕ
dirsiz = 14

abbrev pub dirent_size : ℕ
dirent_size = dirsiz + 2

-- The type T_DIR of xv6/kernel/stat.h.
abbrev pub t_dir : ℕ
t_dir = 1

pub record Dirent : Type 0 where
  pub inum : ℕ
  pub name : List ℕ

abbrev before_nul : List ℕ → List ℕ
before_nul [] = []
before_nul (c ∷ s) = let rest = before_nul s in if c == 0 then [] else c ∷ rest

abbrev pub dirent_of : List ℕ → Dirent
dirent_of [] = record { inum = 0; name = [] }
dirent_of (a ∷ []) = record { inum = a; name = [] }
dirent_of (a ∷ b ∷ s) = record { inum = a + 256 * b; name = before_nul s }

-- The bytes of an entry, whose name `strncpy` fills up with NULs.
abbrev pub dirent_bytes : ℕ → List ℕ → List (Option ℕ)
dirent_bytes inum name = some (inum % 256) ∷ some (inum / 256 % 256) ∷ padded dirsiz name
  where
    padded : ℕ → List ℕ → List (Option ℕ)
    padded zero s = []
    padded (suc n) [] = some 0 ∷ padded n []
    padded (suc n) (c ∷ s) = some c ∷ padded n s

unfoldable pub namecmp : List ℕ → List ℕ → Bool
unfolding eq_bytes
namecmp s t = eq_bytes (take dirsiz s) (take dirsiz t)

-- An entry of a directory, read by the kernel; a short read is a panic.
unfoldable pub read_dirent : ℕ → ℕ → FsM Dirent
unfolding readi
read_dirent d off = do
  dp ← inode_at d
  (got, dp') ← readi (λ _. true) dp off dirent_size
  put_inode d dp'
  elim got [
    | none ↦ panic
    | some bs ↦ if length bs == dirent_size then pure (dirent_of bs) else panic
  ]

-- The loop of `dirlookup` from an offset on, on fuel: an entry takes one. The offset and the number
-- of the inode, if there is an entry.
unfoldable pub find_dirent : ℕ → ℕ → ℕ → List ℕ → ℕ → FsM (Option (ℕ × ℕ))
unfolding read_dirent namecmp
find_dirent zero d size name off = pure none
find_dirent (suc fuel) d size name off = if leb size off then pure none else do
  de ← read_dirent d off
  if not (de.inum == 0) && namecmp name de.name
      then pure (some (off, de.inum))
      else find_dirent fuel d size name (off + dirent_size)

unfoldable pub dirlookup : ℕ → List ℕ → FsM (Option (ℕ × ℕ))
unfolding find_dirent iget
dirlookup d name = do
  dp ← inode_at d
  if not (dp.body.type == t_dir) then panic else do
    found ← find_dirent dp.body.size d dp.body.size name 0
    elim found [ none ↦ pure none | some e ↦ do i ← iget dp.dev e.1; pure (some (e.0, i)) ]

-- The loop of `dirlink` for an empty entry, on fuel like that of `dirlookup`.
unfoldable pub empty_dirent : ℕ → ℕ → ℕ → ℕ → FsM ℕ
unfolding read_dirent
empty_dirent zero d size off = pure off
empty_dirent (suc fuel) d size off = if leb size off then pure off else do
  de ← read_dirent d off
  if de.inum == 0 then pure off else empty_dirent fuel d size (off + dirent_size)

-- False is the result -1. The directory is an entry of the inode table.
unfoldable pub dirlink : ℕ → List ℕ → ℕ → FsM Bool
unfolding dirlookup iput empty_dirent writei
dirlink d name inum = do
  found ← dirlookup d name
  dp ← inode_at d
  elim found [
    | some e ↦ iput e.1 >> pure false
    | none ↦ do
      off ← empty_dirent dp.body.size d dp.body.size 0
      now ← inode_at d
      (wrote, dp') ← writei now off (dirent_bytes inum name)
      put_inode d dp'
      pure (opt_is wrote dirent_size)
  ]

unfoldable pub skip_slashes : List ℕ → List ℕ
skip_slashes [] = []
skip_slashes (c ∷ s) = let rest = skip_slashes s in if c == b'/' then rest else c ∷ s

-- The bytes up to a slash, and the rest.
unfoldable pub split_slash : List ℕ → List ℕ × List ℕ
split_slash [] = ([], [])
split_slash (c ∷ s) =
    let (e, rest) = split_slash s in if c == b'/' then ([], c ∷ s) else (c ∷ e, rest)

-- The first element, cut to `dirsiz` bytes, and the path behind it.
unfoldable pub skipelem : List ℕ → Option (List ℕ × List ℕ)
unfolding skip_slashes split_slash
skipelem path = elim (skip_slashes path) [
  | [] ↦ none
  | c ∷ s ↦ let (e, rest) = split_slash (c ∷ s) in some (take dirsiz e, skip_slashes rest)
]

-- The body of the loop of `namex` for an element and the path behind it, up to the next inode.
unfoldable pub path_step :
    (ℕ → FsM (Option (ℕ × List ℕ))) → ℕ → List ℕ × List ℕ → Bool → FsM (Option (ℕ × List ℕ))
unfolding ilock iput dirlookup
path_step next i step parent = do
  ilock i
  ip ← inode_at i
  if not (ip.body.type == t_dir) || ip.body.nlink == 0
      then iput i >> pure none
      else if parent && length step.1 == 0
      then pure (some (i, step.0))
      else do
        found ← dirlookup i step.0
        iput i
        elim found [ none ↦ pure none | some e ↦ next e.1 ]

-- The loop of `namex`, on fuel: an element takes one. The inode, and the last element for
-- `nameiparent`; `none` is the result NULL.
unfoldable pub walk_path : ℕ → ℕ → List ℕ → Bool → FsM (Option (ℕ × List ℕ))
unfolding skipelem iput path_step
walk_path zero i path parent = panic
walk_path (suc fuel) i path parent = elim (skipelem path) [
  | none ↦ if parent then iput i >> pure none else pure (some (i, []))
  | some step ↦ path_step (λ e. walk_path fuel e step.1 parent) i step parent
]

-- `namex`, with the inode of ROOTDEV that is ROOTINO, or `cwd`, the entry of the directory of the
-- process.
unfoldable pub namex : ℕ → List ℕ → Bool → FsM (Option (ℕ × List ℕ))
unfolding iget idup walk_path
namex cwd path parent = do
  i ← if starts_absolute path then iget 1 1 else idup cwd
  walk_path (suc (length path)) i path parent
  where
    starts_absolute : List ℕ → Bool
    starts_absolute [] = false
    starts_absolute (c ∷ s) = c == b'/'

unfoldable pub namei : ℕ → List ℕ → FsM (Option ℕ)
unfolding namex
namei cwd path = do
  found ← namex cwd path false
  pure (elim found [ none ↦ none | some e ↦ some e.0 ])

unfoldable pub nameiparent : ℕ → List ℕ → FsM (Option (ℕ × List ℕ))
unfolding namex
nameiparent cwd path = namex cwd path true
