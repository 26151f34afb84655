-- ===== src/Kernel/Fs/Content.antt =====
-- Reads and writes of the content of inodes, and directories, of xv6/kernel/fs.c. A name in a
-- directory is its bytes before the NUL, at most 14.
use ru_shell.Base.{
  Bool, List, Option, [], false, if◌then◌else◌, length, ltb, min, none, not, some, suc, take, true,
  zero, ℕ, ◌%◌, ◌*◌, ◌++◌, ◌+◌, ◌-◌, ◌/◌, ◌==◌, ◌||◌, ◌∷◌,
}
use ru_shell.Kernel.Proc.{wrap}
use ru_shell.Kernel.Exec.{gets, modify_state, pure, ◌>>=◌, ◌>>◌}
use ru_shell.Kernel.Fs.{FsM, Inode, bmap, bsize, maxfile, put}
use ru_shell.Kernel.Fs.Inodes.{iupdate}
pub mod Rounds
pub mod Stored

-- The bytes of a block that a round copies.
abbrev pub round_size : ℕ → ℕ → ℕ
round_size off left = min left (bsize - off % bsize)

abbrev pub bytes_of : (ℕ → ℕ) → ℕ → ℕ → List ℕ
bytes_of d i zero = []
bytes_of d i (suc n) = d i ∷ bytes_of d (i + 1) n

-- The loop of `readi` on fuel, with `left` bytes left: a round takes one. `copies` answers
-- either_copyout; `none` is the result -1.
unfoldable pub read_blocks : (ℕ → Bool) → ℕ → Inode → ℕ → ℕ → FsM (Option (List ℕ) × Inode)
unfolding bmap
read_blocks copies zero ip off left = pure (some [], ip)
read_blocks copies (suc fuel) ip off left =
    let m = round_size off left in
    if left == 0 then pure (some [], ip) else do
      (addr, ip') ← bmap ip (off / bsize)
      if addr == 0 then pure (some [], ip') else do
        part ← gets (λ fs. bytes_of (fs.bytes addr) (off % bsize) m)
        if not (copies off) then pure (none, ip') else do
          (rest, last) ← read_blocks copies fuel ip' (off + m) (left - m)
          pure (elim rest [ none ↦ none | some bs ↦ some (part ++ bs) ], last)

-- `readi`: the bytes that are handed out.
unfoldable pub readi : (ℕ → Bool) → Inode → ℕ → ℕ → FsM (Option (List ℕ) × Inode)
unfolding read_blocks
readi copies ip off n =
    let n' = if ltb ip.body.size (wrap (off + n)) then ip.body.size - off else n in
    if ltb ip.body.size off || ltb (wrap (off + n)) off
    then pure (some [], ip)
    else read_blocks copies n' ip off n'

abbrev pub store_bytes : (ℕ → ℕ) → ℕ → List ℕ → ℕ → ℕ
store_bytes d i [] = d
store_bytes d i (b ∷ bs) = store_bytes (put i b d) (i + 1) bs

-- The bytes before the first that cannot be read, and if that is all of them.
abbrev pub copied : List (Option ℕ) → List ℕ × Bool
copied [] = ([], true)
copied (none ∷ os) = ([], false)
copied (some b ∷ os) = let (part, whole) = copied os in (b ∷ part, whole)

abbrev pub drop : ℕ → List (Option ℕ) → List (Option ℕ)
drop zero os = os
drop (suc n) [] = []
drop (suc n) (o ∷ os) = drop n os

-- The loop of `writei` on fuel: the bytes that are left to write; `none` is a byte at which
-- either_copyin fails, behind which nothing is stored. The result is `tot`.
unfoldable pub write_blocks : ℕ → Inode → ℕ → List (Option ℕ) → FsM (ℕ × Inode)
unfolding bmap
write_blocks zero ip off bs = pure (0, ip)
write_blocks (suc fuel) ip off bs =
    let m = round_size off (length bs) in
    let (part, whole) = copied (take m bs) in
    if length bs == 0 then pure (0, ip) else do
      (addr, ip') ← bmap ip (off / bsize)
      if addr == 0 then pure (0, ip') else do
        modify_state (λ fs. record fs {
          bytes = put addr (store_bytes (fs.bytes addr) (off % bsize) part) fs.bytes;
        })
        if not whole
            then pure (0, ip')
            else do (tot, last) ← write_blocks fuel ip' (off + m) (drop m bs); pure (m + tot, last)

-- `writei`: `none` is the result -1.
unfoldable pub writei : Inode → ℕ → List (Option ℕ) → FsM (Option ℕ × Inode)
unfolding write_blocks iupdate
writei ip off bs =
    let n = length bs in
    if ltb ip.body.size off || ltb (wrap (off + n)) off
    then pure (none, ip)
    else if ltb (maxfile * bsize) (wrap (off + n))
    then pure (none, ip)
    else do
      (tot, ip') ← write_blocks n ip off bs
      let size = if ltb ip'.body.size (off + tot) then off + tot else ip'.body.size
      let last : Inode = record ip' { body = record ip'.body { size = size } }
      iupdate last
      pure (some tot, last)
