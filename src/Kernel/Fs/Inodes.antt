-- ===== src/Kernel/Fs/Inodes.antt =====
-- The inodes of xv6/kernel/fs.c and the table of those in use. An inode is its index in the table.
use ru_shell.Base.{
  Bool, List, Option, [], false, get_elem?, if◌then◌else◌, none, not, set, some, suc, true, zero, ℕ,
  ◌&&◌, ◌+◌, ◌-◌, ◌==◌, ◌^◌, ◌∷◌,
}
use ru_shell.Kernel.Proc.{wrap}
use ru_shell.Kernel.Exec.{gets, modify_state, panic, pure, ◌>>=◌, ◌>>◌}
use ru_shell.Kernel.Fs.{Dinode, FsM, Inode, bfree, ndirect, nindirect, put}

abbrev pub zero_dinode : Dinode
zero_dinode = record { type = 0; major = 0; minor = 0; nlink = 0; size = 0; addrs = λ _. 0 }

-- The entry at an index; there is none outside the table, which the code cannot point to.
abbrev pub inode_at : ℕ → FsM Inode
inode_at i fs = elim (get_elem? fs.itable i) [ none ↦ none | some ip ↦ some (ip, fs) ]

abbrev pub put_inode : ℕ → Inode → FsM Unit
put_inode i ip = modify_state (λ fs. record fs { itable = set fs.itable i ip })

abbrev pub put_dinode : ℕ → Dinode → FsM Unit
put_dinode inum d = modify_state (λ fs. record fs { dinodes = put inum d fs.dinodes })

abbrev pub is_inode : ℕ → ℕ → Inode → Bool
is_inode dev inum ip = not (ip.ref == 0) && ip.dev == dev && ip.inum == inum

-- The index of the first inode that passes a test.
unfoldable pub index_of : (Inode → Bool) → List Inode → Option ℕ
index_of test [] = none
index_of test (ip ∷ ips) =
    let rest = index_of test ips in
    if test ip then some 0 else elim rest [ none ↦ none | some i ↦ some (suc i) ]

-- An entry for an inode that no entry has.
abbrev pub recycled : ℕ → ℕ → Inode → Inode
recycled dev inum ip = record ip { dev = dev; inum = inum; ref = 1; valid = false }

unfoldable pub idup : ℕ → FsM ℕ
idup i = do ip ← inode_at i; put_inode i (record ip { ref = wrap (ip.ref + 1) }); pure i

unfoldable pub iget : ℕ → ℕ → FsM ℕ
unfolding index_of idup
iget dev inum = do
  table ← gets (λ fs. fs.itable)
  elim (index_of (is_inode dev inum) table) [
    | some i ↦ idup i
    | none ↦ elim (index_of (λ ip. ip.ref == 0) table) [
      | none ↦ panic
      | some i ↦ do ip ← inode_at i; put_inode i (recycled dev inum ip); pure i
    ]
  ]

-- The loop of `ialloc` from `inum` on, with `n` inodes left.
unfoldable pub free_inode : (ℕ → Dinode) → ℕ → ℕ → Option ℕ
free_inode dinodes inum zero = none
free_inode dinodes inum (suc n) =
    let rest = free_inode dinodes (inum + 1) n in
    if (dinodes inum).type == 0 then some inum else rest

-- `none` is the result NULL.
unfoldable pub ialloc : ℕ → ℕ → FsM (Option ℕ)
unfolding free_inode iget
ialloc dev type = do
  found ← gets (λ fs. free_inode fs.dinodes 1 (fs.sb.ninodes - 1))
  elim found [
    | none ↦ pure none
    | some inum ↦ do
      put_dinode inum (record zero_dinode { type = type })
      i ← iget dev inum
      pure (some i)
  ]

unfoldable pub iupdate : Inode → FsM Unit
iupdate ip = put_dinode ip.inum ip.body

-- `ilock`, behind the lock.
unfoldable pub ilock : ℕ → FsM Unit
ilock i = do
  ip ← inode_at i
  if ip.ref == 0 then panic else if ip.valid then pure tt else do
    body ← gets (λ fs. fs.dinodes ip.inum)
    put_inode i (record ip { body = body; valid = true })
    if body.type == 0 then panic else pure tt

-- The loop of `itrunc` over `n` blocks from a place on.
unfoldable pub free_blocks : (ℕ → ℕ) → ℕ → ℕ → FsM Unit
unfolding bfree
free_blocks addrs i zero = pure tt
free_blocks addrs i (suc n) =
    (if addrs i == 0 then pure tt else bfree (addrs i)) >> free_blocks addrs (i + 1) n

-- The inode without its content.
unfoldable pub itrunc : Inode → FsM Inode
unfolding free_blocks bfree iupdate
itrunc ip =
    let table = ip.body.addrs ndirect in
    let bare : Inode = record ip { body = record ip.body { addrs = λ _. 0; size = 0 } } in
    free_blocks ip.body.addrs 0 ndirect
    >> ((if table == 0
          then pure tt
          else gets (λ fs. fs.words table) >>= (λ a. free_blocks a 0 nindirect >> bfree table))
        >> (iupdate bare >> pure bare))

unfoldable pub ifree : ℕ → FsM Unit
ifree inum =
    modify_state
      (λ fs. record fs { dinodes = put inum (record (fs.dinodes inum) { type = 0 }) fs.dinodes })

unfoldable pub iput : ℕ → FsM Unit
unfolding itrunc ifree
iput i = do
  ip ← inode_at i
  let last = ip.ref == 1 && ip.valid && ip.body.nlink == 0
  bare ← if last then itrunc ip else pure ip
  put_inode i (record bare { valid = ip.valid && not last; ref = wrap (ip.ref + 2 ^ 32 - 1) })
  if last then ifree ip.inum else pure tt

-- The loop of `ireclaim` from `inum` on, with `n` inodes left.
unfoldable pub reclaim : ℕ → ℕ → ℕ → FsM Unit
unfolding iget ilock iput
reclaim dev inum zero = pure tt
reclaim dev inum (suc n) = do
  d ← gets (λ fs. fs.dinodes inum)
  (if not (d.type == 0) && d.nlink == 0
        then iget dev inum >>= (λ i. ilock i >> iput i)
        else pure tt)
      >> reclaim dev (inum + 1) n

unfoldable pub ireclaim : ℕ → FsM Unit
unfolding reclaim
ireclaim dev fs = reclaim dev 1 (fs.sb.ninodes - 1) fs
