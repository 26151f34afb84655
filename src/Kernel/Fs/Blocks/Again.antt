-- ===== src/Kernel/Fs/Blocks/Again.antt =====
-- What `bmap` of xv6/kernel/fs.c returns, and what a second call returns.
use ru_shell.Base.{
  Bool-cases, Option, ap, arith, false, inl, inr, ltb, ltb→lt, lt→ltb, none, refl, some, sym, true,
  ℕ, ◌-◌, ◌<◌, ◌==◌, ◌∙◌, ◌≡◌, ◌⊎◌,
}
use ru_shell.Kernel.Exec.{◌>>=◌}
use ru_shell.Kernel.Fs.{
  Dinode, Fs, Inode, addr_or_new, bmap, maxfile, ndirect, nindirect, put, set_addr, word_or_new,
}
use ru_shell.Kernel.Fs.Blocks.{
  IsFull, addr_or_new-again, addr_or_new-cases, later, linked, linked-again, put_here, resized,
  set_addr-again, taken, word_or_new-again, word_or_new-cases,
}

-- The two ends of `bmap` in a file system: the disk is full, or the inode has the block, which a
-- second call finds without a change, whatever the size and the content of blocks are then; if it
-- is a new one, it was free and is in use.
unfoldable pub BmapEnd : Inode → ℕ → Fs → Option ((ℕ × Inode) × Fs) → Type 0
BmapEnd ip bn fs none = ⊥
BmapEnd ip bn fs (some ((a, ip'), fs')) =
    ((a ≡ 0) × IsFull fs')
    ⊎ (((size : ℕ) (content : ℕ → ℕ → ℕ) (inodes : ℕ → Dinode)
          → bmap (resized size ip') bn (later content inodes fs')
            ≡ some ((a, resized size ip'), later content inodes fs'))
        × ((a == 0) ≡ false)
        × (((ip' ≡ ip) × (fs' ≡ fs)) ⊎ ((fs.used a ≡ false) × (fs'.used a ≡ true))))

bmap_direct : (ip : Inode) (bn : ℕ) (fs : Fs) → bn < ndirect → bmap ip bn fs ≡ addr_or_new ip bn fs
unfolding bmap
bmap_direct ip bn fs h = rw (lt→ltb bn ndirect h, bmap) refl

-- `bmap` in a block of the indirect block.
module _ (ip ip' : Inode) (bn table : ℕ) (fs fs' : Fs) (past : ltb bn ndirect ≡ false)
    (within : ltb (bn - ndirect) nindirect ≡ true) where
  bmap_no_table :
      addr_or_new ip ndirect fs ≡ some ((0, ip'), fs') → bmap ip bn fs ≡ some ((0, ip'), fs')
  unfolding bmap
  bmap_no_table e = rw (past, within, bmap, ◌>>=◌, e) refl

  bmap_table :
      (addr : ℕ) (last : Fs)
      → addr_or_new ip ndirect fs ≡ some ((table, ip'), fs')
      → (table == 0) ≡ false
      → word_or_new table (bn - ndirect) fs' ≡ some (addr, last)
      → bmap ip bn fs ≡ some ((addr, ip'), last)
  unfolding bmap
  bmap_table addr last e nonzero w = rw (past, within, bmap, ◌>>=◌, e, nonzero, w) refl

bmap_direct-BmapEnd :
    (ip : Inode) (bn : ℕ) (fs : Fs)
    → bn < ndirect
    → fs.used 0 ≡ true
    → BmapEnd ip bn fs (bmap ip bn fs)
unfolding BmapEnd
bmap_direct-BmapEnd ip bn fs h boot = elim (addr_or_new-cases ip bn fs boot) [
  | inl (e, full) ↦ rw (bmap_direct ip bn fs h, e) (inl (refl, full))
  | inr (inl w) ↦
      let found = addr_or_new-again ip bn fs w in
      rw (bmap_direct ip bn fs h, found)
        (inr (
          λ size content inodes.
              bmap_direct (resized size ip) bn (later content inodes fs) h
              ∙ addr_or_new-again (resized size ip) bn (later content inodes fs) w,
          w,
          inl (refl, refl),
        ))
  | inr (inr (b, e, free, nonzero)) ↦
      rw (bmap_direct ip bn fs h, e)
        (inr (
          λ size content inodes.
              let any = later content inodes (taken b fs) in
              bmap_direct (resized size (set_addr ip bn b)) bn any h
              ∙ set_addr-again ip bn b size any nonzero,
          nonzero,
          inr (free, put_here b true fs.used),
        ))
]

-- A file system that is the old one or one block further.
Step : ℕ → Fs → Fs → Type 0
Step b fs fs' = (fs' ≡ fs) ⊎ (fs' ≡ taken b fs)

step-free : (t b : ℕ) (fs fs' : Fs) → Step t fs fs' → fs'.used b ≡ false → fs.used b ≡ false
unfolding Step
step-free t b fs fs' (inl e) h = ap (λ s. s.used b) (sym e) ∙ h
step-free t b fs fs' (inr e) h =
    let same : put t true fs.used b ≡ false = ap (λ s. s.used b) (sym e) ∙ h in ground (arith, same)

step-used : (t b : ℕ) (fs fs' : Fs) → Step t fs fs' → fs.used b ≡ true → fs'.used b ≡ true
unfolding Step
step-used t b fs fs' (inl e) h = ap (λ s. s.used b) e ∙ h
step-used t b fs fs' (inr e) h = ap (λ s. s.used b) e ∙ ground (arith, h)

-- A new indirect block has no entries.
new_table-empty : (t i : ℕ) (fs fs' : Fs) → fs' ≡ taken t fs → (fs'.words t i == 0) ≡ true
new_table-empty t i fs fs' e =
    let none_yet : fs'.words t i ≡ 0 =
      ap (λ s. s.words t i) e ∙ ap (λ f. f i) (put_here t (λ _. 0) fs.words) in
    rw none_yet refl

-- The second half of `bmap`, behind the indirect block.
module _ (ip ip' : Inode) (bn table : ℕ) (fs fs' : Fs) (past : ltb bn ndirect ≡ false)
    (within : ltb (bn - ndirect) nindirect ≡ true)
    (found : addr_or_new ip ndirect fs ≡ some ((table, ip'), fs')) (nonzero : (table == 0) ≡ false)
    (again : (size : ℕ) (any : Fs)
      → addr_or_new (resized size ip') ndirect any ≡ some ((table, resized size ip'), any))
    (old : ((ip' ≡ ip) × (fs' ≡ fs)) ⊎ (fs' ≡ taken table fs)) where
  only_old : (fs'.words table (bn - ndirect) == 0) ≡ false → (ip' ≡ ip) × (fs' ≡ fs)
  only_old w = elim old [
    | inl same ↦ same
    | inr new ↦
        let empty = new_table-empty table (bn - ndirect) fs fs' new in absurd (cc (w, empty))
  ]

  step : Step table fs fs'
  unfolding Step
  step = elim old [ inl (_, e) ↦ inl e | inr e ↦ inr e ]

  word-BmapEnd : fs.used 0 ≡ true → BmapEnd ip bn fs (bmap ip bn fs)
  unfolding BmapEnd
  word-BmapEnd boot =
      elim (word_or_new-cases table (bn - ndirect) fs' (step-used table 0 fs fs' step boot)) [
        | inl (e, full) ↦
            rw (bmap_table ip ip' bn table fs fs' past within 0 fs' found nonzero e)
              (inl (refl, full))
        | inr (inl w) ↦
            let e = word_or_new-again table (bn - ndirect) fs' w in
            rw
              (bmap_table ip ip' bn table fs fs' past within (fs'.words table (bn - ndirect)) fs'
                found nonzero e)
              (inr (
                λ size content inodes.
                    let any = later content inodes fs' in
                    bmap_table (resized size ip') (resized size ip') bn table any any past within
                      (fs'.words table (bn - ndirect)) any (again size any) nonzero
                      (word_or_new-again table (bn - ndirect) any w),
                w,
                inl (only_old w),
              ))
        | inr (inr (b, e, free, some_block)) ↦
            let last = linked table (bn - ndirect) b (taken b fs') in
            rw (bmap_table ip ip' bn table fs fs' past within b last found nonzero e) (
              inr (
                λ size content inodes.
                    let any = later content inodes last in
                    bmap_table (resized size ip') (resized size ip') bn table any any past within b
                      any (again size any) nonzero
                      (linked-again table (bn - ndirect) b (taken b fs') content inodes some_block),
                some_block,
                inr (step-free table b fs fs' step free, put_here b true fs'.used),
              ))
      ]

no_table-BmapEnd :
    (ip : Inode) (bn : ℕ) (fs : Fs)
    → ltb bn ndirect ≡ false
    → ltb (bn - ndirect) nindirect ≡ true
    → addr_or_new ip ndirect fs ≡ some ((0, ip), fs)
    → IsFull fs
    → BmapEnd ip bn fs (bmap ip bn fs)
unfolding BmapEnd
no_table-BmapEnd ip bn fs past within e full =
    rw (bmap_no_table ip ip bn 0 fs fs past within e) (inl (refl, full))

-- `bmap` inside the largest file does not panic where block 0, the boot block, is in use. It
-- returns 0 only with no block of the disk left free. Else it returns a block other than 0 that a
-- second call returns again, without any change, whatever the inode's size is then and whatever has
-- been written to data blocks and to the inodes on the disk; and either the first call has changed
-- nothing itself, or the block was free and is now in use.
pub bmap_again :
    (ip : Inode) (bn : ℕ) (fs : Fs)
    → bn < maxfile
    → fs.used 0 ≡ true
    → BmapEnd ip bn fs (bmap ip bn fs)
bmap_again ip bn fs h boot = elim (Bool-cases (ltb bn ndirect)) [
  | inl w ↦ bmap_direct-BmapEnd ip bn fs (ltb→lt bn ndirect w) boot
  | inr past ↦
      let within : ltb (bn - ndirect) nindirect ≡ true = ground (arith, h, past) in
      elim (addr_or_new-cases ip ndirect fs boot) [
        | inl (e, full) ↦ no_table-BmapEnd ip bn fs past within e full
        | inr (inl w) ↦
            word-BmapEnd ip ip bn (ip.body.addrs ndirect) fs fs past within
              (addr_or_new-again ip ndirect fs w) w
              (λ size any. addr_or_new-again (resized size ip) ndirect any w) (inl (refl, refl))
              boot
        | inr (inr (b, e, free, nonzero)) ↦
            word-BmapEnd ip (set_addr ip ndirect b) bn b fs (taken b fs) past within e nonzero
              (λ size any. set_addr-again ip ndirect b size any nonzero) (inr refl) boot
      ]
]
